-- ===== src/Shared/GoMap.antt =====
-- Go's `map`, as an association list. Operations are pointwise on `lookup`; a map whose keys are
-- distinct (`HasDistinctKeys`) is what `range` visits once for each key.
use mathlib.Core.Path.{◌≡◌, refl, ap, ◌∙◌}
use mathlib.Core.Logic.{inl, inr}
use mathlib.Core.Option.{Option, none, some}
use mathlib.Core.List.{List, [], ◌∷◌}
use native.Mathlib.Omega.{arith}
use ezlb.Shared.Tests.{if◌then◌else◌, Bool-cases}
use ezlb.Shared.Eq.{Eq, ◌==◌, ==_iff}

abbrev pub GoMap {ℓ κ} : Type ℓ → Type κ → Type (ℓ ⊔ κ)
GoMap K V = List (K × V)

module _ {ℓ κ} {K : Type ℓ} {V : Type κ} ⦃e : Eq K⦄ where
  -- v, ok := m[k]
  unfoldable pub lookup : K → GoMap K V → Option V
  lookup key [] = none
  lookup key ((other, v) ∷ rest) = if other == key then some v else lookup key rest

  -- m[k] = v
  unfoldable pub insert : K → V → GoMap K V → GoMap K V
  insert key v [] = (key, v) ∷ []
  insert key v ((other, old) ∷ rest) =
      if other == key then (other, v) ∷ rest else (other, old) ∷ insert key v rest

  -- delete(m, k)
  unfoldable pub delete : K → GoMap K V → GoMap K V
  delete k [] = []
  delete k ((j, w) ∷ m) = let rest = delete k m in if j == k then rest else (j, w) ∷ rest

  abbrev pub HasDistinctKeys : GoMap K V → Type κ
  HasDistinctKeys [] = Unit
  HasDistinctKeys ((k, v) ∷ m) = (lookup k m ≡ none) × HasDistinctKeys m

  pub lookup-insert :
      (k j : K) (v : V) (m : GoMap K V)
      → lookup j (insert k v m) ≡ (if k == j then some v else lookup j m)
  unfolding lookup insert
  lookup-insert key j v [] = refl
  lookup-insert key j v ((other, old) ∷ rest) =
      ground (arith, lookup-insert key j v rest, ==_iff other key, ==_iff other j, ==_iff key j)

  pub lookup-delete :
      (k j : K) (m : GoMap K V) → lookup j (delete k m) ≡ (if k == j then none else lookup j m)
  unfolding lookup delete
  lookup-delete k j [] = ground arith
  lookup-delete k j ((i, w) ∷ m) =
      ground (arith, ==_iff k j, ==_iff i k, ==_iff i j, lookup-delete k j m)

  pub HasDistinctKeys-insert :
      (k : K) (v : V) (m : GoMap K V) → HasDistinctKeys m → HasDistinctKeys (insert k v m)
  unfolding insert lookup
  HasDistinctKeys-insert k v [] h = (refl, tt)
  HasDistinctKeys-insert k v ((j, w) ∷ m) h = elim (Bool-cases (j == k)) [
    | inl same ↦ rw same h
    | inr other ↦ rw other (
      rw (lookup-insert k j v m) (ground (arith, ==_iff k j, ==_iff j k)),
      HasDistinctKeys-insert k v m h.1,
    )
  ]

  pub HasDistinctKeys-delete :
      (k : K) (m : GoMap K V) → HasDistinctKeys m → HasDistinctKeys (delete k m)
  unfolding delete lookup
  HasDistinctKeys-delete k [] h = tt
  HasDistinctKeys-delete k ((j, w) ∷ m) h = elim (Bool-cases (j == k)) [
    | inl same ↦ rw same (HasDistinctKeys-delete k m h.1)
    | inr other ↦ rw other (
      rw (lookup-delete k j m) (ground (arith, ==_iff k j, ==_iff j k)),
      HasDistinctKeys-delete k m h.1,
    )
  ]

  -- Writing what is there already changes nothing, and the last of two writes stands.
  pub insert_same : (k : K) (v : V) (m : GoMap K V) → lookup k m ≡ some v → insert k v m ≡ m
  unfolding insert lookup
  insert_same k v [] p = absurd (cc)
  insert_same k v ((j, w) ∷ m) p = elim (Bool-cases (j == k)) [
    | inl same ↦ rw same (ground (arith, p, same))
    | inr other ↦ rw other (ap (λ r. (j, w) ∷ r) (insert_same k v m (ground (arith, p, other))))
  ]

  pub insert-insert : (k : K) (v w : V) (m : GoMap K V) → insert k v (insert k w m) ≡ insert k v m
  unfolding insert
  insert-insert k v w [] = ground (arith, ==_iff k k)
  insert-insert k v w ((j, u) ∷ m) = elim (Bool-cases (j == k)) [
    | inl same ↦ rw same (rw same refl)
    | inr other ↦ rw other (rw other (ap (λ r. (j, u) ∷ r) (insert-insert k v w m)))
  ]

  pub lookup-insert_self : (k : K) (v : V) (m : GoMap K V) → lookup k (insert k v m) ≡ some v
  lookup-insert_self k v m = lookup-insert k k v m ∙ ground (arith, ==_iff k k)

  pub lookup-nil : (k : K) → lookup k [] ≡ none
  unfolding lookup
  lookup-nil k = refl
