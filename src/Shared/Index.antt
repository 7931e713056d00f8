-- ===== src/Shared/Index.antt =====
-- Maps built from a slice by a loop `m[key(v)] = v`, and the values of a map as `range` yields them.
use mathlib.Core.Path.{◌≡◌, ◌∙◌}
use mathlib.Core.Logic.{inl, inr}
use mathlib.Core.Bool.{Bool}
use mathlib.Core.Option.{Option, none, some}
use mathlib.Core.List.{List, [], ◌∷◌}
use native.Mathlib.Omega.{arith}
use ezlb.Shared.Tests.{if◌then◌else◌, Bool-cases}
use ezlb.Shared.Eq.{Eq, ==_iff}
use ezlb.Shared.GoMap.{
  GoMap, lookup, insert, HasDistinctKeys, lookup-insert, HasDistinctKeys-insert,
}

-- The values of a map, in the order of its entries.
unfoldable pub values {ℓ κ} : {K : Type ℓ} {V : Type κ} → GoMap K V → List V
values [] = []
values ((k, v) ∷ m) = v ∷ values m

abbrev pub or_else {ℓ} : {A : Type ℓ} → Option A → Option A → Option A
or_else (some a) b = some a
or_else none b = b

module _ {ℓ κ} {K : Type ℓ} {V : Type κ} ⦃e : Eq K⦄ where
  -- for _, v := range vs { if keep(key(v)) { m[key(v)] = v } }
  unfoldable pub index_where : (K → Bool) → (V → K) → List V → GoMap K V → GoMap K V
  index_where keep key [] m = m
  index_where keep key (v ∷ vs) m =
      index_where keep key vs (if keep (key v) then insert (key v) v m else m)

  -- Every value stands under its own key.
  abbrev pub IsKeyed : (V → K) → GoMap K V → Type (ℓ ⊔ κ)
  IsKeyed key m = (j : K) (v : V) → lookup j m ≡ some v → key v ≡ j

  pub IsKeyed-insert :
      (key : V → K) (v : V) (m : GoMap K V) → IsKeyed key m → IsKeyed key (insert (key v) v m)
  IsKeyed-insert key v m h j w p =
      ground (arith, lookup-insert (key v) j v m, p, ==_iff (key v) j, h j w)

  pub index_where-IsKeyed :
      (keep : K → Bool) (key : V → K) (vs : List V) (m : GoMap K V)
      → IsKeyed key m
      → IsKeyed key (index_where keep key vs m)
  unfolding index_where
  index_where-IsKeyed keep key [] m h = h
  index_where-IsKeyed keep key (v ∷ vs) m h =
      index_where-IsKeyed keep key vs _ (elim (Bool-cases (keep (key v))) [
        | inl t ↦ rw t (IsKeyed-insert key v m h)
        | inr f ↦ rw f h
      ])

  pub index_where-HasDistinctKeys :
      (keep : K → Bool) (key : V → K) (vs : List V) (m : GoMap K V)
      → HasDistinctKeys m
      → HasDistinctKeys (index_where keep key vs m)
  unfolding index_where
  index_where-HasDistinctKeys keep key [] m h = h
  index_where-HasDistinctKeys keep key (v ∷ vs) m h =
      index_where-HasDistinctKeys keep key vs _ (elim (Bool-cases (keep (key v))) [
        | inl t ↦ rw t (HasDistinctKeys-insert (key v) v m h)
        | inr f ↦ rw f h
      ])

  pub IsKeyed-tail :
      (key : V → K) (k : K) (v : V) (m : GoMap K V)
      → HasDistinctKeys ((k, v) ∷ m)
      → IsKeyed key ((k, v) ∷ m)
      → IsKeyed key m
  unfolding lookup
  IsKeyed-tail key k v m d h j w p = h j w (ground (arith, d.0, p, ==_iff k j))

  -- Reading all values of a map and indexing them again gives the map, where `keep` allows it.
  pub lookup-index_where-values :
      (keep : K → Bool) (key : V → K) (m acc : GoMap K V) (j : K)
      → HasDistinctKeys m
      → IsKeyed key m
      → lookup j (index_where keep key (values m) acc)
        ≡ (if keep j then or_else (lookup j m) (lookup j acc) else lookup j acc)
  unfolding index_where values lookup
  lookup-index_where-values keep key [] acc j d h = ground arith
  lookup-index_where-values keep key ((k, v) ∷ m) acc j d h =
      let own : key v ≡ k = h k v (ground (arith, ==_iff k k)) in
      let acc' = if keep (key v) then insert (key v) v acc else acc in
      let ih = lookup-index_where-values keep key m acc' j d.1 (IsKeyed-tail key k v m d h) in
      ih ∙ ground (arith, own, d.0, lookup-insert (key v) j v acc, ==_iff k j)
