-- ===== src/Shared/Order.antt =====
-- The order in which Go's `range` visits a map is not specified. A `RangeOrder` stands for the one
-- that a run takes: any rearrangement of the entries, chosen anew for each map.
use mathlib.Core.Path.{◌≡◌, refl, ◌∙◌, subst₂}
use mathlib.Core.List.{List, ◌∷◌, Permᴰ}
use native.Mathlib.Omega.{arith}
use ezlb.Shared.Eq.{Eq, ==_iff}
use ezlb.Shared.GoMap.{GoMap, lookup, HasDistinctKeys}

pub record RangeOrder : Type 1 where
  pub arrange : {A : Type 0} → List A → List A
  pub arrange-perm : {A : Type 0} (xs : List A) → Permᴰ xs (arrange xs)

module _ {K : Type 0} {V : Type 0} ⦃e : Eq K⦄ where
  lookup-swap :
      (a b : K × V) (l : GoMap K V)
      → HasDistinctKeys (a ∷ b ∷ l)
      → ((j : K) → lookup j (b ∷ a ∷ l) ≡ lookup j (a ∷ b ∷ l)) × HasDistinctKeys (b ∷ a ∷ l)
  unfolding lookup
  lookup-swap a b l h = (
    λ j. ground (arith, h.0, ==_iff a.0 j, ==_iff b.0 j, ==_iff b.0 a.0),
    (
      ground (arith, h.0, h.1.0, ==_iff a.0 b.0, ==_iff b.0 a.0),
      (ground (arith, h.0, ==_iff a.0 b.0, ==_iff b.0 a.0), h.1.1),
    ),
  )

  -- A rearrangement of a map with distinct keys is the same map.
  lookup-perm :
      {m n : GoMap K V}
      → Permᴰ m n
      → HasDistinctKeys m
      → ((j : K) → lookup j n ≡ lookup j m) × HasDistinctKeys n
  unfolding lookup
  lookup-perm Permᴰ.nil h = (λ j. refl, tt)
  lookup-perm (Permᴰ.cons {a} {b} p q) h =
      let (same, distinct) = lookup-perm q h.1 in
      (λ j. rw (same j, p), (rw (← p) (rw (same a.0) h.0), distinct))
  lookup-perm (Permᴰ.swap {a} {b} {l} p q) h =
      subst₂
        (λ x y.
          ((j : K) → lookup j (y ∷ x ∷ l) ≡ lookup j (a ∷ b ∷ l)) × HasDistinctKeys (y ∷ x ∷ l))
        p q (lookup-swap a b l h)
  lookup-perm (Permᴰ.trans p q) h =
      let (same, distinct) = lookup-perm p h in
      let (same', distinct') = lookup-perm q distinct in (λ j. same' j ∙ same j, distinct')

  module _ (o : RangeOrder) where
    pub lookup-arrange :
        (m : GoMap K V) → HasDistinctKeys m → (j : K) → lookup j (o.arrange m) ≡ lookup j m
    lookup-arrange m h = (lookup-perm (o.arrange-perm m) h).0

    pub HasDistinctKeys-arrange :
        (m : GoMap K V) → HasDistinctKeys m → HasDistinctKeys (o.arrange m)
    HasDistinctKeys-arrange m h = (lookup-perm (o.arrange-perm m) h).1
