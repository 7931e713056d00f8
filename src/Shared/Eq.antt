-- ===== src/Shared/Eq.antt =====
-- Go's `==` on comparable types, as an interface with an instance for each type that is compared.
use Prim.Native.Nat.{ℕ}
use Prim.Native.String.{String}
use text.Mathlib.Text.{◌==◌ as str_eq}
use text.Mathlib.TextEquality.{eq_iff}
use mathlib.Core.Path.{◌≡◌, refl}
use mathlib.Core.List.{List, [], ◌∷◌}
use native.Mathlib.Omega.{arith}
use mathlib.Core.Logic.{◌↔◌}
use mathlib.Core.Bool.{Bool, true, false, ◌&&◌}
use ezlb.Shared.Tests.{nat_beq, nat_beq_iff}

pub record Eq {ℓ} (A : Type ℓ) : Type ℓ where
  pub same : A → A → Bool
  pub same_iff : (x y : A) → (same x y ≡ true) ↔ (x ≡ y)

infix 50 ◌==◌
abbrev pub ◌==◌ {ℓ} : {A : Type ℓ} ⦃eq : Eq A⦄ → A → A → Bool
◌==◌ ⦃eq⦄ x y = eq.same x y

-- `==` holds of equal values alone.
pub ==_iff {ℓ} : {A : Type ℓ} ⦃eq : Eq A⦄ (x y : A) → ((x == y) ≡ true) ↔ (x ≡ y)
==_iff ⦃eq⦄ x y = eq.same_iff x y

instance abbrev pub string_eq : Eq String
string_eq = record { same = str_eq; same_iff = eq_iff }

instance abbrev pub nat_eq : Eq ℕ
nat_eq = record { same = nat_beq; same_iff = nat_beq_iff }

module _ {ℓ} {A : Type ℓ} ⦃eq : Eq A⦄ where
  abbrev pub list_same : List A → List A → Bool
  list_same [] [] = true
  list_same [] (y ∷ ys) = false
  list_same (x ∷ xs) [] = false
  list_same (x ∷ xs) (y ∷ ys) = x == y && list_same xs ys

  pub list_same_iff : (xs ys : List A) → (list_same xs ys ≡ true) ↔ (xs ≡ ys)
  list_same_iff [] [] = (λ p. refl, λ p. refl)
  list_same_iff [] (y ∷ ys) = (λ p. cc, λ p. cc)
  list_same_iff (x ∷ xs) [] = (λ p. cc, λ p. cc)
  list_same_iff (x ∷ xs) (y ∷ ys) = ground (arith, ==_iff x y, list_same_iff xs ys)

instance abbrev pub list_eq {ℓ} : {A : Type ℓ} ⦃eq : Eq A⦄ → Eq (List A)
list_eq = record { same = list_same; same_iff = list_same_iff }

abbrev pub pair_same {ℓ} : {A B : Type ℓ} ⦃ea : Eq A⦄ ⦃eb : Eq B⦄ → A × B → A × B → Bool
pair_same (a, b) (c, d) = a == c && b == d

pub pair_same_iff {ℓ} :
    {A B : Type ℓ} ⦃ea : Eq A⦄ ⦃eb : Eq B⦄ (x y : A × B) → (pair_same x y ≡ true) ↔ (x ≡ y)
pair_same_iff (a, b) (c, d) = ground (arith, ==_iff a c, ==_iff b d)

instance abbrev pub pair_eq {ℓ} : {A B : Type ℓ} ⦃ea : Eq A⦄ ⦃eb : Eq B⦄ → Eq (A × B)
pair_eq = record { same = pair_same; same_iff = pair_same_iff }
