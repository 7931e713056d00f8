-- ===== src/Shared/Decimal.antt =====
-- Go's `%d` (strconv.Itoa) of a natural number.
use Prim.Native.Nat.{ℕ, zero, suc, ◌/◌, ◌%◌}
use Prim.Native.String.{String, ◌++◌}
use mathlib.Core.Path.{◌≡◌, refl}
use mathlib.Core.Logic.{inl, inr}
use mathlib.Core.Bool.{false}
use native.Mathlib.Omega.{arith}
use text.Mathlib.TextLemmas.{append-eq-nil_iff}
use ezlb.Shared.Eq.{◌==◌, string_eq, ==_iff}
use ezlb.Shared.Tests.{if◌then◌else◌, nat_beq, Bool-cases}

abbrev digit : ℕ → String
digit zero = "0"
digit (suc zero) = "1"
digit (suc (suc zero)) = "2"
digit (suc (suc (suc zero))) = "3"
digit (suc (suc (suc (suc zero)))) = "4"
digit (suc (suc (suc (suc (suc zero))))) = "5"
digit (suc (suc (suc (suc (suc (suc zero)))))) = "6"
digit (suc (suc (suc (suc (suc (suc (suc zero))))))) = "7"
digit (suc (suc (suc (suc (suc (suc (suc (suc zero)))))))) = "8"
digit (suc (suc (suc (suc (suc (suc (suc (suc (suc n))))))))) = "9"

-- One digit a round; a number has fewer digits than its value, which is the fuel.
emit : ℕ → ℕ → String → String
emit zero n out = out
emit (suc fuel) n out =
    let rest = emit fuel (n / 10) (digit (n % 10) ++ out) in if nat_beq n 0 then out else rest

unfoldable pub itoa : ℕ → String
unfolding emit
itoa n = if nat_beq n 0 then "0" else emit n n ""

itoa-8080 : itoa 8080 ≡ "8080"
unfolding itoa
itoa-8080 = refl

digit-nonempty : (n : ℕ) → (digit n == "") ≡ false
digit-nonempty zero = refl
digit-nonempty (suc zero) = refl
digit-nonempty (suc (suc zero)) = refl
digit-nonempty (suc (suc (suc zero))) = refl
digit-nonempty (suc (suc (suc (suc zero)))) = refl
digit-nonempty (suc (suc (suc (suc (suc zero))))) = refl
digit-nonempty (suc (suc (suc (suc (suc (suc zero)))))) = refl
digit-nonempty (suc (suc (suc (suc (suc (suc (suc zero))))))) = refl
digit-nonempty (suc (suc (suc (suc (suc (suc (suc (suc zero)))))))) = refl
digit-nonempty (suc (suc (suc (suc (suc (suc (suc (suc (suc n))))))))) = refl

append-nonempty : (s t : String) → (s == "") ≡ false → (s ++ t == "") ≡ false
append-nonempty s t full = elim (Bool-cases (s ++ t == "")) [
  | inl empty ↦ ground (
    arith,
    full,
    ==_iff {A = String} s "",
    (append-eq-nil_iff {p = s} {q = t}).0 ((==_iff {A = String} (s ++ t) "").0 empty),
  )
  | inr done ↦ done
]

emit-nonempty : (fuel n : ℕ) (out : String) → (out == "") ≡ false → (emit fuel n out == "") ≡ false
unfolding emit
emit-nonempty zero n out full = full
emit-nonempty (suc fuel) n out full = elim (Bool-cases (nat_beq n 0)) [
  | inl done ↦ rw done full
  | inr more ↦ rw more (
      emit-nonempty fuel (n / 10) (digit (n % 10) ++ out)
        (append-nonempty (digit (n % 10)) out (digit-nonempty (n % 10))))
]

pub itoa-nonempty : (n : ℕ) → (itoa n == "") ≡ false
unfolding itoa emit
itoa-nonempty zero = refl
itoa-nonempty (suc n) =
    let more : nat_beq (suc n) 0 ≡ false = ground arith in
    rw more (
      emit-nonempty n (suc n / 10) (digit (suc n % 10) ++ "")
        (append-nonempty (digit (suc n % 10)) "" (digit-nonempty (suc n % 10))))
