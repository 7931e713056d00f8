-- ===== src/Shared/Int.antt =====
-- Go's `int`, and its conversion to `uint16`. Values are mathematical integers: the code adds no
-- two of them, so no overflow arises.
use Prim.Native.Nat.{ℕ, suc, ◌-◌, ◌%◌}
use mathlib.Core.Path.{◌≡◌}
use mathlib.Core.Logic.{◌↔◌}
use mathlib.Core.Bool.{Bool, true, false}
use native.Mathlib.Omega.{arith}
use ezlb.Shared.Tests.{nat_beq, ltb}
use ezlb.Shared.Eq.{Eq}

-- `negsuc n` is -(n + 1).
pub data ℤ : Type 0 where
  pos : ℕ → ℤ
  negsuc : ℕ → ℤ

abbrev pub int_beq : ℤ → ℤ → Bool
int_beq (pos a) (pos b) = nat_beq a b
int_beq (pos a) (negsuc b) = false
int_beq (negsuc a) (pos b) = false
int_beq (negsuc a) (negsuc b) = nat_beq a b

pub int_beq_iff : (a b : ℤ) → (int_beq a b ≡ true) ↔ (a ≡ b)
int_beq_iff a b = ground arith

instance abbrev pub int_eq : Eq ℤ
int_eq = record { same = int_beq; same_iff = int_beq_iff }

-- x <= 0
abbrev pub is_nonpositive : ℤ → Bool
is_nonpositive (pos n) = nat_beq n 0
is_nonpositive (negsuc n) = true

-- x < n, for a natural number n
abbrev pub is_below : ℤ → ℕ → Bool
is_below (pos m) n = ltb m n
is_below (negsuc m) n = true

-- n < x, for a natural number n
abbrev pub is_above : ℤ → ℕ → Bool
is_above (pos m) n = ltb n m
is_above (negsuc m) n = false

abbrev pub u16_mod : ℕ
u16_mod = 65536

-- uint16(x): the low sixteen bits of the two's complement.
unfoldable pub to_uint16 : ℤ → ℕ
to_uint16 (pos n) = n % u16_mod
to_uint16 (negsuc n) = (u16_mod - suc (n % u16_mod)) % u16_mod
