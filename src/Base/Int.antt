-- ===== src/Base/Int.antt =====
-- Signed integers over the native numbers, with the bounds of Go's 64-bit `int`.
use Prim.Native.Nat.{ℕ, suc, ◌+◌, ◌-◌, ◌^◌, ◌<◌}
use mathlib.Core.Path.{◌≡◌}
use mathlib.Core.Logic.{◌↔◌}
use mathlib.Core.Bool.{Bool, true}
use native.Mathlib.Omega.{arith}
use sprout_go.Base.Tests.{ltb, ◌==◌, if◌then◌else◌}

-- `negsuc n` is -(n + 1).
pub data ℤ : Type 0 where
  pos : ℕ → ℤ
  negsuc : ℕ → ℤ

abbrev pub pos_part : ℤ → ℕ
pos_part (pos n) = n
pos_part (negsuc n) = 0

abbrev pub neg_part : ℤ → ℕ
neg_part (pos n) = 0
neg_part (negsuc n) = suc n

infix 50 ◌<ℤ◌ ◌==ℤ◌
abbrev pub ◌<ℤ◌ : ℤ → ℤ → Type 0
a <ℤ b = pos_part a + neg_part b < pos_part b + neg_part a

abbrev pub ltb_ℤ : ℤ → ℤ → Bool
ltb_ℤ a b = ltb (pos_part a + neg_part b) (pos_part b + neg_part a)

abbrev pub ◌==ℤ◌ : ℤ → ℤ → Bool
a ==ℤ b = pos_part a + neg_part b == pos_part b + neg_part a

pub ==ℤ_iff : (a b : ℤ) → ((a ==ℤ b) ≡ true) ↔ (a ≡ b)
==ℤ_iff a b = ground arith

-- The bounds of a 64-bit `int`.
abbrev pub int_bound : ℕ
int_bound = 2 ^ 63

abbrev pub FitsInt : ℤ → Type 0
FitsInt (pos n) = n < int_bound
FitsInt (negsuc n) = n < int_bound

-- `i++` on a 64-bit `int`, wrap-around included.
unfoldable pub succ_int : ℤ → ℤ
succ_int (pos n) = if n + 1 == int_bound then negsuc (int_bound - 1) else pos (n + 1)
succ_int (negsuc n) = if n == 0 then pos 0 else negsuc (n - 1)
