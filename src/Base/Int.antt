-- ===== src/Base/Int.antt =====
-- Signed integers over the native numbers, their `s32` bit patterns, and the error codes of the
-- kernel's return values.
use Prim.Native.Nat.{ℕ, zero, suc, ◌-◌, ◌%◌, ◌^◌, ◌<◌}
use mathlib.Core.Path.{◌≡◌}
use mathlib.Core.Bool.{Bool, true, false}
use native.Mathlib.Nat.{mod-lt, one-le-pow}
use native.Mathlib.Omega.{arith}
use lkm_char_dev.Base.Tests.{if◌then◌else◌, ltb}

-- `negsuc n` is -(n + 1).
pub data ℤ : Type 0 where
  pos : ℕ → ℤ
  negsuc : ℕ → ℤ

-- The number -n.
abbrev pub neg : ℕ → ℤ
neg zero = pos 0
neg (suc n) = negsuc n

abbrev pub is_neg : ℤ → Bool
is_neg (pos n) = false
is_neg (negsuc n) = true

abbrev pub is_zero : ℤ → Bool
is_zero (pos zero) = true
is_zero (pos (suc n)) = false
is_zero (negsuc n) = false

abbrev pub is_minus_one : ℤ → Bool
is_minus_one (pos n) = false
is_minus_one (negsuc zero) = true
is_minus_one (negsuc (suc n)) = false

-- The two's complement bit pattern of a number in `w` bits, which a cast keeps.
abbrev pub bits : ℕ → ℤ → ℕ
bits w (pos n) = n % 2 ^ w
bits w (negsuc n) = 2 ^ w - 1 - n % 2 ^ w

-- The number that a 32-bit pattern stands for as an `s32`.
abbrev pub signed32 : ℕ → ℤ
signed32 b = if ltb b (2 ^ 31) then pos b else negsuc (2 ^ 32 - 1 - b)

-- What an `s32` can hold.
abbrev pub FitsS32 : ℤ → Type 0
FitsS32 (pos n) = n < 2 ^ 31
FitsS32 (negsuc n) = n < 2 ^ 31

pub signed32-bits : (z : ℤ) → FitsS32 z → signed32 (bits 32 z) ≡ z
signed32-bits (pos n) h = ground arith
signed32-bits (negsuc n) h = ground arith

pub bits-lt : (w : ℕ) (z : ℤ) → bits w z < 2 ^ w
bits-lt w (pos n) = mod-lt n (one-le-pow w 2 (omega arith))
bits-lt w (negsuc n) = omega (arith, one-le-pow w 2)
