-- ===== src/Base/Int.antt =====
-- The signed integers of C, far from overflow.
use Prim.Native.Nat.{ℕ, suc, ◌+◌, ◌-◌, ◌*◌, ◌/◌, ◌%◌, ◌^◌, ◌≤◌}
use mathlib.Core.Path.{◌≡◌}
use native.Mathlib.Omega.{arith}
use mathlib.Core.Bool.{Bool, false}
use libpuppy.Base.Tests.{leb, ltb, ◌==◌, if◌then◌else◌}

-- `negsuc n` is -(n + 1).
pub data ℤ : Type 0 where
  pos : ℕ → ℤ
  negsuc : ℕ → ℤ

abbrev pub pos_part : ℤ → ℕ
pos_part (pos n) = n
pos_part (negsuc n) = 0

abbrev pub neg_part : ℤ → ℕ
neg_part (pos n) = 0
neg_part (negsuc n) = suc n

-- a - b, as an integer.
abbrev pub sub_ℕ : ℕ → ℕ → ℤ
sub_ℕ a b = if leb b a then pos (a - b) else negsuc (b - a - 1)

infixl 65 ◌+ℤ◌ ◌-ℤ◌
abbrev pub ◌+ℤ◌ : ℤ → ℤ → ℤ
a +ℤ b = sub_ℕ (pos_part a + pos_part b) (neg_part a + neg_part b)

abbrev pub ◌-ℤ◌ : ℤ → ℤ → ℤ
a -ℤ b = sub_ℕ (pos_part a + neg_part b) (neg_part a + pos_part b)

-- The integer part of `z * num / den`, towards zero, as a conversion to `int` takes it.
abbrev pub scaled : ℤ → ℕ → ℕ → ℤ
scaled (pos n) num den = pos (n * num / den)
scaled (negsuc n) num den = sub_ℕ 0 (suc n * num / den)

abbrev pub is_int : ℤ → ℕ → Bool
is_int (pos n) k = n == k
is_int (negsuc n) k = false

-- The conversions of an `int` to unsigned types.
abbrev pub u16_of : ℤ → ℕ
u16_of (pos n) = n % 2 ^ 16
u16_of (negsuc n) = 2 ^ 16 - 1 - n % 2 ^ 16

-- The low 32 bits of a number, as a conversion to `int` takes them.
abbrev pub low_bits : ℤ → ℕ
low_bits (pos n) = n % 2 ^ 32
low_bits (negsuc n) = 2 ^ 32 - 1 - n % 2 ^ 32

-- The conversion of a wider integer to `int`, which wraps.
unfoldable pub int_of : ℤ → ℤ
int_of z = if ltb (low_bits z) (2 ^ 31) then pos (low_bits z) else negsuc (2 ^ 32 - 1 - low_bits z)

pub sub_ℕ-pos : (a b : ℕ) → b ≤ a → sub_ℕ (a + 0) (0 + b) ≡ pos (a - b)
sub_ℕ-pos a b h = ground arith
