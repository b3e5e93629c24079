-- ===== src/Crc16/Reference.antt =====
-- The CRC-16 with the reflected polynomial 0xa001, bit by bit: the definition that the table of
-- crc16.c tabulates.
use libpuppy.Base.{ℕ, zero, suc, ◌*◌, ◌/◌, ◌%◌, ◌^◌, ◌<◌, ◌≡◌, refl, ap, ◌∙◌, sym}
use libpuppy.Base.{bit_xor, arith, List, [], ◌∷◌, if◌then◌else◌, ◌==◌, ◌⊎◌, All}
use libpuppy.Base.Bits.Xor.{
  bit_xor-half, bit_xor-parity, bit_xor_regroup, bit_xor_self, bit_xor-zero, bit_xor_assoc,
  bit_xor_comm, bit_xor-lt,
}

-- Divide by x: a one that leaves at the bottom brings the polynomial in.
unfoldable pub divide_bit : ℕ → ℕ
divide_bit x = if x % 2 == 1 then bit_xor (x / 2) 0xa001 else x / 2

unfoldable pub divide_bits : ℕ → ℕ → ℕ
divide_bits zero x = x
divide_bits (suc n) x = divide_bits n (divide_bit x)

-- The CRC of a byte string, started at `crc`.
unfoldable pub reference_crc : ℕ → List ℕ → ℕ
reference_crc crc [] = crc
reference_crc crc (x ∷ xs) = reference_crc (divide_bits 8 (bit_xor crc x)) xs

-- Both tests have the same outcome as the number's remainder.
even_or_odd : (x : ℕ) → (x % 2 ≡ 0) ⊎ (x % 2 ≡ 1)
even_or_odd x = ground arith

divide_bit_even : (x : ℕ) → x % 2 ≡ 0 → divide_bit x ≡ x / 2
unfolding divide_bit
divide_bit_even x h = ground arith

divide_bit_odd : (x : ℕ) → x % 2 ≡ 1 → divide_bit x ≡ bit_xor (x / 2) 0xa001
unfolding divide_bit
divide_bit_odd x h = ground arith

module _ (a b : ℕ) where
  both_odd : bit_xor (bit_xor (a / 2) 0xa001) (bit_xor (b / 2) 0xa001) ≡ bit_xor (a / 2) (b / 2)
  both_odd =
      bit_xor_regroup (a / 2) 0xa001 (b / 2) 0xa001
      ∙ ap (bit_xor (bit_xor (a / 2) (b / 2))) (bit_xor_self 0xa001)
      ∙ bit_xor-zero (bit_xor (a / 2) (b / 2))

  first_odd : bit_xor (bit_xor (a / 2) 0xa001) (b / 2) ≡ bit_xor (bit_xor (a / 2) (b / 2)) 0xa001
  first_odd =
      bit_xor_assoc (a / 2) 0xa001 (b / 2)
      ∙ ap (bit_xor (a / 2)) (bit_xor_comm 0xa001 (b / 2))
      ∙ sym (bit_xor_assoc (a / 2) (b / 2) 0xa001)

  second_odd : bit_xor (a / 2) (bit_xor (b / 2) 0xa001) ≡ bit_xor (bit_xor (a / 2) (b / 2)) 0xa001
  second_odd = sym (bit_xor_assoc (a / 2) (b / 2) 0xa001)

-- Division is linear.
pub divide_bit-bit_xor :
    (a b : ℕ) → divide_bit (bit_xor a b) ≡ bit_xor (divide_bit a) (divide_bit b)
divide_bit-bit_xor a b = ground (
  arith,
  even_or_odd a,
  even_or_odd b,
  divide_bit_even a,
  divide_bit_odd a,
  divide_bit_even b,
  divide_bit_odd b,
  divide_bit_even (bit_xor a b),
  divide_bit_odd (bit_xor a b),
  bit_xor-half a b,
  bit_xor-parity a b,
  both_odd a b,
  first_odd a b,
  second_odd a b,
)

pub divide_bits-bit_xor :
    (n a b : ℕ) → divide_bits n (bit_xor a b) ≡ bit_xor (divide_bits n a) (divide_bits n b)
unfolding divide_bits
divide_bits-bit_xor zero a b = refl
divide_bits-bit_xor (suc n) a b =
    ap (divide_bits n) (divide_bit-bit_xor a b)
    ∙ divide_bits-bit_xor n (divide_bit a) (divide_bit b)

divide_bit-double : (x y : ℕ) → x ≡ y * 2 → divide_bit x ≡ y
divide_bit-double x y h = omega (arith, divide_bit_even x (omega arith))

pub divide_bits-byte : (x : ℕ) → divide_bits 8 (x * 2 ^ 8) ≡ x
unfolding divide_bits
divide_bits-byte x = cc (
  divide_bit-double (x * 2 ^ 8) (x * 2 ^ 7) (omega arith),
  divide_bit-double (x * 2 ^ 7) (x * 2 ^ 6) (omega arith),
  divide_bit-double (x * 2 ^ 6) (x * 2 ^ 5) (omega arith),
  divide_bit-double (x * 2 ^ 5) (x * 2 ^ 4) (omega arith),
  divide_bit-double (x * 2 ^ 4) (x * 2 ^ 3) (omega arith),
  divide_bit-double (x * 2 ^ 3) (x * 2 ^ 2) (omega arith),
  divide_bit-double (x * 2 ^ 2) (x * 2) (omega arith),
  divide_bit-double (x * 2) x refl,
)

divide_bit-lt : (x : ℕ) → x < 2 ^ 16 → divide_bit x < 2 ^ 16
unfolding divide_bit
divide_bit-lt x h = ground (arith, bit_xor-lt 16 (x / 2) 0xa001 (omega arith) (omega arith))

divide_bits-lt : (n x : ℕ) → x < 2 ^ 16 → divide_bits n x < 2 ^ 16
unfolding divide_bits
divide_bits-lt zero x h = h
divide_bits-lt (suc n) x h = divide_bits-lt n (divide_bit x) (divide_bit-lt x h)

pub reference_crc-lt :
    (crc : ℕ) (xs : List ℕ) → crc < 2 ^ 16 → All (λ x. x < 256) xs → reference_crc crc xs < 2 ^ 16
unfolding reference_crc
reference_crc-lt crc [] h hx = h
reference_crc-lt crc (x ∷ xs) h hx =
    let h0 = hx.0 in
    reference_crc-lt (divide_bits 8 (bit_xor crc x)) xs
      (divide_bits-lt 8 (bit_xor crc x) (bit_xor-lt 16 crc x h (omega arith))) hx.1
