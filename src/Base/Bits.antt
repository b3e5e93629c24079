-- ===== src/Base/Bits.antt =====
-- Laws of `|`, `&` and `^` on native numbers, from one equation for the lowest binary digit.
pub mod Masks
pub mod Xor
use Prim.Native.Nat.{
  ℕ, zero, suc, ◌+◌, ◌*◌, ◌/◌, ◌%◌, ◌≤◌, ◌<◌, min, max, bit_and, bit_or, bit_xor, digits, bitwise,
  bit_and-bitwise, bit_or-bitwise, bit_xor-bitwise, differ,
}
use mathlib.Core.Path.{◌≡◌, refl}
use native.Mathlib.Omega.{arith}

module _ (rest : ℕ → ℕ) (op : ℕ → ℕ → ℕ) where
  -- Any two counts of digits that reach the end of `a` give one result.
  count_irrelevant : (p q a b : ℕ) → a ≤ p → a ≤ q → digits rest op p a b ≡ digits rest op q a b
  count_irrelevant zero zero a b hp hq = refl
  count_irrelevant zero (suc q) zero b hp hq = refl
  count_irrelevant (suc p) zero zero b hp hq = refl
  count_irrelevant (suc p) (suc q) zero b hp hq = refl
  count_irrelevant zero q (suc a) b hp hq = absurd (omega arith)
  count_irrelevant (suc p) zero (suc a) b hp hq = absurd (omega arith)
  count_irrelevant (suc p) (suc q) (suc a) b hp hq =
      rw (count_irrelevant p q (suc a / 2) (b / 2) (omega arith) (omega arith))

  lowest_digit :
      (a b : ℕ)
      → bitwise rest op (suc a) b ≡ bitwise rest op (suc a / 2) (b / 2) * 2 + op (suc a % 2) (b % 2)
  lowest_digit a b =
      omega (arith, count_irrelevant a (suc a / 2) (suc a / 2) (b / 2) (omega arith) (omega arith))

pub bit_and_step : (x y : ℕ) → bit_and x y ≡ min (x % 2) (y % 2) + 2 * bit_and (x / 2) (y / 2)
bit_and_step zero y = simp bit_and-bitwise (omega arith)
bit_and_step (suc x) y = simp bit_and-bitwise (omega (arith, lowest_digit (λ _. 0) min x y))

differ_digits : (x y : ℕ) → x < 2 → y < 2 → differ x y ≡ (x + y) % 2
differ_digits zero y hx hy = omega arith
differ_digits (suc x) zero hx hy = omega arith
differ_digits (suc zero) (suc zero) hx hy = omega arith
differ_digits (suc (suc x)) (suc y) hx hy = absurd (omega arith)
differ_digits (suc zero) (suc (suc y)) hx hy = absurd (omega arith)

pub bit_xor_step : (a b : ℕ) → bit_xor a b ≡ bit_xor (a / 2) (b / 2) * 2 + (a + b) % 2
bit_xor_step zero b = simp bit_xor-bitwise (omega arith)
bit_xor_step (suc a) b = simp bit_xor-bitwise (
    omega (
      arith,
      lowest_digit (λ y. y) differ a b,
      differ_digits (suc a % 2) (b % 2) (omega arith) (omega arith),
    ))

pub bit_or_step : (x y : ℕ) → bit_or x y ≡ max (x % 2) (y % 2) + 2 * bit_or (x / 2) (y / 2)
bit_or_step x y = simp bit_or-bitwise (by_digit x)
  where
    by_digit :
        (x : ℕ)
        → bitwise (λ k. k) max x y ≡ max (x % 2) (y % 2) + 2 * bitwise (λ k. k) max (x / 2) (y / 2)
    by_digit zero = omega arith
    by_digit (suc x) = omega (arith, lowest_digit (λ k. k) max x y)
