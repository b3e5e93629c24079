-- ===== src/Base/Bits/Masks.antt =====
-- `|` of disjoint fields as a sum, and `&` with the low masks as a remainder.
use Prim.Native.Nat.{ℕ, zero, suc, ◌+◌, ◌*◌, ◌/◌, ◌%◌, ◌^◌, ◌<◌, bit_and, bit_or}
use mathlib.Core.Path.{◌≡◌, refl, ap}
use mathlib.Core.WellFounded
use native.Mathlib.Nat.{pow-suc}
use native.Mathlib.Omega.{arith}
use libpuppy.Base.Order.{lt_wf}
use libpuppy.Base.Bits.{bit_and_step, bit_or_step}

pub bit_or-zero : (a : ℕ) → bit_or a 0 ≡ a
bit_or-zero a = WellFounded.induction lt_wf {C = λ n. bit_or n 0 ≡ n} a λ n ih.
    elim n as (λ m. ((k : ℕ) → k < m → bit_or k 0 ≡ k) → bit_or m 0 ≡ m) [
      | zero ↦ λ h. refl
      | suc m ↦ λ h. omega (arith, bit_or_step (suc m) 0, h (suc m / 2) (omega arith))
    ]
      ih

-- A field shifted past `k` bits, or-ed with a value of `k` bits.
pub bit_or-shifted : (k high low : ℕ) → low < 2 ^ k → bit_or (high * 2 ^ k) low ≡ high * 2 ^ k + low
bit_or-shifted zero high low h = ground (arith, bit_or-zero high)
bit_or-shifted (suc k) high low h =
    let doubled : high * 2 ^ suc k ≡ 2 * (high * 2 ^ k) =
      omega (arith, ap (λ (t : ℕ). high * t) (pow-suc 2 k)) in
    ground (
      arith,
      doubled,
      pow-suc 2 k,
      bit_or_step (high * 2 ^ suc k) low,
      bit_or-shifted k high (low / 2) (omega (arith, pow-suc 2 k)),
    )

bit_and-zero : (a : ℕ) → bit_and a 0 ≡ 0
bit_and-zero a = WellFounded.induction lt_wf {C = λ n. bit_and n 0 ≡ 0} a λ n ih.
    elim n as (λ m. ((k : ℕ) → k < m → bit_and k 0 ≡ 0) → bit_and m 0 ≡ 0) [
      | zero ↦ λ h. refl
      | suc m ↦ λ h. omega (arith, bit_and_step (suc m) 0, h (suc m / 2) (omega arith))
    ]
      ih

mask_0x1 : (a : ℕ) → bit_and a 1 ≡ a % 2
mask_0x1 a = omega (arith, bit_and_step a 1, bit_and-zero (a / 2))

mask_0x3 : (a : ℕ) → bit_and a 3 ≡ a % 4
mask_0x3 a = omega (arith, bit_and_step a 3, mask_0x1 (a / 2))

mask_0xf : (a : ℕ) → bit_and a 15 ≡ a % 16
mask_0xf a = omega (arith, bit_and_step a 15, bit_and_step (a / 2) 7, mask_0x3 (a / 2 / 2))

mask_0x3f : (a : ℕ) → bit_and a 63 ≡ a % 64
mask_0x3f a = omega (arith, bit_and_step a 63, bit_and_step (a / 2) 31, mask_0xf (a / 2 / 2))

-- The mask of one byte.
pub mask_0xff : (a : ℕ) → bit_and a 255 ≡ a % 256
mask_0xff a = omega (arith, bit_and_step a 255, bit_and_step (a / 2) 127, mask_0x3f (a / 2 / 2))
