-- ===== src/Base/Bits/Xor.antt =====
-- `^` is associative and commutative, stays within a width and splits at a byte.
use Prim.Native.Nat.{ℕ, zero, suc, ◌+◌, ◌*◌, ◌/◌, ◌%◌, ◌^◌, ◌≤◌, ◌<◌, bit_xor}
use mathlib.Core.Path.{◌≡◌, refl, ap, sym, ◌∙◌}
use mathlib.Core.WellFounded
use native.Mathlib.Nat.{pow-suc}
use native.Mathlib.Omega.{arith}
use libpuppy.Base.Order.{lt_wf}
use libpuppy.Base.Bits.{bit_xor_step}

pub bit_xor-half : (a b : ℕ) → bit_xor a b / 2 ≡ bit_xor (a / 2) (b / 2)
bit_xor-half a b = omega (arith, bit_xor_step a b)

pub bit_xor-parity : (a b : ℕ) → bit_xor a b % 2 ≡ (a + b) % 2
bit_xor-parity a b = omega (arith, bit_xor_step a b)

-- Numbers with equal halves and parities are equal; here is the induction on digits.
digit_induction :
    (f g : ℕ → ℕ)
    → f 0 ≡ g 0
    → ((n : ℕ) → f (suc n / 2) ≡ g (suc n / 2) → f (suc n) ≡ g (suc n))
    → (n : ℕ) → f n ≡ g n
digit_induction f g base step n = WellFounded.induction lt_wf {C = λ n. f n ≡ g n} n λ n ih.
    elim n as (λ m. ((k : ℕ) → k < m → f k ≡ g k) → f m ≡ g m) [
      | zero ↦ λ h. base
      | suc m ↦ λ h. step m (h (suc m / 2) (omega arith))
    ]
      ih

pub bit_xor-zero : (a : ℕ) → bit_xor a 0 ≡ a
bit_xor-zero =
    digit_induction (λ a. bit_xor a 0) (λ a. a) refl λ n h. omega (arith, bit_xor_step (suc n) 0)

bit_xor_comm_below : (n a b : ℕ) → a ≤ n → b ≤ n → bit_xor a b ≡ bit_xor b a
bit_xor_comm_below zero zero zero ha hb = refl
bit_xor_comm_below zero zero (suc b) ha hb = absurd (omega arith)
bit_xor_comm_below zero (suc a) b ha hb = absurd (omega arith)
bit_xor_comm_below (suc n) a b ha hb = omega (
  arith,
  bit_xor_step a b,
  bit_xor_step b a,
  bit_xor_comm_below n (a / 2) (b / 2) (omega arith) (omega arith),
)

pub bit_xor_comm : (a b : ℕ) → bit_xor a b ≡ bit_xor b a
bit_xor_comm a b = bit_xor_comm_below (a + b) a b (omega arith) (omega arith)

bit_xor_assoc_below :
    (n a b c : ℕ) → a ≤ n → b ≤ n → c ≤ n → bit_xor (bit_xor a b) c ≡ bit_xor a (bit_xor b c)
bit_xor_assoc_below zero zero zero zero ha hb hc = refl
bit_xor_assoc_below zero zero zero (suc c) ha hb hc = absurd (omega arith)
bit_xor_assoc_below zero zero (suc b) c ha hb hc = absurd (omega arith)
bit_xor_assoc_below zero (suc a) b c ha hb hc = absurd (omega arith)
bit_xor_assoc_below (suc n) a b c ha hb hc = omega (
  arith,
  bit_xor_step (bit_xor a b) c,
  bit_xor_step a (bit_xor b c),
  bit_xor-parity a b,
  bit_xor-parity b c,
  ap (λ t. bit_xor t (c / 2)) (bit_xor-half a b),
  ap (bit_xor (a / 2)) (bit_xor-half b c),
  bit_xor_assoc_below n (a / 2) (b / 2) (c / 2) (omega arith) (omega arith) (omega arith),
)

pub bit_xor_assoc : (a b c : ℕ) → bit_xor (bit_xor a b) c ≡ bit_xor a (bit_xor b c)
bit_xor_assoc a b c =
    bit_xor_assoc_below (a + b + c) a b c (omega arith) (omega arith) (omega arith)

pub bit_xor_self : (a : ℕ) → bit_xor a a ≡ 0
bit_xor_self =
    digit_induction (λ a. bit_xor a a) (λ _. 0) refl
      λ n h. omega (arith, bit_xor_step (suc n) (suc n))

-- Two pairs may be regrouped.
pub bit_xor_regroup :
    (a b c d : ℕ) → bit_xor (bit_xor a b) (bit_xor c d) ≡ bit_xor (bit_xor a c) (bit_xor b d)
bit_xor_regroup a b c d =
    bit_xor_assoc a b (bit_xor c d)
    ∙ ap (bit_xor a)
        (sym (bit_xor_assoc b c d) ∙ ap (λ t. bit_xor t d) (bit_xor_comm b c) ∙ bit_xor_assoc c b d)
    ∙ sym (bit_xor_assoc a c (bit_xor b d))

pub bit_xor-shifted :
    (k high low : ℕ) → low < 2 ^ k → bit_xor (high * 2 ^ k) low ≡ high * 2 ^ k + low
bit_xor-shifted zero high low h = ground (arith, bit_xor-zero high)
bit_xor-shifted (suc k) high low h =
    let doubled : high * 2 ^ suc k ≡ 2 * (high * 2 ^ k) =
      omega (arith, ap (λ (t : ℕ). high * t) (pow-suc 2 k)) in
    ground (
      arith,
      doubled,
      pow-suc 2 k,
      bit_xor_step (high * 2 ^ suc k) low,
      bit_xor-shifted k high (low / 2) (omega (arith, pow-suc 2 k)),
    )

-- The result of two numbers of `k` bits has `k` bits.
pub bit_xor-lt : (k a b : ℕ) → a < 2 ^ k → b < 2 ^ k → bit_xor a b < 2 ^ k
bit_xor-lt zero zero zero ha hb = omega arith
bit_xor-lt zero zero (suc b) ha hb = absurd (omega arith)
bit_xor-lt zero (suc a) b ha hb = absurd (omega arith)
bit_xor-lt (suc k) a b ha hb = omega (
  arith,
  pow-suc 2 k,
  bit_xor_step a b,
  bit_xor-lt k (a / 2) (b / 2) (omega (arith, pow-suc 2 k)) (omega (arith, pow-suc 2 k)),
)

div-two-two : (x : ℕ) → x / 2 / 2 ≡ x / 4
div-two-two x = omega arith

div-four-four : (x : ℕ) → x / 4 / 4 ≡ x / 16
div-four-four x = omega arith

div-sixteen-sixteen : (x : ℕ) → x / 16 / 16 ≡ x / 256
div-sixteen-sixteen x = omega arith

bit_xor-div_four : (a b : ℕ) → bit_xor a b / 4 ≡ bit_xor (a / 4) (b / 4)
bit_xor-div_four a b = cc (
  div-two-two (bit_xor a b),
  div-two-two a,
  div-two-two b,
  bit_xor-half a b,
  bit_xor-half (a / 2) (b / 2),
)

bit_xor-div_sixteen : (a b : ℕ) → bit_xor a b / 16 ≡ bit_xor (a / 16) (b / 16)
bit_xor-div_sixteen a b = cc (
  div-four-four (bit_xor a b),
  div-four-four a,
  div-four-four b,
  bit_xor-div_four a b,
  bit_xor-div_four (a / 4) (b / 4),
)

-- The bits from the eighth on do not depend on a byte that is mixed in.
pub bit_xor-byte : (a b : ℕ) → b < 256 → bit_xor a b / 256 ≡ a / 256
bit_xor-byte a b h = cc (
  small,
  bit_xor-zero (a / 256),
  div-sixteen-sixteen (bit_xor a b),
  div-sixteen-sixteen a,
  div-sixteen-sixteen b,
  bit_xor-div_sixteen a b,
  bit_xor-div_sixteen (a / 16) (b / 16),
)
  where
    small : b / 256 ≡ 0
    small = omega arith
