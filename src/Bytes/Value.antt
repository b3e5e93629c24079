-- ===== src/Bytes/Value.antt =====
-- What the readers and writers of tf_bytes.c mean as arithmetic on bytes.
use libpuppy.Base.{ℕ, ◌+◌, ◌*◌, ◌^◌, ◌≤◌, ◌<◌, ◌≡◌, refl, bit_or, arith}
use libpuppy.Base.Bits.Masks.{bit_or-shifted}
use libpuppy.Base.Memory.{Memory, u64}
use libpuppy.Bytes.{get_u16, get_u16_raw, get_u32, get_u32_raw, get_u64, shift_in}

-- Three fields of one byte and a last one, the first at the top.
pack_word :
    (a b c d : ℕ)
    → a < 256
    → b < 256
    → c < 256
    → d < 256
    → bit_or (bit_or (bit_or (a * 2 ^ 24) (b * 2 ^ 16)) (c * 2 ^ 8)) d
      ≡ a * 2 ^ 24 + b * 2 ^ 16 + c * 2 ^ 8 + d
pack_word a b c d ha hb hc hd = ground (
  arith,
  bit_or-shifted 24 a (b * 2 ^ 16) (omega arith),
  bit_or-shifted 16 (a * 2 ^ 8 + b) (c * 2 ^ 8) (omega arith),
  bit_or-shifted 8 (a * 2 ^ 16 + b * 2 ^ 8 + c) d (omega arith),
)

pub get_u16-value :
    (m : Memory) (a : ℕ) → m a < 256 → m (a + 1) < 256 → get_u16 m a ≡ m a * 2 ^ 8 + m (a + 1)
unfolding get_u16
get_u16-value m a h0 h1 = ground (arith, bit_or-shifted 8 (m a) (m (a + 1)) h1)

pub get_u16_raw-value :
    (m : Memory) (a : ℕ) → m a < 256 → m (a + 1) < 256 → get_u16_raw m a ≡ m (a + 1) * 2 ^ 8 + m a
unfolding get_u16_raw
get_u16_raw-value m a h0 h1 = ground (arith, bit_or-shifted 8 (m (a + 1)) (m a) h0)

pub get_u32-value :
    (m : Memory) (a : ℕ)
    → m a < 256
    → m (a + 1) < 256
    → m (a + 2) < 256
    → m (a + 3) < 256
    → get_u32 m a ≡ m a * 2 ^ 24 + m (a + 1) * 2 ^ 16 + m (a + 2) * 2 ^ 8 + m (a + 3)
unfolding get_u32
get_u32-value m a h0 h1 h2 h3 =
    omega (arith, pack_word (m a) (m (a + 1)) (m (a + 2)) (m (a + 3)) h0 h1 h2 h3)

pub get_u32_raw-value :
    (m : Memory) (a : ℕ)
    → m a < 256
    → m (a + 1) < 256
    → m (a + 2) < 256
    → m (a + 3) < 256
    → get_u32_raw m a ≡ m (a + 1) * 2 ^ 24 + m a * 2 ^ 16 + m (a + 3) * 2 ^ 8 + m (a + 2)
unfolding get_u32_raw
get_u32_raw-value m a h0 h1 h2 h3 =
    omega (arith, pack_word (m (a + 1)) (m a) (m (a + 3)) (m (a + 2)) h1 h0 h3 h2)

shift_in-value : (r x : ℕ) → r < 2 ^ 56 → x < 256 → shift_in r x ≡ r * 2 ^ 8 + x
unfolding shift_in
shift_in-value r x hr hx = ground (arith, fits, bit_or-shifted 8 r x hx)
  where
    fits : u64 (r * 2 ^ 8) ≡ r * 2 ^ 8
    fits = omega arith

-- Eight bytes, the first at the top.
abbrev pub join64 : ℕ → ℕ → ℕ → ℕ → ℕ → ℕ → ℕ → ℕ → ℕ
join64 b0 b1 b2 b3 b4 b5 b6 b7 =
    b0 * 2 ^ 56
    + b1 * 2 ^ 48
    + b2 * 2 ^ 40
    + b3 * 2 ^ 32
    + b4 * 2 ^ 24
    + b5 * 2 ^ 16
    + b6 * 2 ^ 8
    + b7

shift_in_chain :
    (b0 b1 b2 b3 b4 b5 b6 b7 : ℕ)
    → b0 < 256
    → b1 < 256
    → b2 < 256
    → b3 < 256
    → b4 < 256
    → b5 < 256
    → b6 < 256
    → b7 < 256
    → shift_in
        (shift_in (shift_in (shift_in (shift_in (shift_in (shift_in b0 b1) b2) b3) b4) b5) b6)
        b7
      ≡ join64 b0 b1 b2 b3 b4 b5 b6 b7
shift_in_chain b0 b1 b2 b3 b4 b5 b6 b7 h0 h1 h2 h3 h4 h5 h6 h7 =
    let e1 = shift_in-value b0 b1 (omega arith) h1 in
    let e2 = shift_in-value (shift_in b0 b1) b2 (omega arith) h2 in
    let r2 = shift_in (shift_in b0 b1) b2 in
    let e3 = shift_in-value r2 b3 (omega arith) h3 in
    let e4 = shift_in-value (shift_in r2 b3) b4 (omega arith) h4 in
    let r4 = shift_in (shift_in r2 b3) b4 in
    let e5 = shift_in-value r4 b5 (omega arith) h5 in
    let e6 = shift_in-value (shift_in r4 b5) b6 (omega arith) h6 in
    let e7 = shift_in-value (shift_in (shift_in r4 b5) b6) b7 (omega arith) h7 in omega arith

pub get_u64-value :
    (m : Memory) (a : ℕ)
    → m a < 256
    → m (a + 1) < 256
    → m (a + 2) < 256
    → m (a + 3) < 256
    → m (a + 4) < 256
    → m (a + 5) < 256
    → m (a + 6) < 256
    → m (a + 7) < 256
    → get_u64 m a
      ≡ join64
          (m a)
          (m (a + 1))
          (m (a + 2))
          (m (a + 3))
          (m (a + 4))
          (m (a + 5))
          (m (a + 6))
          (m (a + 7))
unfolding get_u64
get_u64-value m a = shift_in_chain (m a) (m (a + 1)) _ _ _ _ _ _

-- The readers look at their own bytes only.
pub get_u16_ext :
    (m s : Memory) (a : ℕ) → m a ≡ s a → m (a + 1) ≡ s (a + 1) → get_u16 m a ≡ get_u16 s a
unfolding get_u16
get_u16_ext m s a h0 h1 = cc

pub get_u16_raw_ext :
    (m s : Memory) (a : ℕ) → m a ≡ s a → m (a + 1) ≡ s (a + 1) → get_u16_raw m a ≡ get_u16_raw s a
unfolding get_u16_raw
get_u16_raw_ext m s a h0 h1 = cc

pub get_u32_ext :
    (m s : Memory) (a : ℕ)
    → m a ≡ s a
    → m (a + 1) ≡ s (a + 1)
    → m (a + 2) ≡ s (a + 2)
    → m (a + 3) ≡ s (a + 3)
    → get_u32 m a ≡ get_u32 s a
unfolding get_u32
get_u32_ext m s a h0 h1 h2 h3 = cc

pub get_u16-lt : (m : Memory) (a : ℕ) → get_u16 m a < 2 ^ 16
unfolding get_u16
get_u16-lt m a = omega arith

pub get_u64_ext :
    (m s : Memory) (a : ℕ) → ((i : ℕ) → a ≤ i → i ≤ a + 7 → m i ≡ s i) → get_u64 m a ≡ get_u64 s a
unfolding get_u64
get_u64_ext m s a h =
    let h0 = h a (omega arith) (omega arith) in
    let h1 = h (a + 1) (omega arith) (omega arith) in
    let h2 = h (a + 2) (omega arith) (omega arith) in
    let h3 = h (a + 3) (omega arith) (omega arith) in
    let h4 = h (a + 4) (omega arith) (omega arith) in
    let h5 = h (a + 5) (omega arith) (omega arith) in
    let h6 = h (a + 6) (omega arith) (omega arith) in
    let h7 = h (a + 7) (omega arith) (omega arith) in rw (h0, h1, h2, h3, h4, h5, h6, h7) refl
