-- ===== src/Bytes/RoundTrip.antt =====
-- Reading back what was written.
use libpuppy.Base.{ℕ, ◌+◌, ◌/◌, ◌%◌, ◌^◌, ◌≤◌, ◌<◌, ◌≡◌, ◌⊎◌, arith, ◌==◌, if◌then◌else◌}
use libpuppy.Base.Bits.Masks.{mask_0xff}
use libpuppy.Base.Memory.{Memory, IsBytes, u16, u32, u64}
use libpuppy.Bytes.{get_u16, put_u16, get_u32, put_u32, get_u64, put_u64}
use libpuppy.Bytes.Value.{get_u16-value, get_u32-value, get_u64-value, get_u16_ext}

-- Each writer, byte by byte.
pub put_u16-at :
    (m : Memory) (a v i : ℕ)
    → put_u16 m a v i
      ≡ (if i == a + 1 then v % 2 ^ 8 else if i == a then v / 2 ^ 8 % 2 ^ 8 else m i)
unfolding put_u16
put_u16-at m a v i = ground (arith, mask_0xff (u16 v), mask_0xff (u16 v / 2 ^ 8))

pub put_u32-at :
    (m : Memory) (a v i : ℕ)
    → put_u32 m a v i ≡ (
        if i == a + 3
        then v % 2 ^ 8
        else if i == a + 2
        then v / 2 ^ 8 % 2 ^ 8
        else if i == a + 1
        then v / 2 ^ 16 % 2 ^ 8
        else if i == a
        then v / 2 ^ 24 % 2 ^ 8
        else m i)
unfolding put_u32
put_u32-at m a v i = ground (
  arith,
  mask_0xff (u32 v),
  mask_0xff (u32 v / 2 ^ 8),
  mask_0xff (u32 v / 2 ^ 16),
  mask_0xff (u32 v / 2 ^ 24),
)

pub put_u16-IsBytes : (m : Memory) (a v : ℕ) → IsBytes m → IsBytes (put_u16 m a v)
put_u16-IsBytes m a v h i = ground (arith, put_u16-at m a v i, h i)

pub put_u32-IsBytes : (m : Memory) (a v : ℕ) → IsBytes m → IsBytes (put_u32 m a v)
put_u32-IsBytes m a v h i = ground (arith, put_u32-at m a v i, h i)

-- A write elsewhere leaves a 16-bit value alone.
pub get_u16-put_u16_apart :
    (m : Memory) (a b v : ℕ) → (a + 2 ≤ b) ⊎ (b + 2 ≤ a) → get_u16 (put_u16 m b v) a ≡ get_u16 m a
get_u16-put_u16_apart m a b v h =
    get_u16_ext (put_u16 m b v) m a (ground (arith, put_u16-at m b v a))
      (ground (arith, put_u16-at m b v (a + 1)))

-- A 16-bit value that is written is read back.
pub get_u16-put_u16 : (m : Memory) (a v : ℕ) → get_u16 (put_u16 m a v) a ≡ u16 v
get_u16-put_u16 m a v =
    ground (arith, put_u16-at m a v a, put_u16-at m a v (a + 1), get_u16-value (put_u16 m a v) a)

-- A 32-bit value that is written is read back.
pub get_u32-put_u32 : (m : Memory) (a v : ℕ) → get_u32 (put_u32 m a v) a ≡ u32 v
get_u32-put_u32 m a v = ground (
  arith,
  put_u32-at m a v a,
  put_u32-at m a v (a + 1),
  put_u32-at m a v (a + 2),
  put_u32-at m a v (a + 3),
  get_u32-value (put_u32 m a v) a,
)

module _ (m : Memory) (a v : ℕ) where
  put_u64-at :
      (i : ℕ)
      → put_u64 m a v i ≡ (
          if i == a + 7
          then v % 2 ^ 8
          else if i == a + 6
          then v / 2 ^ 8 % 2 ^ 8
          else if i == a + 5
          then v / 2 ^ 16 % 2 ^ 8
          else if i == a + 4
          then v / 2 ^ 24 % 2 ^ 8
          else if i == a + 3
          then v / 2 ^ 32 % 2 ^ 8
          else if i == a + 2
          then v / 2 ^ 40 % 2 ^ 8
          else if i == a + 1
          then v / 2 ^ 48 % 2 ^ 8
          else if i == a
          then v / 2 ^ 56 % 2 ^ 8
          else m i)
  unfolding put_u64
  put_u64-at i = ground (
    arith,
    mask_0xff (u64 v),
    mask_0xff (u64 v / 2 ^ 8),
    mask_0xff (u64 v / 2 ^ 16),
    mask_0xff (u64 v / 2 ^ 24),
    mask_0xff (u64 v / 2 ^ 32),
    mask_0xff (u64 v / 2 ^ 40),
    mask_0xff (u64 v / 2 ^ 48),
    mask_0xff (u64 v / 2 ^ 56),
  )

  put_u64-byte0 : put_u64 m a v a ≡ v / 2 ^ 56 % 2 ^ 8
  put_u64-byte0 = ground (arith, put_u64-at a)

  put_u64-byte1 : put_u64 m a v (a + 1) ≡ v / 2 ^ 48 % 2 ^ 8
  put_u64-byte1 = ground (arith, put_u64-at (a + 1))

  put_u64-byte2 : put_u64 m a v (a + 2) ≡ v / 2 ^ 40 % 2 ^ 8
  put_u64-byte2 = ground (arith, put_u64-at (a + 2))

  put_u64-byte3 : put_u64 m a v (a + 3) ≡ v / 2 ^ 32 % 2 ^ 8
  put_u64-byte3 = ground (arith, put_u64-at (a + 3))

  put_u64-byte4 : put_u64 m a v (a + 4) ≡ v / 2 ^ 24 % 2 ^ 8
  put_u64-byte4 = ground (arith, put_u64-at (a + 4))

  put_u64-byte5 : put_u64 m a v (a + 5) ≡ v / 2 ^ 16 % 2 ^ 8
  put_u64-byte5 = ground (arith, put_u64-at (a + 5))

  put_u64-byte6 : put_u64 m a v (a + 6) ≡ v / 2 ^ 8 % 2 ^ 8
  put_u64-byte6 = ground (arith, put_u64-at (a + 6))

  put_u64-byte7 : put_u64 m a v (a + 7) ≡ v % 2 ^ 8
  put_u64-byte7 = ground (arith, put_u64-at (a + 7))

  -- A 64-bit value that is written is read back.
  pub get_u64-put_u64 : get_u64 (put_u64 m a v) a ≡ u64 v
  get_u64-put_u64 =
      let b0 = put_u64-byte0 in
      let b1 = put_u64-byte1 in
      let b2 = put_u64-byte2 in
      let b3 = put_u64-byte3 in
      let b4 = put_u64-byte4 in
      let b5 = put_u64-byte5 in
      let b6 = put_u64-byte6 in
      let b7 = put_u64-byte7 in
      omega (
        arith,
        get_u64-value (put_u64 m a v) a (omega arith) (omega arith) (omega arith) (omega arith)
            (omega arith) (omega arith) (omega arith) (omega arith),
      )

-- A 64-bit write changes no byte below its address.
pub put_u64_below : (m : Memory) (a v i : ℕ) → i < a → put_u64 m a v i ≡ m i
put_u64_below m a v i h = ground (arith, put_u64-at m a v i)

-- Nor one past its eight bytes.
pub put_u64_above : (m : Memory) (a v i : ℕ) → a + 8 ≤ i → put_u64 m a v i ≡ m i
put_u64_above m a v i h = ground (arith, put_u64-at m a v i)

pub put_u64-IsBytes : (m : Memory) (a v : ℕ) → IsBytes m → IsBytes (put_u64 m a v)
put_u64-IsBytes m a v h i = ground (arith, put_u64-at m a v i, h i)
