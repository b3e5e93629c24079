-- ===== src/Bytes.antt =====
-- tf_bytes.c: integers in the big-endian packets of the device, and in the byte-swapped raw buffer.
pub mod Value
pub mod RoundTrip
use libpuppy.Base.{ℕ, ◌+◌, bit_or, bit_and}
use libpuppy.Base.Memory.{Memory, update, u16, u32, u64, ◌<<<◌, ◌>>>◌}

unfoldable pub get_u16 : Memory → ℕ → ℕ
get_u16 b a = u16 (bit_or (b a <<< 8) (b (a + 1) <<< 0))

unfoldable pub get_u16_raw : Memory → ℕ → ℕ
get_u16_raw b a = u16 (bit_or (b (a + 1) <<< 8) (b a <<< 0))

unfoldable pub put_u16 : Memory → ℕ → ℕ → Memory
put_u16 b a n =
    let val = u16 n in update (update b a (bit_and (val >>> 8) 0xff)) (a + 1) (bit_and val 0xff)

unfoldable pub get_u32 : Memory → ℕ → ℕ
get_u32 b a =
    u32 (bit_or (bit_or (bit_or (b a <<< 24) (b (a + 1) <<< 16)) (b (a + 2) <<< 8)) (b (a + 3)))

unfoldable pub get_u32_raw : Memory → ℕ → ℕ
get_u32_raw b a =
    u32 (bit_or (bit_or (bit_or (b (a + 1) <<< 24) (b a <<< 16)) (b (a + 3) <<< 8)) (b (a + 2)))

unfoldable pub put_u32 : Memory → ℕ → ℕ → Memory
put_u32 b a n =
    let val = u32 n in
    let b0 = update b a (bit_and (val >>> 24) 0xff) in
    let b1 = update b0 (a + 1) (bit_and (val >>> 16) 0xff) in
    let b2 = update b1 (a + 2) (bit_and (val >>> 8) 0xff) in update b2 (a + 3) (bit_and val 0xff)

-- `r = (r << 8) | x`, in 64 bits.
shift_in : ℕ → ℕ → ℕ
shift_in r x = bit_or (u64 (r <<< 8)) x

unfoldable pub get_u64 : Memory → ℕ → ℕ
unfolding shift_in
get_u64 b a =
    let r1 = shift_in (b a) (b (a + 1)) in
    let r2 = shift_in r1 (b (a + 2)) in
    let r3 = shift_in r2 (b (a + 3)) in
    let r4 = shift_in r3 (b (a + 4)) in
    let r5 = shift_in r4 (b (a + 5)) in let r6 = shift_in r5 (b (a + 6)) in shift_in r6 (b (a + 7))

unfoldable pub put_u64 : Memory → ℕ → ℕ → Memory
put_u64 b a n =
    let val = u64 n in
    let b0 = update b a (bit_and (val >>> 56) 0xff) in
    let b1 = update b0 (a + 1) (bit_and (val >>> 48) 0xff) in
    let b2 = update b1 (a + 2) (bit_and (val >>> 40) 0xff) in
    let b3 = update b2 (a + 3) (bit_and (val >>> 32) 0xff) in
    let b4 = update b3 (a + 4) (bit_and (val >>> 24) 0xff) in
    let b5 = update b4 (a + 5) (bit_and (val >>> 16) 0xff) in
    let b6 = update b5 (a + 6) (bit_and (val >>> 8) 0xff) in update b6 (a + 7) (bit_and val 0xff)
