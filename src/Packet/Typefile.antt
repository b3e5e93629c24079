-- ===== src/Packet/Typefile.antt =====
-- `struct typefile`, the file descriptor of the device, as it lies in the data of a packet. Its
-- offsets are counted from the start of the structure; it is packed and has 114 bytes.
use libpuppy.Base.{ℕ, ◌≤◌, ◌≡◌, refl, arith, ◌+◌, ◌-◌, List, ◌++◌, length, take, replicate}
use libpuppy.Base.Memory.{Memory, update, write_range, u8}
use libpuppy.Bytes.Value.{get_u16_ext}
use libpuppy.Bytes.{get_u16, put_u16, put_u64}
use libpuppy.Mjd.{TfDatetime}

abbrev pub typefile_size : ℕ
typefile_size = 114

abbrev pub filetype_at : ℕ
filetype_at = 5

abbrev pub size_at : ℕ
size_at = 6

abbrev pub name_at : ℕ
name_at = 14

abbrev pub name_size : ℕ
name_size = 95

-- The stamp at address `a`.
unfoldable pub stamp_of : Memory → ℕ → TfDatetime
stamp_of m a = record {
  mjd = get_u16 m a;
  hour = m (a + 2);
  minute = m (a + 3);
  second = m (a + 4);
}

-- A stamp depends on its five bytes only.
pub stamp_of_ext :
    (m s : Memory) (a : ℕ) → ((i : ℕ) → a ≤ i → i ≤ a + 4 → m i ≡ s i) → stamp_of m a ≡ stamp_of s a
unfolding stamp_of
stamp_of_ext m s a h =
    let day =
      get_u16_ext m s a (h a (omega arith) (omega arith)) (h (a + 1) (omega arith) (omega arith)) in
    let hour = h (a + 2) (omega arith) (omega arith) in
    let minute = h (a + 3) (omega arith) (omega arith) in
    let second = h (a + 4) (omega arith) (omega arith) in rw (day, hour, minute, second) refl

unfoldable pub put_stamp : Memory → ℕ → TfDatetime → Memory
put_stamp m a dt =
    let m1 = put_u16 m a dt.mjd in
    update (update (update m1 (a + 2) (u8 dt.hour)) (a + 3) (u8 dt.minute)) (a + 4) (u8 dt.second)

-- What `strncpy` writes of a string: its first `n` bytes, filled up with zeros.
unfoldable pub strncpy_bytes : ℕ → List ℕ → List ℕ
strncpy_bytes n s = take n s ++ replicate (n - length (take n s)) 0

-- The descriptor that `puppy_hdd_file_put` sends: the stamp, a file, its size and name, zeros.
unfoldable pub put_typefile : Memory → ℕ → TfDatetime → ℕ → List ℕ → Memory
put_typefile m a dt size name =
    let m1 = update (put_stamp m a dt) (a + filetype_at) 2 in
    let m2 = write_range (put_u64 m1 (a + size_at) size) (a + name_at) (strncpy_bytes 94 name) in
    write_range m2 (a + name_at + 94) (replicate 6 0)
