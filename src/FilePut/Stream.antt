-- ===== src/FilePut/Stream.antt =====
-- The packets of an upload are those that a download takes.
use libpuppy.Bytes.Value.{get_u32_ext, get_u16_ext}
use libpuppy.Packet.Typefile.{filetype_at, size_at, name_at, put_typefile, strncpy_bytes, put_stamp}
use libpuppy.Bytes.RoundTrip.{
  put_u64_below, get_u32-put_u32, get_u16-put_u16, put_u32-at, put_u16-at, put_u64-IsBytes,
  put_u16-IsBytes, put_u32-IsBytes,
}
use libpuppy.Bytes.{get_u32, put_u16, put_u32, get_u16}
use libpuppy.Base.Memory.{
  write_range, update, write_range_outside, u8, update-IsBytes, write_range-IsBytes, read_range,
  IsBytes,
}
use libpuppy.Base.{
  take-bytes, inl, [], replicate, ◌++◌, ◌^◌, sym, ◌∙◌, refl, zero, length-take, ◌∷◌, ap, ◌+◌, arith,
  suc, ◌<◌, ◌≡◌, All, length, take, ◌≤◌, ℕ, List,
}
use libpuppy.Stream.{Piece, IsData, IsStart, IsEnd}
use libpuppy.FilePut.{
  data_hdd_file_start, TfDatetime, data_hdd_file_end, data_hdd_file_data, cmd_at, data_at,
  length_at, Memory, put_u64, Upload, adjusted, data_packet, start_packet, end_packet, payload_size,
}
use libpuppy.FilePut.Packets.{adjusted_lem, length_lem, cmd_lem, payload_lem}

-- A packet of a range of the source file, and the part of it that it counts.
abbrev pub piece_of : Upload → List ℕ → Piece
piece_of s bytes = record {
  packet = data_packet s bytes;
  chunk = take (adjusted (length bytes)) bytes;
}

pub read_range-take :
    (m : Memory) (a k n : ℕ) → k ≤ n → read_range m a k ≡ take k (read_range m a n)
read_range-take m a zero n h = refl
read_range-take m a (suc k) zero h = absurd (omega arith)
read_range-take m a (suc k) (suc n) h = ap (◌∷◌ (m a)) (read_range-take m (a + 1) k n (omega arith))

-- A DATA packet of bytes that were read.
pub piece_of-IsData :
    (s : Upload) (bytes : List ℕ)
    → IsBytes s.puppy.packet
    → All (λ x. x < 256) bytes
    → length bytes ≤ payload_size
    → IsData (piece_of s bytes)
piece_of-IsData s bytes memory small short = record {
  sound = record {
    bytes =
        unfold data_packet in
        put_u64-IsBytes _ data_at s.byte_count (
          put_u32-IsBytes _ cmd_at data_hdd_file_data
            (put_u16-IsBytes _ length_at _ (write_range-IsBytes (data_at + 8) bytes small memory)));
    low = omega (arith, size);
    high = omega (arith, size, fewer.0);
  };
  cmd = cmd_lem s bytes;
  size = size ∙ ap (λ n. 16 + n) (sym whole);
  payload =
      ap (λ n. read_range (data_packet s bytes) 16 n) whole
      ∙ read_range-take (data_packet s bytes) 16 (adjusted (length bytes)) (length bytes) fewer.0
      ∙ ap (take (adjusted (length bytes))) (payload_lem s bytes);
}
  where
    size : get_u16 (data_packet s bytes) length_at ≡ 16 + adjusted (length bytes)
    size = length_lem s bytes short

    fewer : (adjusted (length bytes) ≤ length bytes) × (length bytes ≤ adjusted (length bytes) + 4)
    fewer = ((adjusted_lem (length bytes)).0, (adjusted_lem (length bytes)).1)

    whole : length (take (adjusted (length bytes)) bytes) ≡ adjusted (length bytes)
    whole = omega (arith, fewer.0, length-take (adjusted (length bytes)) bytes)

replicate-bytes : (n : ℕ) → All (λ x. x < 256) (replicate n 0)
replicate-bytes zero = tt
replicate-bytes (suc n) = (omega arith, replicate-bytes n)

append-bytes :
    (xs ys : List ℕ) → All (λ x. x < 256) xs → All (λ x. x < 256) ys → All (λ x. x < 256) (xs ++ ys)
append-bytes [] ys h k = k
append-bytes (x ∷ xs) ys h k = (h.0, append-bytes xs ys h.1 k)

put_stamp-IsBytes : (m : Memory) (a : ℕ) (dt : TfDatetime) → IsBytes m → IsBytes (put_stamp m a dt)
unfolding put_stamp
put_stamp-IsBytes m a dt h = update-IsBytes (a + 4) (u8 dt.second) (omega arith) (
    update-IsBytes (a + 3) (u8 dt.minute) (omega arith)
      (update-IsBytes (a + 2) (u8 dt.hour) (omega arith) (put_u16-IsBytes m a dt.mjd h)))

put_typefile-IsBytes :
    (m : Memory) (a : ℕ) (dt : TfDatetime) (size : ℕ) (name : List ℕ)
    → All (λ x. x < 256) name
    → IsBytes m
    → IsBytes (put_typefile m a dt size name)
unfolding put_typefile strncpy_bytes
put_typefile-IsBytes m a dt size name small h =
    write_range-IsBytes (a + name_at + 94) (replicate 6 0) (replicate-bytes 6) (
      write_range-IsBytes (a + name_at) _
        (append-bytes (take 94 name) _ (take-bytes 94 name small) (replicate-bytes _))
        (put_u64-IsBytes _ (a + size_at) size
          (update-IsBytes (a + filetype_at) 2 (omega arith) (put_stamp-IsBytes m a dt h))))

-- A descriptor leaves what stands before it.
put_stamp_below : (m : Memory) (a : ℕ) (dt : TfDatetime) (i : ℕ) → i < a → put_stamp m a dt i ≡ m i
unfolding put_stamp
put_stamp_below m a dt i h = ground (arith, put_u16-at m a dt.mjd i)

put_typefile_below :
    (m : Memory) (a : ℕ) (dt : TfDatetime) (size : ℕ) (name : List ℕ) (i : ℕ)
    → i < a
    → put_typefile m a dt size name i ≡ m i
unfolding put_typefile
put_typefile_below m a dt size name i h =
    let typed = update (put_stamp m a dt) (a + filetype_at) 2 in
    let sized = put_u64 typed (a + size_at) size in
    let named = write_range sized (a + name_at) (strncpy_bytes 94 name) in
    let same : typed i ≡ m i = ground (arith, put_stamp_below m a dt i h) in
    write_range_outside named (a + name_at + 94) (replicate 6 0) i (inl (omega arith))
    ∙ write_range_outside sized (a + name_at) (strncpy_bytes 94 name) i (inl (omega arith))
    ∙ put_u64_below typed (a + size_at) size i (omega arith)
    ∙ same

-- A packet with its length and its command set.
headed-lem :
    (m : Memory) (size cmd : ℕ)
    → size < 2 ^ 16
    → cmd < 2 ^ 32
    → (get_u16 (put_u32 (put_u16 m length_at size) cmd_at cmd) length_at ≡ size)
      × (get_u32 (put_u32 (put_u16 m length_at size) cmd_at cmd) cmd_at ≡ cmd)
headed-lem m size cmd h k =
    let base = put_u16 m length_at size in
    (
      get_u16_ext (put_u32 base cmd_at cmd) base length_at
            (ground (arith, put_u32-at base cmd_at cmd 0))
            (ground (arith, put_u32-at base cmd_at cmd 1))
          ∙ get_u16-put_u16 m length_at size
          ∙ omega arith,
      get_u32-put_u32 base cmd_at cmd ∙ omega arith,
    )

-- The START packet of an upload.
pub start_packet-IsStart :
    (s : Upload) → IsBytes s.puppy.packet → All (λ x. x < 256) s.name → IsStart (start_packet s)
start_packet-IsStart s memory small = record {
  sound = record {
    bytes =
        unfold start_packet in
        put_typefile-IsBytes _ data_at s.stamp s.file_size s.name small
          (put_u32-IsBytes _ cmd_at data_hdd_file_start (put_u16-IsBytes _ length_at _ memory));
    low = omega (arith, size);
    high = omega (arith, size);
  };
  code =
      get_u32_ext (start_packet s) headed cmd_at (below 4 (omega arith)) (below 5 (omega arith))
        (below 6 (omega arith)) (below 7 (omega arith))
      ∙ fields.1;
  room = omega (arith, size);
}
  where
    headed : Memory
    headed = put_u32 (put_u16 s.puppy.packet length_at 122) cmd_at data_hdd_file_start

    fields : (get_u16 headed length_at ≡ 122) × (get_u32 headed cmd_at ≡ data_hdd_file_start)
    fields = headed-lem s.puppy.packet 122 data_hdd_file_start (omega arith) (omega arith)

    below : (i : ℕ) → i < 8 → start_packet s i ≡ headed i
    below i h =
        unfold start_packet in put_typefile_below headed data_at s.stamp s.file_size s.name i h

    size : get_u16 (start_packet s) length_at ≡ 122
    size =
        get_u16_ext (start_packet s) headed length_at (below 0 (omega arith))
          (below 1 (omega arith))
        ∙ fields.0

-- The END packet of an upload.
pub end_packet-IsEnd : (s : Upload) → IsBytes s.puppy.packet → IsEnd (end_packet s)
unfolding end_packet
end_packet-IsEnd s memory =
    let fields = headed-lem s.puppy.packet 8 data_hdd_file_end (omega arith) (omega arith) in
    record {
      sound = record {
        bytes = put_u32-IsBytes _ cmd_at data_hdd_file_end (put_u16-IsBytes _ length_at 8 memory);
        low = omega (arith, fields.0);
        high = omega (arith, fields.0);
      };
      code = fields.1;
    }
