-- ===== src/FilePut/Packets.antt =====
-- The packets of an upload.
use libpuppy.Base.{ℕ, ◌+◌, ◌%◌, ◌^◌, ◌≤◌, ◌<◌, ◌≡◌, ◌≢◌, ◌∙◌, arith, List, length}
use libpuppy.Base.Memory.{
  Memory, read_range, write_range, read_range_ext, read_range-write_range, clear_low_bit,
}
use libpuppy.Bytes.{get_u16, get_u32, get_u64, put_u16, put_u32}
use libpuppy.Bytes.Value.{get_u16_ext, get_u32_ext}
use libpuppy.Bytes.RoundTrip.{
  get_u16-put_u16, get_u32-put_u32, get_u64-put_u64, put_u16-at, put_u32-at, put_u64_below,
  put_u64_above,
}
use libpuppy.Packet.{length_at, cmd_at, data_at}
use libpuppy.Packet.Commands.{data_hdd_file_data}
use libpuppy.Transport.RoundTrip.{frame_size}
use libpuppy.FilePut.{Upload, adjusted, data_packet, payload_size}

-- At most four bytes are held back, and then the frame is no multiple of 512 bytes.
pub adjusted_lem :
    (w : ℕ)
    → (adjusted w ≤ w)
      × (w ≤ adjusted w + 4)
      × ((0 < w) → 0 < adjusted w)
      × (clear_low_bit (16 + adjusted w + 1) % 0x200 ≢ 0)
unfolding adjusted
adjusted_lem w = (ground arith, ground arith, ground arith, ground arith)

-- A packet of a range of the source file, whatever the buffer held.
module _ (s : Upload) (bytes : List ℕ) where
  abbrev packet : Memory
  packet = data_packet s bytes

  abbrev payload : Memory
  payload = write_range (s.puppy.packet) (data_at + 8) bytes

  abbrev lengthy : Memory
  lengthy = put_u16 payload length_at (16 + adjusted (length bytes))

  abbrev headed : Memory
  headed = put_u32 lengthy cmd_at data_hdd_file_data

  below-data : (i : ℕ) → i < data_at → packet i ≡ headed i
  unfolding data_packet
  below-data i h = put_u64_below headed data_at s.byte_count i h

  pub length_lem :
      length bytes ≤ payload_size → get_u16 packet length_at ≡ 16 + adjusted (length bytes)
  length_lem h =
      get_u16_ext packet lengthy 0
        (below-data 0 (omega arith)
          ∙ ground (arith, put_u32-at lengthy cmd_at data_hdd_file_data 0))
        (below-data 1 (omega arith)
          ∙ ground (arith, put_u32-at lengthy cmd_at data_hdd_file_data 1))
      ∙ get_u16-put_u16 payload length_at (16 + adjusted (length bytes))
      ∙ omega (arith, adjusted_lem (length bytes))

  pub cmd_lem : get_u32 packet cmd_at ≡ data_hdd_file_data
  cmd_lem =
      get_u32_ext packet headed 4 (below-data 4 (omega arith)) (below-data 5 (omega arith))
        (below-data 6 (omega arith)) (below-data 7 (omega arith))
      ∙ get_u32-put_u32 lengthy cmd_at data_hdd_file_data

  offset_lem : s.byte_count < 2 ^ 64 → get_u64 packet data_at ≡ s.byte_count
  unfolding data_packet
  offset_lem h = get_u64-put_u64 headed data_at s.byte_count ∙ omega arith

  past-offset : (i : ℕ) → 16 ≤ i → packet i ≡ payload i
  unfolding data_packet
  past-offset i h =
      put_u64_above headed data_at s.byte_count i (omega arith)
      ∙ ground (
        arith,
        put_u32-at lengthy cmd_at data_hdd_file_data i,
        put_u16-at payload length_at (16 + adjusted (length bytes)) i,
      )

  pub payload_lem : read_range packet 16 (length bytes) ≡ bytes
  payload_lem =
      read_range_ext packet payload 16 (length bytes) (λ i p q. past-offset i p)
      ∙ read_range-write_range (s.puppy.packet) 16 bytes

-- The packet for bytes that were read, no more than the payload's size, has the command
-- DATA_HDD_FILE_DATA, the count of the bytes sent before, below 2 ^ 64, as its offset, and the bytes behind it. Its
-- length covers the header, the offset and all of the bytes, or all but the last four; its frame is
-- never a multiple of 512 bytes.
pub data_packet_lem :
    (s : Upload) (bytes : List ℕ)
    → length bytes ≤ payload_size
    → s.byte_count < 2 ^ 64
    → let packet = data_packet s bytes in
      (get_u32 packet cmd_at ≡ data_hdd_file_data)
      × (get_u64 packet data_at ≡ s.byte_count)
      × (read_range packet 16 (length bytes) ≡ bytes)
      × (get_u16 packet length_at ≤ 16 + length bytes)
      × (16 + length bytes ≤ get_u16 packet length_at + 4)
      × (frame_size packet % 0x200 ≢ 0)
data_packet_lem s bytes h k =
    let (le, ge, pos, odd) = adjusted_lem (length bytes) in
    let size = length_lem s bytes h in
    (
      cmd_lem s bytes,
      offset_lem s bytes k,
      payload_lem s bytes,
      omega (arith, size),
      omega (arith, size),
      rw size odd,
    )
