-- ===== src/Tests/Wire.antt =====
-- Transfers and packets on a concrete device.
use libpuppy.Base.{
  ℕ, ◌+◌, ◌/◌, ◌≤◌, ◌<◌, ◌≡◌, max, refl, arith, some, [], ◌∷◌, ◌++◌, length, flatten, All, false,
}
use libpuppy.Base.Memory.{Memory, IsBytes, read_range}
use libpuppy.Bytes.{get_u16, put_u16, put_u32}
use libpuppy.Bytes.RoundTrip.{put_u16-IsBytes, put_u32-IsBytes}
use libpuppy.Packet.{length_at, crc_at, cmd_at, get_crc}
use libpuppy.Packet.Commands.{success}
use libpuppy.Usb.{Usb, max_transfer, usb_bulk_write, usb_bulk_read}
use libpuppy.Usb.Write.{willing, usb_bulk_write_lem}
use libpuppy.Usb.Read.{delivery}
use libpuppy.Transport.{get_tf_packet, send_tf_packet}
use libpuppy.Transport.Receive.{get_tf_packet_bounds}
use libpuppy.Transport.RoundTrip.{get_tf_packet-send_tf_packet}
use libpuppy.Tests.Codec.{blank, blank-IsBytes}

abbrev pub quiet : Usb
quiet = record { reads = []; writes = []; sent = []; warnings = []; ignore_crc = false }

-- A device that has taken a byte and takes one whole page more.
abbrev taking : Usb
taking = record (quiet) { writes = willing 1; sent = (7 ∷ []) ∷ [] }

usb_bulk_write_lem_example :
    let (count, u') = usb_bulk_write taking blank 10 in
    (count ≤ 10)
    × (flatten u'.sent ≡ flatten taking.sent ++ read_range blank 0 count)
    × All (λ xs. length xs ≤ max_transfer) u'.sent
    × (length taking.writes ≤ length u'.writes + max 1 10)
usb_bulk_write_lem_example = usb_bulk_write_lem taking blank 10 (ground arith)

-- A device that delivers a region and then a page more.
abbrev pub device_of : Memory → ℕ → Usb
device_of m n = record (quiet) { reads = delivery (n / max_transfer) m 0 n ++ (some (9 ∷ []) ∷ []) }

-- A SUCCESS packet.
abbrev pub answer : Memory
answer = put_u32 (put_u16 blank length_at 8) cmd_at success

pub answer-IsBytes : IsBytes answer
answer-IsBytes = put_u32-IsBytes _ cmd_at success (put_u16-IsBytes blank length_at 8 blank-IsBytes)

abbrev pub answered : Memory
answered = (send_tf_packet quiet answer).1

abbrev answering : Usb
answering = device_of answered 8

-- The packet comes back with its CRC.
get_tf_packet-send_tf_packet_example :
    let (ret, packet, v') = get_tf_packet answering blank in
    (ret ≡ some 8)
    × ((i : ℕ) → i < 8 → packet i ≡ put_u16 answer crc_at (get_crc answer) i)
    × (v'.warnings ≡ answering.warnings)
    × (v'.reads ≡ some (9 ∷ []) ∷ [])
unfolding send_tf_packet get_u16 put_u16 put_u32
get_tf_packet-send_tf_packet_example =
    get_tf_packet-send_tf_packet answer blank quiet answering (some (9 ∷ []) ∷ []) answer-IsBytes
      (omega arith) (omega arith) refl

received : (get_tf_packet answering blank).0 ≡ some 8
unfolding get_tf_packet send_tf_packet usb_bulk_read get_u16 put_u16 put_u32 libpuppy.Usb.read_loop
    libpuppy.Packet.swap_in_packet libpuppy.Packet.byte_swap libpuppy.Bytes.get_u16_raw
    libpuppy.Packet.swap_out_packet
received = refl

get_tf_packet_bounds_example :
    (8 ≤ 8) × (8 ≤ 65535) × (8 ≤ get_u16 (get_tf_packet answering blank).1 length_at)
get_tf_packet_bounds_example = get_tf_packet_bounds answering blank 8 received
