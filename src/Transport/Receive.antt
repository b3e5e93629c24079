-- ===== src/Transport/Receive.antt =====
-- What `get_tf_packet` promises whatever the device does.
use libpuppy.Base.{ℕ, ◌≤◌, ◌<◌, ◌≡◌, refl, arith, some, length}
use libpuppy.Base.Memory.{Memory}
use libpuppy.Bytes.{get_u16}
use libpuppy.Packet.{length_at, maximum_packet_size, swap_in_packet}
use libpuppy.Usb.{Usb, usb_bulk_read, usb_bulk_write}
use libpuppy.Usb.Read.{usb_bulk_read_lem, usb_bulk_read-rest}
use libpuppy.Transport.{
  get_tf_packet, send_tf_packet, send_success, send_cancel, acknowledge_data, check_crc,
}

-- A packet that `get_tf_packet` hands over has at least a header and at most 65535 bytes, and its
-- length field is at least 8.
pub get_tf_packet_bounds :
    (u : Usb) (packet : Memory) (r : ℕ)
    → (get_tf_packet u packet).0 ≡ some r
    → (8 ≤ r) × (r ≤ 65535) × (8 ≤ get_u16 (get_tf_packet u packet).1 length_at)
unfolding get_tf_packet
get_tf_packet_bounds u packet r h = ground (arith, usb_bulk_read_lem u packet 65535)

-- Sending leaves the answers of the reading side alone.
pub reads-send_success : (u : Usb) → (send_success u).1.reads ≡ u.reads
unfolding send_success usb_bulk_write
reads-send_success u = refl

pub reads-send_cancel : (u : Usb) → (send_cancel u).1.reads ≡ u.reads
unfolding send_cancel usb_bulk_write
reads-send_cancel u = refl

pub reads-send_tf_packet : (u : Usb) (m : Memory) → (send_tf_packet u m).2.reads ≡ u.reads
unfolding send_tf_packet usb_bulk_write
reads-send_tf_packet u m = refl

pub reads-acknowledge_data : (u : Usb) (m : Memory) → (acknowledge_data u m).reads ≡ u.reads
unfolding acknowledge_data
reads-acknowledge_data u m = ground (arith, reads-send_success u)

pub reads-check_crc : (u : Usb) (m : Memory) → (check_crc u m).reads ≡ u.reads
unfolding check_crc
reads-check_crc u m = ground arith

-- A packet that is received has used up an answer.
pub get_tf_packet-rest :
    (u : Usb) (packet : Memory) (r : ℕ)
    → (get_tf_packet u packet).0 ≡ some r
    → length (get_tf_packet u packet).2.reads < length u.reads
unfolding get_tf_packet
get_tf_packet-rest u packet r h =
    let run = usb_bulk_read u packet maximum_packet_size in
    let acknowledged = acknowledge_data run.2 run.1 in
    ground (
      arith,
      usb_bulk_read-rest u packet maximum_packet_size,
      reads-check_crc acknowledged (swap_in_packet run.1),
      reads-acknowledge_data run.2 run.1,
    )
