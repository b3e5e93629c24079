-- ===== src/Transport.antt =====
-- Sending and receiving whole packets (usb_io.c). The calls of `print_packet` are left out.
pub mod Receive
pub mod RoundTrip
pub mod Replies
use libpuppy.Base.{ℕ, ◌+◌, ltb, ◌==◌, not, if◌then◌else◌, Option, none, some, List, [], ◌∷◌, length}
use libpuppy.Base.Memory.{Memory, write_range, clear_low_bit}
use libpuppy.Bytes.{get_u16, put_u16, get_u32_raw}
use libpuppy.Packet.{
  maximum_packet_size, packet_head_size, length_at, crc_at, cmd_at, get_crc, swap_in_packet,
  swap_out_packet,
}
use libpuppy.Packet.Commands.{data_hdd_file_data}
use libpuppy.Usb.{Usb, usb_bulk_write, usb_bulk_read, warn_if, crc_mismatch}

abbrev pub cancel_packet : List ℕ
cancel_packet = 0x08 ∷ 0x00 ∷ 0x40 ∷ 0x01 ∷ 0x00 ∷ 0x00 ∷ 0x03 ∷ 0x00 ∷ []

abbrev pub success_packet : List ℕ
success_packet = 0x08 ∷ 0x00 ∷ 0x81 ∷ 0xc1 ∷ 0x00 ∷ 0x00 ∷ 0x02 ∷ 0x00 ∷ []

-- A static array as a region.
abbrev pub static_bytes : List ℕ → Memory
static_bytes = write_range (λ _. 0) 0

unfoldable pub send_cancel : Usb → ℕ × Usb
send_cancel u = usb_bulk_write u (static_bytes cancel_packet) 8

unfoldable pub send_success : Usb → ℕ × Usb
send_success u = usb_bulk_write u (static_bytes success_packet) 8

-- The return value, the packet as it is left, with its CRC and byte-swapped, and the new state.
unfoldable pub send_tf_packet : Usb → Memory → ℕ × Memory × Usb
send_tf_packet u packet =
    let pl = get_u16 packet length_at in
    let byte_count = clear_low_bit (pl + 1) in
    let wire = swap_out_packet (put_u16 packet crc_at (get_crc packet)) in
    let (sent, u') = usb_bulk_write u wire byte_count in (sent, wire, u')

-- What follows the header checks: the CRC is compared, and a mismatch is only reported.
unfoldable pub check_crc : Usb → Memory → Usb
check_crc u packet =
    let crc = get_u16 packet crc_at in
    let calc_crc = get_crc packet in
    if u.ignore_crc then u else record u {
      warnings = warn_if (not (crc == calc_crc)) (crc_mismatch crc calc_crc) u.warnings;
    }

-- SUCCESS goes out as soon as a data packet is seen.
unfoldable pub acknowledge_data : Usb → Memory → Usb
acknowledge_data u packet =
    if get_u32_raw packet cmd_at == data_hdd_file_data then (send_success u).1 else u

-- `none` is -1. `usb_bulk_read` never returns a negative number, so the first test of the source,
-- `r < 0`, has no case here.
unfoldable pub get_tf_packet : Usb → Memory → Option ℕ × Memory × Usb
get_tf_packet u packet =
    let (r, buf, u1) = usb_bulk_read u packet maximum_packet_size in
    let u2 = acknowledge_data u1 buf in
    let p = swap_in_packet buf in
    if ltb r packet_head_size
    then (none, buf, u1)
    else if ltb (get_u16 p length_at) packet_head_size
    then (none, p, u2)
    else (some r, p, check_crc u2 p)
