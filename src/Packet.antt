-- ===== src/Packet.antt =====
-- The packets of the device (usb_io.h and the packet routines of usb_io.c). A packet is a region
-- of memory, read and written at the offsets of `struct tf_packet`.
pub mod Commands
pub mod Swap
pub mod Seal
pub mod Typefile
use libpuppy.Base.{ℕ, zero, suc, ◌+◌, ◌-◌, ◌/◌, ◌^◌, ltb, if◌then◌else◌, ◌==◌}
use libpuppy.Base.Memory.{Memory, update, u64, clear_low_bit}
use libpuppy.Bytes.{get_u16, get_u16_raw, put_u16, get_u32}
use libpuppy.Crc16.{crc16_ansi}

abbrev pub maximum_packet_size : ℕ
maximum_packet_size = 0xffff

abbrev pub packet_head_size : ℕ
packet_head_size = 8

-- The offsets of the fields of `struct tf_packet`, which is packed.
abbrev pub length_at : ℕ
length_at = 0

abbrev pub crc_at : ℕ
crc_at = 2

abbrev pub cmd_at : ℕ
cmd_at = 4

abbrev pub data_at : ℕ
data_at = 8

-- The rounds of the loop that are left, from index `i` on.
byte_swap_from : ℕ → ℕ → Memory → Memory
byte_swap_from zero i d = d
byte_swap_from (suc rounds) i d =
    let t = d i in byte_swap_from rounds (i + 2) (update (update d i (d (i + 1))) (i + 1) t)

-- `i` runs over the even numbers below `count & ~1`.
unfoldable pub byte_swap : Memory → ℕ → Memory
unfolding byte_swap_from
byte_swap d count = byte_swap_from (clear_low_bit count / 2) 0 d

unfoldable pub swap_in_packet : Memory → Memory
swap_in_packet packet =
    let size = clear_low_bit (get_u16_raw packet length_at + 1) in
    byte_swap packet (if ltb maximum_packet_size size then maximum_packet_size else size)

unfoldable pub swap_out_packet : Memory → Memory
swap_out_packet packet = byte_swap packet (clear_low_bit (get_u16 packet length_at + 1))

-- The `int` difference becomes a `size_t`, so a length below 4 would wrap.
unfoldable pub get_crc : Memory → ℕ
get_crc packet = crc16_ansi packet cmd_at (u64 (get_u16 packet length_at + 2 ^ 64 - 4))

-- The texts of `decode_error`.
pub data ErrorText : Type 0 where
  crc_error unknown_command invalid_command invalid_block_size unknown_error_while_running :
      ErrorText
  memory_is_full unknown_error : ErrorText

unfoldable pub decode_error : Memory → ErrorText
decode_error packet =
    let ecode = get_u32 packet data_at in
    if ecode == 1
    then crc_error
    else if ecode == 2
    then unknown_command
    else if ecode == 4
    then unknown_command
    else if ecode == 3
    then invalid_command
    else if ecode == 5
    then invalid_block_size
    else if ecode == 6
    then unknown_error_while_running
    else if ecode == 7
    then memory_is_full
    else unknown_error
