-- ===== src/Requests.antt =====
-- The requests of usb_io.c (`send_cmd_*`). Each is built in a local `struct tf_packet` whose
-- initial contents, `req`, may be anything. A path is its bytes, without the final zero.
pub mod Layout
pub mod Overrun
pub mod Fields
use libpuppy.Base.{
  Bool, ℕ, ◌+◌, Option, none, some, List, [], ◌∷◌, ◌++◌, length, leb, ltb, ◌^◌, ◌&&◌, if◌then◌else◌,
}
use libpuppy.Base.Memory.{Memory, update, write_range, u8, u16, u32, clear_low_bit}
use libpuppy.Bytes.{put_u16, put_u32}
use libpuppy.Packet.{maximum_packet_size, packet_head_size, length_at, cmd_at, data_at}
use libpuppy.Packet.Commands.{
  cmd_ready, cmd_reset, cmd_turbo, cmd_hdd_size, cmd_hdd_dir, cmd_hdd_file_send, cmd_hdd_del,
  cmd_hdd_rename, cmd_hdd_create_dir,
}
use libpuppy.Usb.{Usb}
use libpuppy.Transport.{send_tf_packet}

abbrev pub CString : Type 0
CString = List ℕ

-- What becomes of the local packet: "Path is too long.", a write past its end, which C leaves
-- undefined, or a packet to send.
pub data Request : Type 0 where
  too_long overrun : Request
  ready : Memory → Request

-- The return value of a request: -1, or the number of bytes that were sent.
pub data Ret : Type 0 where
  failed : Ret
  count : ℕ → Ret

-- `strcpy` into the packet at offset `a`.
unfoldable pub strcpy : Memory → ℕ → CString → (Memory → Request) → Request
strcpy m a s next =
    if leb (a + (length s + 1)) maximum_packet_size
    then next (write_range m a (s ++ (0 ∷ [])))
    else overrun

-- `put_u16(&req.length, packetSize); put_u32(&req.cmd, cmd);`
unfoldable pub header : Memory → ℕ → ℕ → Memory
header req size cmd = put_u32 (put_u16 req length_at size) cmd_at cmd

-- `packetSize = size; packetSize = (packetSize + 1) & ~1;` in 16 bits.
abbrev pub even_size : ℕ → ℕ
even_size size = u16 (clear_low_bit (u16 size + 1))

-- `size >= MAXIMUM_PACKET_SIZE` for a sum of type `int`: `pathLen` is an `int`, and so is what is added
-- to it, so that both are negative from 2 ^ 31 on. Where the sum overflows it is taken to wrap.
unfoldable pub exceeds : ℕ → Bool
exceeds size = ltb (u32 size) (2 ^ 31) && leb maximum_packet_size (u32 size)

unfoldable pub ready_request : Memory → Request
ready_request req = ready (header req 8 cmd_ready)

unfoldable pub reset_request : Memory → Request
reset_request req = ready (header req 8 cmd_reset)

unfoldable pub turbo_request : Memory → ℕ → Request
turbo_request req turbo_on = ready (put_u32 (header req 12 cmd_turbo) data_at turbo_on)

unfoldable pub hdd_size_request : Memory → Request
hdd_size_request req = ready (header req 8 cmd_hdd_size)

unfoldable pub hdd_dir_request : Memory → CString → Request
hdd_dir_request req path =
    let path_len = length path + 1 in
    if exceeds (packet_head_size + path_len)
    then too_long
    else strcpy (header req (even_size (packet_head_size + path_len)) cmd_hdd_dir) data_at path
        ready

unfoldable pub hdd_file_send_request : Memory → ℕ → CString → Request
hdd_file_send_request req dir path =
    let path_len = length path + 1 in
    if exceeds (packet_head_size + 1 + 2 + path_len)
    then too_long
    else let r1 = header req (even_size (packet_head_size + 1 + 2 + path_len)) cmd_hdd_file_send in
      let r2 = put_u16 (update r1 data_at (u8 dir)) (data_at + 1) path_len in
      strcpy r2 (data_at + 3) path ready

unfoldable pub hdd_del_request : Memory → CString → Request
hdd_del_request req path =
    let path_len = length path + 1 in
    if exceeds (packet_head_size + path_len)
    then too_long
    else strcpy (header req (even_size (packet_head_size + path_len)) cmd_hdd_del) data_at path
        ready

-- Here the lengths are `__u16`.
unfoldable pub hdd_rename_request : Memory → CString → CString → Request
hdd_rename_request req src dst =
    let src_len = u16 (length src + 1) in
    let dst_len = u16 (length dst + 1) in
    let size = packet_head_size + 2 + src_len + 2 + dst_len in
    if leb maximum_packet_size size
    then too_long
    else let r1 = put_u16 (header req (even_size size) cmd_hdd_rename) data_at src_len in
      strcpy r1 (data_at + 2) src λ r2.
        strcpy (put_u16 r2 (data_at + 2 + src_len) dst_len) (data_at + 2 + src_len + 2) dst ready

unfoldable pub hdd_create_dir_request : Memory → CString → Request
hdd_create_dir_request req path =
    let path_len = u16 (length path + 1) in
    let size = packet_head_size + 2 + path_len in
    if leb maximum_packet_size size
    then too_long
    else strcpy (put_u16 (header req (even_size size) cmd_hdd_create_dir) data_at path_len)
        (data_at + 2) path ready

-- Sends what was built; `none` where the packet was overrun.
unfoldable pub send_request : Usb → Request → Option (Ret × Usb)
send_request u too_long = some (failed, u)
send_request u overrun = none
send_request u (ready m) = let (n, wire, u') = send_tf_packet u m in some (count n, u')

unfoldable pub send_cmd_ready : Usb → Memory → Option (Ret × Usb)
send_cmd_ready u req = send_request u (ready_request req)

unfoldable pub send_cmd_reset : Usb → Memory → Option (Ret × Usb)
send_cmd_reset u req = send_request u (reset_request req)

unfoldable pub send_cmd_turbo : Usb → Memory → ℕ → Option (Ret × Usb)
send_cmd_turbo u req turbo_on = send_request u (turbo_request req turbo_on)

unfoldable pub send_cmd_hdd_size : Usb → Memory → Option (Ret × Usb)
send_cmd_hdd_size u req = send_request u (hdd_size_request req)

unfoldable pub send_cmd_hdd_dir : Usb → Memory → CString → Option (Ret × Usb)
send_cmd_hdd_dir u req path = send_request u (hdd_dir_request req path)

unfoldable pub send_cmd_hdd_file_send : Usb → Memory → ℕ → CString → Option (Ret × Usb)
send_cmd_hdd_file_send u req dir path = send_request u (hdd_file_send_request req dir path)

unfoldable pub send_cmd_hdd_del : Usb → Memory → CString → Option (Ret × Usb)
send_cmd_hdd_del u req path = send_request u (hdd_del_request req path)

unfoldable pub send_cmd_hdd_rename : Usb → Memory → CString → CString → Option (Ret × Usb)
send_cmd_hdd_rename u req src dst = send_request u (hdd_rename_request req src dst)

unfoldable pub send_cmd_hdd_create_dir : Usb → Memory → CString → Option (Ret × Usb)
send_cmd_hdd_create_dir u req path = send_request u (hdd_create_dir_request req path)
