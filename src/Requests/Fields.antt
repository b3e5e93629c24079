-- ===== src/Requests/Fields.antt =====
-- The fields of each request with a path that is not refused.
use libpuppy.Base.{
  ℕ, zero, suc, ◌+◌, ◌/◌, ◌%◌, ◌^◌, ◌<◌, ◌≡◌, refl, arith, List, [], ◌∷◌, ◌++◌, length, get_or, leb,
  false,
}
use libpuppy.Base.Memory.{Memory, IsBytes, u8, u16, update, update-IsBytes}
use libpuppy.Bytes.{put_u16}
use libpuppy.Bytes.RoundTrip.{put_u16-at, put_u16-IsBytes}
use libpuppy.Packet.{maximum_packet_size, data_at}
use libpuppy.Packet.Commands.{cmd_hdd_dir, cmd_hdd_file_send, cmd_hdd_del, cmd_hdd_create_dir}
use libpuppy.Requests.{
  exceeds, CString, ready, strcpy, header, even_size, hdd_dir_request, hdd_file_send_request,
  hdd_del_request, hdd_create_dir_request,
}
use libpuppy.Requests.Layout.{
  IsReady, AreBytes, terminated, last_string, header-IsBytes, round_up, even_size-round_up,
}

-- A 16-bit number as two bytes, the high one first.
abbrev pub two_bytes : ℕ → List ℕ
two_bytes n = (n / 2 ^ 8 % 2 ^ 8) ∷ (n % 2 ^ 8) ∷ []

path_alone :
    (req : Memory) (path : CString) (cmd : ℕ)
    → IsBytes req
    → AreBytes path
    → cmd < 2 ^ 32
    → length path < 65526
    → IsReady
        (strcpy (header req (even_size (8 + (length path + 1))) cmd) data_at path ready)
        (round_up (8 + (length path + 1)))
        cmd
        (terminated path)
path_alone req path cmd mem chars small fits =
    rw (even_size-round_up (8 + (length path + 1)) (omega arith)) (
      last_string req (header req size cmd) size cmd [] path (λ i h. absurd (omega arith))
        (λ i h. refl) (header-IsBytes req size cmd mem) chars (omega arith) small (omega arith))
  where
    size : ℕ
    size = round_up (8 + (length path + 1))

-- A request for a listing or a deletion, with a path of bytes that is not refused, is a packet
-- with the command, the path with its final zero, and the length rounded up to an even number.
pub path_requests-IsReady :
    (req : Memory) (path : CString)
    → IsBytes req
    → AreBytes path
    → length path < 65526
    → IsReady
        (hdd_dir_request req path)
        (round_up (8 + (length path + 1)))
        cmd_hdd_dir
        (terminated path)
      × IsReady
          (hdd_del_request req path)
          (round_up (8 + (length path + 1)))
          cmd_hdd_del
          (terminated path)
unfolding hdd_dir_request hdd_del_request
path_requests-IsReady req path mem chars fits =
    let test : exceeds (8 + (length path + 1)) ≡ false = unfold exceeds in ground arith in
    rw test (
      path_alone req path cmd_hdd_dir mem chars (omega arith) fits,
      path_alone req path cmd_hdd_del mem chars (omega arith) fits,
    )

-- A request to make a directory, with a path of fewer than 65524 bytes, is a packet of bytes with the
-- command, the length of the terminated path in two bytes, the path with its final zero, and the
-- packet's length rounded up to an even number.
pub create_dir_request-IsReady :
    (req : Memory) (path : CString)
    → IsBytes req
    → AreBytes path
    → length path < 65524
    → IsReady
        (hdd_create_dir_request req path)
        (round_up (10 + (length path + 1)))
        cmd_hdd_create_dir
        (two_bytes (length path + 1) ++ terminated path)
unfolding hdd_create_dir_request
create_dir_request-IsReady req path mem chars fits =
    let n = length path + 1 in
    let exact : u16 n ≡ n = omega arith in
    let test : leb maximum_packet_size (8 + 2 + n) ≡ false = ground arith in
    let size = round_up (10 + n) in
    let even : even_size (8 + 2 + n) ≡ size = omega arith in
    let r1 = header req size cmd_hdd_create_dir in
    rw (exact, test, even)
      (last_string req (put_u16 r1 data_at n) size cmd_hdd_create_dir (two_bytes n) path
        (λ i h. kept r1 n i h) (λ i h. ground (arith, put_u16-at r1 data_at n i))
        (put_u16-IsBytes r1 data_at n (header-IsBytes req size cmd_hdd_create_dir mem)) chars
        (omega arith) (omega arith) (omega arith))
  where
    kept :
        (r : Memory) (n i : ℕ)
        → i < 2
        → put_u16 r data_at n (data_at + i) ≡ get_or (two_bytes n) i 0
    kept r n zero h = ground (arith, put_u16-at r data_at n data_at)
    kept r n (suc zero) h = ground (arith, put_u16-at r data_at n (data_at + 1))
    kept r n (suc (suc i)) h = absurd (omega arith)

-- A request for a file transfer, with a path of bytes that is not refused, is a packet with the
-- command, the direction, the length of the terminated path in two bytes, the path with its final
-- zero, and the packet's length rounded up to an even number.
pub file_send_request-IsReady :
    (req : Memory) (dir : ℕ) (path : CString)
    → IsBytes req
    → AreBytes path
    → length path < 65523
    → IsReady
        (hdd_file_send_request req dir path)
        (round_up (11 + (length path + 1)))
        cmd_hdd_file_send
        ((u8 dir ∷ two_bytes (length path + 1)) ++ terminated path)
unfolding hdd_file_send_request
file_send_request-IsReady req dir path mem chars fits =
    let n = length path + 1 in
    let test : exceeds (8 + 1 + 2 + n) ≡ false = unfold exceeds in ground arith in
    let size = round_up (11 + n) in
    let even : even_size (8 + 1 + 2 + n) ≡ size = omega arith in
    let r1 = header req size cmd_hdd_file_send in
    let r2 = update r1 data_at (u8 dir) in
    rw (test, even)
      (last_string req (put_u16 r2 (data_at + 1) n) size cmd_hdd_file_send (u8 dir ∷ two_bytes n)
        path (λ i h. kept r1 n i h (omega arith))
        (λ i h. ground (arith, put_u16-at r2 (data_at + 1) n i))
        (put_u16-IsBytes r2 (data_at + 1) n (
          update-IsBytes data_at (u8 dir) (omega arith)
            (header-IsBytes req size cmd_hdd_file_send mem)))
        chars (omega arith) (omega arith) (omega arith))
  where
    kept :
        (r : Memory) (n i : ℕ)
        → i < 3
        → n < 2 ^ 16
        → put_u16 (update r data_at (u8 dir)) (data_at + 1) n (data_at + i)
          ≡ get_or (u8 dir ∷ two_bytes n) i 0
    kept r n zero h k =
        ground (arith, put_u16-at (update r data_at (u8 dir)) (data_at + 1) n data_at)
    kept r n (suc zero) h k =
        ground (arith, put_u16-at (update r data_at (u8 dir)) (data_at + 1) n (data_at + 1))
    kept r n (suc (suc zero)) h k =
        ground (arith, put_u16-at (update r data_at (u8 dir)) (data_at + 1) n (data_at + 2))
    kept r n (suc (suc (suc i))) h k = absurd (omega arith)
