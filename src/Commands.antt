-- ===== src/Commands.antt =====
-- The functions of libpuppy.c that send one request and act on one reply. `req` is what the
-- request's local packet holds at first; `none` is a write past that packet.
pub mod Outcome
use libpuppy.Base.{ℕ, ◌+◌, Option, none, some, ◌==◌, if◌then◌else◌}
use libpuppy.Base.Memory.{Memory}
use libpuppy.Bytes.{get_u32}
use libpuppy.Packet.{cmd_at, data_at, decode_error}
use libpuppy.Packet.Commands.{success, fail, data_hdd_size}
use libpuppy.Requests.{
  CString, Ret, failed, count, send_cmd_turbo, send_cmd_reset, send_cmd_ready, send_cmd_hdd_size,
  send_cmd_hdd_del, send_cmd_hdd_rename, send_cmd_hdd_create_dir,
}
use libpuppy.Session.{
  Puppy, Code, done, neg_eproto, neg_one, receive, say, rebooting, ready_report, cancelled,
  unhandled_packet, device_reports, disk_sizes,
}
use libpuppy.Transport.{send_cancel}
use libpuppy.Usb.{Usb}

-- `r = send...; if(r < 0) return -EPROTO; r = get_tf_packet(...); if(r < 0) return -EPROTO;`, and
-- then the switch on the reply.
unfoldable pub exchange :
    Puppy → Option (Ret × Usb) → (Puppy → Code × Puppy) → Option (Code × Puppy)
exchange p none dispatch = none
exchange p (some (failed, u)) dispatch = some (neg_eproto, record p { usb = u })
exchange p (some (count n, u)) dispatch =
    let (r, p') = receive (record p { usb = u }) in
    some (elim r [ none ↦ (neg_eproto, p') | some n ↦ dispatch p' ])

-- The cases FAIL and default of a switch.
unfoldable pub refused : Code → Puppy → Code × Puppy
refused unhandled p =
    if get_u32 p.reply cmd_at == fail
    then (neg_eproto, say (device_reports (decode_error p.reply)) p)
    else (unhandled, say unhandled_packet p)

-- The command of the reply.
abbrev pub reply_cmd : Puppy → ℕ
reply_cmd p = get_u32 p.reply cmd_at

unfoldable pub puppy_turbo : Puppy → Memory → ℕ → Option (Code × Puppy)
puppy_turbo p req state =
    exchange p (send_cmd_turbo p.usb req state)
      λ q. if reply_cmd q == success then (done, q) else refused neg_eproto q

unfoldable pub puppy_reset : Puppy → Memory → Option (Code × Puppy)
puppy_reset p req =
    exchange p (send_cmd_reset p.usb req)
      λ q. if reply_cmd q == success then (done, say rebooting q) else refused neg_eproto q

-- An unhandled packet gives -1 here.
unfoldable pub puppy_ready : Puppy → Memory → Option (Code × Puppy)
puppy_ready p req =
    exchange p (send_cmd_ready p.usb req)
      λ q. if reply_cmd q == success then (done, say ready_report q) else refused neg_one q

unfoldable pub puppy_cancel : Puppy → Option (Code × Puppy)
puppy_cancel p =
    let (sent, u) = send_cancel p.usb in
    exchange p (some (count sent, u))
      λ q. if reply_cmd q == success then (done, say cancelled q) else refused neg_eproto q

-- The sizes are in kiB.
unfoldable pub puppy_hdd_size : Puppy → Memory → Option (Code × Puppy)
puppy_hdd_size p req = exchange p (send_cmd_hdd_size p.usb req) λ q.
    if reply_cmd q == data_hdd_size
    then (done, say (disk_sizes (get_u32 q.reply data_at) (get_u32 q.reply (data_at + 4))) q)
    else refused neg_eproto q

unfoldable pub puppy_hdd_del : Puppy → Memory → CString → Option (Code × Puppy)
puppy_hdd_del p req path =
    exchange p (send_cmd_hdd_del p.usb req path)
      λ q. if reply_cmd q == success then (done, q) else refused neg_eproto q

unfoldable pub puppy_hdd_rename : Puppy → Memory → CString → CString → Option (Code × Puppy)
puppy_hdd_rename p req src dst =
    exchange p (send_cmd_hdd_rename p.usb req src dst)
      λ q. if reply_cmd q == success then (done, q) else refused neg_eproto q

unfoldable pub puppy_hdd_mkdir : Puppy → Memory → CString → Option (Code × Puppy)
puppy_hdd_mkdir p req path =
    exchange p (send_cmd_hdd_create_dir p.usb req path)
      λ q. if reply_cmd q == success then (done, q) else refused neg_eproto q
