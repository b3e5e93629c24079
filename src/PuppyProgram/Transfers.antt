-- ===== src/PuppyProgram/Transfers.antt =====
-- The commands of puppy.c. Most are the code of libpuppy.c with `fd` for `p->fd`, and stand here for
-- that; the globals are those of `Puppy`. A turbo state is text. The download has a module of its own
-- (Download).
use libpuppy.Packet.Commands.{success}
use libpuppy.PuppyProgram.{same_word}
use libpuppy.FilePut.{puppy_hdd_file_put, Upload, Source}
use libpuppy.Commands.{
  refused, reply_cmd, exchange, puppy_hdd_del, puppy_hdd_mkdir, puppy_hdd_rename, puppy_hdd_size,
  puppy_ready, puppy_reset, puppy_cancel,
}
use libpuppy.Base.Memory.{Memory}
use libpuppy.Base.{◌==◌, [], ◌∷◌, List, if◌then◌else◌, Option, ℕ}
use libpuppy.Session.{done, neg_eproto, Code, Puppy}
use libpuppy.Requests.{send_cmd_turbo, CString}

-- `atoi` is a parameter; "ON" is 1 in any case of its letters.
unfoldable pub do_cmd_turbo : (CString → ℕ) → Puppy → Memory → CString → Option (Code × Puppy)
do_cmd_turbo atoi p req state =
    let turbo_on = if same_word (79 ∷ 78 ∷ []) state then 1 else atoi state in
    exchange p (send_cmd_turbo p.usb req turbo_on)
      λ q. if reply_cmd q == success then (done, q) else refused neg_eproto q

unfoldable pub do_cmd_reset : Puppy → Memory → Option (Code × Puppy)
do_cmd_reset p req = puppy_reset p req

unfoldable pub do_cmd_ready : Puppy → Memory → Option (Code × Puppy)
do_cmd_ready p req = puppy_ready p req

unfoldable pub do_cancel : Puppy → Option (Code × Puppy)
do_cancel p = puppy_cancel p

unfoldable pub do_hdd_size : Puppy → Memory → Option (Code × Puppy)
do_hdd_size p req = puppy_hdd_size p req

unfoldable pub do_hdd_del : Puppy → Memory → CString → Option (Code × Puppy)
do_hdd_del p req path = puppy_hdd_del p req path

unfoldable pub do_hdd_rename : Puppy → Memory → CString → CString → Option (Code × Puppy)
do_hdd_rename p req src dst = puppy_hdd_rename p req src dst

unfoldable pub do_hdd_mkdir : Puppy → Memory → CString → Option (Code × Puppy)
do_hdd_mkdir p req path = puppy_hdd_mkdir p req path

unfoldable pub do_hdd_file_put :
    Puppy
    → Memory
    → Source
    → List ℕ
    → List (Option ℕ)
    → CString
    → Option (Code × Option Upload × Puppy)
do_hdd_file_put p req source content reads dst_path =
    puppy_hdd_file_put p req source content reads dst_path
