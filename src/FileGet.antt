-- ===== src/FileGet.antt =====
-- `puppy_hdd_file_get` of libpuppy.c: a file from the device. The calls of the progress statistics are left out.
pub mod Ends
pub mod Whole
pub mod Complete
pub mod Result
use libpuppy.Base.{
  ℕ, zero, suc, ◌+◌, ◌-◌, ◌%◌, ◌^◌, min, Option, none, some, List, [], ◌∷◌, ◌++◌, length, take, ltb,
  ◌==◌, if◌then◌else◌,
}
use libpuppy.Base.Memory.{Memory, read_range, u16}
use libpuppy.Bytes.{get_u16, get_u32, get_u64}
use libpuppy.Mjd.{TfDatetime}
use libpuppy.Packet.{length_at, cmd_at, data_at, decode_error, packet_head_size}
use libpuppy.Packet.Commands.{
  fail, success, data_hdd_file_start, data_hdd_file_data, data_hdd_file_end,
}
use libpuppy.Packet.Typefile.{stamp_of, size_at}
use libpuppy.Requests.{CString, Ret, failed, count, send_cmd_hdd_file_send}
use libpuppy.Session.{
  Puppy, Code, done, neg_eproto, errno, receive, say, unexpected_packet, unhandled_packet,
  device_reports, short_packet, cannot_write,
}
use libpuppy.Transport.{send_success, send_cancel}
use libpuppy.Usb.{Usb}

abbrev pub direction_get : ℕ
direction_get = 1

pub data Phase : Type 0 where
  start transfer abort : Phase

abbrev pub phase_number : Phase → ℕ
phase_number start = 0
phase_number transfer = 1
phase_number abort = 2

-- `disk` holds the answers of `write` to come: `none` is -1, and so is the end of the sequence;
-- `some k` takes `k` bytes, if there are as many. `file` is what the destination file holds.
-- `mod_utime_buf` is `{ 0, 0 }` where `stamp` is `none`, and the time of the stamp else.
pub record Download : Type 0 where
  pub puppy : Puppy
  pub phase : Phase
  pub byte_count : ℕ
  pub stamp : Option TfDatetime
  pub disk : List (Option ℕ)
  pub file : List ℕ

-- Whether the loop goes on.
pub data Step : Type 0 where
  next : Download → Step
  exit : Code → Download → Step

abbrev pub send_success_to : Download → Download
send_success_to d = record d { puppy = record (d.puppy) { usb = (send_success (d.puppy.usb)).1 } }

abbrev pub send_cancel_to : Download → Download
send_cancel_to d = record d { puppy = record (d.puppy) { usb = (send_cancel (d.puppy.usb)).1 } }

-- `send_cancel(p->fd); state = ABORT;`
abbrev pub give_up : Download → Download
give_up d = record (send_cancel_to d) { phase = abort }

unfoldable pub unexpected : Download → Step
unexpected d =
    next (give_up (record d { puppy = say (unexpected_packet (phase_number d.phase)) d.puppy }))

-- `__u16 dataLen = get_u16(&reply.length) - (PACKET_HEAD_SIZE + 8)`
abbrev pub data_len : Memory → ℕ
data_len reply = u16 (get_u16 reply length_at + 2 ^ 16 - 16)

-- `fprintf(...); send_cancel(p->fd); state = ABORT;` where the file cannot be written.
unfoldable pub write_failed : Download → Download
write_failed d = give_up (record d { puppy = say cannot_write d.puppy })

-- `w = write(dst, &reply.data[8], dataLen); if(w < dataLen) ...`, by the answer of `write`.
unfoldable pub write_data : List (Option ℕ) → Download → Download
write_data [] d = write_failed d
write_data (none ∷ disk) d = write_failed (record d { disk = disk })
write_data (some k ∷ disk) d =
    let len = data_len d.puppy.reply in
    let w = min k len in
    let e = record d { disk = disk; file = d.file ++ read_range (d.puppy.reply) (data_at + 8) w } in
    if ltb w len then write_failed e else e

-- A packet shorter than its length field is only reported.
abbrev pub report_short : ℕ → Puppy → Puppy
report_short r p = if ltb r (get_u16 p.reply length_at) then say short_packet p else p

unfoldable pub on_start : Download → Step
on_start d = next (record (send_success_to d) {
  byte_count = get_u64 (d.puppy.reply) (data_at + size_at);
  stamp = some (stamp_of (d.puppy.reply) data_at);
  phase = transfer;
})

unfoldable pub on_data : ℕ → Download → Step
on_data r d = next (write_data d.disk (record d { puppy = report_short r d.puppy }))

unfoldable pub on_fail : Download → Step
on_fail d =
    next (give_up (record d { puppy = say (device_reports (decode_error d.puppy.reply)) d.puppy }))

-- DATA_HDD_FILE_START, by the state.
unfoldable pub start_in : Phase → Download → Step
start_in start d = on_start d
start_in _ d = unexpected d

-- DATA_HDD_FILE_DATA, by the state.
unfoldable pub data_in : Phase → ℕ → Download → Step
data_in transfer r d = on_data r d
data_in _ r d = unexpected d

-- The body of the loop, for a packet of `r` bytes.
unfoldable pub dispatch : ℕ → Download → Step
dispatch r d =
    let cmd = get_u32 d.puppy.reply cmd_at in
    if cmd == data_hdd_file_start
    then start_in d.phase d
    else if cmd == data_hdd_file_data
    then data_in d.phase r d
    else if cmd == data_hdd_file_end
    then exit done (send_success_to d)
    else if cmd == fail
    then on_fail d
    else if cmd == success
    then exit neg_eproto d
    else next (record d { puppy = say unhandled_packet d.puppy })

-- One round of `while(0 < (r = get_tf_packet(p->fd, &reply)))`, by what was received.
unfoldable pub on_received : Option ℕ → Download → Step
on_received none d = exit neg_eproto d
on_received (some r) d = dispatch r d

unfoldable pub round : Download → Step
unfolding on_received
round d = let (r, p) = receive d.puppy in on_received r (record d { puppy = p })

-- The loop, on fuel; `none` where that runs out.
unfoldable pub get_loop : ℕ → Download → Option (Code × Download)
get_loop zero d = none
get_loop (suc fuel) d = elim (round d) [ next e ↦ get_loop fuel e | exit code e ↦ some (code, e) ]

-- Each round reads at least one answer, so this is enough.
abbrev pub get_fuel : Puppy → ℕ
get_fuel p = suc (length p.usb.reads)

abbrev pub new_download : Puppy → List (Option ℕ) → Download
new_download p disk = record {
  puppy = p;
  phase = start;
  byte_count = 0;
  stamp = none;
  disk = disk;
  file = [];
}

-- `opened` is what `open64` of the destination gives: `none`, or the `errno` of a failure. The
-- result is `none` where the request overruns its packet.
unfoldable pub puppy_hdd_file_get :
    Puppy → Memory → Option ℕ → List (Option ℕ) → CString → Option (Code × Download)
puppy_hdd_file_get p req (some e) disk src_path = some (errno e, new_download p disk)
puppy_hdd_file_get p req none disk src_path =
    elim (send_cmd_hdd_file_send p.usb req direction_get src_path) [
      | none ↦ none
      | some (failed, u) ↦ some (neg_eproto, new_download (record p { usb = u }) disk)
      | some (count n, u) ↦
          let q = record p { usb = u } in get_loop (get_fuel q) (new_download q disk)
    ]
