-- ===== src/PuppyProgram/Download.antt =====
-- `do_hdd_file_get` of puppy.c: its own download loop, which has the state of the loop of libpuppy.c,
-- but leaves it past `utime`.
pub mod Agree
use libpuppy.Base.{
  ℕ, zero, suc, ◌+◌, ◌-◌, ◌^◌, min, Option, none, some, List, [], ◌∷◌, ◌++◌, ltb, ◌==◌,
  if◌then◌else◌,
}
use libpuppy.Base.Memory.{Memory, read_range, u16}
use libpuppy.Bytes.{get_u16, get_u32, get_u64}
use libpuppy.Mjd.{TfDatetime}
use libpuppy.Packet.{length_at, cmd_at, data_at, decode_error, packet_head_size}
use libpuppy.Packet.Commands.{
  fail, success, data_hdd_file_start, data_hdd_file_data, data_hdd_file_end,
}
use libpuppy.Packet.Typefile.{stamp_of, size_at}
use libpuppy.Requests.{CString, failed, count, send_cmd_hdd_file_send}
use libpuppy.Session.{
  Puppy, Code, done, neg_eproto, errno, receive, say, unexpected_packet, unhandled_packet,
  device_reports, short_packet, cannot_write,
}
use libpuppy.Transport.{send_success, send_cancel}
use libpuppy.FileGet.{
  Download, Phase, start, transfer, abort, phase_number, new_download, get_fuel, direction_get,
}

-- How the body of the loop ends: with the next packet, or with `goto out`, which leaves the result.
pub data Turn : Type 0 where
  again : Download → Turn
  goto_out : Code → Download → Turn

-- `fprintf(...); send_cancel(fd); state = ABORT;`
unfoldable pub cancel_transfer : Download → Download
cancel_transfer d = record d {
  puppy = record (d.puppy) { usb = (send_cancel (d.puppy.usb)).1 };
  phase = abort;
}

unfoldable pub out_of_turn : Download → Turn
out_of_turn d =
    again (
      cancel_transfer (record d { puppy = say (unexpected_packet (phase_number d.phase)) d.puppy }))

-- DATA_HDD_FILE_START
unfoldable pub file_start : Phase → Download → Turn
file_start start d = again (record d {
  byte_count = get_u64 (d.puppy.reply) (data_at + size_at);
  stamp = some (stamp_of (d.puppy.reply) data_at);
  puppy = record (d.puppy) { usb = (send_success (d.puppy.usb)).1 };
  phase = transfer;
})
file_start _ d = out_of_turn d

-- `dataLen = get_u16(&reply.length) - (PACKET_HEAD_SIZE + 8)`, a `__u16`.
abbrev pub piece_len : Memory → ℕ
piece_len reply = u16 (get_u16 reply length_at + 2 ^ 16 - (packet_head_size + 8))

-- `write(dst, &reply.data[8], dataLen)`, by its answer.
unfoldable pub write_piece : List (Option ℕ) → Download → Download
write_piece [] d = cancel_transfer (record d { puppy = say cannot_write d.puppy })
write_piece (none ∷ disk) d =
    cancel_transfer (record d { disk = disk; puppy = say cannot_write d.puppy })
write_piece (some k ∷ disk) d =
    let w = min k (piece_len d.puppy.reply) in
    let e = record d { disk = disk; file = d.file ++ read_range (d.puppy.reply) (data_at + 8) w } in
    if ltb w (piece_len d.puppy.reply)
    then cancel_transfer (record e { puppy = say cannot_write e.puppy })
    else e

-- DATA_HDD_FILE_DATA
unfoldable pub file_data : Phase → ℕ → Download → Turn
file_data transfer r d =
    let reported : Puppy =
      if ltb r (get_u16 d.puppy.reply length_at) then say short_packet d.puppy else d.puppy in
    again (write_piece d.disk (record d { puppy = reported }))
file_data _ r d = out_of_turn d

-- The switch on the command, for a packet of `r` bytes.
unfoldable pub turn : ℕ → Download → Turn
turn r d =
    let cmd = get_u32 d.puppy.reply cmd_at in
    if cmd == data_hdd_file_start
    then file_start d.phase d
    else if cmd == data_hdd_file_data
    then file_data d.phase r d
    else if cmd == data_hdd_file_end
    then goto_out done
        (record d { puppy = record (d.puppy) { usb = (send_success (d.puppy.usb)).1 } })
    else if cmd == fail
    then again (
        cancel_transfer
          (record d { puppy = say (device_reports (decode_error d.puppy.reply)) d.puppy }))
    else if cmd == success
    then goto_out neg_eproto d
    else again (record d { puppy = say unhandled_packet d.puppy })

-- The result, the state, and the time that `utime` sets, where it is called: a stamp, or 0 where no
-- START packet was received.
abbrev pub Got : Type 0
Got = Code × Download × Option (Option TfDatetime)

-- Behind the loop.
unfoldable pub after_loop : Download → Got
after_loop d = (neg_eproto, d, some d.stamp)

-- The label `out`.
unfoldable pub at_out : Code → Download → Got
at_out code d = (code, d, none)

-- The loop, on fuel; `none` where that runs out.
unfoldable pub do_get_loop : ℕ → Download → Option Got
unfolding after_loop at_out
do_get_loop zero d = none
do_get_loop (suc fuel) d =
    let (r, p) = receive d.puppy in
    let u = record d { puppy = p } in
    elim r [
      | none ↦ some (after_loop u)
      | some n ↦ elim (turn n u) [
        | again e ↦ do_get_loop fuel e
        | goto_out code e ↦ some (at_out code e)
      ]
    ]

-- By what opening the destination and sending the request give.
unfoldable pub do_hdd_file_get : Puppy → Memory → Option ℕ → List (Option ℕ) → CString → Option Got
unfolding do_get_loop
do_hdd_file_get p req (some e) disk src_path = some (errno e, new_download p disk, none)
do_hdd_file_get p req none disk src_path =
    elim (send_cmd_hdd_file_send p.usb req direction_get src_path) [
      | none ↦ none
      | some (failed, u) ↦ some (at_out neg_eproto (new_download (record p { usb = u }) disk))
      | some (count n, u) ↦
          let q = record p { usb = u } in do_get_loop (get_fuel q) (new_download q disk)
    ]
