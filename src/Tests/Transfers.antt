-- ===== src/Tests/Transfers.antt =====
-- File transfers with concrete devices.
use libpuppy.Base.{inl, inr, ◌≡◌, ◌≢◌, refl, arith, Option, none, some, [], ◌∷◌}
use libpuppy.Base.Memory.{Memory}
use libpuppy.Bytes.{get_u16, get_u32, get_u64, put_u16, put_u32}
use libpuppy.Packet.{cmd_at, length_at, data_at}
use libpuppy.Packet.Commands.{data_hdd_file_end}
use libpuppy.Session.{Puppy, Code, done}
use libpuppy.FileGet.{abort, on_data, start, Download, get_loop, new_download}
use libpuppy.FileGet.Ends.{get_loop-ends}
use libpuppy.FilePut.{end_packet, start_packet, Upload, finished, put_loop, new_upload, data_packet}
use libpuppy.FilePut.Ends.{put_loop-ends}
use libpuppy.FilePut.Progress.{Complete, IsSending, put_loop-Complete}
use libpuppy.Transport.{send_tf_packet}
use libpuppy.Usb.{Usb}
use libpuppy.Tests.Codec.{blank, leap_day}
use libpuppy.Tests.Wire.{quiet, device_of, answered}
use libpuppy.Tests.Calls.{puppy_on, path}

abbrev download : Download
download = new_download (puppy_on (device_of answered 8)) (some 10 ∷ [])

get_loop-ends_example : get_loop 3 download ≢ none
get_loop-ends_example = get_loop-ends 3 download (omega arith)

abbrev pub upload : Upload
upload = new_upload (puppy_on (device_of answered 8)) 2 leap_day path (5 ∷ 6 ∷ []) (some 2 ∷ [])

put_loop-ends_example : put_loop 3 upload ≢ none
put_loop-ends_example = put_loop-ends 3 upload (omega arith)

-- What a loop ended with.
abbrev pub code_of : {A : Type 0} → Option (Code × A) → Option Code
code_of none = none
code_of (some (code, s)) = some code

abbrev pub state_of : {A : Type 0} → A → Option (Code × A) → A
state_of d none = d
state_of d (some (code, s)) = s

pub state_of_lem :
    {A : Type 0} (d : A) (r : Option (Code × A)) (code : Code)
    → code_of r ≡ some code
    → r ≡ some (code, state_of d r)
state_of_lem d none code h = cc
state_of_lem d (some (c, s)) code h = cc

-- A device that ends a transfer.
abbrev pub ending : Memory
ending = put_u32 (put_u16 blank length_at 8) cmd_at data_hdd_file_end

abbrev ended : Download
ended = new_download (puppy_on (device_of (send_tf_packet quiet ending).1 8)) []

ended_code : code_of (get_loop 2 ended) ≡ some done
unfolding get_loop libpuppy.FileGet.round libpuppy.FileGet.on_received libpuppy.FileGet.dispatch
    libpuppy.Session.receive libpuppy.Transport.get_tf_packet libpuppy.Usb.usb_bulk_read
    libpuppy.Usb.read_loop libpuppy.Bytes.get_u16 libpuppy.Packet.swap_in_packet
    libpuppy.Packet.byte_swap libpuppy.Bytes.get_u16_raw libpuppy.Packet.swap_out_packet
    libpuppy.Bytes.get_u32 libpuppy.Bytes.get_u32_raw libpuppy.Bytes.put_u16 libpuppy.Bytes.put_u32
    libpuppy.Transport.acknowledge_data libpuppy.Transport.send_tf_packet
ended_code = refl

-- An upload whose END packet was sent.
abbrev last_round : Upload
last_round = record upload { phase = finished; byte_count = 2; pos = 2 }

last_round_code : code_of (put_loop 2 last_round) ≡ some done
unfolding put_loop libpuppy.FilePut.round libpuppy.FilePut.on_received libpuppy.FilePut.dispatch
    libpuppy.FilePut.by_phase libpuppy.Session.receive libpuppy.Transport.get_tf_packet
    libpuppy.Usb.usb_bulk_read libpuppy.Usb.read_loop libpuppy.Bytes.get_u16
    libpuppy.Packet.swap_in_packet libpuppy.Packet.byte_swap libpuppy.Bytes.get_u16_raw
    libpuppy.Packet.swap_out_packet libpuppy.Bytes.get_u32 libpuppy.Bytes.get_u32_raw
    libpuppy.Bytes.put_u16 libpuppy.Bytes.put_u32 libpuppy.Transport.acknowledge_data
    libpuppy.Transport.send_tf_packet
last_round_code = refl

last_round-IsSending : IsSending last_round
last_round-IsSending = record {
  counted = refl;
  within = omega arith;
  small = omega arith;
  all_sent = inr (omega arith);
}

put_loop-Complete_example : Complete (state_of last_round (put_loop 2 last_round))
put_loop-Complete_example =
    put_loop-Complete 2 last_round (state_of last_round (put_loop 2 last_round))
      (inl last_round-IsSending)
      (state_of_lem last_round (put_loop 2 last_round) done last_round_code)
