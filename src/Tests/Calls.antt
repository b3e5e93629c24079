-- ===== src/Tests/Calls.antt =====
-- Requests and commands on concrete paths and devices.
use libpuppy.Base.{
  ℕ, ◌≤◌, ◌≡◌, ◌^◌, ◌≢◌, ◌↔◌, refl, arith, Option, none, some, [], ◌∷◌, length, replicate,
  length-replicate,
}
use libpuppy.Packet.Commands.{success}
use libpuppy.Requests.{
  CString, overrun, too_long, hdd_dir_request, hdd_file_send_request, hdd_del_request,
  hdd_rename_request, hdd_create_dir_request,
}
use libpuppy.Requests.Overrun.{checked_requests, create_dir_overruns, negative_lengths}
use libpuppy.Requests.Layout.{AreBytes}
use libpuppy.Session.{Puppy, Code, done, no_error}
use libpuppy.Commands.Outcome.{
  IsConfirmed, reset, turbo, run, expected, verdict, run_done, verdict-writes,
}
use libpuppy.Usb.{Usb}
use libpuppy.Tests.Codec.{blank}
use libpuppy.Tests.Wire.{device_of, answered}

-- "/ab"
abbrev pub path : CString
path = 47 ∷ 97 ∷ 98 ∷ []

pub path-AreBytes : AreBytes path
path-AreBytes = ground arith

checked_requests_example :
    (hdd_dir_request blank path ≢ overrun)
    × (hdd_del_request blank path ≢ overrun)
    × (hdd_file_send_request blank 1 path ≢ overrun)
    × ((hdd_dir_request blank path ≡ too_long) ↔ (65526 ≤ length path))
    × ((hdd_del_request blank path ≡ too_long) ↔ (65526 ≤ length path))
    × ((hdd_file_send_request blank 1 path ≡ too_long) ↔ (65523 ≤ length path))
checked_requests_example = checked_requests blank 1 path (omega arith)

-- A path of 2 ^ 31 bytes.
unfoldable endless_path : CString
endless_path = replicate (2 ^ 31) 97

length-endless_path : length endless_path ≡ 2 ^ 31
unfolding endless_path
length-endless_path = length-replicate {A = ℕ} (2 ^ 31) 97

negative_lengths_example :
    (hdd_dir_request blank endless_path ≡ overrun)
    × (hdd_del_request blank endless_path ≡ overrun)
    × (hdd_file_send_request blank 1 endless_path ≡ overrun)
negative_lengths_example =
    negative_lengths blank 1 endless_path (omega (arith, length-endless_path))
      (omega (arith, length-endless_path))

-- A path of 65537 bytes.
abbrev long_path : CString
long_path = replicate 65537 97

length-long_path : length long_path ≡ 65537
length-long_path = length-replicate {A = ℕ} 65537 97

create_dir_overruns_example : hdd_create_dir_request blank long_path ≡ overrun
create_dir_overruns_example =
    create_dir_overruns blank long_path (omega (arith, length-long_path))
      (omega (arith, length-long_path))

abbrev pub puppy_on : Usb → Puppy
puppy_on u = record {
  lock_fd = some 3;
  fd = some 4;
  error = no_error;
  usb = u;
  reply = blank;
  packet = blank;
  log = [];
}

-- A device that answers SUCCESS.
abbrev pub agreeing : Puppy
agreeing = puppy_on (device_of answered 8)

abbrev final : Option (Code × Puppy) → Puppy
final none = agreeing
final (some (code, p)) = p

final_lem :
    (r : Option (Code × Puppy)) (code : Code) → verdict r ≡ some code → r ≡ some (code, final r)
final_lem none code h = cc
final_lem (some (c, p)) code h = cc

reset_verdict : verdict (run reset agreeing blank) ≡ some done
unfolding run libpuppy.Commands.puppy_reset libpuppy.Commands.exchange
    libpuppy.Requests.send_cmd_reset libpuppy.Requests.send_request libpuppy.Requests.reset_request
    libpuppy.Session.receive libpuppy.Transport.get_tf_packet libpuppy.Usb.usb_bulk_read
    libpuppy.Usb.read_loop libpuppy.Transport.send_tf_packet libpuppy.Usb.usb_bulk_write
    libpuppy.Bytes.get_u16 libpuppy.Packet.swap_in_packet libpuppy.Packet.byte_swap
    libpuppy.Bytes.get_u16_raw libpuppy.Packet.swap_out_packet libpuppy.Bytes.get_u32
    libpuppy.Bytes.get_u32_raw libpuppy.Bytes.put_u16 libpuppy.Bytes.put_u32
    libpuppy.Transport.acknowledge_data libpuppy.Usb.write_loop libpuppy.Requests.header
reset_verdict = refl

run_done_example : IsConfirmed agreeing (final (run reset agreeing blank)) success
unfolding expected
run_done_example =
    run_done reset agreeing (final (run reset agreeing blank)) blank
      (final_lem (run reset agreeing blank) done reset_verdict)

verdict-writes_example :
    verdict (run (turbo 1) agreeing blank)
    ≡ verdict (
        run
          (turbo 1)
          (record agreeing { usb = record (agreeing.usb) { writes = some 4096 ∷ [] } })
          blank)
verdict-writes_example = verdict-writes (turbo 1) agreeing blank (some 4096 ∷ [])
