-- ===== src/Tests/CommandTool.antt =====
-- The program puppy.c on concrete command lines and devices.
use libpuppy.Tests.Programs.{listing_packet}
use libpuppy.PuppyProgram.Directory.Agree.{do_hdd_dir-puppy_hdd_dir}
use libpuppy.Tests.Transfers.{state_of_lem, code_of, state_of}
use libpuppy.FileGet.{get_loop, new_download}
use libpuppy.PuppyProgram.Main.{initial_settings}
use libpuppy.PuppyProgram.Download.{do_get_loop}
use libpuppy.PuppyProgram.Download.Agree.{do_get_loop-get_loop, done_with_time, without_utime}
use libpuppy.PuppyProgram.Directory.{line_of, Shown, do_hdd_dir}
use libpuppy.PuppyProgram.Quote.{unquote-quote_xml, IsPlain, quote_xml, unquote}
use libpuppy.PuppyProgram.Search.{
  find_toppy_unlocked, find_toppy-only, other_line, product, toppies, only, topology, Line,
  find_toppy,
}
use libpuppy.PuppyProgram.Main.Dispatch.{main-IsProperEnd, IsProperEnd}
use libpuppy.Open.{System}
use libpuppy.PuppyProgram.{flag_c, flag_d, Settings, parse_args}
use libpuppy.Packet.Commands.{cmd_turbo, data_hdd_dir_end}
use libpuppy.Packet.{cmd_at, length_at}
use libpuppy.Packet.Typefile.{stamp_of, put_typefile}
use libpuppy.Bytes.{put_u16, put_u32}
use libpuppy.Transport.RoundTrip.{frame_answers}
use libpuppy.Session.{done, Code, Puppy}
use libpuppy.FilePut.{not_opened}
use libpuppy.Base.{map, false, arith, ◌++◌, refl, [], none, ◌≡◌, some, true, ◌∷◌, All, List}
use libpuppy.Listing.{puppy_hdd_dir, puppy_file, puppy_unknown, Entry}
use libpuppy.Requests.{CString}
use libpuppy.Tests.Codec.{blank}
use libpuppy.Tests.Calls.{puppy_on, agreeing, path}
use libpuppy.Tests.Wire.{quiet}

-- "turbo"
abbrev turbo_word : CString
turbo_word = 116 ∷ 117 ∷ 114 ∷ 98 ∷ 111 ∷ []

-- The settings of `-d dev -c turbo ON`.
abbrev turbo_settings : Settings
turbo_settings = record (initial_settings) {
  dev_path = some path;
  cmd = cmd_turbo;
  arg1 = some (79 ∷ 78 ∷ []);
}

turbo_flags :
    parse_args none (flag_d path ∷ (flag_c turbo_word ∷ [])) ((79 ∷ 78 ∷ []) ∷ []) initial_settings
    ≡ some turbo_settings
unfolding parse_args
turbo_flags = refl

abbrev willing_system : System
willing_system = record {
  open_lock = some 3;
  lock_shared = true;
  open_device = λ path. some 4;
  lock_exclusive = true;
  descriptor = some (0x11db, 0x1000);
  reset = true;
  claim = true;
  set_interface = λ fd. true;
}

abbrev empty_env : libpuppy.PuppyProgram.Main.Env
empty_env = record {
  atoi = λ s. 0;
  req = blank;
  source = λ name. not_opened 2;
  content = λ name. [];
  source_reads = λ name. [];
  opened = λ name. none;
  disk = λ name. [];
}

main-IsProperEnd_example : IsProperEnd (
    libpuppy.PuppyProgram.Main.main willing_system empty_env none
      (flag_d path ∷ (flag_c turbo_word ∷ []))
      ((79 ∷ 78 ∷ []) ∷ [])
      agreeing)
main-IsProperEnd_example =
    main-IsProperEnd willing_system empty_env none (flag_d path ∷ (flag_c turbo_word ∷ []))
      ((79 ∷ 78 ∷ []) ∷ []) agreeing

abbrev devices : List Line
devices = topology 1 2 ∷ product 0x11db 0x1000 ∷ topology 1 3 ∷ other_line ∷ []

find_toppy-only_example :
    (find_toppy true (some devices) ≡ only (toppies none devices))
    × (find_toppy_unlocked (some devices) ≡ only (toppies none devices))
find_toppy-only_example = find_toppy-only devices

unquote-quote_xml_example :
    (unquote (quote_xml (5 ∷ 38 ∷ 97 ∷ [])) ≡ 5 ∷ 38 ∷ 97 ∷ [])
    × All IsPlain (quote_xml (5 ∷ 38 ∷ 97 ∷ []))
unquote-quote_xml_example =
    unquote-quote_xml (5 ∷ 38 ∷ 97 ∷ []) (omega arith, (omega arith, (omega arith, tt)))

do_get_loop-get_loop_example :
    (without_utime (do_get_loop 4 (new_download agreeing []))
      ≡ get_loop 4 (new_download agreeing []))
    × (done_with_time (do_get_loop 4 (new_download agreeing [])) ≡ false)
do_get_loop-get_loop_example = do_get_loop-get_loop 4 (new_download agreeing [])

-- A device that lists one file.
abbrev short_listing : Puppy
short_listing = puppy_on (record (quiet) {
  reads =
      frame_answers listing_packet
      ++ frame_answers (put_u32 (put_u16 blank length_at 8) cmd_at data_hdd_dir_end);
})

abbrev shown_listing : Shown
shown_listing =
    state_of (record { puppy = agreeing; output = [] }) (do_hdd_dir short_listing blank false path)

shown_code : code_of (do_hdd_dir short_listing blank false path) ≡ some done
unfolding do_hdd_dir libpuppy.Requests.send_cmd_hdd_dir libpuppy.Requests.send_request
    libpuppy.Requests.hdd_dir_request libpuppy.Requests.exceeds libpuppy.Requests.strcpy
    libpuppy.Requests.header libpuppy.Session.receive libpuppy.Transport.get_tf_packet
    libpuppy.Usb.usb_bulk_read libpuppy.Usb.read_loop libpuppy.Transport.send_tf_packet
    libpuppy.Usb.usb_bulk_write libpuppy.Bytes.get_u16 libpuppy.Packet.swap_in_packet
    libpuppy.Packet.byte_swap libpuppy.Bytes.get_u16_raw libpuppy.Packet.swap_out_packet
    libpuppy.Bytes.get_u32 libpuppy.Bytes.get_u32_raw libpuppy.Bytes.put_u16 libpuppy.Bytes.put_u32
    libpuppy.Transport.acknowledge_data libpuppy.Usb.write_loop
    libpuppy.Packet.Typefile.put_typefile libpuppy.Listing.entry_of libpuppy.Listing.c_string
    libpuppy.Transport.send_success libpuppy.Transport.check_crc libpuppy.Bytes.get_u64
    libpuppy.Bytes.put_u64 libpuppy.Packet.Typefile.put_stamp libpuppy.Packet.Typefile.strncpy_bytes
shown_code = refl

do_hdd_dir-puppy_hdd_dir_example :
    (entries : List Entry) × (puppy_hdd_dir short_listing blank path
      ≡ some (map some entries ++ (none ∷ []), shown_listing.puppy))
    × (shown_listing.output ≡ map (line_of false) entries)
unfolding libpuppy.Session.is_ok
do_hdd_dir-puppy_hdd_dir_example =
    do_hdd_dir-puppy_hdd_dir short_listing blank path shown_listing refl (
      state_of_lem (record { puppy = agreeing; output = [] })
        (do_hdd_dir short_listing blank false path) done shown_code)
