-- ===== src/Tests/Files.antt =====
-- Paths, buffers, listings and the opening of a device on concrete inputs.
use libpuppy.Buffer.Contents.{add_all-buffer_init, add_all}
use libpuppy.Base.{
  ℕ, ◌≤◌, ◌+◌, ◌≡◌, ◌↔◌, ◌%◌, refl, arith, true, false, Option, none, some, List, [], ◌∷◌, ◌++◌,
  map,
}
use libpuppy.Buffer.{buffer_begin, buffer_end, buffer_dup_values, buffer_init, buffer_add}
use libpuppy.Buffer.Growth.{IsValid, buffer_init-IsValid}
use libpuppy.Listing.{
  Entry, puppy_file, entry_of, decode_dir, new_browse, dir_loop, out_of_fuel, puppy_hdd_dir,
}
use libpuppy.Listing.Descriptor.{entry_of-put_typefile}
use libpuppy.Listing.Entries.{Holds}
use libpuppy.Listing.Result.{puppy_hdd_dir-unterminated}
use libpuppy.Open.{System, puppy_open}
use libpuppy.Open.Descriptors.{Settled, puppy_open-Settled}
use libpuppy.Packet.Typefile.{put_typefile}
use libpuppy.Requests.{CString}
use libpuppy.Session.{Puppy}
use libpuppy.Tools.{slash, convert_slashes}
use libpuppy.Tools.Slashes.{leading, dangling, convert_slashes-overrun}
use libpuppy.Tests.Codec.{blank, leap_day}
use libpuppy.Tests.Wire.{quiet}
use libpuppy.Tests.Calls.{agreeing, path, puppy_on}

-- A single backslash, which is written past the buffer.
abbrev lone : CString
lone = 92 ∷ []

convert_slashes-overrun_example :
    (convert_slashes lone ≡ none) ↔ ((dangling lone ≡ true) × (leading lone % 2 ≡ 1))
convert_slashes-overrun_example = convert_slashes-overrun lone

lone_overruns : convert_slashes lone ≡ none
unfolding convert_slashes libpuppy.Tools.stage
lone_overruns = refl

-- "\ab"
abbrev device_name : CString
device_name = 92 ∷ 97 ∷ 98 ∷ []

path_converted : convert_slashes path ≡ some device_name
unfolding convert_slashes libpuppy.Tools.stage
path_converted = refl

no_entries : Holds [] (buffer_init 10)
unfolding buffer_init
no_entries = record { valid = buffer_init-IsValid 10; contents = refl }

-- "film"
abbrev film : CString
film = 102 ∷ 105 ∷ 108 ∷ 109 ∷ []

entry_of-put_typefile_example :
    entry_of (put_typefile blank 8 leap_day 1000 film) 8
    ≡ some (record { ftype = puppy_file; stamp = leap_day; size = 1000; name = film })
entry_of-put_typefile_example =
    entry_of-put_typefile blank 8 leap_day 1000 film (omega arith) (ground arith) (omega arith)
      (omega arith) (omega arith) (omega arith) (omega arith)

-- A listing of a device that does not answer.
abbrev silent : Puppy
silent = puppy_on quiet

abbrev listing : Option (List (Option Entry) × Puppy)
listing = puppy_hdd_dir silent blank path

abbrev entries_in : Option (List (Option Entry) × Puppy) → Option (List (Option Entry))
entries_in none = none
entries_in (some (es, p)) = some es

abbrev puppy_in : Option (List (Option Entry) × Puppy) → Puppy
puppy_in none = silent
puppy_in (some (es, p)) = p

entries_in_lem :
    (r : Option (List (Option Entry) × Puppy)) (es : List (Option Entry))
    → entries_in r ≡ some es
    → r ≡ some (es, puppy_in r)
entries_in_lem none es h = cc
entries_in_lem (some (xs, p)) es h = cc

listing_entries : entries_in listing ≡ some (none ∷ [])
unfolding puppy_hdd_dir buffer_add buffer_init libpuppy.Requests.send_cmd_hdd_dir
    libpuppy.Requests.send_request libpuppy.Requests.hdd_dir_request libpuppy.Requests.exceeds
    libpuppy.Requests.strcpy libpuppy.Session.is_ok libpuppy.Session.receive
    libpuppy.Transport.get_tf_packet libpuppy.Usb.usb_bulk_read libpuppy.Usb.read_loop
    libpuppy.Transport.send_tf_packet libpuppy.Usb.usb_bulk_write dir_loop libpuppy.Listing.round
    libpuppy.Listing.decide_round libpuppy.Listing.finish libpuppy.Usb.write_loop
listing_entries = refl

puppy_hdd_dir-unterminated_example :
    (entries : List Entry) × (none ∷ [] ≡ map some entries ++ (none ∷ []))
puppy_hdd_dir-unterminated_example =
    puppy_hdd_dir-unterminated silent (puppy_in listing) blank path (none ∷ [])
      (entries_in_lem listing (none ∷ []) listing_entries)

-- A system on which the interface can not be claimed.
abbrev claimed_elsewhere : System
claimed_elsewhere = record {
  open_lock = some 3;
  lock_shared = true;
  open_device = λ path. some 4;
  lock_exclusive = true;
  descriptor = some (0x11db, 0x1000);
  reset = true;
  claim = false;
  set_interface = λ fd. elim fd [ none ↦ false | some n ↦ true ];
}

puppy_open-Settled_example :
    Settled (3 ∷ 4 ∷ []) (puppy_open claimed_elsewhere agreeing none (some path) device_name)
puppy_open-Settled_example =
    puppy_open-Settled claimed_elsewhere refl agreeing none (some path) device_name

-- Three numbers in a buffer that begins with room for two.
abbrev numbers : List ℕ
numbers = 7 ∷ 8 ∷ 9 ∷ []

add_all-buffer_init_example :
    let b = add_all numbers (buffer_init 2) in
    (buffer_dup_values b ≡ some 7 ∷ some 8 ∷ some 9 ∷ [])
    × (buffer_end b ≡ buffer_begin b + 3)
    × (buffer_end b ≤ b.allocated_els)
    × IsValid b
add_all-buffer_init_example = add_all-buffer_init 2 numbers
