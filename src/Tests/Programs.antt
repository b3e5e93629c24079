-- ===== src/Tests/Programs.antt =====
-- The programs on concrete devices, files and arguments.
use libpuppy.Base.Memory.{Memory}
use libpuppy.PuppyDir.Order.{compare_by_size_wraps}
use libpuppy.PuppyDir.Series.{compare_by_name-recordings, recording}
use libpuppy.PuppyDir.{is_digit, dot, compare_by_name, compare_by_size}
use libpuppy.Mjd.{TfDatetime}
use libpuppy.Base.Int.{◌-ℤ◌, negsuc, pos, ℤ}
use libpuppy.Packet.Commands.{data_hdd_dir_end, data_hdd_dir}
use libpuppy.Packet.{cmd_at, length_at}
use libpuppy.Packet.Typefile.{put_typefile}
use libpuppy.Bytes.{put_u16, put_u32}
use libpuppy.Transport.RoundTrip.{frame_answers}
use libpuppy.Session.{Puppy}
use libpuppy.PuppyGet.{with_file, Env, Files, Options, Run}
use libpuppy.Base.{
  arith, if◌then◌else◌, ◌-◌, ◌^◌, ◌+◌, ◌*◌, ◌++◌, refl, [], length, none, ◌≡◌, some, true, ℕ, ◌∷◌,
  List, Option,
}
use libpuppy.Listing.{puppy_file, puppy_unknown, Entry}
use libpuppy.Requests.{CString}
use libpuppy.Tests.Codec.{blank, leap_day}
use libpuppy.Tests.Calls.{puppy_on, agreeing}
use libpuppy.Tests.Wire.{quiet, answer}

-- "film"
abbrev pub film : CString
film = 102 ∷ 105 ∷ 108 ∷ 109 ∷ []

abbrev unset_entry : Entry
unset_entry = record { ftype = puppy_unknown; stamp = leap_day; size = 0; name = [] }

abbrev film_entry : Entry
film_entry = record { ftype = puppy_file; stamp = leap_day; size = 2; name = film }

abbrev size_of : Option (List ℕ) → Option ℕ
size_of none = none
size_of (some bytes) = some (length bytes)

-- Every name matches, every call succeeds, and `stat` looks at the files.
abbrev permissive : Env
permissive = record {
  fnmatch = λ glob name. true;
  stat = λ files name. size_of (files name);
  opened = λ name. none;
  disk = λ name. some 65535 ∷ [];
  req = blank;
  unset = unset_entry;
}

abbrev pub listing_packet : Memory
listing_packet =
    put_u32 (put_u16 (put_typefile blank 8 leap_day 2 film) length_at 122) cmd_at data_hdd_dir

-- A device that lists one file and then answers SUCCESS.
abbrev listing_device : Puppy
listing_device = puppy_on (record (quiet) {
  reads =
      frame_answers listing_packet
      ++ (frame_answers (put_u32 (put_u16 blank length_at 8) cmd_at data_hdd_dir_end)
          ++ frame_answers answer);
})

abbrev local_film : Files
local_film = with_file film (1 ∷ 2 ∷ []) (λ name. none)

abbrev begun : Run
begun = record { ok = true; puppy = agreeing; files = local_film; removed = [] }

abbrev dry_move : Options
dry_move = record { ok = true; move = true; noact = true }

abbrev listed_film : List (Option Entry)
listed_film = some film_entry ∷ none ∷ []

abbrev sized : ℕ → Entry
sized n = record { ftype = puppy_file; stamp = leap_day; size = n; name = film }

-- `atoi` on the digits at the start of a string.
abbrev digits_value : ℕ → CString → ℕ
digits_value value [] = value
digits_value value (ch ∷ s) =
    let rest = digits_value (value * 10 + (ch - 48)) s in if is_digit ch then rest else value

abbrev decimal : CString → ℤ
decimal s = pos (digits_value 0 s)

abbrev no_time : TfDatetime → ℤ
no_time stamp = pos 0

compare_by_size_wraps_example :
    compare_by_size decimal no_time (sized 3000000000) (sized 7)
    ≡ negsuc (7 + (2 ^ 32 - 1) - 3000000000)
compare_by_size_wraps_example =
    compare_by_size_wraps decimal no_time (sized 3000000000) (sized 7) (omega arith) (omega arith)

abbrev named : CString → Entry
named name = record { ftype = puppy_file; stamp = leap_day; size = 0; name = name }

-- film-2.rec and film-10.rec
compare_by_name-recordings_example :
    compare_by_name decimal no_time
      (named (recording film (50 ∷ []) (114 ∷ 101 ∷ 99 ∷ [])))
      (named (recording film (49 ∷ 48 ∷ []) (114 ∷ 101 ∷ 99 ∷ [])))
    ≡ decimal ((50 ∷ []) ++ (dot ∷ 114 ∷ 101 ∷ 99 ∷ []))
      -ℤ decimal ((49 ∷ 48 ∷ []) ++ (dot ∷ 114 ∷ 101 ∷ 99 ∷ []))
unfolding libpuppy.PuppyDir.all_digits
compare_by_name-recordings_example =
    compare_by_name-recordings decimal no_time
      (named (recording film (50 ∷ []) (114 ∷ 101 ∷ 99 ∷ [])))
      (named (recording film (49 ∷ 48 ∷ []) (114 ∷ 101 ∷ 99 ∷ []))) film (50 ∷ []) (49 ∷ 48 ∷ [])
      (114 ∷ 101 ∷ 99 ∷ []) refl refl refl refl (ground arith) (ground arith) (ground arith)
      (ground arith)
