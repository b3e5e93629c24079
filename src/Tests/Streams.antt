-- ===== src/Tests/Streams.antt =====
-- Whole files that cross the wire between concrete devices.
use libpuppy.Listing.Whole.{puppy_hdd_dir-whole, all_entries, listing_answers}
use libpuppy.Listing.Pages.{IsLastPage, IsPage, Page}
use libpuppy.Tests.Transfers.{ending, upload}
use libpuppy.FilePut.RoundTrip.{IsSent, pieces, IsDescribed, Sent}
use libpuppy.FileGet.Complete.{get_loop-abort, get_loop-whole}
use libpuppy.Bytes.RoundTrip.{get_u16-put_u16, put_u16-IsBytes, put_u32-IsBytes}
use libpuppy.Packet.Typefile.{stamp_of, size_at}
use libpuppy.Session.Frames.{IsPacket}
use libpuppy.Listing.{puppy_unknown, puppy_hdd_dir, entry_of, c_string, ftype_of}
use libpuppy.Packet.Typefile.{stamp_of}
use libpuppy.Stream.{delivered, IsData, IsStart, IsEnd, Piece}
use libpuppy.Base.{none, map, All, ◌++◌, List, ℕ, ◌+◌, ◌≤◌, ◌≡◌, refl, arith, Option, some, [], ◌∷◌}
use libpuppy.Base.Memory.{Memory}
use libpuppy.Bytes.{get_u16, get_u32, get_u64, put_u16, put_u32}
use libpuppy.Packet.{cmd_at, length_at, data_at}
use libpuppy.Packet.Commands.{
  data_hdd_dir, data_hdd_dir_end, data_hdd_file_start, data_hdd_file_data, data_hdd_file_end,
}
use libpuppy.Session.{is_ok, Puppy, done}
use libpuppy.FileGet.{abort, Download, get_loop, new_download}
use libpuppy.FilePut.{Upload, end_packet, start_packet}
use libpuppy.Transport.RoundTrip.{frame_answers}
use libpuppy.Tests.Codec.{blank-IsBytes, blank}
use libpuppy.Tests.Wire.{quiet}
use libpuppy.Tests.Calls.{path-AreBytes, path, puppy_on}

-- A packet with a length and a command, and zeros.
abbrev pub packet_of : ℕ → ℕ → Memory
packet_of size cmd = put_u32 (put_u16 blank length_at size) cmd_at cmd

pub packet_of-IsPacket : (size cmd : ℕ) → 8 ≤ size → size ≤ 65534 → IsPacket (packet_of size cmd)
unfolding get_u16 put_u16 put_u32
packet_of-IsPacket size cmd low high = record {
  bytes = put_u32-IsBytes _ cmd_at cmd (put_u16-IsBytes blank length_at size blank-IsBytes);
  low = ground (arith, get_u16-put_u16 blank length_at size);
  high = ground (arith, get_u16-put_u16 blank length_at size);
}

-- A file of two pieces.
abbrev first_piece : Piece
first_piece = record { packet = packet_of 19 data_hdd_file_data; chunk = 0 ∷ 0 ∷ 0 ∷ [] }

abbrev second_piece : Piece
second_piece = record { packet = packet_of 18 data_hdd_file_data; chunk = 0 ∷ 0 ∷ [] }

first_piece-IsData : IsData first_piece
unfolding get_u16 put_u16 put_u32 get_u32
first_piece-IsData = record {
  sound = packet_of-IsPacket 19 data_hdd_file_data (omega arith) (omega arith);
  cmd = refl;
  size = refl;
  payload = refl;
}

second_piece-IsData : IsData second_piece
unfolding get_u16 put_u16 put_u32 get_u32
second_piece-IsData = record {
  sound = packet_of-IsPacket 18 data_hdd_file_data (omega arith) (omega arith);
  cmd = refl;
  size = refl;
  payload = refl;
}

first_packet-IsStart : IsStart (packet_of 122 data_hdd_file_start)
unfolding get_u16 put_u16 put_u32 get_u32
first_packet-IsStart = record {
  sound = packet_of-IsPacket 122 data_hdd_file_start (omega arith) (omega arith);
  code = refl;
  room = omega arith;
}

ending-IsEnd : IsEnd ending
unfolding get_u16 put_u16 put_u32 get_u32
ending-IsEnd = record {
  sound = packet_of-IsPacket 8 data_hdd_file_end (omega arith) (omega arith);
  code = refl;
}

abbrev whole_file : List (Option (List ℕ))
whole_file =
    frame_answers (packet_of 122 data_hdd_file_start)
    ++ delivered (first_piece ∷ second_piece ∷ []) (frame_answers ending)

abbrev providing : Puppy
providing = puppy_on (record (quiet) { reads = whole_file })

get_loop-whole_example :
    (d : Download) × (get_loop 4 (new_download providing (some 65535 ∷ some 65535 ∷ []))
      ≡ some (done, d))
    × (d.file ≡ 0 ∷ 0 ∷ 0 ∷ 0 ∷ 0 ∷ [])
    × (d.byte_count ≡ get_u64 (packet_of 122 data_hdd_file_start) (data_at + size_at))
    × (d.stamp ≡ some (stamp_of (packet_of 122 data_hdd_file_start) data_at))
get_loop-whole_example =
    get_loop-whole providing (packet_of 122 data_hdd_file_start) ending
      (first_piece ∷ second_piece ∷ []) (65535 ∷ 65535 ∷ []) 4 first_packet-IsStart
      (first_piece-IsData, (second_piece-IsData, tt)) ending-IsEnd (omega arith, (omega arith, tt))
      (omega arith) (omega arith) refl

-- A download that gave up, from a device that then ends it.
abbrev gave_up : Download
gave_up =
    record (new_download (puppy_on (record (quiet) { reads = frame_answers ending ++ [] })) []) {
      phase = abort;
      file = 7 ∷ [];
    }

get_loop-abort_example :
    (e : Download) × (get_loop 1 gave_up ≡ some (done, e)) × (e.phase ≡ abort) × (e.file ≡ 7 ∷ [])
get_loop-abort_example = get_loop-abort gave_up ending [] 0 ending-IsEnd refl refl

-- A file of two bytes that was uploaded and is downloaded again.
abbrev sent_film : List Sent
sent_film = record { state = upload; bytes = 5 ∷ 6 ∷ [] } ∷ []

upload-IsDescribed : IsDescribed upload
upload-IsDescribed = record {
  memory = blank-IsBytes;
  small = ground arith;
  short = omega arith;
  size = omega arith;
  mjd = omega arith;
  hour = omega arith;
  minute = omega arith;
  second = omega arith;
}

sent_film-IsSent : All IsSent sent_film
sent_film-IsSent =
    (record { memory = blank-IsBytes; small = ground arith; short = omega arith }, tt)

abbrev returning : Puppy
returning = puppy_on (record (quiet) {
  reads =
      frame_answers (start_packet upload)
      ++ delivered (pieces sent_film) (frame_answers (end_packet upload));
})

-- An upload that asks twice for two bytes of a file of three.
abbrev reading : Upload
reading = record upload {
  phase = libpuppy.FilePut.transfer;
  content = 5 ∷ 6 ∷ 7 ∷ [];
  source = some 2 ∷ some 2 ∷ [];
}

-- A listing of one packet with one descriptor, all of whose fields are 0.
abbrev page : Page
page = record {
  packet = packet_of 122 data_hdd_dir;
  entries =
      record {
        ftype = puppy_unknown;
        stamp = record { mjd = 0; hour = 0; minute = 0; second = 0 };
        size = 0;
        name = [];
      }
      ∷ [];
}

page-IsPage : IsPage page
unfolding get_u16 put_u16 put_u32 get_u32 get_u64 entry_of c_string ftype_of stamp_of
page-IsPage = record {
  sound = packet_of-IsPacket 122 data_hdd_dir (omega arith) (omega arith);
  code = refl;
  found = refl;
}

last_page : IsLastPage (packet_of 8 data_hdd_dir_end)
unfolding get_u16 put_u16 put_u32 get_u32
last_page = record {
  sound = packet_of-IsPacket 8 data_hdd_dir_end (omega arith) (omega arith);
  code = refl;
}

abbrev listing_device : Puppy
listing_device = puppy_on (record (quiet) {
  reads = listing_answers (page ∷ page ∷ []) (frame_answers (packet_of 8 data_hdd_dir_end) ++ []);
})

puppy_hdd_dir-whole_example :
    (q : Puppy) × (puppy_hdd_dir listing_device blank path
      ≡ some (map some (all_entries (page ∷ page ∷ [])) ++ (none ∷ []), q))
unfolding is_ok
puppy_hdd_dir-whole_example =
    puppy_hdd_dir-whole listing_device blank path (page ∷ page ∷ []) (packet_of 8 data_hdd_dir_end)
      refl blank-IsBytes path-AreBytes (omega arith) (page-IsPage, (page-IsPage, tt)) last_page refl
