-- ===== src/Tests/Copies.antt =====
-- A file that is uploaded to a concrete device and downloaded again.
use libpuppy.Base.{All, ℕ, ◌≡◌, refl, arith, List, [], ◌∷◌, ◌++◌, none, some, map, flatten}
use libpuppy.Base.Memory.{Memory}
use libpuppy.Bytes.{get_u16, get_u32, put_u16, put_u32}
use libpuppy.Packet.Commands.{success}
use libpuppy.Requests.{ready, hdd_file_send_request}
use libpuppy.Session.{Puppy, done, neg_eproto}
use libpuppy.Session.Served.{IsServed, IsSuccess, replies, frame_bytes}
use libpuppy.Usb.Write.{willing}
use libpuppy.FileGet.{Download, puppy_hdd_file_get}
use libpuppy.FilePut.{
  Upload, transfer, new_upload, put_loop, start_packet, end_packet, puppy_hdd_file_put, examined,
  direction_put,
}
use libpuppy.FilePut.RoundTrip.{Sent}
use libpuppy.FilePut.Whole.{frames}
use libpuppy.FilePut.Copy.{IsReadable}
use libpuppy.Stream.{IsStart, IsEnd}
use libpuppy.FilePut.Carried.{frames_of, carried, IsDataPacket}
use libpuppy.FilePut.Call.{puppy_hdd_file_put-whole}
use libpuppy.FilePut.Return.{IsDescribing, replay, puppy_hdd_file_get-puppy_hdd_file_put}
use libpuppy.FilePut.Truncated.{put_loop-truncated}
use libpuppy.Tests.Codec.{blank, blank-IsBytes, leap_day}
use libpuppy.Tests.Wire.{quiet}
use libpuppy.Tests.Calls.{puppy_on, path}
use libpuppy.Tests.Streams.{packet_of, packet_of-IsPacket}

-- SUCCESS
abbrev ok : Memory
ok = packet_of 8 success

ok-IsSuccess : IsSuccess ok
unfolding get_u16 put_u16 put_u32 get_u32
ok-IsSuccess = record {
  sound = packet_of-IsPacket 8 success (omega arith) (omega arith);
  code = refl;
}

abbrev serving : Puppy
serving = puppy_on (record (quiet) { reads = replies 5 ok; writes = willing 96 })

serving-IsServed : IsServed ok 5 6 serving
serving-IsServed = record {
  reads = refl;
  left = 96;
  writes = refl;
  enough = omega arith;
  pages = tt;
  memory = blank-IsBytes;
}

abbrev film : List ℕ
film = 5 ∷ 6 ∷ []

abbrev asked : List ℕ
asked = 9 ∷ 9 ∷ []

film-IsReadable : IsReadable film asked
film-IsReadable = record {
  small = ground arith;
  some_bytes = omega arith;
  few = omega arith;
  asks = ground arith;
  enough = omega arith;
}

leap_day-IsDescribing : IsDescribing leap_day path
leap_day-IsDescribing = record {
  bytes = ground arith;
  short = omega arith;
  mjd = omega arith;
  hour = omega arith;
  minute = omega arith;
  second = omega arith;
}

puppy_hdd_file_put-whole_example :
    (request first ending : Memory) × (xs : List Memory) × (last : Upload) × (hdd_file_send_request
        blank direction_put path
      ≡ ready request)
    × (puppy_hdd_file_put serving blank (examined 2 leap_day) film (map some asked) path
        ≡ some (done, some last, last.puppy))
    × (flatten last.puppy.usb.sent
        ≡ []
          ++ (frame_bytes request ++ (frame_bytes first ++ (frames_of xs ++ frame_bytes ending))))
    × IsStart first
    × All IsDataPacket xs
    × (carried xs ≡ film)
    × IsEnd ending
    × (last.byte_count ≡ 2)
puppy_hdd_file_put-whole_example =
    puppy_hdd_file_put-whole ok blank 5 serving leap_day path film asked ok-IsSuccess
      serving-IsServed blank-IsBytes leap_day-IsDescribing.bytes (omega arith) film-IsReadable
      (omega arith)

puppy_hdd_file_get-puppy_hdd_file_put_example :
    (request : Memory) × (first : Upload) × (xs : List Sent) × (ending last : Upload)
    × (d : Download) × (puppy_hdd_file_put serving blank
          (examined 2 leap_day)
          film
          (map some asked)
          path
        ≡ some (done, some last, last.puppy))
    × (flatten last.puppy.usb.sent
        ≡ []
          ++ (frame_bytes request
              ++ (frame_bytes (start_packet first)
                  ++ (frames xs ++ frame_bytes (end_packet ending)))))
    × (puppy_hdd_file_get
          (replay serving (start_packet first) xs (end_packet ending))
          blank
          none
          (some 65535 ∷ some 65535 ∷ [])
          path
        ≡ some (done, d))
    × (d.file ≡ film)
    × (d.byte_count ≡ 2)
    × (d.stamp ≡ some leap_day)
puppy_hdd_file_get-puppy_hdd_file_put_example =
    puppy_hdd_file_get-puppy_hdd_file_put ok blank blank 5 serving serving leap_day path path film
      asked (65535 ∷ 65535 ∷ []) ok-IsSuccess serving-IsServed blank-IsBytes leap_day-IsDescribing
      film-IsReadable (omega arith) blank-IsBytes leap_day-IsDescribing.bytes (omega arith)
      (omega arith, (omega arith, tt)) (omega arith)

-- A file of two bytes whose size was three when the upload began.
abbrev shortened : Upload
shortened =
    record (new_upload (puppy_on (record (quiet) { reads = replies 1 ok; writes = willing 16 })) 3
      leap_day path film (some 9 ∷ [])) { phase = transfer; byte_count = 2; pos = 2 }

shortened-IsServed : IsServed ok 1 1 shortened.puppy
shortened-IsServed = record {
  reads = refl;
  left = 16;
  writes = refl;
  enough = omega arith;
  pages = tt;
  memory = blank-IsBytes;
}

put_loop-truncated_example :
    (last : Upload) × (put_loop 2 shortened ≡ some (neg_eproto, last)) × (last.puppy.usb.sent ≡ [])
put_loop-truncated_example =
    put_loop-truncated ok 9 1 2 shortened [] ok-IsSuccess shortened-IsServed refl refl (omega arith)
      (omega arith)
