-- ===== src/FilePut/Call.antt =====
-- The call `puppy_hdd_file_put` from its request on, for a whole file.
use libpuppy.Base.{
  [], ◌∷◌, subst, sym, ℕ, zero, suc, ◌+◌, ◌≤◌, ◌<◌, ◌≡◌, ◌==◌, refl, ap, ◌∙◌, arith, List, ◌++◌,
  Option, some, length, length-append, flatten, map, All, append_assoc, false,
}
use libpuppy.Base.Memory.{Memory, IsBytes}
use libpuppy.Mjd.{TfDatetime}
use libpuppy.Requests.{
  CString, count, ready, send_request, send_cmd_hdd_file_send, hdd_file_send_request,
}
use libpuppy.Requests.Layout.{IsReady, AreBytes, round_up}
use libpuppy.Requests.Fields.{file_send_request-IsReady}
use libpuppy.Session.{Puppy, done}
use libpuppy.Session.Frames.{IsPacket}
use libpuppy.Session.Served.{
  requested, IsServed, IsSuccess, send_tf_packet-IsTaken, frame_bytes, replies,
}
use libpuppy.Transport.{send_tf_packet}
use libpuppy.Transport.RoundTrip.{frame_answers}
use libpuppy.Usb.{Usb}
use libpuppy.Usb.Read.{length-delivery}
use libpuppy.FilePut.{
  data_packet, Upload, new_upload, start_packet, end_packet, put_loop, put_fuel, puppy_hdd_file_put,
  examined, direction_put,
}
use libpuppy.Stream.{IsStart, IsEnd}
use libpuppy.FilePut.Stream.{start_packet-IsStart, end_packet-IsEnd}
use libpuppy.FilePut.Carried.{
  frames_of, packets_of, carried, IsDataPacket, carried-packets_of, packets_of-IsDataPacket,
}
use libpuppy.FilePut.RoundTrip.{Sent, IsSent, sent_bytes}
use libpuppy.FilePut.Rounds.{answered}
use libpuppy.FilePut.Whole.{frames}
use libpuppy.FilePut.Copy.{IsReadable, put_loop-IsWhole}

-- Each reply is an answer at least.
replies_enough : (m : ℕ) (ok : Memory) → m ≤ length (replies m ok)
replies_enough zero ok = omega arith
replies_enough (suc m) ok = omega (
  arith,
  length-append (frame_answers ok) (replies m ok),
  length-delivery _ _ _ _,
  replies_enough m ok,
)

-- A request that is ready is sent.
abbrev pub sized : CString → ℕ
sized path = round_up (11 + (length path + 1))

pub request-IsPacket :
    (req : Memory) (dir : ℕ) {cmd : ℕ} {payload : List ℕ} (path : CString)
    → (r : IsReady (hdd_file_send_request req dir path) (sized path) cmd payload)
    → length path < 65523
    → IsPacket r.packet
request-IsPacket req dir path r short = record {
  bytes = r.bytes;
  low = omega (arith, r.size_field);
  high = omega (arith, r.size_field);
}

pub send_cmd-ready :
    (u : Usb) (req m : Memory) (dir : ℕ) (path : CString)
    → hdd_file_send_request req dir path ≡ ready m
    → send_cmd_hdd_file_send u req dir path
      ≡ some (count (send_tf_packet u m).0, (send_tf_packet u m).2)
unfolding send_cmd_hdd_file_send send_request
send_cmd-ready u req m dir path built = ap (send_request u) built

-- The call after its request was sent.
put_after :
    (p : Puppy) (req m : Memory) (stamp : TfDatetime) (content : List ℕ) (source : List (Option ℕ))
    (path : CString) (last : Upload)
    → hdd_file_send_request req direction_put path ≡ ready m
    → 0 < length content
    → put_loop
        (put_fuel (requested p m))
        (new_upload (requested p m) (length content) stamp path content source)
      ≡ some (done, last)
    → puppy_hdd_file_put p req (examined (length content) stamp) content source path
      ≡ some (done, some last, last.puppy)
unfolding puppy_hdd_file_put
put_after p req m stamp content source path last built some_bytes result =
    let nonzero : (length content == 0) ≡ false = ground arith in
    rw (nonzero, send_cmd-ready p.usb req m direction_put path built, result) refl

-- What a call of `puppy_hdd_file_put` for a whole file has done: its request, the state in front of the
-- START packet, the DATA packets, the state in front of the END packet, and the state at the end.
pub record IsStored (p : Puppy) (req : Memory) (stamp : TfDatetime) (content : List ℕ)
    (source : List (Option ℕ)) (path : CString) : Type 0 where
  pub request : Memory
  pub built : hdd_file_send_request req direction_put path ≡ ready request
  pub first : Upload
  pub first_memory : IsBytes first.puppy.packet
  pub described : (first.file_size ≡ length content) × (first.stamp ≡ stamp) × (first.name ≡ path)
  pub packets : List Sent
  pub sent : All IsSent packets
  pub rounds : length packets ≤ length content
  pub ending : Upload
  pub ending_memory : IsBytes ending.puppy.packet
  pub last : Upload
  pub result :
      puppy_hdd_file_put p req (examined (length content) stamp) content source path
      ≡ some (done, some last, last.puppy)
  pub wire :
      flatten last.puppy.usb.sent
      ≡ flatten p.usb.sent
        ++ (frame_bytes request
            ++ (frame_bytes (start_packet first)
                ++ (frames packets ++ frame_bytes (end_packet ending))))
  pub parts : sent_bytes packets ≡ content
  pub counted : last.byte_count ≡ length content

pub puppy_hdd_file_put-IsStored :
    (ok req : Memory) (m : ℕ) (p : Puppy) (stamp : TfDatetime) (path : CString)
    (content ks : List ℕ)
    → IsSuccess ok
    → IsServed ok m (suc m) p
    → IsBytes req
    → AreBytes path
    → length path < 65523
    → IsReadable content ks
    → length content + 3 ≤ m
    → IsStored p req stamp content (map some ks) path
puppy_hdd_file_put-IsStored ok req m p stamp path content ks is_ok served memory bytes short
      readable enough =
    let r = file_send_request-IsReady req direction_put path memory bytes short in
    let t =
      send_tf_packet-IsTaken ok m m p r.packet (request-IsPacket req direction_put path r short)
        served in
    let q = requested p r.packet in
    let w =
      put_loop-IsWhole ok m (put_fuel q) q stamp path content ks is_ok
        (record {
          reads = t.served.reads;
          left = t.served.left;
          writes = t.served.writes;
          enough = t.served.enough;
          pages = t.served.pages;
          memory = served.memory;
        })
        bytes readable enough (omega (arith, ap length t.served.reads, replies_enough m ok)) in
    let first = answered (new_upload q (length content) stamp path content (map some ks)) in
    let transfer =
      frame_bytes (start_packet first) ++ (frames w.packets ++ frame_bytes (end_packet w.ending)) in
    record {
      request = r.packet;
      built = r.built;
      first = first;
      first_memory = w.first_memory;
      described = (refl, refl, refl);
      packets = w.packets;
      sent = w.sent;
      rounds = w.rounds;
      ending = w.ending;
      ending_memory = w.ending_memory;
      last = w.last;
      result =
          put_after p req r.packet stamp content (map some ks) path w.last r.built
            readable.some_bytes w.result;
      wire =
          w.wire
          ∙ ap (λ xs. xs ++ transfer) t.sent
          ∙ append_assoc (flatten p.usb.sent) (frame_bytes r.packet) transfer;
      parts = w.parts;
      counted = w.counted;
    }

frames-packets_of : (xs : List Sent) → frames xs ≡ frames_of (packets_of xs)
frames-packets_of [] = refl
frames-packets_of (x ∷ xs) =
    ap (λ ys. frame_bytes (data_packet x.state x.bytes) ++ ys) (frames-packets_of xs)

-- A file of one to 2 ^ 64 - 1 bytes whose reads each give a byte at least, as many reads as it has
-- bytes, a path of fewer than 65523 bytes, packets in memory that hold bytes, and a device that
-- takes 16 pages for each packet and answers SUCCESS at least three times more often than the file
-- has bytes: `puppy_hdd_file_put` returns 0. What the device was sent are the frames of the request,
-- of a packet with the command START and room for a descriptor, of packets with the command DATA,
-- and of a packet with the command END; the data of the DATA packets, behind the offset and up to
-- their length fields, are the bytes of the file in order; and the count that the call ends with is
-- its size.
pub puppy_hdd_file_put-whole :
    (ok req : Memory) (m : ℕ) (p : Puppy) (stamp : TfDatetime) (path : CString)
    (content ks : List ℕ)
    → IsSuccess ok
    → IsServed ok m (suc m) p
    → IsBytes req
    → AreBytes path
    → length path < 65523
    → IsReadable content ks
    → length content + 3 ≤ m
    → (request first ending : Memory) × (xs : List Memory) × (last : Upload)
      × (hdd_file_send_request req direction_put path ≡ ready request)
      × (puppy_hdd_file_put p req (examined (length content) stamp) content (map some ks) path
          ≡ some (done, some last, last.puppy))
      × (flatten last.puppy.usb.sent
          ≡ flatten p.usb.sent
            ++ (frame_bytes request ++ (frame_bytes first ++ (frames_of xs ++ frame_bytes ending))))
      × IsStart first
      × All IsDataPacket xs
      × (carried xs ≡ content)
      × IsEnd ending
      × (last.byte_count ≡ length content)
puppy_hdd_file_put-whole ok req m p stamp path content ks is_ok served memory bytes short readable
      enough =
    let s =
      puppy_hdd_file_put-IsStored ok req m p stamp path content ks is_ok served memory bytes short
        readable enough in
    let named : All (λ x. x < 256) s.first.name =
      subst (All (λ x. x < 256)) (sym s.described.2) bytes in
    (
      s.request,
      start_packet s.first,
      end_packet s.ending,
      packets_of s.packets,
      s.last,
      s.built,
      s.result,
      s.wire
          ∙ ap
              (λ xs.
                flatten p.usb.sent
                ++ (frame_bytes s.request
                    ++ (frame_bytes (start_packet s.first)
                        ++ (xs ++ frame_bytes (end_packet s.ending)))))
              (frames-packets_of s.packets),
      start_packet-IsStart s.first s.first_memory named,
      packets_of-IsDataPacket s.packets,
      carried-packets_of s.packets s.sent ∙ s.parts,
      end_packet-IsEnd s.ending s.ending_memory,
      s.counted,
    )
