-- ===== src/FilePut/RoundTrip.antt =====
-- What an upload sent is what a download receives.
use libpuppy.Bytes.{get_u64}
use libpuppy.FileGet.{new_download, get_loop, Download}
use libpuppy.Transport.RoundTrip.{frame_answers}
use libpuppy.Base.Memory.{Memory, IsBytes}
use libpuppy.Base.{
  ◌∙◌, arith, some, map, refl, suc, ◌++◌, ◌+◌, ◌^◌, [], ap, take, ◌<◌, ◌≤◌, All, length, ℕ, ◌∷◌,
  ◌≡◌, List,
}
use libpuppy.Stream.{Piece, IsData, contents, delivered}
use libpuppy.FilePut.{
  data_at, data_hdd_file_start, cmd_at, length_at, put_u16, put_u32, done, Puppy, Upload, adjusted,
  start_packet, end_packet, payload_size,
}
use libpuppy.FilePut.Stream.{piece_of, piece_of-IsData, start_packet-IsStart, end_packet-IsEnd}
use libpuppy.FileGet.Complete.{get_loop-whole}
use libpuppy.Packet.Typefile.{size_at, stamp_of}
use libpuppy.Listing.Descriptor.{size_lem, stamp_lem}

-- A DATA packet that was sent: the state that it was sent in, and the bytes that were read for it.
pub record Sent : Type 0 where
  pub state : Upload
  pub bytes : List ℕ

pub record IsSent (x : Sent) : Type 0 where
  pub memory : IsBytes x.state.puppy.packet
  pub small : All (λ b. b < 256) x.bytes
  pub short : length x.bytes ≤ payload_size

abbrev pub pieces : List Sent → List Piece
pieces [] = []
pieces (x ∷ xs) = piece_of x.state x.bytes ∷ pieces xs

-- The bytes that the packets count, in order: those that were read, but for those held back.
abbrev pub sent_bytes : List Sent → List ℕ
sent_bytes [] = []
sent_bytes (x ∷ xs) = take (adjusted (length x.bytes)) x.bytes ++ sent_bytes xs

pieces-IsData : (xs : List Sent) → All IsSent xs → All IsData (pieces xs)
pieces-IsData [] h = tt
pieces-IsData (x ∷ xs) h =
    (piece_of-IsData x.state x.bytes h.0.memory h.0.small h.0.short, pieces-IsData xs h.1)

contents-pieces : (xs : List Sent) → contents (pieces xs) ≡ sent_bytes xs
contents-pieces [] = refl
contents-pieces (x ∷ xs) =
    ap (λ rest. take (adjusted (length x.bytes)) x.bytes ++ rest) (contents-pieces xs)

length-pieces : (xs : List Sent) → length (pieces xs) ≡ length xs
length-pieces [] = refl
length-pieces (x ∷ xs) = ap suc (length-pieces xs)

-- An upload whose fields fit the descriptor: a name of at most 94 bytes, a size below 2 ^ 64 and a
-- stamp of 16 and 8 bit fields.
pub record IsDescribed (s : Upload) : Type 0 where
  pub memory : IsBytes s.puppy.packet
  pub small : All (λ b. b < 256) s.name
  pub short : length s.name ≤ 94
  pub size : s.file_size < 2 ^ 64
  pub mjd : s.stamp.mjd < 2 ^ 16
  pub hour : s.stamp.hour < 256
  pub minute : s.stamp.minute < 256
  pub second : s.stamp.second < 256

-- Where a device delivers the START packet of an upload whose fields fit the descriptor, DATA packets
-- of bytes that were read for them, and an END packet, and the disk takes every write, the loop of
-- `puppy_hdd_file_get` returns 0; the file has the bytes of the DATA packets in order, without
-- those that `adjusted` holds back, and the size and the time stamp are those of the upload.
pub get_loop-uploaded :
    (p : Puppy) (first last : Upload) (xs : List Sent) (ks : List ℕ) (fuel : ℕ)
    → IsDescribed first
    → All IsSent xs
    → IsBytes last.puppy.packet
    → All (λ k. 65535 ≤ k) ks
    → length xs ≤ length ks
    → length xs + 2 ≤ fuel
    → p.usb.reads
      ≡ frame_answers (start_packet first)
        ++ delivered (pieces xs) (frame_answers (end_packet last))
    → (d : Download) × (get_loop fuel (new_download p (map some ks)) ≡ some (done, d))
      × (d.file ≡ sent_bytes xs)
      × (d.byte_count ≡ first.file_size)
      × (d.stamp ≡ some first.stamp)
get_loop-uploaded p first last xs ks fuel ok sent memory takes enough h reads =
    let (d, result, file, size, stamp) =
      get_loop-whole p (start_packet first) (end_packet last) (pieces xs) ks fuel
        (start_packet-IsStart first ok.memory ok.small) (pieces-IsData xs sent)
        (end_packet-IsEnd last memory) takes (omega (arith, length-pieces xs))
        (omega (arith, length-pieces xs)) reads in
    (d, result, file ∙ contents-pieces xs, size ∙ size_of_start, stamp ∙ ap some stamp_of_start)
  where
    headed : Memory
    headed = put_u32 (put_u16 first.puppy.packet length_at 122) cmd_at data_hdd_file_start

    size_of_start : get_u64 (start_packet first) (data_at + size_at) ≡ first.file_size
    size_of_start =
        unfold start_packet in
        size_lem headed data_at first.stamp first.file_size first.name ok.short ok.size

    stamp_of_start : stamp_of (start_packet first) data_at ≡ first.stamp
    stamp_of_start =
        unfold start_packet in
        stamp_lem headed data_at first.stamp first.file_size first.name ok.short ok.mjd ok.hour
          ok.minute ok.second
