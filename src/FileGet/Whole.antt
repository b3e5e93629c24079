-- ===== src/FileGet/Whole.antt =====
-- A device that delivers a file: `puppy_hdd_file_get` writes all of it.
use libpuppy.Packet.Typefile.{stamp_of_ext}
use libpuppy.Bytes.Value.{get_u64_ext}
use libpuppy.Transport.Receive.{reads-send_success}
use libpuppy.Base.Memory.{Memory, read_range_ext}
use libpuppy.Transport.RoundTrip.{frame_size, frame_answers}
use libpuppy.Base.{
  refl, length, false, ltb, arith, min, ◌+◌, ◌++◌, ◌∷◌, ◌∙◌, ◌∙◌, ◌∙◌, ◌∙◌, ◌∙◌, ap, ◌∙◌, ◌≤◌,
  Option, some, ◌∙◌, List, ◌∙◌, ◌≡◌, ℕ,
}
use libpuppy.Session.{Puppy, receive}
use libpuppy.Session.Frames.{IsReply, receive-IsReply}
use libpuppy.Stream.{Piece, IsData, IsStart, IsEnd}
use libpuppy.FileGet.{
  size_at, get_u64, stamp_of, length_at, get_u16, data_at, read_range, done, data_hdd_file_data,
  data_hdd_file_end, data_hdd_file_start, cmd_at, get_u32, Download, next, exit, start, transfer,
  data_len, write_data, report_short, on_start, on_data, start_in, data_in, dispatch, on_received,
  round, send_success_to,
}

dispatch-start :
    (r : ℕ) (d : Download)
    → get_u32 d.puppy.reply cmd_at ≡ data_hdd_file_start
    → dispatch r d ≡ start_in d.phase d
unfolding dispatch
dispatch-start r d h = rw h

dispatch-data :
    (r : ℕ) (d : Download)
    → get_u32 d.puppy.reply cmd_at ≡ data_hdd_file_data
    → dispatch r d ≡ data_in d.phase r d
unfolding dispatch
dispatch-data r d h = rw h

dispatch-end :
    (r : ℕ) (d : Download)
    → get_u32 d.puppy.reply cmd_at ≡ data_hdd_file_end
    → dispatch r d ≡ exit done (send_success_to d)
unfolding dispatch
dispatch-end r d h = rw h

-- A round in which a packet is received.
round-dispatch :
    (d : Download) (n : ℕ)
    → (receive d.puppy).0 ≡ some n
    → round d ≡ dispatch n (record d { puppy = (receive d.puppy).1 })
unfolding round on_received
round-dispatch d n h = ap (λ r. on_received r (record d { puppy = (receive d.puppy).1 })) h

-- A write that takes all of the piece.
write_data-all :
    (d : Download) (k : ℕ) (disk : List (Option ℕ))
    → data_len d.puppy.reply ≤ k
    → write_data (some k ∷ disk) d ≡ record d {
      disk = disk;
      file = d.file ++ read_range (d.puppy.reply) (data_at + 8) (data_len d.puppy.reply);
    }
unfolding write_data
write_data-all d k disk h =
    let all : min k (data_len d.puppy.reply) ≡ data_len d.puppy.reply = omega arith in
    let full : ltb (data_len d.puppy.reply) (data_len d.puppy.reply) ≡ false = ground arith in
    rw (all, full) refl

report_short-whole : (r : ℕ) (p : Puppy) → get_u16 p.reply length_at ≤ r → report_short r p ≡ p
report_short-whole r p h =
    let whole : ltb r (get_u16 p.reply length_at) ≡ false = ground arith in rw whole refl

-- The state after a START packet.
pub record IsStarted (d : Download) (p : Memory) (more : List (Option (List ℕ))) (e : Download)
    : Type 0 where
  pub phase : e.phase ≡ transfer
  pub left : e.puppy.usb.reads ≡ more
  pub size : e.byte_count ≡ get_u64 p (data_at + size_at)
  pub stamp : e.stamp ≡ some (stamp_of p data_at)
  pub disk : e.disk ≡ d.disk
  pub file : e.file ≡ d.file

-- A START packet in state START.
pub opening_round :
    (d : Download) (p : Memory) (more : List (Option (List ℕ)))
    → IsStart p
    → d.phase ≡ start
    → d.puppy.usb.reads ≡ frame_answers p ++ more
    → (e : Download) × (round d ≡ next e) × IsStarted d p more e
opening_round d p more ok in_start reads = (
  started,
  round-dispatch d (frame_size p) reply.returned
      ∙ dispatch-start (frame_size p) u (reply.cmd_field ∙ ok.code)
      ∙ ap (λ phase. start_in phase u) in_start
      ∙ unfold start_in on_start in refl,
  record {
    phase = refl;
    left = reads-send_success q.usb ∙ reply.left;
    size =
        get_u64_ext q.reply p (data_at + size_at)
          (λ i h k. reply.payload i (omega arith) (omega (arith, ok.room)));
    stamp = ap some (
        stamp_of_ext q.reply p data_at
          (λ i h k. reply.payload i (omega arith) (omega (arith, ok.room))));
    disk = refl;
    file = refl;
  },
)
  where
    reply : IsReply p d.puppy more
    reply = receive-IsReply p d.puppy more ok.sound reads

    q : Puppy
    q = (receive d.puppy).1

    u : Download
    u = record d { puppy = q }

    started : Download
    started = record (send_success_to u) {
      byte_count = get_u64 q.reply (data_at + size_at);
      stamp = some (stamp_of q.reply data_at);
      phase = transfer;
    }

-- An END packet, in every state.
pub end_round :
    (d : Download) (p : Memory) (more : List (Option (List ℕ)))
    → IsEnd p
    → d.puppy.usb.reads ≡ frame_answers p ++ more
    → round d ≡ exit done (send_success_to (record d { puppy = (receive d.puppy).1 }))
end_round d p more ok reads =
    let reply = receive-IsReply p d.puppy more ok.sound reads in
    round-dispatch d (frame_size p) reply.returned
    ∙ dispatch-end (frame_size p) (record d { puppy = (receive d.puppy).1 })
        (reply.cmd_field ∙ ok.code)

-- The state after a piece was written.
abbrev pub with_piece : Download → Puppy → List (Option ℕ) → List ℕ → Download
with_piece d q disk chunk = record d { puppy = q; disk = disk; file = d.file ++ chunk }

-- A DATA packet in state DATA, and a write that takes its piece.
pub data_round :
    (d : Download) (x : Piece) (more : List (Option (List ℕ))) (k : ℕ) (disk : List (Option ℕ))
    → IsData x
    → d.phase ≡ transfer
    → d.puppy.usb.reads ≡ frame_answers x.packet ++ more
    → d.disk ≡ some k ∷ disk
    → 65535 ≤ k
    → round d ≡ next (with_piece d (receive d.puppy).1 disk x.chunk)
data_round d x more k disk ok in_data reads writes takes =
    round-dispatch d (frame_size x.packet) reply.returned
    ∙ dispatch-data (frame_size x.packet) u (reply.cmd_field ∙ ok.cmd)
    ∙ ap (λ phase. data_in phase (frame_size x.packet) u) in_data
    ∙ written
  where
    reply : IsReply x.packet d.puppy more
    reply = receive-IsReply x.packet d.puppy more ok.sound reads

    q : Puppy
    q = (receive d.puppy).1

    u : Download
    u = record d { puppy = q }

    size : get_u16 q.reply length_at ≡ 16 + length x.chunk
    size = reply.length_field ∙ ok.size

    len : data_len q.reply ≡ length x.chunk
    len = omega (arith, size, ok.size, ok.sound.high)

    bytes : read_range q.reply 16 (length x.chunk) ≡ x.chunk
    bytes =
        read_range_ext q.reply x.packet 16 (length x.chunk)
          (λ i h k. reply.payload i (omega arith) (omega (arith, ok.size)))
        ∙ ok.payload

    whole : report_short (frame_size x.packet) q ≡ q
    whole = report_short-whole (frame_size x.packet) q (omega (arith, reply.length_field))

    written : data_in transfer (frame_size x.packet) u ≡ next (with_piece d q disk x.chunk)
    written =
        unfold data_in on_data in
        ap (λ p. next (write_data d.disk (record d { puppy = p }))) whole
        ∙ ap (λ w. next (write_data w u)) writes
        ∙ ap next (write_data-all u k disk (omega (arith, len, ok.size, ok.sound.high)))
        ∙ ap (λ n. next (with_piece d q disk (read_range q.reply 16 n))) len
        ∙ ap (λ bs. next (with_piece d q disk bs)) bytes
