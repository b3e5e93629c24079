-- ===== src/FilePut/Rounds.antt =====
-- The rounds of an upload to a device that takes every packet and answers SUCCESS.
use libpuppy.Base.{
  ℕ, suc, ◌≤◌, ◌<◌, ◌≡◌, refl, ap, ◌∙◌, arith, min, List, ◌∷◌, ◌++◌, Option, some, length, take,
  drop, flatten, All, ltb, ◌==◌, true, false,
}
use libpuppy.Base.Memory.{Memory, IsBytes}
use libpuppy.Bytes.{get_u32}
use libpuppy.Packet.{cmd_at}
use libpuppy.Packet.Commands.{success}
use libpuppy.Session.{done, receive}
use libpuppy.Session.Frames.{IsPacket}
use libpuppy.Session.Served.{
  IsServed, IsSuccess, IsAnswered, IsTaken, receive-IsAnswered, send_tf_packet-IsTaken, frame_bytes,
}
use libpuppy.Transport.{send_tf_packet}
use libpuppy.FilePut.{
  Upload, Phase, start, transfer, end, finished, next, exit, round, on_received, dispatch, by_phase,
  on_start, on_data, on_end, read_source, send_data, send_packet, start_packet, data_packet,
  end_packet, moved, adjusted, payload_size,
}
use libpuppy.FilePut.Packets.{adjusted_lem, length_lem}
use libpuppy.FilePut.Stream.{piece_of-IsData, start_packet-IsStart, end_packet-IsEnd}

-- The upload once a reply was taken.
abbrev pub answered : Upload → Upload
answered s = record s { puppy = (receive s.puppy).1 }

-- A round after SUCCESS goes by the state.
pub round-by_phase :
    (ok : Memory) (n packets : ℕ) (s : Upload) (phase : Phase)
    → s.phase ≡ phase
    → IsAnswered ok n packets s.puppy
    → round s ≡ by_phase phase (answered s)
unfolding round on_received dispatch
round-by_phase ok n packets s phase e a =
    let test : (get_u32 (answered s).puppy.reply cmd_at == success) ≡ true =
      ground (arith, a.code) in
    ap (λ r. on_received r (answered s)) a.returned ∙ rw test (ap (λ f. by_phase f (answered s)) e)

-- The state after a packet was sent.
abbrev pub sent_to : Memory → Upload → Upload
sent_to m s = (send_packet m s).1

-- What a round does that sends the packet `m` and leads from `s` to `t`.
pub record IsRound (ok : Memory) (n packets : ℕ) (m : Memory) (s t : Upload) : Type 0 where
  pub goes : round s ≡ next t
  pub sent : flatten t.puppy.usb.sent ≡ flatten s.puppy.usb.sent ++ frame_bytes m
  pub served : IsServed ok n packets t.puppy

module _ (ok : Memory) (n packets : ℕ) (s : Upload) (is_ok : IsSuccess ok)
    (served : IsServed ok (suc n) (suc packets) s.puppy) where
  reply : IsAnswered ok n (suc packets) s.puppy
  reply = receive-IsAnswered ok n (suc packets) s.puppy is_ok served

  pub reply_memory : IsBytes (answered s).puppy.packet
  reply_memory = reply.served.memory

  taken :
      (m : Memory)
      → IsPacket m
      → IsTaken ok n packets (answered s).puppy m (send_tf_packet (answered s).puppy.usb m)
  taken m sound = send_tf_packet-IsTaken ok n packets (answered s).puppy m sound reply.served

  wire :
      (m : Memory)
      → IsPacket m
      → flatten (send_tf_packet (answered s).puppy.usb m).2.sent
        ≡ flatten s.puppy.usb.sent ++ frame_bytes m
  wire m sound = (taken m sound).sent ∙ ap (λ xs. flatten xs ++ frame_bytes m) reply.sent

  -- START
  abbrev pub opened : Upload
  opened = record (sent_to (start_packet (answered s)) (answered s)) { phase = transfer }

  pub opened-IsRound :
      s.phase ≡ start
      → All (λ x. x < 256) s.name
      → IsRound ok n packets (start_packet (answered s)) s opened
  unfolding by_phase on_start send_packet
  opened-IsRound e small =
      let sound = (start_packet-IsStart (answered s) reply_memory small).sound in
      record {
        goes = round-by_phase ok n (suc packets) s start e reply;
        sent = wire _ sound;
        served = (taken _ sound).served;
      }

  -- END
  abbrev pub ended : Upload
  ended = record (sent_to (end_packet (answered s)) (answered s)) { phase = finished }

  pub ended-IsRound : s.phase ≡ end → IsRound ok n packets (end_packet (answered s)) s ended
  unfolding by_phase on_end send_packet
  ended-IsRound e =
      let sound = (end_packet-IsEnd (answered s) reply_memory).sound in
      record {
        goes = round-by_phase ok n (suc packets) s end e reply;
        sent = wire _ sound;
        served = (taken _ sound).served;
      }

  -- FINISHED
  pub finished_round : s.phase ≡ finished → round s ≡ exit done (answered s)
  unfolding by_phase
  finished_round e = round-by_phase ok n (suc packets) s finished e reply

  -- DATA, where `read` gave the bytes.
  module _ (k : ℕ) (source : List (Option ℕ)) where
    abbrev pub reading : Upload
    reading = record (answered s) { source = source }

    abbrev pub chunk : List ℕ
    chunk = take (min k payload_size) (drop s.pos s.content)

    abbrev pub advanced : Upload
    advanced = sent_to (data_packet reading chunk) (moved reading chunk)

    pub advanced-IsRound :
        s.phase ≡ transfer
        → s.source ≡ some k ∷ source
        → 0 < length chunk
        → length chunk ≤ payload_size
        → All (λ x. x < 256) chunk
        → IsRound ok n packets (data_packet reading chunk) s advanced
    unfolding by_phase on_data read_source send_data send_packet moved
    advanced-IsRound e answers some_bytes short small =
        let is_data = piece_of-IsData reading chunk reply_memory small short in
        let t = taken (data_packet reading chunk) is_data.sound in
        let w = adjusted (length chunk) in
        let any : ltb 0 w ≡ true = ground (arith, adjusted_lem (length chunk), some_bytes) in
        let whole : ltb (send_tf_packet (answered s).puppy.usb (data_packet reading chunk)).0 w
            ≡ false =
          ground (arith, t.returned, length_lem reading chunk short) in
        record {
          goes =
              round-by_phase ok n (suc packets) s transfer e reply
              ∙ ap (λ xs. read_source xs (answered s)) answers
              ∙ rw (any, whole) refl;
          sent = wire _ is_data.sound;
          served = t.served;
        }
