-- ===== src/FilePut/Whole.antt =====
-- A whole file to the device, as `puppy_hdd_file_put` of libpuppy.c uploads it.
use libpuppy.Base.{
  drop-bytes, take-bytes, ℕ, zero, suc, ◌+◌, ◌-◌, ◌≤◌, ◌<◌, ◌≡◌, ◌^◌, refl, sym, ap, ◌∙◌, arith,
  min, List, [], ◌∷◌, ◌++◌, Option, some, length, take, drop, flatten, map, All, leb, Bool-cases,
  inl, inr, append_assoc, append-nil, take_all, length-take, length-drop,
}
use libpuppy.Base.Memory.{Memory, IsBytes, u64}
use libpuppy.Session.{Code, done}
use libpuppy.Session.Served.{receive-IsAnswered, IsServed, IsSuccess, frame_bytes}
use libpuppy.FilePut.{
  Upload, transfer, end, next, exit, round, end_packet, data_packet, adjusted, payload_size,
  put_loop, moved, send_packet,
}
use libpuppy.FilePut.Packets.{adjusted_lem}
use libpuppy.FilePut.RoundTrip.{Sent, IsSent, sent_bytes}
use libpuppy.FilePut.Ranges.{next_range}
use libpuppy.FilePut.Rounds.{
  answered, reply_memory, ended-IsRound, ended, finished_round, advanced-IsRound, reading, advanced,
}

-- The loop after a round that goes on, or that ends.
pub put_loop-next :
    (fuel : ℕ) (s t : Upload) → round s ≡ next t → put_loop (suc fuel) s ≡ put_loop fuel t
unfolding put_loop
put_loop-next fuel s t h =
    ap
      (λ step. elim step as (λ _. Option (Code × Upload)) [
        | next u ↦ put_loop fuel u
        | exit code u ↦ some (code, u)
      ])
      h

pub put_loop-exit :
    (fuel : ℕ) (s t : Upload) (code : Code)
    → round s ≡ exit code t
    → put_loop (suc fuel) s ≡ some (code, t)
unfolding put_loop
put_loop-exit fuel s t code h =
    ap
      (λ step. elim step as (λ _. Option (Code × Upload)) [
        | next u ↦ put_loop fuel u
        | exit c u ↦ some (c, u)
      ])
      h

-- The bytes of DATA packets on the wire.
abbrev pub frames : List Sent → List ℕ
frames [] = []
frames (x ∷ xs) = frame_bytes (data_packet x.state x.bytes) ++ frames xs

-- What the loop returns from a state where all before the position was sent: the rest of the file
-- went out in DATA packets, and an END packet after them.
pub record IsUploaded (s : Upload) (r : Option (Code × Upload)) : Type 0 where
  pub last : Upload
  pub result : r ≡ some (done, last)
  pub packets : List Sent
  pub sent : All IsSent packets
  pub ending : Upload
  pub ending_memory : IsBytes ending.puppy.packet
  pub parts : take s.pos s.content ++ sent_bytes packets ≡ s.content
  pub wire :
      flatten last.puppy.usb.sent
      ≡ flatten s.puppy.usb.sent ++ (frames packets ++ frame_bytes (end_packet ending))
  pub rounds : length packets ≤ length s.content - s.pos
  pub position : last.pos ≡ length s.content
  pub counted : last.byte_count ≡ length s.content

-- A state in which data are to be sent.
pub record IsAhead (s : Upload) : Type 0 where
  pub phase : s.phase ≡ transfer
  pub counted : s.byte_count ≡ s.pos
  pub sized : s.file_size ≡ length s.content
  pub behind : s.pos < length s.content
  pub small : All (λ x. x < 256) s.content
  pub few : length s.content < 2 ^ 64

-- The rounds of END and FINISHED.
closing_loop :
    (ok : Memory) (m fuel : ℕ) (s : Upload)
    → IsSuccess ok
    → IsServed ok m m s.puppy
    → 2 ≤ m
    → m ≤ fuel
    → s.phase ≡ end
    → s.pos ≡ length s.content
    → s.byte_count ≡ length s.content
    → IsUploaded s (put_loop fuel s)
unfolding send_packet
closing_loop ok (suc (suc m)) (suc (suc fuel)) s is_ok served two enough phase all counted =
    let r = ended-IsRound ok (suc m) (suc m) s is_ok served phase in
    let t = ended ok (suc m) (suc m) s is_ok served in
    record {
      last = answered t;
      result =
          put_loop-next (suc fuel) s t r.goes
          ∙ put_loop-exit fuel t (answered t) done (finished_round ok m m t is_ok r.served refl);
      packets = [];
      sent = tt;
      ending = answered s;
      ending_memory = reply_memory ok (suc m) (suc m) s is_ok served;
      parts = append-nil (take s.pos s.content) ∙ take_all s.pos s.content (omega arith);
      wire = ap flatten (receive-IsAnswered ok m (suc m) t.puppy is_ok r.served).sent ∙ r.sent;
      rounds = omega arith;
      position = all;
      counted = counted;
    }
closing_loop ok m fuel s is_ok served two enough phase all counted = absurd (omega arith)

-- The bytes that a read gives, where it asks for some and there are some.
module _ (s : Upload) (k : ℕ) (ahead : IsAhead s) (asks : 0 < k) where
  abbrev bytes : List ℕ
  bytes = take (min k payload_size) (drop s.pos s.content)

  abbrev fresh : ℕ
  fresh = adjusted (length bytes)

  length-bytes : length bytes ≡ min (min k payload_size) (length s.content - s.pos)
  length-bytes =
      length-take (min k payload_size) (drop s.pos s.content)
      ∙ ap (min (min k payload_size)) (length-drop s.pos s.content)

  bytes-small : All (λ x. x < 256) bytes
  bytes-small = take-bytes (min k payload_size) _ (drop-bytes s.pos s.content ahead.small)

  fresh-fits : (0 < fresh) × (s.pos + fresh ≤ length s.content)
  fresh-fits =
      let any : 0 < length bytes = omega (arith, length-bytes, ahead.behind) in
      let held_back = adjusted_lem (length bytes) in
      omega (arith, length-bytes, ahead.behind, held_back.0, held_back.2 any)

  count-fresh : u64 (s.byte_count + fresh) ≡ s.pos + fresh
  count-fresh = omega (arith, ahead.counted, ahead.few, fresh-fits)

-- A round of state DATA in front of what is uploaded after it.
data_then :
    (ok : Memory) (m fuel : ℕ) (s : Upload) (k : ℕ) (source : List (Option ℕ))
    (is_ok : IsSuccess ok) (served : IsServed ok (suc m) (suc m) s.puppy) (ahead : IsAhead s)
    → 0 < k
    → s.source ≡ some k ∷ source
    → IsUploaded
        (advanced ok m m s is_ok served k source)
        (put_loop fuel (advanced ok m m s is_ok served k source))
    → IsUploaded s (put_loop (suc fuel) s)
unfolding send_packet moved
data_then ok m fuel s k source is_ok served ahead asks answers rest =
    let t = advanced ok m m s is_ok served k source in
    let u = reading ok m m s is_ok served k source in
    let xs = bytes s k ahead asks in
    let r =
      advanced-IsRound ok m m s is_ok served k source ahead.phase answers
        (omega (arith, length-bytes s k ahead asks, ahead.behind))
        (omega (arith, length-bytes s k ahead asks)) (bytes-small s k ahead asks) in
    record {
      last = rest.last;
      result = put_loop-next fuel s t r.goes ∙ rest.result;
      packets = record { state = u; bytes = xs } ∷ rest.packets;
      sent = (
        record {
          memory = reply_memory ok m m s is_ok served;
          small = bytes-small s k ahead asks;
          short = omega (arith, length-bytes s k ahead asks);
        },
        rest.sent,
      );
      ending = rest.ending;
      ending_memory = rest.ending_memory;
      parts =
          sym (
            append_assoc (take s.pos s.content) (take (adjusted (length xs)) xs)
              (sent_bytes rest.packets))
          ∙ ap (λ ys. ys ++ sent_bytes rest.packets) (next_range (some k ∷ source) s)
          ∙ rest.parts;
      wire =
          let first = frame_bytes (data_packet u xs) in
          let closing = frame_bytes (end_packet rest.ending) in
          rest.wire
          ∙ ap (λ ys. ys ++ (frames rest.packets ++ closing)) r.sent
          ∙ append_assoc (flatten s.puppy.usb.sent) first (frames rest.packets ++ closing)
          ∙ ap (◌++◌ (flatten s.puppy.usb.sent))
              (sym (append_assoc first (frames rest.packets) closing));
      rounds = omega (arith, rest.rounds, fresh-fits s k ahead asks);
      position = rest.position;
      counted = rest.counted;
    }

-- The rounds of DATA, END and FINISHED.
pub data_loop :
    (ok : Memory) (ks : List ℕ) (m fuel : ℕ) (s : Upload)
    → IsSuccess ok
    → IsServed ok m m s.puppy
    → IsAhead s
    → s.source ≡ map some ks
    → All (λ k. 0 < k) ks
    → length s.content ≤ s.pos + length ks
    → length s.content - s.pos + 2 ≤ m
    → m ≤ fuel
    → IsUploaded s (put_loop fuel s)
unfolding moved send_packet
data_loop ok (k ∷ ks) (suc m) (suc fuel) s is_ok served ahead source ask answers replies enough =
    let r =
      advanced-IsRound ok m m s is_ok served k (map some ks) ahead.phase source
        (omega (arith, length-bytes s k ahead ask.0, ahead.behind))
        (omega (arith, length-bytes s k ahead ask.0)) (bytes-small s k ahead ask.0) in
    let t = advanced ok m m s is_ok served k (map some ks) in
    let fits = fresh-fits s k ahead ask.0 in
    let count = count-fresh s k ahead ask.0 in
    data_then ok m fuel s k (map some ks) is_ok served ahead ask.0 source
      (elim (Bool-cases (leb s.file_size (u64 (s.byte_count + fresh s k ahead ask.0)))) [
        | inl over ↦
            let past : length s.content ≤ s.pos + fresh s k ahead ask.0 =
              ground (arith, over, count, ahead.sized) in
            closing_loop ok m fuel t is_ok r.served (omega (arith, ahead.behind)) (omega arith)
              (rw over refl) (omega (arith, fits.1)) (omega (arith, fits.1, count))
        | inr more ↦
            let before : s.pos + fresh s k ahead ask.0 < length s.content =
              ground (arith, more, count, ahead.sized) in
            data_loop ok ks m fuel t is_ok r.served
              (record {
                phase = rw more refl;
                counted = count;
                sized = ahead.sized;
                behind = before;
                small = ahead.small;
                few = ahead.few;
              })
              refl ask.1 (omega (arith, fits.0)) (omega (arith, fits.0)) (omega arith)
      ])
data_loop ok [] m fuel s is_ok served ahead source ask answers replies enough =
    absurd (omega (arith, ahead.behind))
data_loop ok (k ∷ ks) zero fuel s is_ok served ahead source ask answers replies enough =
    absurd (omega arith)
data_loop ok (k ∷ ks) (suc m) zero s is_ok served ahead source ask answers replies enough =
    absurd (omega arith)
