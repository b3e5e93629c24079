-- ===== src/FilePut/Ends.antt =====
-- The loop of `puppy_hdd_file_put` ends within its fuel.
use libpuppy.Base.{
  ℕ, zero, suc, ◌<◌, ◌≡◌, ◌≢◌, refl, sym, ◌∙◌, ap, arith, Option, none, some, length, ◌==◌,
}
use libpuppy.Session.{receive}
use libpuppy.Session.Progress.{receive-rest}
use libpuppy.Transport.Receive.{reads-send_tf_packet}
use libpuppy.FilePut.{
  Upload, Step, Phase, start, transfer, end, finished, adjusted, by_phase, next, exit, send_packet,
  send_data, read_failed, read_source, on_start, on_received, round, on_data, on_end, dispatch,
  put_loop, data_packet, start_packet, end_packet, moved,
}
use libpuppy.Base.Memory.{Memory}
use libpuppy.Base.{List, [], ◌∷◌, ltb, Bool-cases, inl, inr}
use libpuppy.Bytes.{get_u32}
use libpuppy.Packet.{cmd_at}
use libpuppy.Packet.Commands.{success, fail}

abbrev pub reads_of : Upload → List (Option (List ℕ))
reads_of s = s.puppy.usb.reads

reads-send_packet : (m : Memory) (s : Upload) → reads_of (send_packet m s).1 ≡ reads_of s
unfolding send_packet
reads-send_packet m s = reads-send_tf_packet (s.puppy.usb) m

moved-reads : (s : Upload) (bytes : List ℕ) → reads_of (moved s bytes) ≡ reads_of s
unfolding moved
moved-reads s bytes = refl

-- The state after a step, whether the loop goes on or not.
abbrev pub after : Step → Upload
after (next t) = t
after (exit code t) = t

send_data-reads : (s : Upload) (bytes : List ℕ) → reads_of (after (send_data s bytes)) ≡ reads_of s
unfolding send_data
send_data-reads s bytes =
    let sent = send_packet (data_packet s bytes) (moved s bytes) in
    let kept = reads-send_packet (data_packet s bytes) (moved s bytes) ∙ moved-reads s bytes in
    elim (Bool-cases (ltb 0 (adjusted (length bytes)))) [
      | inl some_bytes ↦ elim (Bool-cases (ltb sent.0 (adjusted (length bytes)))) [
        | inl short ↦ rw (some_bytes, short) kept
        | inr full ↦ rw (some_bytes, full) kept
      ]
      | inr no_bytes ↦ rw no_bytes (moved-reads s bytes)
    ]

read_failed-reads : (s : Upload) → reads_of (after (read_failed s)) ≡ reads_of s
unfolding read_failed
read_failed-reads s = refl

read_source-reads :
    (source : List (Option ℕ)) (s : Upload) → reads_of (after (read_source source s)) ≡ reads_of s
unfolding read_source
read_source-reads [] s = read_failed-reads s
read_source-reads (none ∷ source) s = read_failed-reads (record s { source = source })
read_source-reads (some k ∷ source) s = send_data-reads (record s { source = source }) _

by_phase-reads : (phase : Phase) (s : Upload) → reads_of (after (by_phase phase s)) ≡ reads_of s
unfolding by_phase on_start on_data on_end
by_phase-reads start s = reads-send_packet (start_packet s) s
by_phase-reads transfer s = read_source-reads s.source s
by_phase-reads end s = reads-send_packet (end_packet s) s
by_phase-reads finished s = refl

-- A step keeps the answers of the reading side.
dispatch-reads : (s : Upload) → reads_of (after (dispatch s)) ≡ reads_of s
unfolding dispatch
dispatch-reads s = elim (Bool-cases (get_u32 s.puppy.reply cmd_at == success)) [
  | inl go ↦ rw go (by_phase-reads s.phase s)
  | inr other ↦ elim (Bool-cases (get_u32 s.puppy.reply cmd_at == fail)) [
    | inl failed ↦ rw (other, failed) refl
    | inr unknown ↦ rw (other, unknown) refl
  ]
]

-- A round that goes on leaves fewer answers.
on_received-fewer :
    (s t : Upload) (r : Option ℕ)
    → (receive s.puppy).0 ≡ r
    → on_received r (record s { puppy = (receive s.puppy).1 }) ≡ next t
    → length (reads_of t) < length (reads_of s)
unfolding on_received
on_received-fewer s t none e h = cc
on_received-fewer s t (some n) e h =
    let u = record s { puppy = (receive s.puppy).1 } in
    let kept : reads_of t ≡ reads_of u =
      sym (ap (λ step. reads_of (after step)) h) ∙ dispatch-reads u in
    rw kept (receive-rest s.puppy n e)

round-fewer : (s t : Upload) → round s ≡ next t → length (reads_of t) < length (reads_of s)
unfolding round
round-fewer s t h = on_received-fewer s t (receive s.puppy).0 refl h

-- The loop of `puppy_hdd_file_put` comes to an end, for every sequence of answers of the device, the
-- source file and the writing side, when its fuel is above the number of answers to be read.
pub put_loop-ends : (fuel : ℕ) (s : Upload) → length (reads_of s) < fuel → put_loop fuel s ≢ none
unfolding put_loop
put_loop-ends zero s h = absurd (omega arith)
put_loop-ends (suc fuel) s h = stepped (λ t. put_loop-ends fuel t) (round s) refl
  where
    stepped :
        ((t : Upload) → length (reads_of t) < fuel → put_loop fuel t ≢ none)
        → (step : Step) → round s ≡ step
        → put_loop (suc fuel) s ≢ none
    stepped ih (next t) e = rw (e, put_loop) (ih t (omega (arith, round-fewer s t e)))
    stepped ih (exit code t) e = rw (e, put_loop) (λ h. cc)
