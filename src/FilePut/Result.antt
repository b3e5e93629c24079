-- ===== src/FilePut/Result.antt =====
-- What the result of `puppy_hdd_file_put` says.
use libpuppy.Base.{
  ℕ, zero, suc, ◌≡◌, refl, Option, none, some, List, inl, inr, ◌==◌, Bool-cases, ==→eq, subst,
  length, ltb, take, drop, min, [], ◌∷◌,
}
use libpuppy.Bytes.{get_u32}
use libpuppy.Packet.{cmd_at}
use libpuppy.Packet.Commands.{success, fail}
use libpuppy.Session.{Code, done, receive}
use libpuppy.FilePut.{
  Upload, Step, next, exit, Phase, start, transfer, end, finished, adjusted, by_phase, on_start,
  on_data, on_end, send_data, read_failed, read_source, dispatch, data_packet, moved, payload_size,
  send_packet, on_received, round, put_loop,
}

abbrev pub reply_of : Upload → ℕ
reply_of s = get_u32 s.puppy.reply cmd_at

-- A step that ends with 0 has seen SUCCESS after the END packet was sent.
abbrev Confirmed : Step → Type 0
Confirmed (next s) = Unit
Confirmed (exit code s) = code ≡ done → (reply_of s ≡ success) × (s.phase ≡ finished)

send_data-Confirmed : (s : Upload) (bytes : List ℕ) → Confirmed (send_data s bytes)
unfolding send_data
send_data-Confirmed s bytes =
    let w = adjusted (length bytes) in
    let sent = (send_packet (data_packet s bytes) (moved s bytes)).0 in
    elim (Bool-cases (ltb 0 w)) [
      | inl e ↦ elim (Bool-cases (ltb sent w)) [
        | inl short ↦ rw (e, short) (λ h. cc)
        | inr full ↦ rw (e, full) tt
      ]
      | inr e ↦ rw e tt
    ]

read_source-Confirmed : (source : List (Option ℕ)) (s : Upload) → Confirmed (read_source source s)
unfolding read_source read_failed
read_source-Confirmed [] s = tt
read_source-Confirmed (none ∷ source) s = tt
read_source-Confirmed (some k ∷ source) s =
    send_data-Confirmed (record s { source = source })
      (take (min k payload_size) (drop s.pos s.content))

by_phase-Confirmed :
    (phase : Phase) (s : Upload)
    → s.phase ≡ phase
    → reply_of s ≡ success
    → Confirmed (by_phase phase s)
unfolding by_phase on_start on_data on_end
by_phase-Confirmed start s e h = tt
by_phase-Confirmed transfer s e h = read_source-Confirmed s.source s
by_phase-Confirmed end s e h = tt
by_phase-Confirmed finished s e h = λ _. (h, e)

dispatch-Confirmed : (s : Upload) → Confirmed (dispatch s)
unfolding dispatch
dispatch-Confirmed s = elim (Bool-cases (reply_of s == success)) [
  | inl go ↦ rw go (by_phase-Confirmed s.phase s refl (==→eq (reply_of s) success go))
  | inr other ↦ elim (Bool-cases (reply_of s == fail)) [
    | inl failed ↦ rw (other, failed) (λ h. cc)
    | inr unknown ↦ rw (other, unknown) tt
  ]
]

on_received-Confirmed : (r : Option ℕ) (s : Upload) → Confirmed (on_received r s)
unfolding on_received
on_received-Confirmed none s = λ h. cc
on_received-Confirmed (some r) s = dispatch-Confirmed s

round-Confirmed : (s : Upload) → Confirmed (round s)
unfolding round
round-Confirmed s =
    on_received-Confirmed (receive s.puppy).0 (record s { puppy = (receive s.puppy).1 })

-- The loop of `puppy_hdd_file_put` ends with 0 only where the last packet received is SUCCESS and the
-- phase is FINISHED, which is set after the END packet is sent.
pub put_loop-done :
    (fuel : ℕ) (s t : Upload)
    → put_loop fuel s ≡ some (done, t)
    → (reply_of t ≡ success) × (t.phase ≡ finished)
unfolding put_loop
put_loop-done zero s t h = cc
put_loop-done (suc fuel) s t h =
    stepped (λ u k. put_loop-done fuel u t k) (round s) (round-Confirmed s) h
  where
    first :
        (code : Code) (u : Upload)
        → ◌≡◌ {A = Option (Code × Upload)} (some (code, u)) (some (done, t))
        → code ≡ done
    first code u k = cc

    last :
        (code : Code) (u : Upload)
        → ◌≡◌ {A = Option (Code × Upload)} (some (code, u)) (some (done, t))
        → u ≡ t
    last code u k = cc

    stepped :
        ((u : Upload)
          → put_loop fuel u ≡ some (done, t)
          → (reply_of t ≡ success) × (t.phase ≡ finished))
        → (step : Step) → Confirmed step
        → (elim step as (λ _. Option (Code × Upload)) [
          | next u ↦ put_loop fuel u
          | exit code u ↦ some (code, u)
        ])
          ≡ some (done, t)
        → (reply_of t ≡ success) × (t.phase ≡ finished)
    stepped ih (next u) seen k = ih u k
    stepped ih (exit code u) seen k =
        subst (λ v. (reply_of v ≡ success) × (v.phase ≡ finished)) (last code u k)
          (seen (first code u k))
