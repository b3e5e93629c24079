-- ===== src/FilePut/Progress.antt =====
-- How much of the source file an upload has sent.
use libpuppy.Base.{
  ℕ, zero, suc, ◌+◌, ◌-◌, ◌^◌, ◌≤◌, ◌<◌, ◌≡◌, ◌⊎◌, inl, inr, refl, ap, arith, Option, none, some,
  List, [], ◌∷◌, length, take, drop, length-take, length-drop, min, ltb, leb, ◌==◌, Bool, true,
  false, Bool-cases, subst,
}
use libpuppy.Base.Memory.{u64}
use libpuppy.Bytes.{get_u32}
use libpuppy.Packet.{cmd_at}
use libpuppy.Packet.Commands.{success, fail}
use libpuppy.Session.{Puppy, Code, done, receive}
use libpuppy.Mjd.{TfDatetime}
use libpuppy.Requests.{CString}
use libpuppy.FilePut.{
  Upload, Step, next, exit, Phase, start, transfer, end, finished, adjusted, by_phase, on_start,
  on_data, on_end, send_data, send_packet, data_packet, moved, payload_size, read_failed,
  read_source, new_upload, dispatch, on_received, round, put_loop,
}

-- Whether data are still to be sent.
abbrev pub still : Phase → Bool
still start = true
still transfer = true
still end = false
still finished = false

-- Without a failed read, the count of the bytes sent is the file's position.
pub record IsSending (s : Upload) : Type 0 where
  pub counted : s.byte_count ≡ s.pos
  pub within : s.pos ≤ length s.content
  pub small : length s.content < 2 ^ 64
  pub all_sent : (still s.phase ≡ true) ⊎ (s.file_size ≤ s.pos)

-- A failed read has left the count one below the position.
pub record IsFailed (s : Upload) : Type 0 where
  pub one_less : u64 (s.byte_count + 1) ≡ s.pos
  pub over : still s.phase ≡ false

abbrev pub Sound : Upload → Type 0
Sound s = IsSending s ⊎ IsFailed s

-- What a result of 0 means.
abbrev pub Complete : Upload → Type 0
Complete s = ((s.byte_count ≡ s.pos) × (s.file_size ≤ s.pos)) ⊎ (u64 (s.byte_count + 1) ≡ s.pos)

abbrev SoundStep : Step → Type 0
SoundStep (next s) = Sound s
SoundStep (exit code s) = code ≡ done → Complete s

adjusted_le : (w : ℕ) → adjusted w ≤ w
unfolding adjusted
adjusted_le w = ground arith

moved-IsSending :
    (s : Upload) (bytes : List ℕ)
    → IsSending s
    → length bytes ≤ length s.content - s.pos
    → IsSending (moved s bytes)
unfolding moved
moved-IsSending s bytes i h =
    let fits = adjusted_le (length bytes) in
    let same : u64 (s.byte_count + adjusted (length bytes)) ≡ s.pos + adjusted (length bytes) =
      omega (arith, i.counted, i.within, i.small) in
    record {
      counted = same;
      within = omega (arith, i.within);
      small = i.small;
      all_sent =
          elim (Bool-cases (leb s.file_size (u64 (s.byte_count + adjusted (length bytes))))) [
            | inl e ↦ inr (ground (arith, e, same))
            | inr e ↦ rw e (inl refl)
          ];
    }

-- The packets and the connection do not matter.
renewed : {s : Upload} (p : Puppy) → IsSending s → IsSending (record s { puppy = p })
renewed p i = record {
  counted = i.counted;
  within = i.within;
  small = i.small;
  all_sent = i.all_sent;
}

send_data-Sound :
    (s : Upload) (bytes : List ℕ)
    → IsSending s
    → length bytes ≤ length s.content - s.pos
    → SoundStep (send_data s bytes)
unfolding send_data send_packet
send_data-Sound s bytes i h =
    let w = adjusted (length bytes) in
    let sent = (send_packet (data_packet s bytes) (moved s bytes)).0 in
    let m = moved-IsSending s bytes i h in
    elim (Bool-cases (ltb 0 w)) [
      | inl e ↦ elim (Bool-cases (ltb sent w)) [
        | inl short ↦ rw (e, short) (λ h. cc)
        | inr full ↦ rw (e, full) (inl (renewed _ m))
      ]
      | inr e ↦ rw e (inl (renewed _ m))
    ]

read_failed-Sound : (s : Upload) → IsSending s → SoundStep (read_failed s)
unfolding read_failed
read_failed-Sound s i =
    inr (record { one_less = omega (arith, i.counted, i.within, i.small); over = refl })

read_source-Sound :
    (source : List (Option ℕ)) (s : Upload) → IsSending s → SoundStep (read_source source s)
unfolding read_source
read_source-Sound [] s i = read_failed-Sound s i
read_source-Sound (none ∷ source) s i =
    read_failed-Sound (record s { source = source })
      (record { counted = i.counted; within = i.within; small = i.small; all_sent = i.all_sent })
read_source-Sound (some k ∷ source) s i =
    let bytes = take (min k payload_size) (drop s.pos s.content) in
    send_data-Sound (record s { source = source }) bytes
      (record { counted = i.counted; within = i.within; small = i.small; all_sent = i.all_sent })
      (omega (
        arith,
        length-take (min k payload_size) (drop s.pos s.content),
        length-drop s.pos s.content,
      ))

-- Once nothing is left to send, what was sent is final.
settled : (s : Upload) → Sound s → still s.phase ≡ false → Complete s
settled s (inl i) e = elim i.all_sent [ inl more ↦ cc | inr all ↦ inl (i.counted, all) ]
settled s (inr f) e = inr f.one_less

by_phase-Sound :
    (phase : Phase) (s : Upload) → s.phase ≡ phase → Sound s → SoundStep (by_phase phase s)
unfolding by_phase on_start on_data on_end send_packet
by_phase-Sound start s e (inl i) =
    inl (record { counted = i.counted; within = i.within; small = i.small; all_sent = inl refl })
by_phase-Sound start s e (inr f) = cc
by_phase-Sound transfer s e (inl i) = read_source-Sound s.source s i
by_phase-Sound transfer s e (inr f) = cc
by_phase-Sound end s e (inl i) = elim i.all_sent [
  | inl more ↦ cc
  | inr all ↦
      inl (record { counted = i.counted; within = i.within; small = i.small; all_sent = inr all })
]
by_phase-Sound end s e (inr f) = inr (record { one_less = f.one_less; over = refl })
by_phase-Sound finished s e sound = λ _. settled s sound (ap still e)

said-Sound : {s : Upload} (p : Puppy) → Sound s → Sound (record s { puppy = p })
said-Sound p (inl i) = inl (renewed p i)
said-Sound p (inr f) = inr (record { one_less = f.one_less; over = f.over })

dispatch-Sound : (s : Upload) → Sound s → SoundStep (dispatch s)
unfolding dispatch
dispatch-Sound s sound =
    let cmd = get_u32 s.puppy.reply cmd_at in
    elim (Bool-cases (cmd == success)) [
      | inl go ↦ rw go (by_phase-Sound s.phase s refl sound)
      | inr other ↦ elim (Bool-cases (cmd == fail)) [
        | inl failed ↦ rw (other, failed) (λ h. cc)
        | inr unknown ↦ rw (other, unknown) (said-Sound _ sound)
      ]
    ]

on_received-Sound : (r : Option ℕ) (s : Upload) → Sound s → SoundStep (on_received r s)
unfolding on_received
on_received-Sound none s sound = λ h. cc
on_received-Sound (some n) s sound = dispatch-Sound s sound

round-Sound : (s : Upload) → Sound s → SoundStep (round s)
unfolding round
round-Sound s sound =
    on_received-Sound (receive s.puppy).0 (record s { puppy = (receive s.puppy).1 })
      (said-Sound (receive s.puppy).1 sound)

-- The state that `puppy_hdd_file_put` starts from is sound, for a file of fewer than 2 ^ 64 bytes.
pub new_upload-Sound :
    (p : Puppy) (size : ℕ) (stamp : TfDatetime) (name : CString) (content : List ℕ)
    (source : List (Option ℕ))
    → length content < 2 ^ 64
    → Sound (new_upload p size stamp name content source)
new_upload-Sound p size stamp name content source h =
    inl (record { counted = refl; within = omega arith; small = h; all_sent = inl refl })

-- From a sound state, the loop of `puppy_hdd_file_put` ends with 0 only where the count of the bytes
-- sent is the position in the source file and reaches the file's size, or where a read of the file
-- failed, which leaves the count one below the position.
pub put_loop-Complete :
    (fuel : ℕ) (s t : Upload) → Sound s → put_loop fuel s ≡ some (done, t) → Complete t
unfolding put_loop
put_loop-Complete zero s t sound h = cc
put_loop-Complete (suc fuel) s t sound h =
    stepped (λ u v k. put_loop-Complete fuel u t v k) (round s) (round-Sound s sound) h
  where
    first :
        (code : Code) (u : Upload)
        → ◌≡◌ {A = Option (Code × Upload)} (some (code, u)) (some (done, t))
        → code ≡ done
    first code u k = cc

    last :
        (code : Code) (u : Upload)
        → ◌≡◌ {A = Option (Code × Upload)} (some (code, u)) (some (done, t))
        → u ≡ t
    last code u k = cc

    stepped :
        ((u : Upload) → Sound u → put_loop fuel u ≡ some (done, t) → Complete t)
        → (step : Step) → SoundStep step
        → (elim step as (λ _. Option (Code × Upload)) [
          | next u ↦ put_loop fuel u
          | exit code u ↦ some (code, u)
        ])
          ≡ some (done, t)
        → Complete t
    stepped ih (next u) sound k = ih u sound k
    stepped ih (exit code u) sound k = subst Complete (last code u k) (sound (first code u k))
