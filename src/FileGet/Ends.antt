-- ===== src/FileGet/Ends.antt =====
-- The loop of `puppy_hdd_file_get` ends within its fuel.
use libpuppy.Base.{
  ℕ, zero, suc, ◌<◌, ◌≡◌, ◌≢◌, refl, sym, ap, ◌∙◌, arith, Option, none, some, List, [], ◌∷◌, length,
  inl, inr, min, ltb, ◌==◌, Bool-cases,
}
use libpuppy.Bytes.{get_u16, get_u32}
use libpuppy.Packet.{cmd_at, length_at}
use libpuppy.Packet.Commands.{
  success, fail, data_hdd_file_start, data_hdd_file_data, data_hdd_file_end,
}
use libpuppy.Session.{receive}
use libpuppy.Session.Progress.{receive-rest}
use libpuppy.Transport.Receive.{reads-send_success, reads-send_cancel}
use libpuppy.FileGet.{
  Download, Step, next, exit, Phase, start, transfer, data_len, write_failed, write_data,
  unexpected, on_start, on_data, on_fail, start_in, data_in, dispatch, on_received, round, get_loop,
}

abbrev pub reads_of : Download → List (Option (List ℕ))
reads_of d = d.puppy.usb.reads

-- The state after a step, whether the loop goes on or not.
abbrev pub after : Step → Download
after (next d) = d
after (exit code d) = d

write_failed-reads : (d : Download) → reads_of (write_failed d) ≡ reads_of d
unfolding write_failed
write_failed-reads d = reads-send_cancel (d.puppy.usb)

write_data-reads :
    (disk : List (Option ℕ)) (d : Download) → reads_of (write_data disk d) ≡ reads_of d
unfolding write_data
write_data-reads [] d = write_failed-reads d
write_data-reads (none ∷ disk) d = write_failed-reads (record d { disk = disk })
write_data-reads (some k ∷ disk) d =
    elim (Bool-cases (ltb (min k (data_len d.puppy.reply)) (data_len d.puppy.reply))) [
      | inl short ↦ rw short (write_failed-reads _)
      | inr all ↦ rw all refl
    ]

unexpected-reads : (d : Download) → reads_of (after (unexpected d)) ≡ reads_of d
unfolding unexpected
unexpected-reads d = reads-send_cancel (d.puppy.usb)

start_in-reads : (phase : Phase) (d : Download) → reads_of (after (start_in phase d)) ≡ reads_of d
unfolding start_in on_start
start_in-reads start d = reads-send_success (d.puppy.usb)
start_in-reads _ d = unexpected-reads d

data_in-reads :
    (phase : Phase) (r : ℕ) (d : Download) → reads_of (after (data_in phase r d)) ≡ reads_of d
unfolding data_in on_data
data_in-reads transfer r d = elim (Bool-cases (ltb r (get_u16 d.puppy.reply length_at))) [
  | inl short ↦ rw short (write_data-reads d.disk _)
  | inr all ↦ rw all (write_data-reads d.disk _)
]
data_in-reads _ r d = unexpected-reads d

-- A step keeps the answers of the reading side.
dispatch-reads : (r : ℕ) (d : Download) → reads_of (after (dispatch r d)) ≡ reads_of d
unfolding dispatch on_fail
dispatch-reads r d =
    let cmd = get_u32 d.puppy.reply cmd_at in
    elim (Bool-cases (cmd == data_hdd_file_start)) [
      | inl e ↦ rw e (start_in-reads d.phase d)
      | inr ne1 ↦ elim (Bool-cases (cmd == data_hdd_file_data)) [
        | inl e ↦ rw (ne1, e) (data_in-reads d.phase r d)
        | inr ne2 ↦ elim (Bool-cases (cmd == data_hdd_file_end)) [
          | inl e ↦ rw (ne1, ne2, e) (reads-send_success (d.puppy.usb))
          | inr ne3 ↦ elim (Bool-cases (cmd == fail)) [
            | inl e ↦ rw (ne1, ne2, ne3, e) (reads-send_cancel (d.puppy.usb))
            | inr ne4 ↦ elim (Bool-cases (cmd == success)) [
              | inl e ↦ rw (ne1, ne2, ne3, ne4, e) refl
              | inr ne5 ↦ rw (ne1, ne2, ne3, ne4, ne5) refl
            ]
          ]
        ]
      ]
    ]

-- A round that goes on leaves fewer answers.
on_received-fewer :
    (d e : Download) (r : Option ℕ)
    → (receive d.puppy).0 ≡ r
    → on_received r (record d { puppy = (receive d.puppy).1 }) ≡ next e
    → length (reads_of e) < length (reads_of d)
unfolding on_received
on_received-fewer d e none p h = cc
on_received-fewer d e (some r) p h =
    let u = record d { puppy = (receive d.puppy).1 } in
    let kept : reads_of e ≡ reads_of u =
      sym (ap (λ step. reads_of (after step)) h) ∙ dispatch-reads r u in
    rw kept (receive-rest d.puppy r p)

pub round-fewer : (d e : Download) → round d ≡ next e → length (reads_of e) < length (reads_of d)
unfolding round
round-fewer d e h = on_received-fewer d e (receive d.puppy).0 refl h

-- The loop of `puppy_hdd_file_get` comes to an end, for every sequence of answers of the device, the
-- destination file and the writing side, when its fuel is above the number of answers to be read.
pub get_loop-ends : (fuel : ℕ) (d : Download) → length (reads_of d) < fuel → get_loop fuel d ≢ none
unfolding get_loop
get_loop-ends zero d h = absurd (omega arith)
get_loop-ends (suc fuel) d h = stepped (λ e. get_loop-ends fuel e) (round d) refl
  where
    stepped :
        ((e : Download) → length (reads_of e) < fuel → get_loop fuel e ≢ none)
        → (step : Step) → round d ≡ step
        → get_loop (suc fuel) d ≢ none
    stepped ih (next t) e = rw (e, get_loop) (ih t (omega (arith, round-fewer d t e)))
    stepped ih (exit code t) e = rw (e, get_loop) (λ h. cc)
