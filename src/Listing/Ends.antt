-- ===== src/Listing/Ends.antt =====
-- The loop of `puppy_hdd_dir`: it ends, and what it returns.
use libpuppy.Base.{
  ℕ, zero, suc, ◌<◌, ◌≡◌, ◌≢◌, refl, sym, ap, ◌∙◌, arith, ◌==◌, Bool, true, false, Bool-cases, inl,
  inr, Option, none, some, List, length,
}
use libpuppy.Buffer.{Buffer}
use libpuppy.Bytes.{get_u32}
use libpuppy.Packet.{cmd_at}
use libpuppy.Packet.Commands.{fail, data_hdd_dir, data_hdd_dir_end}
use libpuppy.Session.{Puppy, receive, is_ok}
use libpuppy.Session.Progress.{receive-rest}
use libpuppy.Transport.Receive.{reads-send_success}
use libpuppy.Listing.{
  Browse, Step, next, stop, overrun, continue, out_of_fuel, Entry, dispatch, on_entries,
  decide_round, round, dir_loop, decode_dir,
}

abbrev pub reads_of : Browse → List (Option (List ℕ))
reads_of s = s.puppy.usb.reads

-- The answers of a state, or these where there is none.
abbrev reads_or : List (Option (List ℕ)) → Option Browse → List (Option (List ℕ))
reads_or reads none = reads
reads_or reads (some s) = reads_of s

on_entries-reads :
    (buf : Option (Buffer Entry)) (s : Browse)
    → reads_or (reads_of s) (on_entries buf s) ≡ reads_of s
unfolding on_entries
on_entries-reads none s = refl
on_entries-reads (some b) s = reads-send_success s.puppy.usb

-- A body keeps the answers of the reading side.
dispatch-reads : (s : Browse) → reads_or (reads_of s) (dispatch s) ≡ reads_of s
unfolding dispatch
dispatch-reads s =
    let cmd = get_u32 s.puppy.reply cmd_at in
    elim (Bool-cases (cmd == data_hdd_dir)) [
      | inl e ↦ rw e (on_entries-reads (decode_dir s.puppy.reply s.buf) s)
      | inr ne1 ↦ elim (Bool-cases (cmd == data_hdd_dir_end)) [
        | inl e ↦ rw (ne1, e) refl
        | inr ne2 ↦ elim (Bool-cases (cmd == fail)) [
          | inl e ↦ rw (ne1, ne2, e) refl
          | inr ne3 ↦ rw (ne1, ne2, ne3) refl
        ]
      ]
    ]

continue-next : (out : Option Browse) (t : Browse) → continue out ≡ next t → out ≡ some t
continue-next none t h = cc
continue-next (some s) t h = cc

-- What a round does, by the tests of its condition.
round-next :
    (finished good : Bool) (r : Option ℕ) (s t : Browse) (p : Puppy)
    → (receive s.puppy) ≡ (r, p)
    → decide_round finished good r s p ≡ next t
    → length (reads_of t) < length (reads_of s)
unfolding decide_round
round-next true good r s t p e h = cc
round-next false false r s t p e h = cc
round-next false true none s t p e h = cc
round-next false true (some n) s t p e h =
    let u = record s { puppy = p } in
    let got = continue-next (dispatch u) t h in
    let kept : reads_of t ≡ reads_of u = sym (ap (reads_or (reads_of u)) got) ∙ dispatch-reads u in
    omega (
      arith,
      ap length kept,
      receive-rest s.puppy n (ap (λ x. x.0) e),
      ap (λ x. length x.1.usb.reads) e,
    )

-- A round that goes on leaves fewer answers.
pub round-fewer : (s t : Browse) → round s ≡ next t → length (reads_of t) < length (reads_of s)
unfolding round
round-fewer s t h =
    round-next s.finished (is_ok s.puppy.error) (receive s.puppy).0 s t (receive s.puppy).1 refl h

-- The loop of `puppy_hdd_dir` comes to an end, for every sequence of answers of the device, when its
-- fuel is above the number of answers to be read.
pub dir_loop-ends :
    (fuel : ℕ) (s : Browse) → length (reads_of s) < fuel → dir_loop fuel s ≢ out_of_fuel
unfolding dir_loop
dir_loop-ends zero s h = absurd (omega arith)
dir_loop-ends (suc fuel) s h = stepped (λ t. dir_loop-ends fuel t) (round s) refl
  where
    stepped :
        ((t : Browse) → length (reads_of t) < fuel → dir_loop fuel t ≢ out_of_fuel)
        → (step : Step) → round s ≡ step
        → dir_loop (suc fuel) s ≢ out_of_fuel
    stepped ih (next t) e = rw (e, dir_loop) (ih t (omega (arith, round-fewer s t e)))
    stepped ih (stop t) e = rw (e, dir_loop) (λ h. cc)
    stepped ih overrun e = rw (e, dir_loop) (λ h. cc)
