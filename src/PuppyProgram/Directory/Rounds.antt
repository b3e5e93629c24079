-- ===== src/PuppyProgram/Directory/Rounds.antt =====
-- The rounds of the listing that puppy.c prints beside those of libpuppy.c.
use libpuppy.Session.{is_ok}
use libpuppy.Buffer.{Buffer}
use libpuppy.Base.{
  sym, ◌==◌, Bool-cases, inr, [], inl, ap, none, some, ◌∙◌, ◌∷◌, refl, true, ◌++◌, Option, false,
  map, suc, ◌≡◌, List, ℕ,
}
use libpuppy.Listing.{
  new_browse, dir_fuel, set_eproto, out_of_fuel, puppy_hdd_dir, finished_listing, Entry, Browse,
  Outcome, listed, dir_loop, decode_dir,
}
use libpuppy.Listing.Entries.{Holds, Decoded, packet_entries, decode_dir-Decoded}
use libpuppy.PuppyProgram.Directory.{
  fail, data_hdd_dir_end, data_hdd_dir, cmd_at, get_u32, done, Code, Puppy, Output, Shown, Step,
  next, exit, unreadable, line_of, lines_of, in_document, print_dir-packet_entries, on_entries,
  dispatch, on_received, round, show_loop,
}

-- A listing of the library with the entries whose lines were printed.
pub record ListedAs (t : Shown) (r : Outcome) : Type 0 where
  pub last : Browse
  pub entries : List Entry
  pub result : r ≡ listed last
  pub holds : Holds entries last.buf
  pub lines : t.output ≡ map (line_of false) entries
  pub same : last.puppy ≡ t.puppy

-- What the two loops do after a round.
abbrev pub after_show : ℕ → Step → Option (Code × Shown)
after_show fuel (next t) = show_loop false fuel t
after_show fuel (exit code t) = some (code, t)
after_show fuel unreadable = none

abbrev pub after_dir : ℕ → libpuppy.Listing.Step → Outcome
after_dir fuel (libpuppy.Listing.next t) = dir_loop fuel t
after_dir fuel (libpuppy.Listing.stop t) = listed t
after_dir fuel libpuppy.Listing.overrun = libpuppy.Listing.name_overrun

pub show_loop-after :
    (fuel : ℕ) (s : Shown) → show_loop false (suc fuel) s ≡ after_show fuel (round false s)
unfolding show_loop
show_loop-after fuel s = by_step (round false s)
  where
    by_step :
        (step : Step)
        → elim step as (λ _. Option (Code × Shown)) [
          | next t ↦ show_loop false fuel t
          | exit code t ↦ some (code, t)
          | unreadable ↦ none
        ]
          ≡ after_show fuel step
    by_step (next t) = refl
    by_step (exit code t) = refl
    by_step unreadable = refl

pub dir_loop-after :
    (fuel : ℕ) (b : Browse) → dir_loop (suc fuel) b ≡ after_dir fuel (libpuppy.Listing.round b)
unfolding dir_loop
dir_loop-after fuel b = by_step (libpuppy.Listing.round b)
  where
    by_step :
        (step : libpuppy.Listing.Step)
        → elim step as (λ _. Outcome) [
          | libpuppy.Listing.next t ↦ dir_loop fuel t
          | libpuppy.Listing.stop t ↦ listed t
          | libpuppy.Listing.overrun ↦ libpuppy.Listing.name_overrun
        ]
          ≡ after_dir fuel step
    by_step (libpuppy.Listing.next t) = refl
    by_step (libpuppy.Listing.stop t) = refl
    by_step libpuppy.Listing.overrun = refl

-- After DATA_HDD_DIR_END the library's loop ends in the next round.
dir_loop-finished :
    (fuel : ℕ) (b : Browse)
    → dir_loop (suc fuel) (record b { finished = true }) ≡ listed (record b { finished = true })
dir_loop-finished fuel b =
    dir_loop-after fuel (record b { finished = true })
    ∙ unfold libpuppy.Listing.round libpuppy.Listing.decide_round in refl

map-append :
    (xs ys : List Entry)
    → map (line_of false) xs ++ map (line_of false) ys ≡ map (line_of false) (xs ++ ys)
map-append [] ys = refl
map-append (x ∷ xs) ys = ap (◌∷◌ (line_of false x)) (map-append xs ys)

-- The states of both programs.
abbrev pub showing : Puppy → List Output → Shown
showing p out = record { puppy = p; output = out }

abbrev pub browsing : Puppy → Buffer Entry → Browse
browsing p buf = record { puppy = p; buf = buf; finished = false }

-- That the rest of the loops agrees, with this fuel.
unfoldable pub AgreesFrom : ℕ → Type 0
AgreesFrom fuel =
    (p : Puppy) (out : List Output) (buf : Buffer Entry) (entries : List Entry) (t : Shown)
    → is_ok p.error ≡ true
    → Holds entries buf
    → out ≡ map (line_of false) entries
    → show_loop false fuel (showing p out) ≡ some (done, t)
    → ListedAs t (dir_loop (suc fuel) (browsing p buf))

module _ (fuel : ℕ) (ih : AgreesFrom fuel) (q : Puppy) (out : List Output) (buf : Buffer Entry)
    (entries : List Entry) (t : Shown) (good : is_ok q.error ≡ true) (holds : Holds entries buf)
    (lines : out ≡ map (line_of false) entries) where
  -- DATA_HDD_DIR
  entries_case :
      (read : Option (List Entry)) (run : Option (Buffer Entry))
      → Decoded entries read run
      → after_show fuel (on_entries (in_document false (lines_of false read)) (showing q out))
        ≡ some (done, t)
      → ListedAs t (
          after_dir
            (suc fuel)
            (libpuppy.Listing.continue (libpuppy.Listing.on_entries run (browsing q buf))))
  unfolding AgreesFrom on_entries libpuppy.Listing.on_entries
  entries_case read run (inl (no_read, no_run)) = rw (no_read, no_run) (λ h. cc)
  entries_case read run (inr (es, buf', is_read, is_run, holds')) =
      rw (is_read, is_run)
        (λ h.
          ih (libpuppy.Listing.send_success_to q) (out ++ map (line_of false) es) buf'
            (entries ++ es) t good holds'
            (ap (λ xs. xs ++ map (line_of false) es) lines ∙ map-append entries es) h)

  dispatch-ListedAs :
      after_show fuel (dispatch false (showing q out)) ≡ some (done, t)
      → ListedAs t (
          after_dir
            (suc fuel)
            (libpuppy.Listing.continue (libpuppy.Listing.dispatch (browsing q buf))))
  unfolding dispatch libpuppy.Listing.dispatch
  dispatch-ListedAs =
      let cmd = get_u32 q.reply cmd_at in
      elim (Bool-cases (cmd == data_hdd_dir)) [
        | inl e ↦
            rw (e, print_dir-packet_entries false q.reply)
              (entries_case (packet_entries q.reply) (decode_dir q.reply buf)
                (decode_dir-Decoded q.reply entries buf holds))
        | inr n1 ↦ elim (Bool-cases (cmd == data_hdd_dir_end)) [
          | inl e ↦
              rw (n1, e)
                (λ h.
                  let same : showing q out ≡ t = cc in
                  record {
                    last = record (browsing q buf) { finished = true };
                    entries = entries;
                    result = dir_loop-finished fuel (browsing q buf);
                    holds = holds;
                    lines = ap (λ s. s.output) (sym same) ∙ lines;
                    same = ap (λ s. s.puppy) same;
                  })
          | inr n2 ↦ elim (Bool-cases (cmd == fail)) [
            | inl e ↦ rw (n1, n2, e) (λ h. cc)
            | inr n3 ↦ rw (n1, n2, n3) (λ h. cc)
          ]
        ]
      ]

  pub received-ListedAs :
      (p : Puppy) (r : Option ℕ)
      → after_show fuel (on_received false r (showing q out)) ≡ some (done, t)
      → ListedAs t
          (after_dir (suc fuel) (libpuppy.Listing.decide_round false true r (browsing p buf) q))
  unfolding on_received libpuppy.Listing.decide_round
  received-ListedAs p none h = cc
  received-ListedAs p (some n) h = dispatch-ListedAs h
