-- ===== src/PuppyProgram/Directory/Agree.antt =====
-- The listing that puppy.c prints and the one that libpuppy.c returns.
use libpuppy.PuppyProgram.Directory.Rounds.{
  ListedAs, after_dir, show_loop-after, dir_loop-after, showing, browsing, AgreesFrom,
  received-ListedAs,
}
use libpuppy.Listing.Ends.{dir_loop-ends}
use libpuppy.Buffer.Growth.{buffer_init-IsValid}
use libpuppy.Session.Progress.{receive-error}
use libpuppy.Usb.{Usb}
use libpuppy.Requests.{failed, count, Ret}
use libpuppy.Session.{is_ok}
use libpuppy.Buffer.{buffer_init, Buffer}
use libpuppy.Base.{
  arith, subst, length, zero, ◌≢◌, sym, [], ap, none, some, ◌∙◌, ◌∷◌, refl, true, ◌++◌, Option,
  false, map, suc, ◌≡◌, List, ℕ,
}
use libpuppy.Listing.{
  new_browse, dir_fuel, set_eproto, out_of_fuel, puppy_hdd_dir, finished_listing, Entry, Browse,
  Outcome, listed, dir_loop, decode_dir,
}
use libpuppy.Listing.Entries.{Holds}
use libpuppy.PuppyProgram.Directory.{
  send_cmd_hdd_dir, neg_eproto, CString, Memory, do_hdd_dir, receive, done, Code, Puppy, Shown,
  line_of, round, show_loop,
}

loops_agree : (fuel : ℕ) → AgreesFrom fuel
unfolding AgreesFrom round libpuppy.Listing.round
loops_agree zero p out buf entries t good holds lines h =
    let stuck : show_loop false 0 (showing p out) ≡ none = unfold show_loop in refl in cc
loops_agree (suc fuel) p out buf entries t good holds lines h =
    let (r, q) = receive p in
    let b = browsing p buf in
    let still : is_ok q.error ≡ true = ap is_ok (receive-error p) ∙ good in
    subst (ListedAs t)
      (sym (
        dir_loop-after (suc fuel) b
        ∙ ap (λ ok. after_dir (suc fuel) (libpuppy.Listing.decide_round false ok r b q)) good))
      (received-ListedAs fuel (loops_agree fuel) q out buf entries t still holds lines p r
        (sym (show_loop-after fuel (showing p out)) ∙ h))

-- More fuel gives the same, where the fuel was enough.
dir_loop-more :
    (fuel : ℕ) (b : Browse)
    → dir_loop fuel b ≢ out_of_fuel
    → dir_loop (suc fuel) b ≡ dir_loop fuel b
dir_loop-more zero b enough = absurd (enough (unfold dir_loop in refl))
dir_loop-more (suc fuel) b enough =
    dir_loop-after (suc fuel) b
    ∙ by_step (λ c. dir_loop-more fuel c) (libpuppy.Listing.round b)
        (λ e. enough (dir_loop-after fuel b ∙ e))
    ∙ sym (dir_loop-after fuel b)
  where
    by_step :
        ((c : Browse) → dir_loop fuel c ≢ out_of_fuel → dir_loop (suc fuel) c ≡ dir_loop fuel c)
        → (step : libpuppy.Listing.Step) → after_dir fuel step ≢ out_of_fuel
        → after_dir (suc fuel) step ≡ after_dir fuel step
    by_step ih (libpuppy.Listing.next c) h = ih c h
    by_step ih (libpuppy.Listing.stop c) h = refl
    by_step ih libpuppy.Listing.overrun h = refl

-- What a listing of the library returns.
finished_lem :
    (t : Shown) (r : Outcome)
    → ListedAs t r
    → (entries : List Entry) × (finished_listing r
        ≡ some (map some entries ++ (none ∷ []), t.puppy))
      × (t.output ≡ map (line_of false) entries)
unfolding libpuppy.Listing.finish libpuppy.Buffer.buffer_add
finished_lem t r h = (
  h.entries,
  ap finished_listing h.result
      ∙ ap (λ elements. some (elements ++ (none ∷ []), h.last.puppy)) h.holds.contents
      ∙ ap (λ p. some (map some h.entries ++ (none ∷ []), p)) h.same,
  h.lines,
)

-- Where `do_hdd_dir` of puppy.c prints text and returns 0, `puppy_hdd_dir` of libpuppy.c, with the same
-- device and no error before, leaves the same state and returns the entries whose lines were printed,
-- in their order, and one more element that was not set.
pub do_hdd_dir-puppy_hdd_dir :
    (p : Puppy) (req : Memory) (path : CString) (t : Shown)
    → is_ok p.error ≡ true
    → do_hdd_dir p req false path ≡ some (done, t)
    → (entries : List Entry) × (puppy_hdd_dir p req path
        ≡ some (map some entries ++ (none ∷ []), t.puppy))
      × (t.output ≡ map (line_of false) entries)
unfolding do_hdd_dir puppy_hdd_dir AgreesFrom
do_hdd_dir-puppy_hdd_dir p req path t good = by_request (send_cmd_hdd_dir p.usb req path)
  where
    no_entries : Holds [] (buffer_init 10)
    no_entries = record { valid = buffer_init-IsValid 10; contents = unfold buffer_init in refl }

    by_request :
        (sent : Option (Ret × Usb))
        → elim sent as (λ _. Option (Code × Shown)) [
          | none ↦ none
          | some (failed, u) ↦ some (neg_eproto, showing (record p { usb = u }) [])
          | some (count n, u) ↦
              show_loop false (suc (length u.reads)) (showing (record p { usb = u }) [])
        ]
          ≡ some (done, t)
        → (entries : List Entry) × (elim sent as (λ _. Option (List (Option Entry) × Puppy)) [
          | none ↦ none
          | some (failed, u) ↦
              let q = set_eproto (record p { usb = u }) in
              finished_listing (dir_loop (dir_fuel q) (new_browse q))
          | some (count n, u) ↦
              let q = record p { usb = u } in
              finished_listing (dir_loop (dir_fuel q) (new_browse q))
        ]
            ≡ some (map some entries ++ (none ∷ []), t.puppy))
          × (t.output ≡ map (line_of false) entries)
    by_request none h = cc
    by_request (some (failed, u)) h = cc
    by_request (some (count n, u)) h =
        let q = record p { usb = u } in
        let fuel = suc (length u.reads) in
        let listing = loops_agree fuel q [] (buffer_init 10) [] t good no_entries refl h in
        finished_lem t (dir_loop fuel (new_browse q)) (
          subst (ListedAs t)
            (dir_loop-more fuel (new_browse q) (dir_loop-ends fuel (new_browse q) (omega arith)))
            listing)
