-- ===== src/Listing/Result.antt =====
-- What `puppy_hdd_dir` returns.
use libpuppy.Base.{
  ℕ, zero, suc, ◌≡◌, refl, sym, ap, ◌==◌, Bool, true, false, Bool-cases, inl, inr, Option, none,
  some, List, [], ◌∷◌, ◌++◌, map, subst,
}
use libpuppy.Base.Memory.{Memory}
use libpuppy.Buffer.{Buffer, buffer_add, buffer_init}
use libpuppy.Buffer.Growth.{buffer_init-IsValid}
use libpuppy.Bytes.{get_u32}
use libpuppy.Packet.{cmd_at}
use libpuppy.Packet.Commands.{fail, data_hdd_dir, data_hdd_dir_end}
use libpuppy.Requests.{CString, Ret, failed, count, send_cmd_hdd_dir}
use libpuppy.Session.{Puppy, is_ok}
use libpuppy.Usb.{Usb}
use libpuppy.Listing.{
  Entry, Browse, Step, next, stop, overrun, continue, listed, name_overrun, dispatch, on_entries,
  decode_dir, decide_round, round, dir_loop, finish, finished_listing, new_browse, dir_fuel,
  puppy_hdd_dir, set_eproto,
}
use libpuppy.Listing.Entries.{Holds, Decoded, decode_dir-Decoded, packet_entries}

-- All elements of the buffer are set.
abbrev Filled : Browse → Type 0
Filled s = (entries : List Entry) × Holds entries s.buf

-- So it is where there is a state.
abbrev FilledIf : Option Browse → Type 0
FilledIf none = Unit
FilledIf (some s) = Filled s

abbrev FilledStep : Step → Type 0
FilledStep (next s) = Filled s
FilledStep (stop s) = Filled s
FilledStep overrun = Unit

some_inj : (a b : Buffer Entry) → some b ≡ some a → b ≡ a
some_inj a b h = cc

on_entries-Filled :
    (s : Browse) (entries : List Entry) (read : Option (List Entry)) (run : Option (Buffer Entry))
    → Decoded entries read run
    → FilledIf (on_entries run s)
unfolding on_entries
on_entries-Filled s entries read none d = record {}
on_entries-Filled s entries read (some buf) (inl (no_entries, h)) = cc
on_entries-Filled s entries read (some buf) (inr (more, b, e, h, holds)) =
    (entries ++ more, subst (λ b'. Holds (entries ++ more) b') (some_inj buf b (sym h)) holds)

dispatch-Filled : (s : Browse) → Filled s → FilledIf (dispatch s)
unfolding dispatch
dispatch-Filled s f =
    let cmd = get_u32 s.puppy.reply cmd_at in
    elim (Bool-cases (cmd == data_hdd_dir)) [
      | inl e ↦ rw e (
          on_entries-Filled s f.0 (packet_entries s.puppy.reply) (decode_dir s.puppy.reply s.buf)
            (decode_dir-Decoded s.puppy.reply f.0 s.buf f.1))
      | inr ne1 ↦ elim (Bool-cases (cmd == data_hdd_dir_end)) [
        | inl e ↦ rw (ne1, e) f
        | inr ne2 ↦ elim (Bool-cases (cmd == fail)) [
          | inl e ↦ rw (ne1, ne2, e) f
          | inr ne3 ↦ rw (ne1, ne2, ne3) f
        ]
      ]
    ]

continue-Filled : (out : Option Browse) → FilledIf out → FilledStep (continue out)
continue-Filled none f = record {}
continue-Filled (some s) f = f

decide_round-Filled :
    (finished good : Bool) (r : Option ℕ) (s : Browse) (p : Puppy)
    → Filled s
    → FilledStep (decide_round finished good r s p)
unfolding decide_round
decide_round-Filled true good r s p f = f
decide_round-Filled false false r s p f = f
decide_round-Filled false true none s p f = f
decide_round-Filled false true (some n) s p f =
    continue-Filled (dispatch (record s { puppy = p })) (dispatch-Filled (record s { puppy = p }) f)

round-Filled : (s : Browse) → Filled s → FilledStep (round s)
unfolding round
round-Filled s f = decide_round-Filled s.finished (is_ok s.puppy.error) _ s _ f

-- A listing that comes to an end holds entries that are set, and one at its end that is not.
abbrev IsListing : Option (List (Option Entry) × Puppy) → Type 0
IsListing none = Unit
IsListing (some (es, p)) = (entries : List Entry) × (es ≡ map some entries ++ (none ∷ []))

finish-IsListing : (s : Browse) → Filled s → IsListing (some (finish s, s.puppy))
unfolding finish buffer_add
finish-IsListing s (entries, h) = (entries, ap (λ es. es ++ (none ∷ [])) h.contents)

dir_loop-IsListing :
    (fuel : ℕ) (s : Browse) → Filled s → IsListing (finished_listing (dir_loop fuel s))
unfolding dir_loop
dir_loop-IsListing zero s f = record {}
dir_loop-IsListing (suc fuel) s f =
    stepped (λ t g. dir_loop-IsListing fuel t g) (round s) (round-Filled s f)
  where
    stepped :
        ((t : Browse) → Filled t → IsListing (finished_listing (dir_loop fuel t)))
        → (step : Step) → FilledStep step
        → IsListing (
            finished_listing
              (elim step [ next t ↦ dir_loop fuel t | stop t ↦ listed t | overrun ↦ name_overrun ]))
    stepped ih (next t) g = ih t g
    stepped ih (stop t) g = finish-IsListing t g
    stepped ih overrun g = record {}

new_browse-Filled : (p : Puppy) → Filled (new_browse p)
unfolding buffer_init
new_browse-Filled p = ([], record { valid = buffer_init-IsValid 10; contents = refl })

puppy_hdd_dir-IsListing :
    (p : Puppy) (req : Memory) (path : CString) → IsListing (puppy_hdd_dir p req path)
unfolding puppy_hdd_dir
puppy_hdd_dir-IsListing p req path = sent (send_cmd_hdd_dir p.usb req path)
  where
    sent :
        (r : Option (Ret × Usb))
        → IsListing (elim r [
          | none ↦ none
          | some (failed, u) ↦
              let q = set_eproto (record p { usb = u }) in
              finished_listing (dir_loop (dir_fuel q) (new_browse q))
          | some (count n, u) ↦
              let q = record p { usb = u } in
              finished_listing (dir_loop (dir_fuel q) (new_browse q))
        ])
    sent none = record {}
    sent (some (failed, u)) =
        let q = set_eproto (record p { usb = u }) in
        dir_loop-IsListing (dir_fuel q) (new_browse q) (new_browse-Filled q)
    sent (some (count n, u)) =
        let q = record p { usb = u } in
        dir_loop-IsListing (dir_fuel q) (new_browse q) (new_browse-Filled q)

-- What `puppy_hdd_dir` returns is a number of entries that were set, and then one more that never
-- was: the entry with the empty name that should end the array is set in the buffer only, after
-- the array was copied.
pub puppy_hdd_dir-unterminated :
    (p q : Puppy) (req : Memory) (path : CString) (es : List (Option Entry))
    → puppy_hdd_dir p req path ≡ some (es, q)
    → (entries : List Entry) × (es ≡ map some entries ++ (none ∷ []))
puppy_hdd_dir-unterminated p q req path es h =
    subst IsListing h (puppy_hdd_dir-IsListing p req path)
