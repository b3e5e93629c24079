-- ===== src/Listing/Whole.antt =====
-- A whole listing, as `puppy_hdd_dir` of libpuppy.c collects it.
use libpuppy.Base.{
  ℕ, zero, suc, ◌+◌, ◌≤◌, ◌<◌, ◌≡◌, refl, sym, ap, ◌∙◌, arith, true, Option, none, some, List, [],
  ◌∷◌, ◌++◌, map, flatten, length, length-append, append-nil, append_assoc, All, subst,
}
use libpuppy.Base.Memory.{Memory, IsBytes}
use libpuppy.Buffer.{buffer_add, buffer_init}
use libpuppy.Buffer.Growth.{buffer_init-IsValid}
use libpuppy.Requests.{
  CString, count, failed, ready, send_cmd_hdd_dir, send_request, hdd_dir_request,
}
use libpuppy.Requests.Layout.{AreBytes}
use libpuppy.Requests.Fields.{path_requests-IsReady}
use libpuppy.Session.{Puppy, is_ok}
use libpuppy.Transport.Receive.{reads-send_tf_packet}
use libpuppy.Transport.RoundTrip.{frame_answers}
use libpuppy.Usb.Read.{length-delivery}
use libpuppy.Session.Served.{requested}
use libpuppy.Listing.{
  Entry, Browse, Step, Outcome, next, stop, overrun, listed, name_overrun, dir_loop, dir_fuel,
  finish, finished_listing, new_browse, puppy_hdd_dir, set_eproto,
}
use libpuppy.Listing.Entries.{Holds}
use libpuppy.Listing.Pages.{Page, IsPage, IsLastPage, IsBrowsing, round-IsTurned, round-IsClosed}

-- The answers of a device that delivers these packets, and then others.
abbrev pub listing_answers : List Page → List (Option (List ℕ)) → List (Option (List ℕ))
listing_answers [] more = more
listing_answers (x ∷ xs) more = frame_answers x.packet ++ listing_answers xs more

abbrev pub all_entries : List Page → List Entry
all_entries xs = flatten (map (λ x. x.entries) xs)

abbrev after : ℕ → Step → Outcome
after fuel step = elim step as (λ _. Outcome) [
  | next t ↦ dir_loop fuel t
  | stop t ↦ listed t
  | overrun ↦ name_overrun
]

-- A listing that ends with these entries.
record IsListed (entries : List Entry) (out : Outcome) : Type 0 where
  state : Browse
  result : out ≡ listed state
  holds : Holds entries state.buf

listing_loop :
    (xs : List Page) (last : Memory) (before : List Entry) (s : Browse) (fuel : ℕ)
    → All IsPage xs
    → IsLastPage last
    → length xs + 2 ≤ fuel
    → IsBrowsing before (listing_answers xs (frame_answers last ++ [])) s
    → IsListed (before ++ all_entries xs) (dir_loop fuel s)
unfolding dir_loop
listing_loop [] last before s (suc (suc fuel)) pages ends enough b =
    let c = round-IsClosed last before [] s ends b in
    record {
      state = c.state;
      result = ap (after (suc fuel)) c.goes ∙ ap (after fuel) c.stops;
      holds = subst (λ es. Holds es c.state.buf) (sym (append-nil before)) c.holds;
    }
listing_loop (x ∷ xs) last before s (suc fuel) pages ends enough b =
    let t = round-IsTurned x before (listing_answers xs (frame_answers last ++ [])) s pages.0 b in
    let rest =
      listing_loop xs last (before ++ x.entries) t.state fuel pages.1 ends (omega arith)
        t.browsing in
    record {
      state = rest.state;
      result = ap (after fuel) t.goes ∙ rest.result;
      holds =
          subst (λ es. Holds es rest.state.buf) (append_assoc before x.entries (all_entries xs))
            rest.holds;
    }
listing_loop [] last before s zero pages ends enough b = absurd (omega arith)
listing_loop [] last before s (suc zero) pages ends enough b = absurd (omega arith)
listing_loop (x ∷ xs) last before s zero pages ends enough b = absurd (omega arith)

-- Each packet is an answer at least.
length-listing_answers :
    (xs : List Page) (more : List (Option (List ℕ)))
    → length xs + length more ≤ length (listing_answers xs more)
length-listing_answers [] more = omega arith
length-listing_answers (x ∷ xs) more = omega (
  arith,
  length-append (frame_answers x.packet) (listing_answers xs more),
  length-delivery _ _ _ _,
  length-listing_answers xs more,
)

-- The call after its request was sent.
dir_after :
    (p : Puppy) (req m : Memory) (path : CString) (entries : List Entry)
    → hdd_dir_request req path ≡ ready m
    → IsListed entries (dir_loop (dir_fuel (requested p m)) (new_browse (requested p m)))
    → (q : Puppy) × (puppy_hdd_dir p req path ≡ some (map some entries ++ (none ∷ []), q))
unfolding puppy_hdd_dir send_cmd_hdd_dir send_request finish buffer_add
dir_after p req m path entries built l = (
  l.state.puppy,
  ap
        (λ sent. elim (send_request p.usb sent) as (λ _. Option (List (Option Entry) × Puppy)) [
          | none ↦ none
          | some (failed, u) ↦
              let q : Puppy = set_eproto (record p { usb = u }) in
              finished_listing (dir_loop (dir_fuel q) (new_browse q))
          | some (count n, u) ↦
              let q : Puppy = record p { usb = u } in
              finished_listing (dir_loop (dir_fuel q) (new_browse q))
        ])
        built
      ∙ ap finished_listing l.result
      ∙ ap (λ es. some (es ++ (none ∷ []), l.state.puppy)) l.holds.contents,
)

-- From a puppy without an error, for a path of fewer than 65526 bytes, a packet in memory that
-- holds bytes, and whatever the writing side answers: where the device delivers packets of a
-- listing, whose names all end, and then the packet that ends it, `puppy_hdd_dir` returns the
-- entries of all packets in order, and behind them the one that is never set.
pub puppy_hdd_dir-whole :
    (p : Puppy) (req : Memory) (path : CString) (xs : List Page) (last : Memory)
    → is_ok p.error ≡ true
    → IsBytes req
    → AreBytes path
    → length path < 65526
    → All IsPage xs
    → IsLastPage last
    → p.usb.reads ≡ listing_answers xs (frame_answers last ++ [])
    → (q : Puppy) × (puppy_hdd_dir p req path ≡ some (map some (all_entries xs) ++ (none ∷ []), q))
unfolding buffer_init
puppy_hdd_dir-whole p req path xs last fine memory bytes short pages ends reads =
    let r = (path_requests-IsReady req path memory bytes short).0 in
    let q = requested p r.packet in
    let left = reads-send_tf_packet p.usb r.packet ∙ reads in
    dir_after p req r.packet path (all_entries xs) r.built (
      listing_loop xs last [] (new_browse q) (dir_fuel q) pages ends
        (omega (
          arith,
          ap length left,
          length-listing_answers xs (frame_answers last ++ []),
          length-append (frame_answers last) [],
          length-delivery _ _ _ _,
        ))
        (record {
          open_end = refl;
          fine = fine;
          reads = left;
          holds = record { valid = buffer_init-IsValid 10; contents = refl };
        }))
