-- ===== src/Listing/Pages.antt =====
-- The packets of a listing: the entries depend on the packet's own bytes, and a round collects them.
use libpuppy.Base.{
  if◌then◌else◌, subst, ℕ, zero, suc, ◌+◌, ◌-◌, ◌*◌, ◌/◌, ◌≤◌, ◌<◌, ◌≡◌, refl, sym, ap, ◌∙◌, arith,
  ◌==◌, true, false, Option, none, some, List, [], ◌∷◌, ◌++◌, inl, inr, ap₂,
}
use libpuppy.Base.Memory.{Memory, u16}
use libpuppy.Bytes.{get_u16, get_u32}
use libpuppy.Bytes.Value.{get_u64_ext}
use libpuppy.Packet.{length_at, cmd_at, data_at}
use libpuppy.Packet.Commands.{data_hdd_dir, data_hdd_dir_end}
use libpuppy.Packet.Typefile.{
  stamp_of_ext, typefile_size, filetype_at, size_at, name_at, name_size, stamp_of,
}
use libpuppy.Bytes.{get_u64}
use libpuppy.Session.{is_ok, receive}
use libpuppy.Session.Frames.{IsPacket, receive-IsReply}
use libpuppy.Session.Progress.{receive-error}
use libpuppy.Transport.Receive.{reads-send_success}
use libpuppy.Transport.RoundTrip.{frame_size, frame_answers}
use libpuppy.Listing.{
  TfDatetime, CString, Entry, Browse, next, stop, c_string, entry_of, ftype_of, dispatch,
  on_entries, decide_round, round, continue, send_success_to,
}
use libpuppy.Listing.Entries.{Holds, decode_dir-Decoded, entries_at, packet_entries}

c_string_ext :
    (room : ℕ) (m s : Memory) (a : ℕ)
    → ((i : ℕ) → a ≤ i → i < a + room → m i ≡ s i)
    → c_string room m a ≡ c_string room s a
unfolding c_string
c_string_ext zero m s a h = refl
c_string_ext (suc room) m s a h =
    ap₂
      (λ x rest.
        let more = elim rest as (λ _. Option CString) [ none ↦ none | some t ↦ some (x ∷ t) ] in
        if x == 0 then some [] else more)
      (h a (omega arith) (omega arith))
      (c_string_ext room m s (a + 1) (λ i p q. h i (omega arith) (omega arith)))

abbrev entry_with : Option CString → ℕ → TfDatetime → ℕ → Option Entry
entry_with read filetype stamp size = elim read as (λ _. Option Entry) [
  | none ↦ none
  | some s ↦ some (record { ftype = ftype_of filetype; stamp = stamp; size = size; name = s })
]

entry_of_ext :
    (m s : Memory) (a : ℕ)
    → ((i : ℕ) → a ≤ i → i < a + typefile_size → m i ≡ s i)
    → entry_of m a ≡ entry_of s a
unfolding entry_of
entry_of_ext m s a h =
    let name =
      c_string_ext name_size m s (a + name_at) (λ i p q. h i (omega arith) (omega arith)) in
    let size = get_u64_ext m s (a + size_at) (λ i p q. h i (omega arith) (omega arith)) in
    let stamp = stamp_of_ext m s a (λ i p q. h i (omega arith) (omega arith)) in
    let ftype = h (a + filetype_at) (omega arith) (omega arith) in
    ap₂ (λ c f. entry_with c f (stamp_of m a) (get_u64 m (a + size_at))) name ftype
    ∙ ap₂ (entry_with (c_string name_size s (a + name_at)) (s (a + filetype_at))) stamp size

abbrev entries_with : Option Entry → Option (List Entry) → Option (List Entry)
entries_with first rest = elim first as (λ _. Option (List Entry)) [
  | none ↦ none
  | some entry ↦ elim rest as (λ _. Option (List Entry)) [
    | none ↦ none
    | some entries ↦ some (entry ∷ entries)
  ]
]

entries_at_ext :
    (n : ℕ) (m s : Memory) (a : ℕ)
    → ((i : ℕ) → a ≤ i → i < a + n * typefile_size → m i ≡ s i)
    → entries_at n m a ≡ entries_at n s a
entries_at_ext zero m s a h = refl
entries_at_ext (suc n) m s a h =
    ap₂ entries_with (entry_of_ext m s a (λ i p q. h i (omega arith) (omega arith)))
      (entries_at_ext n m s (a + typefile_size) (λ i p q. h i (omega arith) (omega arith)))

-- A packet of a listing, and its entries.
pub record Page : Type 0 where
  pub packet : Memory
  pub entries : List Entry

pub record IsPage (x : Page) : Type 0 where
  pub sound : IsPacket x.packet
  pub code : get_u32 (x.packet) cmd_at ≡ data_hdd_dir
  pub found : packet_entries x.packet ≡ some x.entries

pub record IsLastPage (p : Memory) : Type 0 where
  pub sound : IsPacket p
  pub code : get_u32 p cmd_at ≡ data_hdd_dir_end

-- The entries of a reply are those of its packet.
packet_entries-reply :
    (p m : Memory)
    → IsPacket p
    → get_u16 m length_at ≡ get_u16 p length_at
    → ((i : ℕ) → 4 ≤ i → i < get_u16 p length_at → m i ≡ p i)
    → packet_entries m ≡ packet_entries p
packet_entries-reply p m sound size same =
    ap (λ n. entries_at (u16 ((n - 8) / 114)) m data_at) size
    ∙ entries_at_ext (u16 ((get_u16 p length_at - 8) / 114)) m p data_at
        (λ i a b. same i (omega arith) (omega arith))

-- A listing that goes on, with the entries so far and the answers to come.
pub record IsBrowsing (entries : List Entry) (more : List (Option (List ℕ))) (s : Browse)
    : Type 0 where
  pub open_end : s.finished ≡ false
  pub fine : is_ok s.puppy.error ≡ true
  pub reads : s.puppy.usb.reads ≡ more
  pub holds : Holds entries s.buf

-- The round of a packet.
pub record IsTurned (entries : List Entry) (more : List (Option (List ℕ))) (s : Browse)
    : Type 0 where
  pub state : Browse
  pub goes : round s ≡ next state
  pub browsing : IsBrowsing entries more state

round-dispatch :
    (s : Browse) (n : ℕ)
    → s.finished ≡ false
    → is_ok s.puppy.error ≡ true
    → (receive s.puppy).0 ≡ some n
    → round s ≡ continue (dispatch (record s { puppy = (receive s.puppy).1 }))
unfolding round decide_round
round-dispatch s n open_end fine e =
    let p = (receive s.puppy).1 in
    ap (λ r. decide_round s.finished (is_ok s.puppy.error) r s p) e
    ∙ ap (λ good. decide_round s.finished good (some n) s p) fine
    ∙ ap (λ done. decide_round done true (some n) s p) open_end

some-none : {x : List Entry} → ◌≡◌ {A = Option (List Entry)} (some x) none → ⊥
some-none h = cc

some-same : {x y : List Entry} → ◌≡◌ {A = Option (List Entry)} (some x) (some y) → x ≡ y
some-same h = cc

pub round-IsTurned :
    (x : Page) (before : List Entry) (more : List (Option (List ℕ))) (s : Browse)
    → IsPage x
    → IsBrowsing before (frame_answers x.packet ++ more) s
    → IsTurned (before ++ x.entries) more s
unfolding dispatch on_entries
round-IsTurned x before more s page b =
    let r = receive-IsReply x.packet s.puppy more page.sound b.reads in
    let p = (receive s.puppy).1 in
    let read =
      packet_entries-reply x.packet p.reply page.sound r.length_field r.payload ∙ page.found in
    let is_dir : (get_u32 p.reply cmd_at == data_hdd_dir) ≡ true =
      ground (arith, r.cmd_field, page.code) in
    let t : Browse = record s { puppy = p } in
    elim (decode_dir-Decoded p.reply before s.buf b.holds) [
      | inl (no_entries, run) ↦ absurd (some-none (sym read ∙ no_entries))
      | inr (entries, buf, read', run, holds) ↦
          let u : Browse = record t { puppy = send_success_to p; buf = buf } in
          let body : dispatch t ≡ some u = rw is_dir (ap (λ out. on_entries out t) run) in
          record {
            state = u;
            goes =
                round-dispatch s (frame_size x.packet) b.open_end b.fine r.returned
                ∙ ap continue body;
            browsing = record {
              open_end = b.open_end;
              fine = ap is_ok (receive-error s.puppy) ∙ b.fine;
              reads = reads-send_success p.usb ∙ r.left;
              holds = subst (λ es. Holds (before ++ es) buf) (some-same (sym read' ∙ read)) holds;
            };
          }
    ]

-- The round of the last packet, which ends the next one.
pub record IsClosed (entries : List Entry) (s : Browse) : Type 0 where
  pub state : Browse
  pub goes : round s ≡ next state
  pub stops : round state ≡ stop state
  pub holds : Holds entries state.buf

pub round-IsClosed :
    (p : Memory) (entries : List Entry) (more : List (Option (List ℕ))) (s : Browse)
    → IsLastPage p
    → IsBrowsing entries (frame_answers p ++ more) s
    → IsClosed entries s
unfolding dispatch
round-IsClosed p entries more s last b =
    let r = receive-IsReply p s.puppy more last.sound b.reads in
    let q = (receive s.puppy).1 in
    let other : (get_u32 q.reply cmd_at == data_hdd_dir) ≡ false =
      ground (arith, r.cmd_field, last.code) in
    let is_end : (get_u32 q.reply cmd_at == data_hdd_dir_end) ≡ true =
      ground (arith, r.cmd_field, last.code) in
    let t : Browse = record s { puppy = q } in
    let u : Browse = record t { finished = true } in
    let body : dispatch t ≡ some u = rw (other, is_end) refl in
    record {
      state = u;
      goes = round-dispatch s (frame_size p) b.open_end b.fine r.returned ∙ ap continue body;
      stops = unfold round decide_round in refl;
      holds = b.holds;
    }
