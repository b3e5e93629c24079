-- ===== src/PuppyProgram/Directory.antt =====
-- `do_hdd_dir` and `decode_dir` of puppy.c: a listing that is printed.
pub mod Rounds
pub mod Agree
use libpuppy.Packet.Commands.{fail, data_hdd_dir_end, data_hdd_dir}
use libpuppy.Packet.Typefile.{typefile_size}
use libpuppy.Packet.{decode_error, packet_head_size, data_at, length_at, cmd_at}
use libpuppy.Bytes.{get_u16, get_u32}
use libpuppy.Base.Memory.{u16, Memory}
use libpuppy.Requests.{failed, count, send_cmd_hdd_dir, CString}
use libpuppy.Session.{unhandled_packet, device_reports, say, done, neg_eproto, receive, Code, Puppy}
use libpuppy.Base.{
  false, ◌/◌, refl, length, ◌-◌, zero, ◌++◌, ◌+◌, ◌==◌, [], ap, if◌then◌else◌, map, suc, ◌∷◌, none,
  some, true, ◌≡◌, List, ℕ, Bool, Option,
}
use libpuppy.Listing.{send_success_to, Entry, entry_of}
use libpuppy.Listing.Entries.{entries_at, packet_entries}
use libpuppy.PuppyProgram.Quote.{quote_xml}

-- What is printed: the head and the foot of an XML document, an entry in it, with its name as it is
-- quoted, and an entry as text.
pub data Output : Type 0 where
  document_head document_foot : Output
  xml_line : Entry → CString → Output
  text_line : Entry → Output

unfoldable pub line_of : Bool → Entry → Output
line_of true e = xml_line e (quote_xml e.name)
line_of false e = text_line e

-- The loop over the descriptors; `none` where a name has no end in its field.
unfoldable pub print_entries : Bool → ℕ → Memory → ℕ → Option (List Output)
unfolding line_of
print_entries xml zero m a = some []
print_entries xml (suc n) m a = elim (entry_of m a) [
  | none ↦ none
  | some e ↦ elim (print_entries xml n m (a + typefile_size)) [
    | none ↦ none
    | some lines ↦ some (line_of xml e ∷ lines)
  ]
]

-- `none` stays `none`; else the lines stand in a document of their own where the output is XML.
abbrev pub in_document : Bool → Option (List Output) → Option (List Output)
in_document xml none = none
in_document true (some lines) = some (document_head ∷ (lines ++ (document_foot ∷ [])))
in_document false (some lines) = some lines

unfoldable pub print_dir : Bool → Memory → Option (List Output)
unfolding print_entries
print_dir xml p =
    in_document xml
      (print_entries xml (u16 ((get_u16 p length_at - packet_head_size) / typefile_size)) p data_at)

-- The connection and what was printed.
pub record Shown : Type 0 where
  pub puppy : Puppy
  pub output : List Output

-- Whether the loop goes on; `unreadable` is a name without an end.
pub data Step : Type 0 where
  next : Shown → Step
  exit : Code → Shown → Step
  unreadable : Step

unfoldable pub on_entries : Option (List Output) → Shown → Step
on_entries none s = unreadable
on_entries (some lines) s =
    next (record { puppy = send_success_to s.puppy; output = s.output ++ lines })

unfoldable pub dispatch : Bool → Shown → Step
unfolding on_entries print_dir
dispatch xml s =
    let cmd = get_u32 s.puppy.reply cmd_at in
    let p = s.puppy in
    if cmd == data_hdd_dir
    then on_entries (print_dir xml p.reply) s
    else if cmd == data_hdd_dir_end
    then exit done s
    else if cmd == fail
    then exit neg_eproto (record s { puppy = say (device_reports (decode_error p.reply)) p })
    else exit neg_eproto (record s { puppy = say unhandled_packet p })

unfoldable pub on_received : Bool → Option ℕ → Shown → Step
unfolding dispatch
on_received xml none s = exit neg_eproto s
on_received xml (some n) s = dispatch xml s

unfoldable pub round : Bool → Shown → Step
unfolding on_received
round xml s = let (r, p) = receive s.puppy in on_received xml r (record s { puppy = p })

-- The loop, on fuel; `none` where that runs out or a name has no end.
unfoldable pub show_loop : Bool → ℕ → Shown → Option (Code × Shown)
unfolding round
show_loop xml zero s = none
show_loop xml (suc fuel) s = elim (round xml s) [
  | next t ↦ show_loop xml fuel t
  | exit code t ↦ some (code, t)
  | unreadable ↦ none
]

unfoldable pub do_hdd_dir : Puppy → Memory → Bool → CString → Option (Code × Shown)
unfolding show_loop
do_hdd_dir p req xml path = elim (send_cmd_hdd_dir p.usb req path) [
  | none ↦ none
  | some (failed, u) ↦ some (neg_eproto, record { puppy = record p { usb = u }; output = [] })
  | some (count n, u) ↦
      let q = record p { usb = u } in
      show_loop xml (suc (length q.usb.reads)) (record { puppy = q; output = [] })
]

-- The lines of entries.
abbrev pub lines_of : Bool → Option (List Entry) → Option (List Output)
lines_of xml none = none
lines_of xml (some entries) = some (map (line_of xml) entries)

print_entries-entries_at :
    (xml : Bool) (n : ℕ) (m : Memory) (a : ℕ)
    → print_entries xml n m a ≡ lines_of xml (entries_at n m a)
unfolding print_entries
print_entries-entries_at xml zero m a = refl
print_entries-entries_at xml (suc n) m a =
    by_entry (print_entries-entries_at xml n m (a + typefile_size)) (entry_of m a)
  where
    by_rest :
        (e : Entry) (lines : Option (List Output)) (rest : Option (List Entry))
        → lines ≡ lines_of xml rest
        → elim lines as (λ _. Option (List Output)) [
          | none ↦ none
          | some lines ↦ some (line_of xml e ∷ lines)
        ]
          ≡ lines_of xml (elim rest as (λ _. Option (List Entry)) [
            | none ↦ none
            | some entries ↦ some (e ∷ entries)
          ])
    by_rest e lines none h = rw h refl
    by_rest e lines (some entries) h = rw h refl

    by_entry :
        print_entries xml n m (a + typefile_size)
          ≡ lines_of xml (entries_at n m (a + typefile_size))
        → (read : Option Entry)
        → elim read as (λ _. Option (List Output)) [
          | none ↦ none
          | some e ↦
              elim (print_entries xml n m (a + typefile_size)) as (λ _. Option (List Output)) [
                | none ↦ none
                | some lines ↦ some (line_of xml e ∷ lines)
              ]
        ]
          ≡ lines_of xml (elim read as (λ _. Option (List Entry)) [
            | none ↦ none
            | some e ↦ elim (entries_at n m (a + typefile_size)) as (λ _. Option (List Entry)) [
              | none ↦ none
              | some entries ↦ some (e ∷ entries)
            ]
          ])
    by_entry ih none = refl
    by_entry ih (some e) = by_rest e _ (entries_at n m (a + typefile_size)) ih

-- puppy.c prints one line for each entry that the library's `decode_dir` would add, in their
-- order, between the head and the foot of a document where the output is XML.
pub print_dir-packet_entries :
    (xml : Bool) (p : Memory) → print_dir xml p ≡ in_document xml (lines_of xml (packet_entries p))
unfolding print_dir
print_dir-packet_entries xml p = ap (in_document xml) (print_entries-entries_at xml _ p data_at)
