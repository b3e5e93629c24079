-- ===== src/Listing/Entries.antt =====
-- The entries that a listing collects.
use libpuppy.Base.{
  ℕ, zero, suc, ◌+◌, ◌-◌, ◌/◌, ◌≡◌, refl, sym, ap, ◌∙◌, inl, inr, Option, none, some, List, [], ◌∷◌,
  ◌++◌, map, append-nil, append_assoc, ◌⊎◌, subst,
}
use libpuppy.Base.Memory.{Memory, u16}
use libpuppy.Buffer.{Buffer}
use libpuppy.Buffer.Growth.{IsValid, buffer_add-IsValid, store-buffer_add, store-IsValid}
use libpuppy.Bytes.{get_u16}
use libpuppy.Packet.{length_at, data_at}
use libpuppy.Packet.Typefile.{typefile_size}
use libpuppy.Listing.{Entry, entry_of, add_entry, decode_from, decode_dir}

-- A buffer that fits its allocation and holds these entries, all of them set.
pub record Holds (entries : List Entry) (buf : Buffer Entry) : Type 0 where
  pub valid : IsValid buf
  pub contents : buf.elements ≡ map some entries

map-append_one :
    (xs : List Entry) (x : Entry) → map some xs ++ (some x ∷ []) ≡ map some (xs ++ (x ∷ []))
map-append_one [] x = refl
map-append_one (y ∷ xs) x = ap (◌∷◌ (some y)) (map-append_one xs x)

add_entry-Holds :
    (entries : List Entry) (entry : Entry) (buf : Buffer Entry)
    → Holds entries buf
    → Holds (entries ++ (entry ∷ [])) (add_entry buf entry)
unfolding add_entry
add_entry-Holds entries entry buf h = record {
  valid = store-IsValid _ entry _ (buffer_add-IsValid buf none h.valid);
  contents =
      store-buffer_add buf entry h.valid
      ∙ ap (λ xs. xs ++ (some entry ∷ [])) h.contents
      ∙ map-append_one entries entry;
}

-- The entries of `n` descriptors from address `a` on; `none` where a name has no end.
abbrev pub entries_at : ℕ → Memory → ℕ → Option (List Entry)
entries_at zero m a = some []
entries_at (suc n) m a = elim (entry_of m a) [
  | none ↦ none
  | some entry ↦ elim (entries_at n m (a + typefile_size)) [
    | none ↦ none
    | some entries ↦ some (entry ∷ entries)
  ]
]

-- What a run over these descriptors has done to a buffer that held `before`.
abbrev pub Decoded : List Entry → Option (List Entry) → Option (Buffer Entry) → Type 0
Decoded before read run =
    ((read ≡ none) × (run ≡ none))
    ⊎ ((entries : List Entry) × (buf : Buffer Entry) × (read ≡ some entries)
        × (run ≡ some buf)
        × Holds (before ++ entries) buf)

decode_from-Decoded :
    (n : ℕ) (m : Memory) (a : ℕ) (before : List Entry) (buf : Buffer Entry)
    → Holds before buf
    → Decoded before (entries_at n m a) (decode_from n m a buf)
unfolding decode_from
decode_from-Decoded zero m a before buf h =
    inr ([], buf, refl, refl, subst (λ es. Holds es buf) (sym (append-nil before)) h)
decode_from-Decoded (suc n) m a before buf h =
    by_entry
      (λ entry.
        decode_from-Decoded n m (a + typefile_size) (before ++ (entry ∷ [])) (add_entry buf entry)
          (add_entry-Holds before entry buf h))
      (entry_of m a) refl
  where
    by_entry :
        ((entry : Entry)
          → Decoded
              (before ++ (entry ∷ []))
              (entries_at n m (a + typefile_size))
              (decode_from n m (a + typefile_size) (add_entry buf entry)))
        → (read : Option Entry) → entry_of m a ≡ read
        → Decoded before (entries_at (suc n) m a) (decode_from (suc n) m a buf)
    by_entry ih none e = rw (e, decode_from, entries_at) (inl (refl, refl))
    by_entry ih (some entry) e =
        rw (e, decode_from, entries_at)
          (elim (ih entry) [
            | inl (no_entries, no_buffer) ↦ rw (no_entries, no_buffer) (inl (refl, refl))
            | inr (entries, buf', read, run, holds) ↦
                rw (read, run)
                  (inr (
                    entry ∷ entries,
                    buf',
                    refl,
                    refl,
                    subst (λ es. Holds es buf') (append_assoc before (entry ∷ []) entries) holds,
                  ))
          ])

-- The descriptors of a packet.
abbrev pub packet_entries : Memory → Option (List Entry)
packet_entries p = entries_at (u16 ((get_u16 p length_at - 8) / 114)) p data_at

-- On a valid buffer of entries, `decode_dir` adds those of the packet's descriptors in their order,
-- and the buffer is valid again; a name without an end among its 95 bytes is its only failure.
pub decode_dir-Decoded :
    (p : Memory) (before : List Entry) (buf : Buffer Entry)
    → Holds before buf
    → Decoded before (packet_entries p) (decode_dir p buf)
unfolding decode_dir
decode_dir-Decoded p before buf h = decode_from-Decoded _ p data_at before buf h
