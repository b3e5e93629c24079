-- ===== src/Listing/Descriptor.antt =====
-- The descriptor that an upload sends reads back as the entry of its file.
use libpuppy.Base.{
  ℕ, zero, suc, ◌+◌, ◌-◌, ◌^◌, ◌≤◌, ◌<◌, ◌≡◌, ◌≢◌, refl, ap, ◌∙◌, arith, inl, ◌==◌, some, List, [],
  ◌∷◌, ◌++◌, length, replicate, length-replicate, length-append, take_all, get_or, All, false, true,
}
use libpuppy.Base.Memory.{Memory, write_range, write_range_outside, update}
use native.Mathlib.Decide.{dec_lt}
use libpuppy.Bytes.{get_u16, get_u64, put_u16, put_u64}
use libpuppy.Bytes.Value.{get_u16_ext, get_u64_ext}
use libpuppy.Bytes.RoundTrip.{get_u16-put_u16, get_u64-put_u64, put_u64_below}
use libpuppy.Mjd.{TfDatetime}
use libpuppy.Packet.Typefile.{
  filetype_at, size_at, name_at, name_size, stamp_of, put_stamp, strncpy_bytes, put_typefile,
}
use libpuppy.Requests.{CString}
use libpuppy.Listing.{puppy_file, ftype_of, c_string, entry_of}

-- A string without a zero in it, followed by one, is copied whole.
c_string_lem :
    (room : ℕ) (m : Memory) (a : ℕ) (s : CString)
    → All (λ ch. ch ≢ 0) s
    → length s < room
    → ((i : ℕ) → i ≤ length s → m (a + i) ≡ get_or s i 0)
    → c_string room m a ≡ some s
unfolding c_string
c_string_lem zero m a s h k e = absurd (omega arith)
c_string_lem (suc room) m a [] h k e =
    let end : (m a == 0) ≡ true = ground (arith, ap m (zero_more a), e 0 (omega arith)) in
    rw end refl
  where
    zero_more : (a : ℕ) → a + 0 ≡ a
    zero_more a = omega arith
c_string_lem (suc room) m a (ch ∷ s) h k e =
    let first : m a ≡ ch = ap m (omega arith) ∙ e 0 (omega arith) in
    let go : (m a == 0) ≡ false = rw first (ground (arith, h.0)) in
    let ih =
      c_string_lem room m (a + 1) s h.1 (omega arith)
        (λ i p. ap m (omega arith) ∙ e (suc i) (omega arith)) in
    rw (go, ih) (ap (λ c. some (c ∷ s)) first)

get_or-replicate : (n i : ℕ) → get_or {A = ℕ} (replicate n 0) i 0 ≡ 0
get_or-replicate zero i = refl
get_or-replicate (suc n) zero = refl
get_or-replicate (suc n) (suc i) = get_or-replicate n i

-- Zeros behind a string do not change what is read of it.
get_or-zeros : (s : List ℕ) (n i : ℕ) → get_or (s ++ replicate n 0) i 0 ≡ get_or s i 0
get_or-zeros [] n i = get_or-replicate n i
get_or-zeros (x ∷ s) n zero = refl
get_or-zeros (x ∷ s) n (suc i) = get_or-zeros s n i

get_or-past : (s : List ℕ) (i : ℕ) → length s ≤ i → get_or s i 0 ≡ 0
get_or-past [] i h = refl
get_or-past (x ∷ s) zero h = absurd (omega arith)
get_or-past (x ∷ s) (suc i) h = get_or-past s i (omega arith)

module _ (m : Memory) (a : ℕ) (dt : TfDatetime) (size : ℕ) (name : CString)
    (short : length name ≤ 94) where
  abbrev pub written : Memory
  written = put_typefile m a dt size name

  -- The memory before the name, and before the zeros after it.
  abbrev typed : Memory
  typed = update (put_stamp m a dt) (a + filetype_at) 2

  abbrev sized : Memory
  sized = put_u64 typed (a + size_at) size

  abbrev named : Memory
  named = write_range sized (a + name_at) (strncpy_bytes 94 name)

  length-strncpy_bytes : length (strncpy_bytes 94 name) ≡ 94
  unfolding strncpy_bytes
  length-strncpy_bytes = rw (take_all 94 name short) (
      omega (
        arith,
        length-append name (replicate (94 - length name) 0),
        length-replicate {A = ℕ} (94 - length name) 0,
      ))

  -- Above the size field nothing reaches below the name.
  below-name : (i : ℕ) → i < a + name_at → written i ≡ sized i
  unfolding put_typefile
  below-name i h =
      write_range_outside named (a + name_at + 94) (replicate 6 0) i (inl (omega arith))
      ∙ write_range_outside sized (a + name_at) (strncpy_bytes 94 name) i (inl h)

  below-size : (i : ℕ) → i < a + size_at → written i ≡ typed i
  below-size i h = below-name i (omega arith) ∙ put_u64_below typed (a + size_at) size i h

  name-at : (i : ℕ) → i ≤ length name → written (a + name_at + i) ≡ get_or name i 0
  unfolding put_typefile
  name-at i h = elim (dec_lt i 94) [
    | yes p ↦
        write_range_outside named (a + name_at + 94) (replicate 6 0) (a + name_at + i)
          (inl (omega arith))
        ∙ ground (arith, length-strncpy_bytes, skip i, padded i)
    | no p ↦ ground (arith, skip' i, past i (omega arith))
  ]
    where
      skip :
          (i : ℕ)
          → get_or (strncpy_bytes 94 name) (a + name_at + i - (a + name_at)) 0
            ≡ get_or (strncpy_bytes 94 name) i 0
      skip i = ap (λ j. get_or (strncpy_bytes 94 name) j 0) (omega arith)

      skip' : (i : ℕ) → get_or {A = ℕ} (replicate 6 0) (a + name_at + i - (a + name_at + 94)) 0 ≡ 0
      skip' i = get_or-replicate 6 (a + name_at + i - (a + name_at + 94))

      padded : (i : ℕ) → get_or (strncpy_bytes 94 name) i 0 ≡ get_or name i 0
      padded i =
          unfold strncpy_bytes in
          rw (take_all 94 name short) (get_or-zeros name (94 - length name) i)

      past : (i : ℕ) → length name ≤ i → get_or name i 0 ≡ 0
      past i h = get_or-past name i h

  name_lem : All (λ ch. ch ≢ 0) name → c_string name_size written (a + name_at) ≡ some name
  name_lem h = c_string_lem name_size written (a + name_at) name h (omega arith) name-at

  pub size_lem : size < 2 ^ 64 → get_u64 written (a + size_at) ≡ size
  size_lem h =
      get_u64_ext written sized (a + size_at) (λ i p q. below-name i (omega arith))
      ∙ get_u64-put_u64 typed (a + size_at) size
      ∙ omega arith

  filetype_lem : written (a + filetype_at) ≡ 2
  filetype_lem = below-size (a + filetype_at) (omega arith) ∙ ground arith

  pub stamp_lem :
      dt.mjd < 2 ^ 16 → dt.hour < 256 → dt.minute < 256 → dt.second < 256 → stamp_of written a ≡ dt
  unfolding stamp_of put_stamp
  stamp_lem mjd hour minute second =
      let base = put_u16 m a dt.mjd in
      let day : get_u16 written a ≡ dt.mjd =
        get_u16_ext written base a (below-size a (omega arith) ∙ ground arith)
          (below-size (a + 1) (omega arith) ∙ ground arith)
        ∙ get_u16-put_u16 m a dt.mjd
        ∙ omega arith in
      let h : written (a + 2) ≡ dt.hour = below-size (a + 2) (omega arith) ∙ ground arith in
      let k : written (a + 3) ≡ dt.minute = below-size (a + 3) (omega arith) ∙ ground arith in
      let s : written (a + 4) ≡ dt.second = below-size (a + 4) (omega arith) ∙ ground arith in
      rw (day, h, k, s) refl

-- The descriptor of an upload, with fields that fit and a name of at most 94 characters, reads back
-- in a listing as a file with that stamp, size and name.
pub entry_of-put_typefile :
    (m : Memory) (a : ℕ) (dt : TfDatetime) (size : ℕ) (name : CString)
    → length name ≤ 94
    → All (λ ch. ch ≢ 0) name
    → size < 2 ^ 64
    → dt.mjd < 2 ^ 16
    → dt.hour < 256
    → dt.minute < 256
    → dt.second < 256
    → entry_of (put_typefile m a dt size name) a
      ≡ some (record { ftype = puppy_file; stamp = dt; size = size; name = name })
unfolding entry_of ftype_of
entry_of-put_typefile m a dt size name short chars fits mjd hour minute second =
    rw
      (
        entry_of,
        name_lem m a dt size name short chars,
        filetype_lem m a dt size name short,
        stamp_lem m a dt size name short mjd hour minute second,
        size_lem m a dt size name short fits,
      )
      refl
