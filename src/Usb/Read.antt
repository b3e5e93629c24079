-- ===== src/Usb/Read.antt =====
-- `usb_bulk_read`: what is delivered, and where it lands.
use libpuppy.Base.{
  ℕ, zero, suc, ◌+◌, ◌-◌, ◌/◌, ◌≤◌, ◌<◌, ◌≡◌, refl, ap, sym, ◌∙◌, ◌⊎◌, inl, inr, arith, min, List,
  [], ◌∷◌, ◌++◌, Option, none, some, length, take, take_all, length-take, ltb, ◌==◌, ◌&&◌,
  Bool-cases, true, false,
}
use libpuppy.Base.Memory.{
  Memory, read_range, write_range, length-read_range, write_range_outside, write_range-read_range,
}
use native.Mathlib.Decide.{dec_lt}
use libpuppy.Usb.{Usb, Retrieved, max_transfer, read_loop, usb_bulk_read}

record IsDelivery (size got : ℕ) (bytes : Memory) (run : Retrieved) : Type 0 where
  grows : got ≤ run.count
  bounded : run.count ≤ size
  outside : (i : ℕ) → (i < got) ⊎ (run.count ≤ i) → run.bytes i ≡ bytes i

module _ (size : ℕ) where
  read_loop-IsDelivery :
      (answers : List (Option (List ℕ))) (got : ℕ) (bytes : Memory)
      → got ≤ size
      → IsDelivery size got bytes (read_loop size answers got bytes)
  unfolding read_loop
  read_loop-IsDelivery [] got bytes h = ground arith
  read_loop-IsDelivery (none ∷ answers) got bytes h = ground arith
  read_loop-IsDelivery (some xs ∷ answers) got bytes h =
      elim (Bool-cases (ltb 0 ret && (ltb (got + ret) size && ret == requested))) [
        | inl go ↦ rw go (later (read_loop-IsDelivery answers (got + ret) _ fits))
        | inr end ↦ rw end (record { grows = omega arith; bounded = fits; outside = landed })
      ]
    where
      requested : ℕ
      requested = min (size - got) max_transfer

      data_in : List ℕ
      data_in = take requested xs

      ret : ℕ
      ret = length data_in

      fits : got + ret ≤ size
      fits = omega (arith, length-take requested xs)

      landed : (i : ℕ) → (i < got) ⊎ (got + ret ≤ i) → write_range bytes got data_in i ≡ bytes i
      landed i c = write_range_outside bytes got data_in i c

      later :
          {run : Retrieved}
          → IsDelivery size (got + ret) (write_range bytes got data_in) run
          → IsDelivery size got bytes run
      later {run} r = record {
        grows = omega (arith, r.grows);
        bounded = r.bounded;
        outside = λ i c. r.outside i (ground (arith, r.grows)) ∙ landed i (ground (arith, r.grows));
      }

-- `usb_bulk_read` returns at most `size` and changes only the bytes below its return value.
pub usb_bulk_read_lem :
    (u : Usb) (bytes : Memory) (size : ℕ)
    → let (count, bytes', u') = usb_bulk_read u bytes size in
      (count ≤ size) × ((i : ℕ) → count ≤ i → bytes' i ≡ bytes i)
unfolding usb_bulk_read
usb_bulk_read_lem u bytes size =
    let r = read_loop-IsDelivery size u.reads 0 bytes (omega arith) in
    (r.bounded, λ i h. r.outside i (inr h))

-- The answers of a device that has the `n` bytes of `m` from `a` on to deliver: full pages, and
-- then a short one, which may be empty.
abbrev pub delivery : ℕ → Memory → ℕ → ℕ → List (Option (List ℕ))
delivery zero m a n = some (read_range m a n) ∷ []
delivery (suc pages) m a n =
    some (read_range m a max_transfer) ∷ delivery pages m (a + max_transfer) (n - max_transfer)

pub length-delivery : (pages : ℕ) (m : Memory) (a n : ℕ) → length (delivery pages m a n) ≡ suc pages
length-delivery zero m a n = refl
length-delivery (suc pages) m a n = ap suc (length-delivery pages m _ _)

-- What the loop has done with a delivery of `n` bytes, before the answers `more`.
record IsFilled (m bytes : Memory) (more : List (Option (List ℕ))) (got n : ℕ) (run : Retrieved)
    : Type 0 where
  total : run.count ≡ got + n
  used : run.rest ≡ more
  before : (i : ℕ) → i < got → run.bytes i ≡ bytes i
  filled : (i : ℕ) → got ≤ i → i < got + n → run.bytes i ≡ m i

module _ (m : Memory) (size : ℕ) (more : List (Option (List ℕ))) where
  -- One answer of `j` bytes, no more than was requested.
  module _ (got j : ℕ) (bytes : Memory) (fits : j ≤ min (size - got) max_transfer) where
    whole : take (min (size - got) max_transfer) (read_range m got j) ≡ read_range m got j
    whole = take_all _ _ (rw length-read_range fits)

    landed_at : (i : ℕ) → got ≤ i → i < got + j → write_range bytes got (read_range m got j) i ≡ m i
    landed_at i h k =
        ap (write_range bytes got (read_range m got j)) (sym offset)
        ∙ write_range-read_range bytes m got got j (i - got) (omega arith)
        ∙ ap m offset
      where
        offset : got + (i - got) ≡ i
        offset = omega arith

    landed_before : (i : ℕ) → i < got → write_range bytes got (read_range m got j) i ≡ bytes i
    landed_before i h = write_range_outside bytes got (read_range m got j) i (inl h)

    last_page : IsFilled m bytes more got j (record {
      count = got + j;
      rest = more;
      bytes = write_range bytes got (read_range m got j);
    })
    last_page = record { total = refl; used = refl; before = landed_before; filled = landed_at }

    full_page :
        (n : ℕ) {run : Retrieved}
        → j ≤ n
        → IsFilled m (write_range bytes got (read_range m got j)) more (got + j) (n - j) run
        → IsFilled m bytes more got n run
    full_page n {run} le r = record {
      total = omega (arith, r.total);
      used = r.used;
      before = λ i h. r.before i (omega arith) ∙ landed_before i h;
      filled = λ i h k. elim (dec_lt i (got + j)) [
        | yes p ↦ r.before i p ∙ landed_at i h p
        | no p ↦ r.filled i (omega arith) (omega arith)
      ];
    }

  read_loop-IsFilled :
      (pages got n : ℕ) (bytes : Memory)
      → n / max_transfer ≡ pages
      → got + n < size
      → IsFilled m bytes more got n (read_loop size (delivery pages m got n ++ more) got bytes)
  unfolding read_loop
  read_loop-IsFilled zero got n bytes e h =
      rw (whole got n bytes (omega arith), length-read_range m got n, stops)
        (last_page got n bytes (omega arith))
    where
      stops : (ltb 0 n && (ltb (got + n) size && n == min (size - got) max_transfer)) ≡ false
      stops = ground arith
  read_loop-IsFilled (suc pages) got n bytes e h =
      rw (whole got max_transfer bytes (omega arith), length-read_range m got max_transfer, goes_on)
        (full_page got max_transfer bytes (omega arith) n (omega arith) (
          read_loop-IsFilled pages (got + max_transfer) (n - max_transfer) _ (omega arith)
            (omega arith)))
    where
      goes_on :
          (ltb 0 max_transfer
            && (ltb (got + max_transfer) size && max_transfer == min (size - got) max_transfer))
          ≡ true
      goes_on = ground arith

-- Where the device delivers `n` bytes of `m`, fewer than `size`, and then has other answers,
-- `usb_bulk_read` returns `n`, the buffer holds the bytes, and the other answers are left.
pub usb_bulk_read-delivery :
    (u : Usb) (m bytes : Memory) (size n : ℕ) (more : List (Option (List ℕ)))
    → u.reads ≡ delivery (n / max_transfer) m 0 n ++ more
    → n < size
    → let (count, bytes', u') = usb_bulk_read u bytes size in
      (count ≡ n) × ((i : ℕ) → i < n → bytes' i ≡ m i) × (u'.reads ≡ more)
unfolding usb_bulk_read
usb_bulk_read-delivery u m bytes size n more e h = rw e (
    let r = read_loop-IsFilled m size more (n / max_transfer) 0 n bytes refl (omega arith) in
    (omega (arith, r.total), λ i k. r.filled i (omega arith) (omega arith), r.used))

-- Every answer that is read is used up, and nothing arrives without one.
read_loop-rest :
    (size : ℕ) (answers : List (Option (List ℕ))) (got : ℕ) (bytes : Memory)
    → let run = read_loop size answers got bytes in
      (length run.rest ≤ length answers) × ((run.count ≡ got) ⊎ (length run.rest < length answers))
unfolding read_loop
read_loop-rest size [] got bytes = ground arith
read_loop-rest size (none ∷ answers) got bytes = ground arith
read_loop-rest size (some xs ∷ answers) got bytes =
    let requested = min (size - got) max_transfer in
    let xs' = take requested xs in
    let ret = length xs' in
    let ih = read_loop-rest size answers (got + ret) (write_range bytes got xs') in
    elim (Bool-cases (ltb 0 ret && (ltb (got + ret) size && ret == requested))) [
      | inl go ↦ rw go (omega (arith, ih), inr (omega (arith, ih)))
      | inr end ↦ rw end (omega arith, inr (omega arith))
    ]

pub usb_bulk_read-rest :
    (u : Usb) (bytes : Memory) (size : ℕ)
    → 0 < (usb_bulk_read u bytes size).0
    → length (usb_bulk_read u bytes size).2.reads < length u.reads
unfolding usb_bulk_read
usb_bulk_read-rest u bytes size h = ground (arith, read_loop-rest size u.reads 0 bytes)
