-- ===== src/Usb/Write.antt =====
-- `usb_bulk_write`: what reaches the device.
use libpuppy.Base.{
  ℕ, zero, suc, ◌+◌, ◌-◌, ◌*◌, ◌≤◌, ◌<◌, ◌≡◌, sym, ap, ◌∙◌, ◌⊎◌, inl, inr, Bool-cases, ltb, ◌&&◌,
  arith, min, max, List, [], ◌∷◌, ◌++◌, Option, none, some, length, flatten, replicate, All,
  flatten-append_one, All-append_one, append-nil, append_assoc,
}
use libpuppy.Base.Memory.{Memory, read_range, read_range-append, length-read_range}
use libpuppy.Usb.{Usb, Wrote, max_transfer, write_loop, usb_bulk_write}

-- Answers that take a whole page each.
abbrev pub willing : ℕ → List (Option ℕ)
willing calls = replicate calls (some max_transfer)

-- What a run of the loop from `sent` on has transferred.
record IsPrefix (bytes : Memory) (n sent : ℕ) (answers : List (Option ℕ)) (done : List (List ℕ))
    (run : Wrote) : Type 0 where
  grows : sent ≤ run.count
  bounded : run.count ≤ n
  transferred : flatten run.transfers ≡ flatten done ++ read_range bytes sent (run.count - sent)
  pages : All (λ xs. length xs ≤ max_transfer) run.transfers
  calls : length answers ≤ length run.rest + max 1 (n - sent)

module _ (bytes : Memory) (n : ℕ) where
  stop :
      (sent : ℕ) (answers rest : List (Option ℕ)) (done : List (List ℕ))
      → sent ≤ n
      → length answers ≤ suc (length rest)
      → All (λ xs. length xs ≤ max_transfer) done
      → IsPrefix bytes n sent answers done (record { count = sent; rest = rest; transfers = done })
  stop sent answers rest done h c p = record {
    grows = omega arith;
    bounded = h;
    transferred = rw (nothing sent) (sym (append-nil (flatten done)));
    pages = p;
    calls = omega arith;
  }
    where
      nothing : (k : ℕ) → k - k ≡ 0
      nothing k = omega arith

  -- A transfer of `ret` bytes, and the run after it.
  module _ (sent ret : ℕ) (answers : List (Option ℕ)) (done : List (List ℕ)) (k : Option ℕ) where
    abbrev done' : List (List ℕ)
    done' = done ++ (read_range bytes sent ret ∷ [])

    joined :
        (count : ℕ)
        → sent + ret ≤ count
        → flatten done' ++ read_range bytes (sent + ret) (count - (sent + ret))
          ≡ flatten done ++ read_range bytes sent (count - sent)
    joined count h =
        ap (λ xs. xs ++ read_range bytes (sent + ret) (count - (sent + ret)))
          (flatten-append_one done (read_range bytes sent ret))
        ∙ append_assoc (flatten done) _ _
        ∙ ap (◌++◌ (flatten done)) (read_range-append bytes sent ret (count - (sent + ret)))
        ∙ ap (λ j. flatten done ++ read_range bytes sent j) total
      where
        total : ret + (count - (sent + ret)) ≡ count - sent
        total = omega arith

    one_more :
        {run : Wrote}
        → sent + ret ≤ n
        → ((0 < ret) × (sent + ret < n)) ⊎ (length answers ≤ length run.rest)
        → IsPrefix bytes n (sent + ret) answers done' run
        → IsPrefix bytes n sent (k ∷ answers) done run
    one_more {run} fits why r = record {
      grows = omega (arith, r.grows);
      bounded = r.bounded;
      transferred = r.transferred ∙ joined run.count r.grows;
      pages = r.pages;
      calls = omega (arith, r.calls);
    }

  write_loop-IsPrefix :
      (answers : List (Option ℕ)) (sent : ℕ) (done : List (List ℕ))
      → sent ≤ n
      → All (λ xs. length xs ≤ max_transfer) done
      → IsPrefix bytes n sent answers done (write_loop bytes n answers sent done)
  unfolding write_loop
  write_loop-IsPrefix [] sent done h p = stop sent [] [] done h (omega arith) p
  write_loop-IsPrefix (none ∷ answers) sent done h p =
      stop sent (none ∷ answers) answers done h (omega arith) p
  write_loop-IsPrefix (some k ∷ answers) sent done h p =
      elim (Bool-cases (ltb 0 ret && ltb (sent + ret) n)) [
        | inl go ↦ rw go (
            one_more sent ret answers done (some k) fits
              (inl (ground (arith, go), ground (arith, go)))
              (write_loop-IsPrefix answers (sent + ret) _ fits page))
        | inr end ↦ rw end (
            one_more sent ret answers done (some k) fits (inr (omega arith))
              (stop (sent + ret) answers answers _ fits (omega arith) page))
      ]
    where
      ret : ℕ
      ret = min k (min (n - sent) max_transfer)

      fits : sent + ret ≤ n
      fits = omega arith

      page : All (λ xs. length xs ≤ max_transfer) (done ++ (read_range bytes sent ret ∷ []))
      page = All-append_one _ done _ p (omega (arith, length-read_range bytes sent ret))

  -- A device that takes every page completes the loop.
  write_loop-willing :
      (calls sent : ℕ) (done : List (List ℕ))
      → sent ≤ n
      → n ≤ sent + calls * max_transfer
      → (write_loop bytes n (willing calls) sent done).count ≡ n
  unfolding write_loop
  write_loop-willing zero sent done h c = omega arith
  write_loop-willing (suc calls) sent done h c =
      let ret = min max_transfer (min (n - sent) max_transfer) in
      elim (Bool-cases (ltb 0 ret && ltb (sent + ret) n)) [
        | inl go ↦ rw go (write_loop-willing calls (sent + ret) _ (omega arith) (ground arith))
        | inr end ↦ rw end (ground arith)
      ]

-- `usb_bulk_write` returns at most `length` and has handed the device exactly that many bytes,
-- the first ones, in transfers of at most 4096, if those before were; and it makes no more than
-- `length` ioctls (one where `length` is 0).
pub usb_bulk_write_lem :
    (u : Usb) (bytes : Memory) (n : ℕ)
    → All (λ xs. length xs ≤ max_transfer) u.sent
    → let (count, u') = usb_bulk_write u bytes n in
      (count ≤ n)
      × (flatten u'.sent ≡ flatten u.sent ++ read_range bytes 0 count)
      × All (λ xs. length xs ≤ max_transfer) u'.sent
      × (length u.writes ≤ length u'.writes + max 1 n)
unfolding usb_bulk_write
usb_bulk_write_lem u bytes n p =
    let r = write_loop-IsPrefix bytes n u.writes 0 u.sent (omega arith) p in
    (
      r.bounded,
      r.transferred ∙ ap (λ k. flatten u.sent ++ read_range bytes 0 k) (omega arith),
      r.pages,
      omega (arith, r.calls),
    )

-- If the device takes every page, with enough answers for `length` bytes, `usb_bulk_write` returns
-- `length`.
pub usb_bulk_write_complete :
    (u : Usb) (bytes : Memory) (n calls : ℕ)
    → u.writes ≡ willing calls
    → n ≤ calls * max_transfer
    → (usb_bulk_write u bytes n).0 ≡ n
unfolding usb_bulk_write
usb_bulk_write_complete u bytes n calls e h =
    rw e (write_loop-willing bytes n calls 0 u.sent (omega arith) (omega arith))
