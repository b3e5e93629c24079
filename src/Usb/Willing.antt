-- ===== src/Usb/Willing.antt =====
-- `usb_bulk_write` to a device that takes every page: what it leaves of the answers.
use libpuppy.Base.{
  ℕ, zero, suc, ◌+◌, ◌*◌, ◌-◌, ◌≤◌, ◌<◌, ◌≡◌, refl, ap, ◌∙◌, inl, inr, Bool-cases, ltb, ◌&&◌, arith,
  min, List, ◌∷◌, [], ◌++◌, length, flatten, All,
}
use libpuppy.Base.Memory.{Memory, read_range}
use libpuppy.Usb.{Usb, Wrote, max_transfer, write_loop, usb_bulk_write}
use libpuppy.Usb.Write.{willing, usb_bulk_write_lem, usb_bulk_write_complete}

-- A willing device stays willing, for at most `pages` answers less.
record IsLeft (pages calls : ℕ) (run : Wrote) : Type 0 where
  left : ℕ
  rest : run.rest ≡ willing left
  fewer : calls ≤ left + pages

module _ (bytes : Memory) (n : ℕ) where
  write_loop-IsLeft :
      (pages calls sent : ℕ) (done : List (List ℕ))
      → 1 ≤ pages
      → pages ≤ calls
      → sent ≤ n
      → n ≤ sent + pages * max_transfer
      → IsLeft pages calls (write_loop bytes n (willing calls) sent done)
  unfolding write_loop
  write_loop-IsLeft zero calls sent done one enough low high = absurd (omega arith)
  write_loop-IsLeft (suc pages) zero sent done one enough low high = absurd (omega arith)
  write_loop-IsLeft (suc pages) (suc calls) sent done one enough low high =
      let ret = min max_transfer (min (n - sent) max_transfer) in
      elim (Bool-cases (ltb 0 ret && ltb (sent + ret) n)) [
        | inl go ↦
            let more : (0 < ret) × (sent + ret < n) = (ground (arith, go), ground (arith, go)) in
            let r =
              write_loop-IsLeft pages calls (sent + ret) (done ++ (read_range bytes sent ret ∷ []))
                (omega (arith, more)) (omega arith) (omega (arith, more)) (omega (arith, more)) in
            rw go (record { left = r.left; rest = r.rest; fewer = omega (arith, r.fewer) })
        | inr end ↦ rw end (record { left = calls; rest = refl; fewer = omega arith })
      ]

-- The state after all of the bytes went to a willing device.
pub record IsWritten (u : Usb) (bytes : Memory) (n pages calls : ℕ) (run : ℕ × Usb) : Type 0 where
  pub returned : run.0 ≡ n
  pub sent : flatten run.1.sent ≡ flatten u.sent ++ read_range bytes 0 n
  pub pages_sent : All (λ xs. length xs ≤ max_transfer) run.1.sent
  pub reads : run.1.reads ≡ u.reads
  pub left : ℕ
  pub writes : run.1.writes ≡ willing left
  pub fewer : calls ≤ left + pages

pub usb_bulk_write-IsWritten :
    (u : Usb) (bytes : Memory) (n pages calls : ℕ)
    → All (λ xs. length xs ≤ max_transfer) u.sent
    → u.writes ≡ willing calls
    → 1 ≤ pages
    → pages ≤ calls
    → n ≤ pages * max_transfer
    → IsWritten u bytes n pages calls (usb_bulk_write u bytes n)
usb_bulk_write-IsWritten u bytes n pages calls small writes one enough high =
    let (bound, transferred, pages_sent, ioctls) = usb_bulk_write_lem u bytes n small in
    let all = usb_bulk_write_complete u bytes n calls writes (omega arith) in
    let r = write_loop-IsLeft bytes n pages calls 0 u.sent one enough (omega arith) (omega arith) in
    record {
      returned = all;
      sent = transferred ∙ ap (λ k. flatten u.sent ++ read_range bytes 0 k) all;
      pages_sent = pages_sent;
      reads = unfold usb_bulk_write in refl;
      left = r.left;
      writes =
          unfold usb_bulk_write in
          ap (λ answers. (write_loop bytes n answers 0 u.sent).rest) writes ∙ r.rest;
      fewer = r.fewer;
    }
