-- ===== src/FilePut/Truncated.antt =====
-- The upload of a file that has become shorter.
use libpuppy.Base.{
  drop, take, length, min, ◌≤◌, ℕ, zero, suc, ◌≡◌, refl, ap, ◌∙◌, List, [], ◌∷◌, Option, some, none,
  arith,
}
use libpuppy.Base.Memory.{Memory}
use libpuppy.Session.{Puppy, neg_eproto, receive}
use libpuppy.Session.Served.{IsServed, IsSuccess, receive-IsAnswered}
use libpuppy.Transport.{get_tf_packet}
use libpuppy.Usb.{usb_bulk_read, read_loop}
use libpuppy.FilePut.{
  payload_size, Upload, transfer, put_loop, round, on_received, exit, by_phase, on_data,
  read_source, send_data, moved, adjusted, data_packet,
}
use libpuppy.FilePut.Rounds.{answered, round-by_phase}
use libpuppy.FilePut.Ranges.{take-nil}
use libpuppy.FilePut.Whole.{put_loop-next, put_loop-exit}

-- Where no answer is left, nothing is received.
receive-none : (p : Puppy) → p.usb.reads ≡ [] → (receive p).0 ≡ none
unfolding receive get_tf_packet usb_bulk_read read_loop
receive-none p e = rw e refl

receive-unsent : (p : Puppy) → p.usb.reads ≡ [] → (receive p).1.usb.sent ≡ p.usb.sent
unfolding receive get_tf_packet usb_bulk_read read_loop
receive-unsent p e = rw e refl

unanswered_round : (s : Upload) → s.puppy.usb.reads ≡ [] → round s ≡ exit neg_eproto (answered s)
unfolding round on_received
unanswered_round s e = ap (λ r. on_received r (answered s)) (receive-none s.puppy e)

drop_all : (n : ℕ) (xs : List ℕ) → length xs ≤ n → drop n xs ≡ []
drop_all zero [] h = refl
drop_all zero (x ∷ xs) h = absurd (omega arith)
drop_all (suc n) [] h = refl
drop_all (suc n) (x ∷ xs) h = drop_all n xs (omega arith)

-- An upload that still has data to send, at or behind the end of its file, with a device that
-- answers SUCCESS once more and then nothing: the round sends nothing, and the loop of
-- `puppy_hdd_file_put` returns -EPROTO.
pub put_loop-truncated :
    (ok : Memory) (k packets fuel : ℕ) (s : Upload) (source : List (Option ℕ))
    → IsSuccess ok
    → IsServed ok 1 packets s.puppy
    → s.phase ≡ transfer
    → s.source ≡ some k ∷ source
    → length s.content ≤ s.pos
    → 2 ≤ fuel
    → (last : Upload) × (put_loop fuel s ≡ some (neg_eproto, last))
      × (last.puppy.usb.sent ≡ s.puppy.usb.sent)
unfolding by_phase on_data read_source send_data moved adjusted
put_loop-truncated ok k packets (suc (suc fuel)) s source is_ok served phase answers over h =
    let a = receive-IsAnswered ok 0 packets s.puppy is_ok served in
    let e = record (answered s) { source = source } in
    let u : Upload = record (moved e []) {
      puppy = record ((answered s).puppy) { packet = data_packet e [] };
    } in
    let nothing : take (min k payload_size) (drop s.pos s.content) ≡ [] =
      ap (take (min k payload_size)) (drop_all s.pos s.content over)
      ∙ take-nil (min k payload_size) in
    (
      answered u,
      put_loop-next (suc fuel) s u (
            round-by_phase ok 0 packets s transfer phase a
            ∙ ap (λ xs. read_source xs (answered s)) answers
            ∙ ap (send_data e) nothing)
          ∙ put_loop-exit fuel u (answered u) neg_eproto (unanswered_round u a.served.reads),
      receive-unsent u.puppy a.served.reads ∙ a.sent,
    )
put_loop-truncated ok k packets zero s source is_ok served phase answers over h =
    absurd (omega arith)
put_loop-truncated ok k packets (suc zero) s source is_ok served phase answers over h =
    absurd (omega arith)
