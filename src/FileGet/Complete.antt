-- ===== src/FileGet/Complete.antt =====
-- A whole file from the device, as `puppy_hdd_file_get` of libpuppy.c downloads it.
use libpuppy.FileGet.Whole.{data_round, with_piece, opening_round, end_round}
use libpuppy.Transport.RoundTrip.{frame_answers}
use libpuppy.Stream.{delivered, contents, IsEnd, IsData, IsStart, Piece}
use libpuppy.FileGet.{
  abort, stamp_of, size_at, data_at, get_u64, new_download, transfer, exit, next, Code, round,
  Download, Memory, get_loop,
}
use libpuppy.Base.{
  All, List, Option, [], ap, append-nil, append_assoc, arith, length, map, refl, some, suc, sym,
  zero, ℕ, ◌++◌, ◌+◌, ◌<◌, ◌∙◌, ◌∷◌, ◌≡◌, ◌≤◌,
}
use libpuppy.Session.{Puppy, done, receive}
use libpuppy.Session.Frames.{receive-IsReply}

-- What the loop returns when it took the pieces.
record IsComplete (xs : List Piece) (d : Download) (r : Option (Code × Download)) : Type 0 where
  pub last : Download
  pub result : r ≡ some (done, last)
  pub file : last.file ≡ d.file ++ contents xs
  pub size : last.byte_count ≡ d.byte_count
  pub stamp : last.stamp ≡ d.stamp

-- The loop after a round that goes on, or that ends.
get_loop-next :
    (fuel : ℕ) (d e : Download) → round d ≡ next e → get_loop (suc fuel) d ≡ get_loop fuel e
unfolding get_loop
get_loop-next fuel d e h =
    ap
      (λ step. elim step as (λ _. Option (Code × Download)) [
        | next f ↦ get_loop fuel f
        | exit code f ↦ some (code, f)
      ])
      h

get_loop-exit :
    (fuel : ℕ) (d e : Download) (code : Code)
    → round d ≡ exit code e
    → get_loop (suc fuel) d ≡ some (code, e)
unfolding get_loop
get_loop-exit fuel d e code h =
    ap
      (λ step. elim step as (λ _. Option (Code × Download)) [
        | next f ↦ get_loop fuel f
        | exit code f ↦ some (code, f)
      ])
      h

-- The rounds of the DATA packets and of the END packet.
pieces_loop :
    (xs : List Piece) (last : Memory) (ks : List ℕ) (d : Download) (fuel : ℕ)
    → All IsData xs
    → IsEnd last
    → All (λ k. 65535 ≤ k) ks
    → length xs ≤ length ks
    → length xs < fuel
    → d.phase ≡ transfer
    → d.puppy.usb.reads ≡ delivered xs (frame_answers last)
    → d.disk ≡ map some ks
    → IsComplete xs d (get_loop fuel d)
pieces_loop xs last ks d zero pieces ends takes enough fuel in_data reads disk =
    absurd (omega arith)
pieces_loop [] last ks d (suc fuel) pieces ends takes enough h in_data reads disk = record {
  last = _;
  result =
      get_loop-exit fuel d _ done
        (end_round d last [] ends (reads ∙ sym (append-nil (frame_answers last))));
  file = sym (append-nil d.file);
  size = refl;
  stamp = refl;
}
pieces_loop (x ∷ xs) last [] d (suc fuel) pieces ends takes enough h in_data reads disk =
    absurd (omega arith)
pieces_loop (x ∷ xs) last (k ∷ ks) d (suc fuel) pieces ends takes enough h in_data reads disk =
    let more = delivered xs (frame_answers last) in
    let e = with_piece d (receive d.puppy).1 (map some ks) x.chunk in
    let reply = receive-IsReply x.packet d.puppy more pieces.0.sound reads in
    let rest =
      pieces_loop xs last ks e fuel pieces.1 ends takes.1 (omega arith) (omega arith) in_data
        reply.left refl in
    record {
      last = rest.last;
      result =
          get_loop-next fuel d e
            (data_round d x more k (map some ks) pieces.0 in_data reads disk takes.0)
          ∙ rest.result;
      file = rest.file ∙ append_assoc d.file x.chunk (contents xs);
      size = rest.size;
      stamp = rest.stamp;
    }

-- A device that delivers a START packet, then DATA packets, then an END packet, and a disk that
-- takes every write: the loop of `puppy_hdd_file_get` returns 0, the file holds the pieces of
-- the DATA packets in order, and the size and the time stamp are those of the START packet.
pub get_loop-whole :
    (p : Puppy) (first last : Memory) (xs : List Piece) (ks : List ℕ) (fuel : ℕ)
    → IsStart first
    → All IsData xs
    → IsEnd last
    → All (λ k. 65535 ≤ k) ks
    → length xs ≤ length ks
    → length xs + 2 ≤ fuel
    → p.usb.reads ≡ frame_answers first ++ delivered xs (frame_answers last)
    → (d : Download) × (get_loop fuel (new_download p (map some ks)) ≡ some (done, d))
      × (d.file ≡ contents xs)
      × (d.byte_count ≡ get_u64 first (data_at + size_at))
      × (d.stamp ≡ some (stamp_of first data_at))
get_loop-whole p first last xs ks zero starts pieces ends takes enough h reads =
    absurd (omega arith)
get_loop-whole p first last xs ks (suc fuel) starts pieces ends takes enough h reads =
    let d = new_download p (map some ks) in
    let (e, goes, s) =
      opening_round d first (delivered xs (frame_answers last)) starts refl reads in
    let c =
      pieces_loop xs last ks e fuel pieces ends takes enough (omega arith) s.phase s.left s.disk in
    (
      c.last,
      get_loop-next fuel d e goes ∙ c.result,
      c.file ∙ ap (λ bytes. bytes ++ contents xs) s.file,
      c.size ∙ s.size,
      c.stamp ∙ s.stamp,
    )

-- An END packet after the loop gave up: `puppy_hdd_file_get` still returns 0, while the file is as it
-- was left, for instance where a write failed.
pub get_loop-abort :
    (d : Download) (last : Memory) (more : List (Option (List ℕ))) (fuel : ℕ)
    → IsEnd last
    → d.phase ≡ abort
    → d.puppy.usb.reads ≡ frame_answers last ++ more
    → (e : Download) × (get_loop (suc fuel) d ≡ some (done, e))
      × (e.phase ≡ abort)
      × (e.file ≡ d.file)
get_loop-abort d last more fuel ends gave_up reads =
    (_, get_loop-exit fuel d _ done (end_round d last more ends reads), gave_up, refl)
