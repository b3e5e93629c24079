-- ===== src/PuppyProgram/Download/Agree.antt =====
-- The download loops of puppy.c and of libpuppy.c.
use libpuppy.Base.{
  ℕ, zero, suc, ◌≡◌, refl, ap, arith, Bool, true, false, Option, none, some, List, [], ◌∷◌, subst,
}
use libpuppy.Session.{Code, done, neg_eproto, neg_one, neg_enodata, errno, receive}
use libpuppy.FileGet.{
  Download, Phase, start, transfer, abort, Step, next, exit, dispatch, start_in, data_in, on_start,
  on_data, on_fail, unexpected, write_data, write_failed, on_received, round, get_loop,
}
use libpuppy.PuppyProgram.Download.{
  Turn, again, goto_out, cancel_transfer, out_of_turn, file_start, write_piece, file_data, turn,
  Got, after_loop, at_out, do_get_loop,
}

-- The same way on in the other loop.
abbrev step_of : Turn → Step
step_of (again d) = next d
step_of (goto_out code d) = exit code d

step_of-file_start :
    (phase : Phase) (d : Download) → step_of (file_start phase d) ≡ start_in phase d
unfolding file_start start_in on_start out_of_turn unexpected cancel_transfer
step_of-file_start start d = refl
step_of-file_start transfer d = refl
step_of-file_start abort d = refl

write_piece-write_data :
    (disk : List (Option ℕ)) (d : Download) → write_piece disk d ≡ write_data disk d
unfolding write_piece write_data write_failed cancel_transfer
write_piece-write_data [] d = refl
write_piece-write_data (none ∷ disk) d = refl
write_piece-write_data (some k ∷ disk) d = refl

step_of-file_data :
    (phase : Phase) (r : ℕ) (d : Download) → step_of (file_data phase r d) ≡ data_in phase r d
unfolding file_data data_in on_data out_of_turn unexpected cancel_transfer
step_of-file_data start r d = refl
step_of-file_data transfer r d = ap next (write_piece-write_data d.disk _)
step_of-file_data abort r d = refl

step_of-turn : (r : ℕ) (d : Download) → step_of (turn r d) ≡ dispatch r d
unfolding turn dispatch on_fail cancel_transfer
step_of-turn r d = ground (arith, step_of-file_start d.phase d, step_of-file_data d.phase r d)

-- The result without the time.
abbrev pub without_utime : Option Got → Option (Code × Download)
without_utime none = none
without_utime (some (code, d, timed)) = some (code, d)

-- A result that is 0 and has set the time.
abbrev pub done_with_time : Option Got → Bool
done_with_time (some (done, d, some stamp)) = true
done_with_time _ = false

untimed : (code : Code) (d : Download) → done_with_time (some (code, d, none)) ≡ false
untimed done d = refl
untimed neg_eproto d = refl
untimed neg_one d = refl
untimed neg_enodata d = refl
untimed (errno n) d = refl

-- The loops agree on what is left of them after a packet.
abbrev IsSame : Option Got → Option (Code × Download) → Type 0
IsSame r r' = (without_utime r ≡ r') × (done_with_time r ≡ false)

-- The loops go on alike from here.
abbrev GoAlike : ℕ → Type 0
GoAlike fuel = (d : Download) → IsSame (do_get_loop fuel d) (get_loop fuel d)

module _ (fuel : ℕ) (alike : GoAlike fuel) where
  by_turn :
      (t : Turn)
      → IsSame
          (elim t as (λ _. Option Got) [
            | again e ↦ do_get_loop fuel e
            | goto_out code e ↦ some (at_out code e)
          ])
          (elim (step_of t) as (λ _. Option (Code × Download)) [
            | next e ↦ get_loop fuel e
            | exit code e ↦ some (code, e)
          ])
  unfolding at_out
  by_turn (again e) = alike e
  by_turn (goto_out code e) = (refl, untimed code e)

  by_step :
      (t : Turn) (step : Step)
      → step_of t ≡ step
      → IsSame
          (elim t as (λ _. Option Got) [
            | again e ↦ do_get_loop fuel e
            | goto_out code e ↦ some (at_out code e)
          ])
          (elim step as (λ _. Option (Code × Download)) [
            | next e ↦ get_loop fuel e
            | exit code e ↦ some (code, e)
          ])
  by_step t step same =
      subst
        (λ step.
          IsSame
            (elim t as (λ _. Option Got) [
              | again e ↦ do_get_loop fuel e
              | goto_out code e ↦ some (at_out code e)
            ])
            (elim step as (λ _. Option (Code × Download)) [
              | next e ↦ get_loop fuel e
              | exit code e ↦ some (code, e)
            ]))
        same (by_turn t)

  by_received :
      (r : Option ℕ) (u : Download)
      → IsSame
          (elim r as (λ _. Option Got) [
            | none ↦ some (after_loop u)
            | some n ↦ elim (turn n u) as (λ _. Option Got) [
              | again e ↦ do_get_loop fuel e
              | goto_out code e ↦ some (at_out code e)
            ]
          ])
          (elim (on_received r u) as (λ _. Option (Code × Download)) [
            | next e ↦ get_loop fuel e
            | exit code e ↦ some (code, e)
          ])
  unfolding on_received after_loop
  by_received none u = (refl, refl)
  by_received (some n) u = by_step (turn n u) (dispatch n u) (step_of-turn n u)

-- The download loop of puppy.c, with its own switch on the packets, returns what that of libpuppy.c
-- returns, with the same state, and where it returns 0 it has not set the time of the file.
pub do_get_loop-get_loop :
    (fuel : ℕ) (d : Download)
    → (without_utime (do_get_loop fuel d) ≡ get_loop fuel d)
      × (done_with_time (do_get_loop fuel d) ≡ false)
unfolding do_get_loop get_loop round
do_get_loop-get_loop zero d = (refl, refl)
do_get_loop-get_loop (suc fuel) d =
    by_received fuel (λ e. do_get_loop-get_loop fuel e) (receive d.puppy).0
      (record d { puppy = (receive d.puppy).1 })
