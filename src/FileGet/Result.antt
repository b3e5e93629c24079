-- ===== src/FileGet/Result.antt =====
-- What the result of `puppy_hdd_file_get` says.
use libpuppy.Base.{ℕ, zero, suc, ◌≡◌, Option, none, some, inl, inr, ◌==◌, Bool-cases, ==→eq, subst}
use libpuppy.Bytes.{get_u32}
use libpuppy.Packet.{cmd_at}
use libpuppy.Packet.Commands.{
  success, fail, data_hdd_file_start, data_hdd_file_data, data_hdd_file_end,
}
use libpuppy.Session.{Code, done, receive}
use libpuppy.FileGet.{
  Download, Step, next, exit, Phase, start, transfer, abort, unexpected, on_start, on_data, on_fail,
  start_in, data_in, dispatch, on_received, round, get_loop,
}

abbrev pub reply_of : Download → ℕ
reply_of d = get_u32 d.puppy.reply cmd_at

-- A step that ends with 0 has seen the END packet.
abbrev SeenEnd : Step → Type 0
SeenEnd (next d) = Unit
SeenEnd (exit code d) = code ≡ done → reply_of d ≡ data_hdd_file_end

start_in-SeenEnd : (phase : Phase) (d : Download) → SeenEnd (start_in phase d)
unfolding start_in on_start unexpected
start_in-SeenEnd start d = tt
start_in-SeenEnd transfer d = tt
start_in-SeenEnd abort d = tt

data_in-SeenEnd : (phase : Phase) (r : ℕ) (d : Download) → SeenEnd (data_in phase r d)
unfolding data_in on_data unexpected
data_in-SeenEnd start r d = tt
data_in-SeenEnd transfer r d = tt
data_in-SeenEnd abort r d = tt

dispatch-SeenEnd : (r : ℕ) (d : Download) → SeenEnd (dispatch r d)
unfolding dispatch on_fail
dispatch-SeenEnd r d =
    let cmd = get_u32 d.puppy.reply cmd_at in
    elim (Bool-cases (cmd == data_hdd_file_start)) [
      | inl e ↦ rw e (start_in-SeenEnd d.phase d)
      | inr ne1 ↦ elim (Bool-cases (cmd == data_hdd_file_data)) [
        | inl e ↦ rw (ne1, e) (data_in-SeenEnd d.phase r d)
        | inr ne2 ↦ elim (Bool-cases (cmd == data_hdd_file_end)) [
          | inl e ↦ rw (ne1, ne2, e) (λ h. ==→eq cmd data_hdd_file_end e)
          | inr ne3 ↦ elim (Bool-cases (cmd == fail)) [
            | inl e ↦ rw (ne1, ne2, ne3, e) tt
            | inr ne4 ↦ elim (Bool-cases (cmd == success)) [
              | inl e ↦ rw (ne1, ne2, ne3, ne4, e) (λ h. cc)
              | inr ne5 ↦ rw (ne1, ne2, ne3, ne4, ne5) tt
            ]
          ]
        ]
      ]
    ]

on_received-SeenEnd : (r : Option ℕ) (d : Download) → SeenEnd (on_received r d)
unfolding on_received
on_received-SeenEnd none d = λ h. cc
on_received-SeenEnd (some r) d = dispatch-SeenEnd r d

round-SeenEnd : (d : Download) → SeenEnd (round d)
unfolding round
round-SeenEnd d = on_received-SeenEnd (receive d.puppy).0 (record d { puppy = (receive d.puppy).1 })

-- The loop of `puppy_hdd_file_get` ends with 0 only where the last packet received is
-- DATA_HDD_FILE_END.
pub get_loop-done :
    (fuel : ℕ) (d e : Download) → get_loop fuel d ≡ some (done, e) → reply_of e ≡ data_hdd_file_end
unfolding get_loop
get_loop-done zero d e h = cc
get_loop-done (suc fuel) d e h =
    stepped (λ f k. get_loop-done fuel f e k) (round d) (round-SeenEnd d) h
  where
    first :
        (code : Code) (f : Download)
        → ◌≡◌ {A = Option (Code × Download)} (some (code, f)) (some (done, e))
        → code ≡ done
    first code f k = cc

    last :
        (code : Code) (f : Download)
        → ◌≡◌ {A = Option (Code × Download)} (some (code, f)) (some (done, e))
        → f ≡ e
    last code f k = cc

    stepped :
        ((f : Download) → get_loop fuel f ≡ some (done, e) → reply_of e ≡ data_hdd_file_end)
        → (step : Step) → SeenEnd step
        → (elim step as (λ _. Option (Code × Download)) [
          | next f ↦ get_loop fuel f
          | exit code f ↦ some (code, f)
        ])
          ≡ some (done, e)
        → reply_of e ≡ data_hdd_file_end
    stepped ih (next f) seen k = ih f k
    stepped ih (exit code f) seen k =
        subst (λ g. reply_of g ≡ data_hdd_file_end) (last code f k) (seen (first code f k))
