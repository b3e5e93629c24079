-- ===== src/PuppyProgram/Main/Dispatch.antt =====
-- An accepted command line reaches a command of puppy.c with its arguments.
use libpuppy.PuppyProgram.Download.{Got}
use libpuppy.PuppyProgram.{
  get, put, cmd_turbo, cmd_hdd_create_dir, cmd_hdd_rename, cmd_hdd_del, cmd_hdd_file_send,
  cmd_hdd_dir, cmd_hdd_size, cmd_reset, parse_args, Flag, cancel, put,
}
use libpuppy.Base.{
  false, if◌then◌else◌, arith, inr, Bool, inl, none, List, refl, some, true, ◌==◌, Bool-cases, ◌≡◌,
  Option, ℕ,
}
use libpuppy.PuppyProgram.Main.{
  with_descriptor, is_toppy, identify_device, initial_settings, with_crc_option, claim_and_run,
  with_path, Shown, Upload, command, CString, Code, Direction, leave, refused_with, with_lock,
  Ended, Exit, Puppy, Settings, System, main, with_settings, Env, Ran, not_implemented,
  null_argument, undefined_behaviour, returned, of_call, of_put, of_get, of_dir, with_arg, transfer,
  run_command,
}
use libpuppy.PuppyProgram.CommandLine.{is_given, IsRunnable, parse_args-IsRunnable}

-- A command that was found, with arguments that were given.
abbrev pub IsProper : Ran → Type 0
IsProper not_implemented = ⊥
IsProper null_argument = ⊥
IsProper undefined_behaviour = Unit
IsProper (returned code p) = Unit

of_call-IsProper : (r : Option (Code × Puppy)) → IsProper (of_call r)
of_call-IsProper none = tt
of_call-IsProper (some (code, p)) = tt

of_dir-IsProper : (r : Option (Code × Shown)) → IsProper (of_dir r)
of_dir-IsProper none = tt
of_dir-IsProper (some (code, s)) = tt

of_put-IsProper : (r : Option (Code × Option Upload × Puppy)) → IsProper (of_put r)
of_put-IsProper none = tt
of_put-IsProper (some (code, s, p)) = tt

of_get-IsProper : (r : Option Got) → IsProper (of_get r)
of_get-IsProper none = tt
of_get-IsProper (some (code, d, timed)) = tt

transfer-IsProper :
    (env : Env) (p : Puppy) (direction : Direction) (src dst : CString)
    → IsProper (transfer env p direction src dst)
unfolding transfer
transfer-IsProper env p put src dst = of_put-IsProper _
transfer-IsProper env p get src dst = of_get-IsProper _

with_arg-IsProper :
    (arg : Option CString) (run : CString → Ran)
    → is_given arg ≡ true
    → ((s : CString) → IsProper (run s))
    → IsProper (with_arg arg run)
with_arg-IsProper none run h proper = cc
with_arg-IsProper (some s) run h proper = proper s

run_command-IsProper :
    (env : Env) (g : Settings) (p : Puppy) → IsRunnable g → IsProper (run_command env g p)
unfolding run_command
run_command-IsProper env g p ok = elim (Bool-cases (g.cmd == cancel)) [
  | inl e ↦ rw e (of_call-IsProper _)
  | inr n1 ↦ elim (Bool-cases (g.cmd == cmd_reset)) [
    | inl e ↦ rw (n1, e) (of_call-IsProper _)
    | inr n2 ↦ elim (Bool-cases (g.cmd == cmd_hdd_size)) [
      | inl e ↦ rw (n1, n2, e) (of_call-IsProper _)
      | inr n3 ↦ elim (Bool-cases (g.cmd == cmd_hdd_dir)) [
        | inl e ↦
            rw (n1, n2, n3, e)
              (with_arg-IsProper g.arg1 _ (ok.first (ground arith)) (λ s. of_dir-IsProper _))
        | inr n4 ↦ elim (Bool-cases (g.cmd == cmd_hdd_file_send)) [
          | inl e ↦
              rw (n1, n2, n3, n4, e)
                (with_arg-IsProper g.arg1 _ (ok.first (ground arith)) (λ s.
                  with_arg-IsProper g.arg2 _ (ok.second (ground arith))
                    (λ t. transfer-IsProper env p g.send_direction s t)))
          | inr n5 ↦ elim (Bool-cases (g.cmd == cmd_hdd_del)) [
            | inl e ↦
                rw (n1, n2, n3, n4, n5, e)
                  (with_arg-IsProper g.arg1 _ (ok.first (ground arith)) (λ s. of_call-IsProper _))
            | inr n6 ↦ elim (Bool-cases (g.cmd == cmd_hdd_rename)) [
              | inl e ↦
                  rw (n1, n2, n3, n4, n5, n6, e)
                    (with_arg-IsProper g.arg1 _ (ok.first (ground arith)) (λ s.
                      with_arg-IsProper g.arg2 _ (ok.second (ground arith))
                        (λ t. of_call-IsProper _)))
              | inr n7 ↦ elim (Bool-cases (g.cmd == cmd_hdd_create_dir)) [
                | inl e ↦
                    rw (n1, n2, n3, n4, n5, n6, n7, e)
                      (with_arg-IsProper g.arg1 _ (ok.first (ground arith))
                        (λ s. of_call-IsProper _))
                | inr n8 ↦ elim (Bool-cases (g.cmd == cmd_turbo)) [
                  | inl e ↦
                      rw (n1, n2, n3, n4, n5, n6, n7, n8, e)
                        (with_arg-IsProper g.arg1 _ (ok.first (ground arith))
                          (λ s. of_call-IsProper _))
                  | inr n9 ↦ absurd (ground (arith, ok.known))
                ]
              ]
            ]
          ]
        ]
      ]
    ]
  ]
]

-- An exit that is no undefined command, and every descriptor closed that was opened.
abbrev pub ProperExit : Exit → Type 0
ProperExit (refused_with n) = Unit
ProperExit (command ran) = IsProper ran

pub record IsProperEnd (r : Ended) : Type 0 where
  pub exit : ProperExit r.exit
  pub closed : r.closed ≡ r.opened

leave-IsProperEnd : (fd : ℕ) (exit : Exit) → ProperExit exit → IsProperEnd (leave fd exit)
leave-IsProperEnd fd exit h = record { exit = h; closed = refl }

if-IsProperEnd :
    (test : Bool) {r s : Ended}
    → IsProperEnd r
    → IsProperEnd s
    → IsProperEnd (if test then r else s)
if-IsProperEnd true h k = h
if-IsProperEnd false h k = k

with_path-IsProperEnd :
    (sys : System) (env : Env) (g : Settings) (p : Puppy) (path : Option CString)
    → IsRunnable g
    → is_given path ≡ true
    → IsProperEnd (with_path path sys env g p)
with_path-IsProperEnd sys env g p none ok h = cc
with_path-IsProperEnd sys env g p (some path) ok h =
    unfold with_path in opened (sys.open_device path)
  where
    claimed : (fd : ℕ) → IsProperEnd (claim_and_run sys env g p fd)
    claimed fd =
        unfold claim_and_run in
        if-IsProperEnd sys.claim
          (if-IsProperEnd (sys.set_interface (some fd))
            (leave-IsProperEnd fd _ (run_command-IsProper env g (with_crc_option g p) ok))
            (leave-IsProperEnd fd _ tt))
          (leave-IsProperEnd fd _ tt)

    identified :
        (desc : Option (ℕ × ℕ)) (fd : ℕ) → IsProperEnd (identify_device desc sys env g p fd)
    identified none fd = unfold identify_device in leave-IsProperEnd fd _ tt
    identified (some desc) fd =
        unfold identify_device in
        if-IsProperEnd (is_toppy desc)
          (if-IsProperEnd sys.reset (claimed fd) (leave-IsProperEnd fd _ tt))
          (leave-IsProperEnd fd _ tt)

    opened : (r : Option ℕ) → IsProperEnd (with_descriptor r sys env g p)
    opened none = unfold with_descriptor in record { exit = tt; closed = refl }
    opened (some fd) =
        unfold with_descriptor in
        if-IsProperEnd sys.lock_exclusive (identified sys.descriptor fd) (leave-IsProperEnd fd _ tt)

with_settings-IsProperEnd :
    (sys : System) (env : Env) (p : Puppy) (r : Option Settings)
    → ((g : Settings) → r ≡ some g → IsRunnable g)
    → IsProperEnd (with_settings r sys env p)
unfolding with_settings
with_settings-IsProperEnd sys env p none h = record { exit = tt; closed = refl }
with_settings-IsProperEnd sys env p (some g) h =
    let ok = h g refl in
    if-IsProperEnd sys.lock_shared (with_path-IsProperEnd sys env g p g.dev_path ok ok.device)
      (record { exit = tt; closed = refl })

-- Whatever the command line is and the system answers, `main` of puppy.c does not reach the default
-- case of its switch, uses no argument that was not given, and closes the device if it opened it.
pub main-IsProperEnd :
    (sys : System) (env : Env) (found : Option CString) (flags : List Flag)
    (operands : List CString) (p : Puppy)
    → IsProperEnd (main sys env found flags operands p)
unfolding main with_lock
main-IsProperEnd sys env found flags operands p = locked sys.open_lock
  where
    locked : (r : Option ℕ) → IsProperEnd (with_lock r sys env found flags operands p)
    locked none = record { exit = tt; closed = refl }
    locked (some lock) =
        with_settings-IsProperEnd sys env p (parse_args found flags operands initial_settings)
          (λ g e. parse_args-IsRunnable found flags operands initial_settings g refl e)
