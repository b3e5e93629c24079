-- ===== src/PuppyProgram/CommandLine.antt =====
-- What an accepted command line of puppy.c provides.
use libpuppy.Base.{
  ◌∙◌, ap, inr, inl, refl, ◌||◌, [], Bool-cases, false, none, subst, ◌==◌, ◌∷◌, Bool, arith, some,
  true, ◌⊎◌, List, Option, ℕ, ◌≡◌,
}
use libpuppy.PuppyProgram.{
  flag_unknown, flag_x, flag_q, flag_capital_p, flag_p, flag_v, flag_i, cmd_turbo,
  cmd_hdd_create_dir, cmd_hdd_size, cmd_hdd_del, cmd_hdd_rename, cmd_reset, flag_c, cancel,
  cmd_hdd_dir, cmd_hdd_file_send, flag_d, Flag, CString, Settings, take_operands, with_device,
  after_options, parse_args, set_options, choose_device, one_operand, two_operands, dir_operand,
  command_word,
}

-- The commands of the switch in `main`.
abbrev pub is_known : ℕ → Bool
is_known cmd =
    cmd == cancel
    || (cmd == cmd_reset
        || (cmd == cmd_hdd_size
            || (cmd == cmd_hdd_dir
                || (cmd == cmd_hdd_file_send
                    || (cmd == cmd_hdd_del
                        || (cmd == cmd_hdd_rename
                            || (cmd == cmd_hdd_create_dir || cmd == cmd_turbo)))))))

-- Those that use `arg1`, and those that use `arg2`.
abbrev pub needs_first : ℕ → Bool
needs_first cmd =
    cmd == cmd_hdd_dir
    || (cmd == cmd_hdd_file_send
        || (cmd == cmd_hdd_del
            || (cmd == cmd_hdd_rename || (cmd == cmd_hdd_create_dir || cmd == cmd_turbo))))

abbrev pub needs_second : ℕ → Bool
needs_second cmd = cmd == cmd_hdd_file_send || cmd == cmd_hdd_rename

abbrev pub is_given : Option CString → Bool
is_given none = false
is_given (some s) = true

-- Settings that `main` can run.
pub record IsRunnable (g : Settings) : Type 0 where
  pub known : is_known g.cmd ≡ true
  pub device : is_given g.dev_path ≡ true
  pub first : needs_first g.cmd ≡ true → is_given g.arg1 ≡ true
  pub second : needs_second g.cmd ≡ true → is_given g.arg2 ≡ true

-- The same for a result.
abbrev Runnable : Option Settings → Type 0
Runnable none = Unit
Runnable (some g) = IsRunnable g

module _ (g : Settings) (known : is_known g.cmd ≡ true) (device : is_given g.dev_path ≡ true) where
  dir_operand-IsRunnable :
      (operands : List CString) → needs_second g.cmd ≡ false → IsRunnable (dir_operand operands g)
  dir_operand-IsRunnable [] no_second = record {
    known = known;
    device = device;
    first = λ _. refl;
    second = λ h. cc;
  }
  dir_operand-IsRunnable (a ∷ _) no_second = record {
    known = known;
    device = device;
    first = λ _. refl;
    second = λ h. cc;
  }

  one_operand-Runnable :
      (operands : List CString) → needs_second g.cmd ≡ false → Runnable (one_operand operands g)
  one_operand-Runnable [] no_second = tt
  one_operand-Runnable (a ∷ _) no_second = record {
    known = known;
    device = device;
    first = λ _. refl;
    second = λ h. cc;
  }

  two_operands-Runnable : (operands : List CString) → Runnable (two_operands operands g)
  two_operands-Runnable [] = tt
  two_operands-Runnable (a ∷ []) = tt
  two_operands-Runnable (a ∷ (b ∷ _)) = record {
    known = known;
    device = device;
    first = λ _. refl;
    second = λ _. refl;
  }

  take_operands-Runnable : (operands : List CString) → Runnable (take_operands operands g)
  unfolding take_operands
  take_operands-Runnable operands = elim (Bool-cases (g.cmd == cmd_hdd_dir)) [
    | inl e ↦ rw e (dir_operand-IsRunnable operands (ground arith))
    | inr ne1 ↦ elim (Bool-cases (g.cmd == cmd_hdd_file_send)) [
      | inl e ↦ rw (ne1, e) (two_operands-Runnable operands)
      | inr ne2 ↦ elim (Bool-cases (g.cmd == cmd_hdd_del)) [
        | inl e ↦ rw (ne1, ne2, e) (one_operand-Runnable operands (ground arith))
        | inr ne3 ↦ elim (Bool-cases (g.cmd == cmd_hdd_rename)) [
          | inl e ↦ rw (ne1, ne2, ne3, e) (two_operands-Runnable operands)
          | inr ne4 ↦ elim (Bool-cases (g.cmd == cmd_hdd_create_dir)) [
            | inl e ↦ rw (ne1, ne2, ne3, ne4, e) (one_operand-Runnable operands (ground arith))
            | inr ne5 ↦ elim (Bool-cases (g.cmd == cmd_turbo)) [
              | inl e ↦
                  rw (ne1, ne2, ne3, ne4, ne5, e) (one_operand-Runnable operands (ground arith))
              | inr ne6 ↦
                  rw (ne1, ne2, ne3, ne4, ne5, ne6)
                    (record {
                      known = known;
                      device = device;
                      first = λ h. ground arith;
                      second = λ h. ground arith;
                    })
            ]
          ]
        ]
      ]
    ]
  ]

-- The options set a known command or leave the one that there was.
abbrev KnownOrZero : ℕ → Type 0
KnownOrZero cmd = (cmd ≡ 0) ⊎ (is_known cmd ≡ true)

command_word-Known :
    (word : CString) (g : Settings) → KnownOrZero g.cmd → KnownOrZero (command_word word g).cmd
unfolding command_word
command_word-Known word g h = ground arith

set_options-Known :
    (flags : List Flag) (g h : Settings)
    → KnownOrZero g.cmd
    → set_options flags g ≡ some h
    → KnownOrZero h.cmd
unfolding set_options
set_options-Known [] g h k e =
    let same : g ≡ h = cc in subst (λ cmd. KnownOrZero cmd) (ap (λ s. s.cmd) same) k
set_options-Known (flag_i ∷ flags) g h k e = set_options-Known flags _ h k e
set_options-Known (flag_v ∷ flags) g h k e = set_options-Known flags _ h k e
set_options-Known (flag_p ∷ flags) g h k e = set_options-Known flags _ h k e
set_options-Known (flag_capital_p ∷ flags) g h k e = set_options-Known flags _ h k e
set_options-Known (flag_q ∷ flags) g h k e = set_options-Known flags _ h k e
set_options-Known (flag_x ∷ flags) g h k e = set_options-Known flags _ h k e
set_options-Known (flag_d path ∷ flags) g h k e = set_options-Known flags _ h k e
set_options-Known (flag_c word ∷ flags) g h k e =
    set_options-Known flags (command_word word g) h (command_word-Known word g k) e
set_options-Known (flag_unknown ∷ flags) g h k e = cc

with_device-Runnable :
    (operands : List CString) (path : Option CString) (g : Settings)
    → is_known g.cmd ≡ true
    → g.dev_path ≡ path
    → Runnable (with_device operands path g)
unfolding with_device
with_device-Runnable operands none g known e = tt
with_device-Runnable operands (some path) g known e =
    take_operands-Runnable g known (ap is_given e) operands

choose_device-cmd : (found : Option CString) (g : Settings) → (choose_device found g).cmd ≡ g.cmd
choose_device-cmd found g = chosen g.dev_path
  where
    chosen :
        (path : Option CString)
        → (elim path as (λ _. Settings) [
          | none ↦ record g { dev_path = found }
          | some path ↦ g
        ]).cmd
          ≡ g.cmd
    chosen none = refl
    chosen (some path) = refl

after_options-Runnable :
    (found : Option CString) (operands : List CString) (g : Settings)
    → KnownOrZero g.cmd
    → Runnable (after_options found operands (some g))
unfolding after_options
after_options-Runnable found operands g known =
    let h = choose_device found g in
    elim (Bool-cases (g.cmd == 0)) [
      | inl zero ↦ rw zero tt
      | inr other ↦ rw other (
          with_device-Runnable operands h.dev_path h
            (ap is_known (choose_device-cmd found g)
              ∙ elim known [ inl zero ↦ absurd (ground arith) | inr k ↦ k ])
            refl)
    ]

-- Where no command was set before, a command line that puppy.c accepts sets a command that `main`
-- knows, a device, and the arguments that the command uses.
pub parse_args-IsRunnable :
    (found : Option CString) (flags : List Flag) (operands : List CString) (g h : Settings)
    → g.cmd ≡ 0
    → parse_args found flags operands g ≡ some h
    → IsRunnable h
unfolding parse_args
parse_args-IsRunnable found flags operands g h fresh e =
    subst Runnable e (parsed (set_options flags g) refl)
  where
    parsed :
        (r : Option Settings) → set_options flags g ≡ r → Runnable (after_options found operands r)
    parsed none k = unfold after_options in tt
    parsed (some t) k =
        after_options-Runnable found operands t (set_options-Known flags g t (inl fresh) k)
