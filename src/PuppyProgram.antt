-- ===== src/PuppyProgram.antt =====
-- The program puppy.c: its command line and its `main`. `strcasecmp` is modelled for ASCII letters,
-- and `findToppy` is a parameter here.
pub mod Statistics
pub mod CommandLine
pub mod Transfers
pub mod Download
pub mod Search
pub mod Quote
pub mod Directory
pub mod Main
use libpuppy.Base.{
  ℕ, suc, ◌+◌, ◌==◌, ltb, leb, ◌&&◌, not, if◌then◌else◌, Bool, true, false, Option, none, some,
  List, [], ◌∷◌, ◌++◌,
}
use libpuppy.Requests.{CString}
use libpuppy.Packet.Commands.{
  cancel, cmd_reset, cmd_turbo, cmd_hdd_size, cmd_hdd_dir, cmd_hdd_del, cmd_hdd_rename,
  cmd_hdd_create_dir, cmd_hdd_file_send,
}

abbrev pub lower : ℕ → ℕ
lower ch = if leb 65 ch && leb ch 90 then ch + 32 else ch

-- Whether `strcasecmp` gives 0.
unfoldable pub same_word : CString → CString → Bool
same_word [] [] = true
same_word (a ∷ s) (b ∷ t) = let rest = same_word s t in lower a == lower b && rest
same_word _ _ = false

pub data Direction : Type 0 where
  put get : Direction

-- The globals that the options set; `cmd` is 0 and `dev_path` NULL at first.
pub record Settings : Type 0 where
  pub ignore_crc : Bool
  pub verbose : ℕ
  pub packet_trace : ℕ
  pub quiet : Bool
  pub xml : Bool
  pub dev_path : Option CString
  pub cmd : ℕ
  pub send_direction : Direction
  pub arg1 : Option CString
  pub arg2 : Option CString

-- What `getopt` gives: the options of the switch, or another character.
pub data Flag : Type 0 where
  flag_i flag_v flag_p flag_capital_p flag_q flag_x flag_unknown : Flag
  flag_d flag_c : CString → Flag

abbrev pub with_cmd : ℕ → Settings → Settings
with_cmd cmd g = record g { cmd = cmd }

-- The words of `-c`. A word that is not known changes nothing.
unfoldable pub command_word : CString → Settings → Settings
unfolding same_word
command_word word g =
    if same_word word (100 ∷ 105 ∷ 114 ∷ [])
    then with_cmd cmd_hdd_dir g
    else if same_word word (99 ∷ 97 ∷ 110 ∷ 99 ∷ 101 ∷ 108 ∷ [])
    then with_cmd cancel g
    else if same_word word (115 ∷ 105 ∷ 122 ∷ 101 ∷ [])
    then with_cmd cmd_hdd_size g
    else if same_word word (114 ∷ 101 ∷ 98 ∷ 111 ∷ 111 ∷ 116 ∷ [])
    then with_cmd cmd_reset g
    else if same_word word (112 ∷ 117 ∷ 116 ∷ [])
    then record g { cmd = cmd_hdd_file_send; send_direction = put }
    else if same_word word (103 ∷ 101 ∷ 116 ∷ [])
    then record g { cmd = cmd_hdd_file_send; send_direction = get }
    else if same_word word (100 ∷ 101 ∷ 108 ∷ 101 ∷ 116 ∷ 101 ∷ [])
    then with_cmd cmd_hdd_del g
    else if same_word word (114 ∷ 101 ∷ 110 ∷ 97 ∷ 109 ∷ 101 ∷ [])
    then with_cmd cmd_hdd_rename g
    else if same_word word (109 ∷ 107 ∷ 100 ∷ 105 ∷ 114 ∷ [])
    then with_cmd cmd_hdd_create_dir g
    else if same_word word (116 ∷ 117 ∷ 114 ∷ 98 ∷ 111 ∷ [])
    then with_cmd cmd_turbo g
    else g

-- The loop over the options; `none` where the usage is shown.
unfoldable pub set_options : List Flag → Settings → Option Settings
unfolding command_word
set_options [] g = some g
set_options (flag_i ∷ flags) g = set_options flags (record g { ignore_crc = true })
set_options (flag_v ∷ flags) g = set_options flags (record g { verbose = suc g.verbose })
set_options (flag_p ∷ flags) g = set_options flags (record g { packet_trace = 1 })
set_options (flag_capital_p ∷ flags) g = set_options flags (record g { packet_trace = 2 })
set_options (flag_q ∷ flags) g = set_options flags (record g { quiet = true })
set_options (flag_x ∷ flags) g = set_options flags (record g { xml = true })
set_options (flag_d path ∷ flags) g = set_options flags (record g { dev_path = some path })
set_options (flag_c word ∷ flags) g = set_options flags (command_word word g)
set_options (flag_unknown ∷ flags) g = none

-- One operand, or two, into `arg1` and `arg2`; `none` is the error that there are too few.
abbrev pub one_operand : List CString → Settings → Option Settings
one_operand [] g = none
one_operand (a ∷ _) g = some (record g { arg1 = some a })

abbrev pub two_operands : List CString → Settings → Option Settings
two_operands (a ∷ (b ∷ _)) g = some (record g { arg1 = some a; arg2 = some b })
two_operands _ g = none

-- A directory is listed from "\\" where none is given.
abbrev pub dir_operand : List CString → Settings → Settings
dir_operand [] g = record g { arg1 = some (92 ∷ []) }
dir_operand (a ∷ _) g = record g { arg1 = some a }

-- What the command needs. Its tests exclude each other.
unfoldable pub take_operands : List CString → Settings → Option Settings
take_operands operands g =
    if g.cmd == cmd_hdd_dir
    then some (dir_operand operands g)
    else if g.cmd == cmd_hdd_file_send
    then two_operands operands g
    else if g.cmd == cmd_hdd_del
    then one_operand operands g
    else if g.cmd == cmd_hdd_rename
    then two_operands operands g
    else if g.cmd == cmd_hdd_create_dir
    then one_operand operands g
    else if g.cmd == cmd_turbo
    then one_operand operands g
    else some g

-- `devPath = findToppy()` where no device was given.
abbrev pub choose_device : Option CString → Settings → Settings
choose_device found g = elim g.dev_path [ none ↦ record g { dev_path = found } | some path ↦ g ]

-- With a device or without.
unfoldable pub with_device : List CString → Option CString → Settings → Option Settings
unfolding take_operands
with_device operands none g = none
with_device operands (some path) g = take_operands operands g

-- After the options; `found` is what `findToppy` gives.
unfoldable pub after_options : Option CString → List CString → Option Settings → Option Settings
unfolding with_device
after_options found operands none = none
after_options found operands (some g) =
    let h = choose_device found g in
    let ready = with_device operands h.dev_path h in if g.cmd == 0 then none else ready

-- `none` is -1.
unfoldable pub parse_args : Option CString → List Flag → List CString → Settings → Option Settings
unfolding after_options set_options
parse_args found flags operands g = after_options found operands (set_options flags g)
