-- ===== src/PuppyProgram/Main.antt =====
-- `main` of puppy.c. `System` has the answers of the system calls, as for `puppy_open`.
pub mod Dispatch
use libpuppy.Base.Memory.{Memory}
use libpuppy.FileGet.{Download}
use libpuppy.FilePut.{Source, Upload}
use libpuppy.Base.{[], false, ◌∷◌, List, Bool, none, ◌==◌, if◌then◌else◌, some, ℕ, Option}
use libpuppy.Session.{Code, Puppy}
use libpuppy.PuppyProgram.{
  cmd_turbo, cmd_hdd_create_dir, cmd_hdd_rename, cmd_hdd_del, cmd_hdd_file_send, cmd_hdd_dir,
  cmd_hdd_size, cmd_reset, cancel, CString, Settings, Flag, Direction, put, get, parse_args,
}
use libpuppy.PuppyProgram.Transfers.{
  do_cmd_turbo, do_cmd_reset, do_cancel, do_hdd_size, do_hdd_del, do_hdd_rename, do_hdd_mkdir,
  do_hdd_file_put,
}
use libpuppy.PuppyProgram.Download.{Got, do_hdd_file_get}
use libpuppy.PuppyProgram.Directory.{Shown, do_hdd_dir}
use libpuppy.Open.{System, is_toppy}

-- What the commands need besides the device: `atoi`, the first contents of a local packet, and what
-- the source and the destination file answer.
pub record Env : Type 0 where
  pub atoi : CString → ℕ
  pub req : Memory
  pub source : CString → Source
  pub content : CString → List ℕ
  pub source_reads : CString → List (Option ℕ)
  pub opened : CString → Option ℕ
  pub disk : CString → List (Option ℕ)

-- What a command ends with: the default case of the switch, a command on a NULL argument, a request
-- that overruns its packet or a listing that does, or a result.
pub data Ran : Type 0 where
  not_implemented null_argument undefined_behaviour : Ran
  returned : Code → Puppy → Ran

abbrev pub of_call : Option (Code × Puppy) → Ran
of_call none = undefined_behaviour
of_call (some (code, p)) = returned code p

abbrev pub of_put : Option (Code × Option Upload × Puppy) → Ran
of_put none = undefined_behaviour
of_put (some (code, s, p)) = returned code p

abbrev pub of_get : Option Got → Ran
of_get none = undefined_behaviour
of_get (some (code, d, timed)) = returned code d.puppy

abbrev pub of_dir : Option (Code × Shown) → Ran
of_dir none = undefined_behaviour
of_dir (some (code, s)) = returned code s.puppy

abbrev pub with_arg : Option CString → (CString → Ran) → Ran
with_arg none run = null_argument
with_arg (some s) run = run s

-- CMD_HDD_FILE_SEND, by the direction.
unfoldable pub transfer : Env → Puppy → Direction → CString → CString → Ran
transfer env p put src dst =
    of_put (do_hdd_file_put p env.req (env.source src) (env.content src) (env.source_reads src) dst)
transfer env p get src dst = of_get (do_hdd_file_get p env.req (env.opened dst) (env.disk dst) src)

-- The switch on the command.
unfoldable pub run_command : Env → Settings → Puppy → Ran
unfolding transfer
run_command env g p =
    if g.cmd == cancel
    then of_call (do_cancel p)
    else if g.cmd == cmd_reset
    then of_call (do_cmd_reset p env.req)
    else if g.cmd == cmd_hdd_size
    then of_call (do_hdd_size p env.req)
    else if g.cmd == cmd_hdd_dir
    then with_arg g.arg1 (λ path. of_dir (do_hdd_dir p env.req g.xml path))
    else if g.cmd == cmd_hdd_file_send
    then with_arg g.arg1 (λ src. with_arg g.arg2 (λ dst. transfer env p g.send_direction src dst))
    else if g.cmd == cmd_hdd_del
    then with_arg g.arg1 (λ path. of_call (do_hdd_del p env.req path))
    else if g.cmd == cmd_hdd_rename
    then with_arg g.arg1 (λ src. with_arg g.arg2 (λ dst. of_call (do_hdd_rename p env.req src dst)))
    else if g.cmd == cmd_hdd_create_dir
    then with_arg g.arg1 (λ path. of_call (do_hdd_mkdir p env.req path))
    else if g.cmd == cmd_turbo
    then with_arg g.arg1 (λ state. of_call (do_cmd_turbo env.atoi p env.req state))
    else not_implemented

-- The exit status: an E_ constant, or what the command ended with.
pub data Exit : Type 0 where
  refused_with : ℕ → Exit
  command : Ran → Exit

-- The end of `main`, with the descriptors of the device that it opened and closed.
pub record Ended : Type 0 where
  pub exit : Exit
  pub opened : List ℕ
  pub closed : List ℕ

-- The descriptor is closed on every way out, before which USBDEVFS_RELEASEINTERFACE may fail.
abbrev pub leave : ℕ → Exit → Ended
leave fd exit = record { exit = exit; opened = fd ∷ []; closed = fd ∷ [] }

abbrev pub with_crc_option : Settings → Puppy → Puppy
with_crc_option g p = record p { usb = record (p.usb) { ignore_crc = g.ignore_crc } }

-- USBDEVFS_CLAIMINTERFACE and USBDEVFS_SETINTERFACE, and then the command.
unfoldable pub claim_and_run : System → Env → Settings → Puppy → ℕ → Ended
unfolding run_command
claim_and_run sys env g p fd =
    let ran = leave fd (command (run_command env g (with_crc_option g p))) in
    if sys.claim
    then if sys.set_interface (some fd) then ran else leave fd (refused_with 4)
    else leave fd (refused_with 5)

-- `isToppy` and USBDEVFS_RESET, by the device descriptor.
unfoldable pub identify_device : Option (ℕ × ℕ) → System → Env → Settings → Puppy → ℕ → Ended
unfolding claim_and_run
identify_device none sys env g p fd = leave fd (refused_with 2)
identify_device (some desc) sys env g p fd =
    let claimed = claim_and_run sys env g p fd in
    if is_toppy desc
    then if sys.reset then claimed else leave fd (refused_with 9)
    else leave fd (refused_with 3)

-- By what opening the device gives.
unfoldable pub with_descriptor : Option ℕ → System → Env → Settings → Puppy → Ended
unfolding identify_device
with_descriptor none sys env g p = record { exit = refused_with 2; opened = []; closed = [] }
with_descriptor (some fd) sys env g p =
    let identified = identify_device sys.descriptor sys env g p fd in
    if sys.lock_exclusive then identified else leave fd (refused_with 6)

-- By the device path, which `parseArgs` has set.
unfoldable pub with_path : Option CString → System → Env → Settings → Puppy → Ended
unfolding with_descriptor
with_path none sys env g p = record { exit = command null_argument; opened = []; closed = [] }
with_path (some path) sys env g p = with_descriptor (sys.open_device path) sys env g p

-- By what `parseArgs` gives.
unfoldable pub with_settings : Option Settings → System → Env → Puppy → Ended
unfolding with_path
with_settings none sys env p = record { exit = refused_with 1; opened = []; closed = [] }
with_settings (some g) sys env p =
    let run = with_path g.dev_path sys env g p in
    if sys.lock_shared then run else record { exit = refused_with 8; opened = []; closed = [] }

abbrev pub initial_settings : Settings
initial_settings = record {
  ignore_crc = false;
  verbose = 0;
  packet_trace = 0;
  quiet = false;
  xml = false;
  dev_path = none;
  cmd = 0;
  send_direction = get;
  arg1 = none;
  arg2 = none;
}

-- By what opening the lock file gives; `found` is what `findToppy` would give.
unfoldable pub with_lock :
    Option ℕ → System → Env → Option CString → List Flag → List CString → Puppy → Ended
unfolding with_settings
with_lock none sys env found flags operands p = record {
  exit = refused_with 7;
  opened = [];
  closed = [];
}
with_lock (some lock) sys env found flags operands p =
    with_settings (parse_args found flags operands initial_settings) sys env p

unfoldable pub main : System → Env → Option CString → List Flag → List CString → Puppy → Ended
unfolding with_lock
main sys env found flags operands p = with_lock sys.open_lock sys env found flags operands p
