-- ===== src/PuppyGet.antt =====
-- The program puppy-get.c. What it prints is left out. `fnmatch` and `stat` are parameters, as are
-- the answers of the local disk.
pub mod Removal
pub mod Dry
use libpuppy.Base.{
  ℕ, not, ◌&&◌, Bool, true, false, ◌==◌, ltb, if◌then◌else◌, Option, none, some, List, [], ◌∷◌,
  ◌++◌, length, take,
}
use libpuppy.Base.Memory.{Memory}
use libpuppy.FileGet.{Download, puppy_hdd_file_get}
use libpuppy.Commands.{puppy_hdd_del}
use libpuppy.Listing.{Entry, Ftype, puppy_file, puppy_hdd_dir}
use libpuppy.Open.{Finishing, puppy_done}
use libpuppy.Requests.{CString}
use libpuppy.Session.{Puppy, Code, done, errno, puppy_ok}
use libpuppy.Tools.{convert_slashes, backslash}

-- The local files by their names.
abbrev pub Files : Type 0
Files = CString → Option (List ℕ)

-- `fnmatch` is whether a name matches a pattern, and `stat` the size that `stat` gives, by
-- the files there are. `opened` is the `errno` where `open64` of a name fails, and `disk` the answers of
-- `write` to a file. `req` is what the local packet of a request holds at first, and `unset` what
-- an entry holds that was never set.
pub record Env : Type 0 where
  pub fnmatch : CString → CString → Bool
  pub stat : Files → CString → Option ℕ
  pub opened : CString → Option ℕ
  pub disk : CString → List (Option ℕ)
  pub req : Memory
  pub unset : Entry

-- A call of `puppy_hdd_del`: the entry that it is for, what the local file of the entry's name held at
-- that time, and the connection before the call and after it, with what the call returned.
pub record Removed : Type 0 where
  pub entry : Entry
  pub local : Option (List ℕ)
  pub before : Puppy
  pub code : Code
  pub after : Puppy

-- The state of `main`. `removed` has the calls of `puppy_hdd_del`.
pub record Run : Type 0 where
  pub ok : Bool
  pub puppy : Puppy
  pub files : Files
  pub removed : List Removed

-- The options `-m` and `-n`, and any that `getopt` does not know.
pub data Flag : Type 0 where
  flag_m flag_n flag_unknown : Flag

pub record Options : Type 0 where
  pub ok : Bool
  pub move : Bool
  pub noact : Bool

-- The loop over the options, which an unknown one ends.
unfoldable pub parse_options : List Flag → Options → Options
parse_options [] o = o
parse_options (flag_m ∷ flags) o = parse_options flags (record o { move = not o.move })
parse_options (flag_n ∷ flags) o = parse_options flags (record o { noact = not o.noact })
parse_options (flag_unknown ∷ flags) o = record o { ok = false }

unfoldable pub same_string : CString → CString → Bool
same_string [] [] = true
same_string (a ∷ s) (b ∷ t) = let rest = same_string s t in a == b && rest
same_string _ _ = false

-- The files after one was written.
abbrev pub with_file : CString → List ℕ → Files → Files
with_file name bytes files other = if same_string name other then some bytes else files other

-- The loop over the patterns.
unfoldable pub matches : (CString → CString → Bool) → List CString → CString → Bool
matches fnmatch [] name = false
matches fnmatch (glob ∷ globs) name =
    let rest = matches fnmatch globs name in if fnmatch glob name then true else rest

-- `snprintf(src, sizeof(src), "%s\\%s", dir, dst)`, for 256 bytes.
unfoldable pub source_path : CString → CString → CString
source_path dir dst = take 255 (dir ++ (backslash ∷ dst))

-- Whether a result is 0.
abbrev pub is_zero : Code → Bool
is_zero done = true
is_zero (errno e) = e == 0
is_zero _ = false

abbrev pub is_file : Ftype → Bool
is_file puppy_file = true
is_file _ = false

abbrev pub failed_run : Run → Run
failed_run s = record s { ok = false }

-- By what `puppy_hdd_del` returns; a failure is only reported.
unfoldable pub after_del : Entry → Run → Option (Code × Puppy) → Option Run
after_del e s none = none
after_del e s (some (code, p)) = some (record s {
  puppy = p;
  removed =
      s.removed
      ++ (record { entry = e; local = s.files e.name; before = s.puppy; code = code; after = p }
          ∷ []);
})

unfoldable pub remove_source : Env → CString → Entry → Run → Option Run
unfolding after_del
remove_source env src e s = after_del e s (puppy_hdd_del s.puppy env.req src)

-- `if(move && !noact)` the source file is removed.
unfoldable pub maybe_remove : Env → Options → CString → Entry → Run → Option Run
unfolding remove_source
maybe_remove env o src e s =
    let removal = remove_source env src e s in if o.move && not o.noact then removal else some s

-- By what `stat` gives after a download.
unfoldable pub check_copy : Env → Options → CString → Entry → Run → Option ℕ → Option Run
unfolding maybe_remove
check_copy env o src e s none = some (failed_run s)
check_copy env o src e s (some st_size) =
    let removal = maybe_remove env o src e s in
    if st_size == e.size then removal else some (failed_run s)

-- The state after a download, which has made the file unless it could not be opened.
abbrev pub downloaded : Option ℕ → Entry → Download → Run → Run
downloaded none e d s = record s { puppy = d.puppy; files = with_file e.name d.file s.files }
downloaded (some error) e d s = record s { puppy = d.puppy }

-- By what `puppy_hdd_file_get` returns.
unfoldable pub after_get :
    Env → Options → CString → Entry → Run → Option (Code × Download) → Option Run
unfolding check_copy
after_get env o src e s none = none
after_get env o src e s (some (code, d)) =
    let t = downloaded (env.opened e.name) e d s in
    let checked = check_copy env o src e t (env.stat t.files e.name) in
    if is_zero code then checked else some (failed_run t)

-- `if(!noact)` the file is fetched.
unfoldable pub fetch : Env → Options → CString → Entry → Run → Option Run
unfolding after_get
fetch env o src e s =
    let got = puppy_hdd_file_get s.puppy env.req (env.opened e.name) (env.disk e.name) src in
    let after = after_get env o src e s got in if o.noact then some s else after

-- By what `stat` gives before a download.
unfoldable pub handle : Env → Options → CString → Entry → Run → Option ℕ → Option Run
unfolding fetch maybe_remove
handle env o src e s none = fetch env o src e s
handle env o src e s (some st_size) =
    let removal = maybe_remove env o src e s in
    let fetched = fetch env o src e s in if st_size == e.size then removal else fetched

-- One entry: a file whose name matches is handled.
unfoldable pub on_entry : Env → Options → CString → List CString → Entry → Run → Option Run
unfolding handle
on_entry env o dir globs e s =
    let handled = handle env o (source_path dir e.name) e s (env.stat s.files e.name) in
    if is_file e.ftype && matches env.fnmatch globs e.name then handled else some s

abbrev pub entry_held : Env → Option Entry → Entry
entry_held env none = env.unset
entry_held env (some e) = e

abbrev pub is_empty : CString → Bool
is_empty [] = true
is_empty (_ ∷ _) = false

-- The loop over the entries, up to one whose name is empty; `none` is a read past the array, or a
-- request that overruns its packet.
unfoldable pub entries_loop :
    Env → Options → CString → List CString → List (Option Entry) → Run → Option Run
unfolding on_entry
entries_loop env o dir globs [] s = if s.ok then none else some s
entries_loop env o dir globs (x ∷ entries) s =
    let e = entry_held env x in
    let rest : Option Run = elim (on_entry env o dir globs e s) [
      | none ↦ none
      | some t ↦ entries_loop env o dir globs entries t
    ] in
    if s.ok && not (is_empty e.name) then rest else some s

-- The listing of a directory and the loop over it.
unfoldable pub browse : Env → Options → List CString → Run → Option CString → Option Run
unfolding entries_loop
browse env o globs s none = none
browse env o globs s (some dir) = elim (puppy_hdd_dir s.puppy env.req dir) [
  | none ↦ none
  | some (entries, p) ↦ entries_loop env o dir globs entries (record s { puppy = p })
]

-- What `main` does with the device that it opened.
unfoldable pub use_puppy : Env → Options → CString → List CString → Run → Option Run
unfolding browse
use_puppy env o arg globs s =
    let browsed = browse env o globs s (convert_slashes arg) in
    if puppy_ok s.puppy then browsed else some s

-- What the program ends with: the usage and status 1, an undefined read or write, or a state and
-- what `puppy_done` does.
pub data Exit : Type 0 where
  usage_shown undefined_behaviour : Exit
  exited : Run → Finishing → Exit

-- `return ok ? 0 : 1`
unfoldable pub exit_status : Exit → Option ℕ
exit_status usage_shown = some 1
exit_status undefined_behaviour = none
exit_status (exited s finishing) = some (if s.ok then 0 else 1)

-- `puppy_done(p)` at the end.
abbrev pub ended : Option Run → Exit
ended none = undefined_behaviour
ended (some s) = exited s (puppy_done s.puppy)

-- With a directory and at least one pattern; `puppy` is what `puppy_open(NULL)` gives.
unfoldable pub start : Env → Options → Puppy → Files → Bool → List CString → Exit
unfolding use_puppy
start env o puppy files true (arg ∷ (glob ∷ globs)) = ended (
    use_puppy env o arg (glob ∷ globs)
      (record { ok = true; puppy = puppy; files = files; removed = [] }))
start env o puppy files _ _ = usage_shown

abbrev pub no_options : Options
no_options = record { ok = true; move = false; noact = false }

-- The operands are what the options leave of the arguments.
unfoldable pub main : Env → Puppy → Files → List Flag → List CString → Exit
unfolding start parse_options
main env puppy files flags operands =
    let o = parse_options flags no_options in start env o puppy files o.ok operands
