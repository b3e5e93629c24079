-- ===== src/PuppyDir/Main.antt =====
-- `main` of puppy-dir.c: its options, the listing, and the lines that are printed.
use libpuppy.PuppyDir.{
  SortField, sort_unsorted, sort_by_name, sort_by_time, sort_by_size, sort_by_name_time,
  sort_dir_entries,
}
use libpuppy.Base.{
  ◌==◌, not, if◌then◌else◌, Bool, true, false, Option, none, some, List, [], ◌∷◌, length,
}
use libpuppy.Base.Memory.{Memory}
use libpuppy.Base.Int.{ℤ}
use libpuppy.Listing.{Entry, puppy_hdd_dir}
use libpuppy.Mjd.{TfDatetime}
use libpuppy.Open.{Finishing, puppy_done}
use libpuppy.Requests.{CString}
use libpuppy.Session.{Puppy, puppy_ok}
use libpuppy.Tools.{convert_slashes}

-- What `getopt` gives: the options of the switch, or another character.
pub data Flag : Type 0 where
  flag_help flag_unsorted flag_time flag_size flag_name flag_name_time flag_unknown : Flag

-- The loop over the options: whether it is to go on, and the order.
unfoldable pub sort_options : List Flag → SortField → Bool × SortField
sort_options [] field = (true, field)
sort_options (flag_unsorted ∷ flags) field = sort_options flags sort_unsorted
sort_options (flag_time ∷ flags) field = sort_options flags sort_by_time
sort_options (flag_size ∷ flags) field = sort_options flags sort_by_size
sort_options (flag_name ∷ flags) field = sort_options flags sort_by_name
sort_options (flag_name_time ∷ flags) field = sort_options flags sort_by_name_time
sort_options (flag_help ∷ flags) field = (false, field)
sort_options (flag_unknown ∷ flags) field = (false, field)

-- `while(ptr->name[0])`: the entries up to one whose name is empty; `unset` is what one that was
-- never set holds, and `none` a read past the array.
unfoldable pub named_entries : Entry → List (Option Entry) → Option (List Entry)
named_entries unset [] = none
named_entries unset (x ∷ entries) =
    let e : Entry = elim x [ none ↦ unset | some e ↦ e ] in
    let rest : Option (List Entry) = elim (named_entries unset entries) [
      | none ↦ none
      | some es ↦ some (e ∷ es)
    ] in
    if length e.name == 0 then some [] else rest

-- The entries that are printed.
unfoldable pub printed : (CString → Bool) → List Entry → List Entry
printed matches [] = []
printed matches (e ∷ entries) =
    let rest = printed matches entries in if matches e.name then e ∷ rest else rest

-- The directory and the pattern of the operands, with what they are without one.
abbrev pub directory_operand : List CString → CString
directory_operand [] = []
directory_operand (dir ∷ _) = dir

abbrev pub pattern_operand : List CString → CString
pattern_operand (_ ∷ (glob ∷ _)) = glob
pattern_operand _ = 42 ∷ []

-- `show` sorts and selects the entries. The result is what is printed and the state; `none` is
-- undefined behaviour.
unfoldable pub list_directory :
    Memory
    → Entry
    → (List Entry → List Entry)
    → Puppy
    → Option CString
    → Option (List Entry × Puppy)
unfolding named_entries
list_directory req unset show p none = none
list_directory req unset show p (some dir) = elim (puppy_hdd_dir p req dir) [
  | none ↦ none
  | some (entries, q) ↦ elim (named_entries unset entries) [
    | none ↦ none
    | some es ↦ some (show es, q)
  ]
]

-- `main` with the puppy that `puppy_open(NULL)` gives: what is printed, the state, and what
-- `puppy_done` does, unless the options ended the program. The exit status is always 0.
unfoldable pub main :
    (CString → ℤ)
    → (TfDatetime → ℤ)
    → ((Entry → Entry → ℤ) → List Entry → List Entry)
    → (CString → CString → Bool)
    → Memory
    → Entry
    → Puppy
    → List Flag
    → List CString
    → Option (List Entry × Puppy × Option Finishing)
unfolding sort_options sort_dir_entries printed list_directory
main atoi time_of qsort fnmatch req unset p flags operands =
    let (ok, field) = sort_options flags sort_by_name_time in
    let show : List Entry → List Entry = λ es.
      printed (fnmatch (pattern_operand operands)) (sort_dir_entries atoi time_of qsort es field) in
    let listed = list_directory req unset show p (convert_slashes (directory_operand operands)) in
    let shown : Option (List Entry × Puppy × Option Finishing) = elim listed [
      | none ↦ none
      | some (es, q) ↦ some (es, q, some (puppy_done q))
    ] in
    if not ok
    then some ([], p, none)
    else if puppy_ok p
    then shown
    else some ([], p, some (puppy_done p))
