-- ===== src/PuppyDir.antt =====
-- The program puppy-dir.c. `char` is signed, `atoi`, `qsort` and `fnmatch` are parameters, as is the
-- `time_t` of a time stamp. Sizes are below 2 ^ 63.
pub mod Main
pub mod Order
pub mod Series
use libpuppy.Base.{
  ℕ, zero, suc, ◌+◌, ◌-◌, ◌%◌, ◌^◌, ◌==◌, ltb, leb, ◌&&◌, not, if◌then◌else◌, Bool, true, false,
  Option, none, some, List, [], ◌∷◌, ◌++◌, length, take, drop,
}
use libpuppy.Base.Memory.{Memory}
use libpuppy.Base.Int.{ℤ, pos, negsuc, ◌-ℤ◌, sub_ℕ, is_int, int_of}
use libpuppy.Listing.{Entry, puppy_hdd_dir}
use libpuppy.Mjd.{TfDatetime}
use libpuppy.Open.{Finishing, puppy_done}
use libpuppy.Requests.{CString}
use libpuppy.Session.{Puppy, puppy_ok}
use libpuppy.Tools.{convert_slashes}

pub data SortField : Type 0 where
  sort_unsorted sort_by_name sort_by_time sort_by_size sort_by_name_time : SortField

abbrev pub dot : ℕ
dot = 46

abbrev pub dash : ℕ
dash = 45

abbrev pub plus : ℕ
plus = 43

-- `strrchr`, as the index of the last such character.
unfoldable pub last_index : ℕ → CString → Option ℕ
last_index ch [] = none
last_index ch (x ∷ s) =
    let here : Option ℕ = if x == ch then some 0 else none in
    elim (last_index ch s) [ none ↦ here | some i ↦ some (suc i) ]

abbrev pub is_digit : ℕ → Bool
is_digit ch = leb 48 ch && leb ch 57

unfoldable pub all_digits : CString → Bool
all_digits [] = true
all_digits (ch ∷ s) = let rest = all_digits s in if is_digit ch then rest else false

-- Whether a character stands before index `i`.
abbrev pub stands_before : Option ℕ → ℕ → Bool
stands_before none i = false
stands_before (some j) i = ltb j i

abbrev pub index_or_zero : Option ℕ → ℕ
index_or_zero none = 0
index_or_zero (some j) = j

-- `*ptr` and the comparison take characters as signed.
unfoldable pub char_value : ℕ → ℤ
char_value ch = if ltb ch 128 then pos ch else negsuc (255 - ch)

-- The comparison of the first characters, up to the end of a string or of a length.
unfoldable pub strcmp_len : CString → ℕ → CString → ℕ → ℤ
unfolding char_value
strcmp_len (x ∷ a) (suc a_len) (y ∷ b) (suc b_len) =
    let rest = strcmp_len a a_len b b_len in
    let cmp = char_value x -ℤ char_value y in if is_int cmp 0 then rest else cmp
strcmp_len _ _ _ _ = pos 0

pub data Secondary : Type 0 where
  compare_by_number compare_by_time_stamp : Secondary

module _ (atoi : CString → ℤ) (time_of : TfDatetime → ℤ) where
  -- The number after the last dash, where there are only digits up to the dot.
  unfoldable pub number_after : CString → ℕ → ℕ → ℤ
  unfolding all_digits
  number_after name start stop =
      if all_digits (take (stop - start) (drop start name)) then atoi (drop start name) else pos 0

  -- By the index of the last dot.
  unfoldable pub parts_at : CString → Option ℕ → ℕ × ℤ
  unfolding last_index number_after
  parts_at name none = (length name, pos 0)
  parts_at name (some stop) =
      let plus_at = last_index plus name in
      let dash_at = last_index dash name in
      if stands_before plus_at stop
      then (index_or_zero plus_at, pos 0)
      else if stands_before dash_at stop
      then (index_or_zero dash_at, number_after name (suc (index_or_zero dash_at)) stop)
      else (stop, pos 0)

  -- The length of the name's first part, and its number.
  unfoldable pub extract_parts : CString → ℕ × ℤ
  unfolding parts_at
  extract_parts name = parts_at name (last_index dot name)

  unfoldable pub secondary_order : Secondary → ℤ → ℤ → Entry → Entry → ℤ
  unfolding int_of
  secondary_order compare_by_number a_num b_num a b = a_num -ℤ b_num
  secondary_order compare_by_time_stamp a_num b_num a b =
      int_of (time_of a.stamp -ℤ time_of b.stamp)

  unfoldable pub compare_by_name_and : Secondary → Entry → Entry → ℤ
  unfolding extract_parts strcmp_len secondary_order
  compare_by_name_and secondary a b =
      let (a_name_len, a_num) = extract_parts a.name in
      let (b_name_len, b_num) = extract_parts b.name in
      let name_cmp = strcmp_len a.name a_name_len b.name b_name_len in
      let second = secondary_order secondary a_num b_num a b in
      if is_int name_cmp 0 then second else name_cmp

  unfoldable pub compare_by_name : Entry → Entry → ℤ
  unfolding compare_by_name_and
  compare_by_name = compare_by_name_and compare_by_number

  unfoldable pub compare_by_time : Entry → Entry → ℤ
  unfolding int_of
  compare_by_time a b = int_of (time_of a.stamp -ℤ time_of b.stamp)

  unfoldable pub compare_by_size : Entry → Entry → ℤ
  unfolding int_of
  compare_by_size a b = int_of (sub_ℕ a.size b.size)

  unfoldable pub compare_by_name_time : Entry → Entry → ℤ
  unfolding compare_by_name_and
  compare_by_name_time = compare_by_name_and compare_by_time_stamp

  unfoldable pub comparator : SortField → Option (Entry → Entry → ℤ)
  unfolding compare_by_name compare_by_time compare_by_size compare_by_name_time
  comparator sort_by_name = some compare_by_name
  comparator sort_by_time = some compare_by_time
  comparator sort_by_size = some compare_by_size
  comparator sort_by_name_time = some compare_by_name_time
  comparator sort_unsorted = none

  unfoldable pub sort_dir_entries :
      ((Entry → Entry → ℤ) → List Entry → List Entry) → List Entry → SortField → List Entry
  unfolding comparator
  sort_dir_entries qsort entries field = elim (comparator field) [
    | none ↦ entries
    | some compare ↦ qsort compare entries
  ]
