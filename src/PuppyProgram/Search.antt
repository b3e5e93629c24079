-- ===== src/PuppyProgram/Search.antt =====
-- `findToppy` of puppy.c and of libpuppy.c. A line of /proc/bus/usb/devices is what `sscanf` reads of
-- it; the path that is made of a bus and a device stands for itself.
use libpuppy.Base.{
  refl, inr, inl, Bool-cases, [], false, if◌then◌else◌, ◌≡◌, none, some, true, ◌∷◌, Bool, List,
  Option, ℕ,
}
use libpuppy.Open.{is_toppy}

-- "T: Bus=%d ... Dev#=%d", "P: Vendor=%x ProdID=%x", or another line.
pub data Line : Type 0 where
  topology : ℕ → ℕ → Line
  product : ℕ → ℕ → Line
  other_line : Line

-- `bus` and `device`, or `none` before a line has set them.
abbrev pub Place : Type 0
Place = Option (ℕ × ℕ)

-- The loop over the lines: `found` is the path so far. `none` is NULL.
unfoldable pub scan : List Line → Place → Option Place → Option Place
unfolding is_toppy
scan [] place found = found
scan (topology bus device ∷ lines) place found = scan lines (some (bus, device)) found
scan (product vendor prodid ∷ lines) place found =
    let first = scan lines place (some place) in
    let rest = scan lines place found in
    let again : Option Place = elim found [ none ↦ first | some path ↦ none ] in
    if is_toppy (vendor, prodid) then again else rest
scan (other_line ∷ lines) place found = scan lines place found

-- As libpuppy.c has it, without a lock: by the file where it can be opened.
unfoldable pub find_toppy_unlocked : Option (List Line) → Option Place
unfolding scan
find_toppy_unlocked none = none
find_toppy_unlocked (some lines) = scan lines none none

-- As puppy.c has it: with the lock, and by the file where it can be opened.
unfoldable pub find_toppy : Bool → Option (List Line) → Option Place
unfolding scan
find_toppy false devices = none
find_toppy true none = none
find_toppy true (some lines) = scan lines none none

-- The places of all Topfield devices, in the order of the lines.
unfoldable pub toppies : Place → List Line → List Place
unfolding is_toppy
toppies place [] = []
toppies place (topology bus device ∷ lines) = toppies (some (bus, device)) lines
toppies place (product vendor prodid ∷ lines) =
    let rest = toppies place lines in if is_toppy (vendor, prodid) then place ∷ rest else rest
toppies place (other_line ∷ lines) = toppies place lines

-- The only element of a list.
abbrev pub only : List Place → Option Place
only (place ∷ []) = some place
only _ = none

-- After one device was found, a second one leaves nothing.
scan-found :
    (lines : List Line) (place path : Place)
    → scan lines place (some path) ≡ only (path ∷ toppies place lines)
unfolding scan toppies
scan-found [] place path = refl
scan-found (topology bus device ∷ lines) place path = scan-found lines (some (bus, device)) path
scan-found (product vendor prodid ∷ lines) place path =
    elim (Bool-cases (is_toppy (vendor, prodid))) [
      | inl hit ↦ rw hit refl
      | inr miss ↦ rw miss (scan-found lines place path)
    ]
scan-found (other_line ∷ lines) place path = scan-found lines place path

scan-toppies :
    (lines : List Line) (place : Place) → scan lines place none ≡ only (toppies place lines)
unfolding scan toppies
scan-toppies [] place = refl
scan-toppies (topology bus device ∷ lines) place = scan-toppies lines (some (bus, device))
scan-toppies (product vendor prodid ∷ lines) place = elim (Bool-cases (is_toppy (vendor, prodid))) [
  | inl hit ↦ rw hit (scan-found lines place place)
  | inr miss ↦ rw miss (scan-toppies lines place)
]
scan-toppies (other_line ∷ lines) place = scan-toppies lines place

-- Where the file can be read, and in puppy.c the lock is taken, `findToppy` of puppy.c and of
-- libpuppy.c give a path exactly where one Topfield device is listed, and it is made of the topology
-- line before it.
pub find_toppy-only :
    (lines : List Line)
    → (find_toppy true (some lines) ≡ only (toppies none lines))
      × (find_toppy_unlocked (some lines) ≡ only (toppies none lines))
unfolding find_toppy find_toppy_unlocked
find_toppy-only lines = (scan-toppies lines none, scan-toppies lines none)
