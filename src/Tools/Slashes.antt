-- ===== src/Tools/Slashes.antt =====
-- What `convert_slashes` makes of a path, and when it overruns its buffer.
use libpuppy.Base.{
  ℕ, suc, ◌+◌, ◌%◌, ◌≡◌, ◌≢◌, ◌↔◌, refl, ap, arith, Bool, true, false, ◌==◌, if◌then◌else◌, none,
  some, [], ◌∷◌, length, map, All, Bool-cases, inl, inr,
}
use libpuppy.Requests.{CString}
use libpuppy.Tools.{slash, backslash, stage, convert_slashes}

-- How many backslashes a string starts with.
abbrev pub leading : CString → ℕ
leading [] = 0
leading (ch ∷ str) = let n = leading str in if ch == backslash then suc n else 0

-- Whether a string ends in a backslash that escapes nothing.
abbrev pub dangling : CString → Bool
dangling str = (stage false str).0

-- Starting in the escaped state keeps one character more where an odd number of backslashes leads.
length-stage :
    (str : CString) → length (stage true str).1 ≡ length (stage false str).1 + leading str % 2
unfolding stage
length-stage [] = refl
length-stage (ch ∷ str) = ground (arith, length-stage str)

-- `convert_slashes` writes past its buffer exactly for the strings that end in a backslash which
-- escapes nothing and start with an odd number of backslashes.
pub convert_slashes-overrun :
    (str : CString) → (convert_slashes str ≡ none) ↔ ((dangling str ≡ true) × (leading str % 2 ≡ 1))
unfolding convert_slashes
convert_slashes-overrun str = elim (Bool-cases (stage false str).0) [
  | inl e ↦ rw e (ground (arith, length-stage str))
  | inr e ↦ rw e (ground arith)
]

-- The path of the device as a user writes it.
abbrev pub with_slashes : CString → CString
with_slashes = map (λ ch. if ch == backslash then slash else ch)

stage-with_slashes :
    (path : CString) → All (λ ch. ch ≢ slash) path → stage false (with_slashes path) ≡ (false, path)
unfolding stage
stage-with_slashes [] h = refl
stage-with_slashes (ch ∷ path) h =
    let ih = stage-with_slashes path h.1 in
    elim (Bool-cases (ch == backslash)) [
      | inl e ↦ rw (e, ih) (ap (λ c. (false, c ∷ path)) (ground (arith, e)))
      | inr e ↦ rw (e, e, ih) (ap (λ c. (false, c ∷ path)) (ground (arith, h.0)))
    ]

-- Every path without a slash is what `convert_slashes` makes of the same path with slashes in place
-- of its backslashes.
pub convert_slashes-with_slashes :
    (path : CString) → All (λ ch. ch ≢ slash) path → convert_slashes (with_slashes path) ≡ some path
unfolding convert_slashes
convert_slashes-with_slashes path h =
    rw (stage-with_slashes path h, stage-with_slashes path h) (ground arith)

stage-All : (escape : Bool) (str : CString) → All (λ ch. ch ≢ slash) (stage escape str).1
unfolding stage
stage-All escape [] = record {}
stage-All escape (ch ∷ str) = ground (arith, stage-All false str, stage-All true str)

-- What `convert_slashes` returns holds no slash.
pub convert_slashes-All :
    (str result : CString) → convert_slashes str ≡ some result → All (λ ch. ch ≢ slash) result
unfolding convert_slashes
convert_slashes-All str result h = ground (arith, stage-All (stage false str).0 str)
