-- ===== src/Tools.antt =====
-- `convert_slashes` of tools.c.
pub mod Slashes
use libpuppy.Base.{
  ℕ, ◌+◌, Bool, true, false, not, ◌&&◌, ◌||◌, ◌==◌, ltb, if◌then◌else◌, Option, none, some, List,
  [], ◌∷◌, length,
}
use libpuppy.Requests.{CString}

abbrev pub slash : ℕ
slash = 47

abbrev pub backslash : ℕ
backslash = 92

-- `(ch == '/' ? '\\' : ch)`
abbrev pub converted : ℕ → ℕ
converted ch = if ch == slash then backslash else ch

-- One stage: the value of `escape` after it, and the characters that it counts (stage 0) or writes
-- (stage 1).
unfoldable pub stage : Bool → CString → Bool × CString
stage escape [] = (escape, [])
stage escape (ch ∷ str) =
    let kept = stage false str in
    let skipped = stage true str in
    if escape || not (ch == backslash) then (kept.0, converted ch ∷ kept.1) else skipped

-- Stage 1 starts with the `escape` that stage 0 leaves. The buffer has one byte more than stage 0
-- counts; `none` is a write past it, of a character or of the final zero.
unfoldable pub convert_slashes : CString → Option CString
convert_slashes str =
    let (escape, counted) = stage false str in
    let (escape', written) = stage escape str in
    if ltb (length counted) (length written) then none else some written
