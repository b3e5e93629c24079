-- ===== src/PuppyProgram/Quote.antt =====
-- `quote_xml` of puppy.c: the names in the XML output.
use libpuppy.Requests.{CString}
use libpuppy.Base.{
  ap, refl, [], inr, ◌∙◌, false, inl, true, ◌%◌, ◌&&◌, ◌+◌, ◌-◌, Bool-cases, arith, leb, ltb, ◌*◌,
  ◌/◌, ◌≡◌, All, Bool, if◌then◌else◌, ◌<◌, ◌==◌, ◌||◌, ◌∷◌, ℕ,
}

-- The characters of `valid_chars`: letters, digits and _ '-+. with the space.
abbrev pub is_valid : ℕ → Bool
is_valid ch =
    (leb 97 ch && leb ch 122)
    || ((leb 65 ch && leb ch 90)
        || ((leb 48 ch && leb ch 57)
            || (ch == 95 || (ch == 32 || (ch == 39 || (ch == 45 || (ch == 43 || ch == 46)))))))

abbrev pub percent : ℕ
percent = 37

-- A digit of `%02x`.
abbrev pub hex_digit : ℕ → ℕ
hex_digit n = if ltb n 10 then 48 + n else 87 + n

-- What is printed of a name.
unfoldable pub quote_xml : CString → CString
quote_xml [] = []
quote_xml (ch ∷ name) =
    let rest = quote_xml name in
    if is_valid ch
    then ch ∷ rest
    else percent ∷ (hex_digit (ch / 16) ∷ (hex_digit (ch % 16) ∷ rest))

-- The value of a digit.
abbrev pub hex_value : ℕ → ℕ
hex_value ch = if ltb ch 97 then ch - 48 else ch - 87

-- The name that a quoted one stands for.
unfoldable pub unquote : CString → CString
unquote [] = []
unquote (ch ∷ []) = ch ∷ []
unquote (ch ∷ (h ∷ [])) = ch ∷ (h ∷ [])
unquote (ch ∷ (h ∷ (l ∷ s))) =
    let escaped = (hex_value h * 16 + hex_value l) ∷ unquote s in
    let plain = ch ∷ unquote (h ∷ (l ∷ s)) in if ch == percent then escaped else plain

-- What may stand in an attribute without breaking it.
abbrev pub IsPlain : ℕ → Type 0
IsPlain ch = (is_valid ch || ch == percent) ≡ true

hex_digit-IsPlain : (n : ℕ) → n < 16 → IsPlain (hex_digit n)
hex_digit-IsPlain n h = ground arith

hex_value-hex_digit : (n : ℕ) → n < 16 → hex_value (hex_digit n) ≡ n
hex_value-hex_digit n h = ground arith

quote_xml-IsPlain : (name : CString) → All (λ ch. ch < 256) name → All IsPlain (quote_xml name)
unfolding quote_xml
quote_xml-IsPlain [] h = tt
quote_xml-IsPlain (ch ∷ name) h = elim (Bool-cases (is_valid ch)) [
  | inl keep ↦ rw keep (ground arith, quote_xml-IsPlain name h.1)
  | inr quote ↦
      let high : ch / 16 < 16 = omega (arith, h.0) in
      rw quote (
        refl,
        (
          hex_digit-IsPlain (ch / 16) high,
          (hex_digit-IsPlain (ch % 16) (omega arith), quote_xml-IsPlain name h.1),
        ),
      )
]

unquote-plain : (ch : ℕ) (s : CString) → (ch == percent) ≡ false → unquote (ch ∷ s) ≡ ch ∷ unquote s
unfolding unquote
unquote-plain ch [] h = refl
unquote-plain ch (a ∷ []) h = refl
unquote-plain ch (a ∷ (b ∷ s)) h = rw h refl

read_back : (name : CString) → All (λ ch. ch < 256) name → unquote (quote_xml name) ≡ name
unfolding quote_xml unquote
read_back [] h = refl
read_back (ch ∷ name) h = elim (Bool-cases (is_valid ch)) [
  | inl keep ↦
      let plain : (ch == percent) ≡ false = ground arith in
      rw keep (unquote-plain ch (quote_xml name) plain ∙ ap (◌∷◌ ch) (read_back name h.1))
  | inr quote ↦
      let high : ch / 16 < 16 = omega (arith, h.0) in
      rw
        (
          quote,
          hex_value-hex_digit (ch / 16) high,
          hex_value-hex_digit (ch % 16) (omega arith),
          read_back name h.1,
        )
        (ap (λ n. n ∷ name) (omega arith))
]

-- A name of bytes is read back from what is printed, and that has only letters, digits, and
-- _ '-+.% with the space: no quote, no angle bracket and no ampersand.
pub unquote-quote_xml :
    (name : CString)
    → All (λ ch. ch < 256) name
    → (unquote (quote_xml name) ≡ name) × All IsPlain (quote_xml name)
unquote-quote_xml name h = (read_back name h, quote_xml-IsPlain name h)
