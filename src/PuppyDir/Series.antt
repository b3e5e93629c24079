-- ===== src/PuppyDir/Series.antt =====
-- Recordings of one series, such as news-1.rec and news-12.rec, in the orders of puppy-dir.
use libpuppy.Base.{
  ◌-◌, ltb, length-append, append_assoc, inr, suc, ◌∙◌, sym, ◌+◌, inl, Bool-cases, arith, ==_refl,
  refl, ==_of_ne, [], ap, false, some, length, none, true, ◌∷◌, ◌≢◌, All, drop, take, ◌++◌, ◌<◌,
  ◌≡◌, ℕ,
}
use libpuppy.PuppyDir.{
  Entry, TfDatetime, ℤ, ◌-ℤ◌, is_int, pos, CString, compare_by_name, compare_by_name_and,
  strcmp_len, char_value, extract_parts, parts_at, number_after, all_digits, is_digit, last_index,
  dot, dash, plus, secondary_order,
}

-- Whether a string does not have a character.
abbrev pub Lacks : ℕ → CString → Type 0
Lacks ch s = All (λ x. x ≢ ch) s

-- The name of a recording: the series, a dash, its number, a dot and what follows.
abbrev pub recording : CString → CString → CString → CString
recording series digits ext = series ++ (dash ∷ (digits ++ (dot ∷ ext)))

last_index-Lacks : (ch : ℕ) (s : CString) → Lacks ch s → last_index ch s ≡ none
unfolding last_index
last_index-Lacks ch [] h = refl
last_index-Lacks ch (x ∷ s) h = rw (last_index-Lacks ch s h.1, ==_of_ne x ch h.0) refl

last_index-append :
    (ch : ℕ) (s t : CString) → Lacks ch t → last_index ch (s ++ (ch ∷ t)) ≡ some (length s)
unfolding last_index
last_index-append ch [] t h = rw (last_index-Lacks ch t h, ==_refl ch) refl
last_index-append ch (x ∷ s) t h = rw (last_index-append ch s t h) refl

Lacks-append : (ch : ℕ) (s t : CString) → Lacks ch s → Lacks ch t → Lacks ch (s ++ t)
Lacks-append ch [] t h k = k
Lacks-append ch (x ∷ s) t h k = (h.0, Lacks-append ch s t h.1 k)

-- Digits are none of the marks.
digits-Lacks : (ch : ℕ) (s : CString) → ch < 48 → all_digits s ≡ true → Lacks ch s
unfolding all_digits
digits-Lacks ch [] small h = tt
digits-Lacks ch (x ∷ s) small h = elim (Bool-cases (is_digit x)) [
  | inl digit ↦ (λ e. ground arith, digits-Lacks ch s small (sym (by_digit digit) ∙ h))
  | inr other ↦ absurd (not_digit other)
]
  where
    by_digit : is_digit x ≡ true → all_digits (x ∷ s) ≡ all_digits s
    by_digit e = unfold all_digits in rw e refl

    not_digit : is_digit x ≡ false → ⊥
    not_digit e = let stuck : all_digits (x ∷ s) ≡ false = unfold all_digits in rw e refl in cc

drop-append : (s t : CString) → drop (length s) (s ++ t) ≡ t
drop-append [] t = refl
drop-append (x ∷ s) t = drop-append s t

take-append : (s t : CString) → take (length s) (s ++ t) ≡ s
take-append [] t = refl
take-append (x ∷ s) t = ap (◌∷◌ x) (take-append s t)

-- The same characters as far as both lengths go.
strcmp_len-same : (s a b : CString) → strcmp_len (s ++ a) (length s) (s ++ b) (length s) ≡ pos 0
unfolding strcmp_len
strcmp_len-same [] [] b = refl
strcmp_len-same [] (x ∷ a) b = refl
strcmp_len-same (x ∷ s) a b =
    let same : is_int (char_value x -ℤ char_value x) 0 ≡ true = ground arith in
    rw same (strcmp_len-same s a b)

-- The parts of a recording's name: the series, and what `atoi` reads from behind the dash.
extract_parts-recording :
    (atoi : CString → ℤ) (time_of : TfDatetime → ℤ) (series digits ext : CString)
    → all_digits digits ≡ true
    → Lacks plus series
    → Lacks plus ext
    → Lacks dash ext
    → Lacks dot ext
    → extract_parts atoi time_of (recording series digits ext)
      ≡ (length series, atoi (digits ++ (dot ∷ ext)))
unfolding extract_parts parts_at number_after
extract_parts-recording atoi time_of series digits ext numeric no_plus no_plus' no_dash no_dot =
    rw (dot_index, plus_index, dash_index, earlier, rest, numbers, numeric) refl
  where
    tail : CString
    tail = digits ++ (dot ∷ ext)

    name : CString
    name = recording series digits ext

    dot_index : last_index dot name ≡ some (length series + suc (length digits))
    dot_index =
        ap (last_index dot) (sym (append_assoc series (dash ∷ digits) (dot ∷ ext)))
        ∙ last_index-append dot (series ++ (dash ∷ digits)) ext no_dot
        ∙ ap some (length-append series (dash ∷ digits))

    dash_index : last_index dash name ≡ some (length series)
    dash_index = last_index-append dash series tail (
        Lacks-append dash digits (dot ∷ ext) (digits-Lacks dash digits (omega arith) numeric)
          ((λ e. omega arith), no_dash))

    plus_index : last_index plus name ≡ none
    plus_index = last_index-Lacks plus name (
        Lacks-append plus series (dash ∷ tail) no_plus (
          (λ e. omega arith),
          Lacks-append plus digits (dot ∷ ext) (digits-Lacks plus digits (omega arith) numeric)
              ((λ e. omega arith), no_plus'),
        ))

    earlier : ltb (length series) (length series + suc (length digits)) ≡ true
    earlier = ground arith

    rest : drop (suc (length series)) name ≡ tail
    rest =
        let one_more : suc (length series) ≡ length (series ++ (dash ∷ [])) =
          omega (arith, length-append series (dash ∷ [])) in
        ap (drop (suc (length series))) (sym (append_assoc series (dash ∷ []) tail))
        ∙ ap (λ n. drop n ((series ++ (dash ∷ [])) ++ tail)) one_more
        ∙ drop-append (series ++ (dash ∷ [])) tail

    numbers : take (length series + suc (length digits) - suc (length series)) tail ≡ digits
    numbers = ap (λ n. take n tail) (omega arith) ∙ take-append digits (dot ∷ ext)

-- Two recordings of one series, whose name has no plus, are ordered by their numbers: the comparison
-- by name gives the difference of what `atoi` reads from behind the dashes.
pub compare_by_name-recordings :
    (atoi : CString → ℤ) (time_of : TfDatetime → ℤ) (a b : Entry)
    (series a_digits b_digits ext : CString)
    → a.name ≡ recording series a_digits ext
    → b.name ≡ recording series b_digits ext
    → all_digits a_digits ≡ true
    → all_digits b_digits ≡ true
    → Lacks plus series
    → Lacks plus ext
    → Lacks dash ext
    → Lacks dot ext
    → compare_by_name atoi time_of a b
      ≡ atoi (a_digits ++ (dot ∷ ext)) -ℤ atoi (b_digits ++ (dot ∷ ext))
unfolding compare_by_name compare_by_name_and secondary_order
compare_by_name-recordings atoi time_of a b series a_digits b_digits ext a_name b_name a_numeric
      b_numeric no_plus no_plus' no_dash no_dot =
    rw
      (
        a_name,
        b_name,
        extract_parts-recording atoi time_of series a_digits ext a_numeric no_plus no_plus' no_dash
            no_dot,
        extract_parts-recording atoi time_of series b_digits ext b_numeric no_plus no_plus' no_dash
            no_dot,
        strcmp_len-same series (dash ∷ (a_digits ++ (dot ∷ ext)))
            (dash ∷ (b_digits ++ (dot ∷ ext))),
      )
      refl
