-- ===== src/PuppyGet/Dry.antt =====
-- What `-n` of puppy-get leaves alone.
use libpuppy.Base.{
  [], arith, ◌∷◌, false, inr, inl, not, ◌==◌, ◌⊎◌, Bool-cases, none, refl, ℕ, ◌&&◌, Option, some,
  List, true, ◌≡◌,
}
use libpuppy.PuppyGet.{
  Entry, CString, Env, Run, Options, maybe_remove, fetch, handle, is_file, matches, on_entry,
  source_path, entry_held, is_empty, entries_loop,
}

module _ (env : Env) (o : Options) (keep : o.noact ≡ true) where
  maybe_remove-dry : (src : CString) (e : Entry) (s : Run) → maybe_remove env o src e s ≡ some s
  unfolding maybe_remove
  maybe_remove-dry src e s = let off : (o.move && not o.noact) ≡ false = ground arith in rw off refl

  fetch-dry : (src : CString) (e : Entry) (s : Run) → fetch env o src e s ≡ some s
  unfolding fetch
  fetch-dry src e s = rw keep refl

  handle-dry :
      (src : CString) (e : Entry) (s : Run) (r : Option ℕ) → handle env o src e s r ≡ some s
  unfolding handle
  handle-dry src e s none = fetch-dry src e s
  handle-dry src e s (some n) = elim (Bool-cases (n == e.size)) [
    | inl same ↦ rw same (maybe_remove-dry src e s)
    | inr other ↦ rw other (fetch-dry src e s)
  ]

  on_entry-dry :
      (dir : CString) (globs : List CString) (e : Entry) (s : Run)
      → on_entry env o dir globs e s ≡ some s
  unfolding on_entry
  on_entry-dry dir globs e s =
      elim (Bool-cases (is_file e.ftype && matches env.fnmatch globs e.name)) [
        | inl hit ↦ rw hit (handle-dry (source_path dir e.name) e s (env.stat s.files e.name))
        | inr miss ↦ rw miss refl
      ]

  -- With `-n`, the loop of puppy-get over the entries changes neither the device nor a local file
  -- nor the exit status, whatever the entries are, unless it reads past the array.
  pub entries_loop-dry :
      (dir : CString) (globs : List CString) (entries : List (Option Entry)) (s : Run)
      → (entries_loop env o dir globs entries s ≡ none)
        ⊎ (entries_loop env o dir globs entries s ≡ some s)
  unfolding entries_loop
  entries_loop-dry dir globs [] s = elim (Bool-cases s.ok) [
    | inl on ↦ rw on (inl refl)
    | inr off ↦ rw off (inr refl)
  ]
  entries_loop-dry dir globs (x ∷ entries) s =
      let e = entry_held env x in
      elim (Bool-cases (s.ok && not (is_empty e.name))) [
        | inl on ↦ rw on (
            stepped (entries_loop-dry dir globs entries s) (on_entry env o dir globs e s)
              (on_entry-dry dir globs e s))
        | inr off ↦ rw off (inr refl)
      ]
    where
      stepped :
          (entries_loop env o dir globs entries s ≡ none)
            ⊎ (entries_loop env o dir globs entries s ≡ some s)
          → (step : Option Run) → step ≡ some s
          → let r = elim step as (λ _. Option Run) [
            | none ↦ none
            | some t ↦ entries_loop env o dir globs entries t
          ] in
            (r ≡ none) ⊎ (r ≡ some s)
      stepped ih step e = rw e ih
