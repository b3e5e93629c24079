-- ===== src/Buffer/Contents.antt =====
-- A buffer holds what was added to it, in order.
use libpuppy.Base.{
  ℕ, ◌+◌, ◌≤◌, ◌≡◌, sym, ◌∙◌, arith, List, [], ◌∷◌, ◌++◌, some, map, length, append_assoc,
  append-nil,
}
use libpuppy.Buffer.{Buffer, buffer_init, buffer_add, buffer_begin, buffer_end, buffer_dup_values}
use libpuppy.Buffer.Growth.{IsValid, buffer_init-IsValid, buffer_add-IsValid}

module _ {ℓ} {A : Type ℓ} where
  abbrev pub add_all : List A → Buffer A → Buffer A
  add_all [] b = b
  add_all (x ∷ xs) b = add_all xs (buffer_add b (some x)).1

  add_all_lem :
      (xs : List A) (b : Buffer A)
      → IsValid b
      → IsValid (add_all xs b)
        × ((add_all xs b).elements ≡ b.elements ++ map some xs)
        × (buffer_end (add_all xs b) ≡ buffer_end b + length xs)
  unfolding buffer_add
  add_all_lem [] b v = (v, sym (append-nil b.elements), omega arith)
  add_all_lem (x ∷ xs) b v =
      let (valid, held, bound) =
        add_all_lem xs (buffer_add b (some x)).1 (buffer_add-IsValid b (some x) v) in
      (valid, held ∙ append_assoc b.elements (some x ∷ []) (map some xs), omega (arith, bound))

  -- A buffer of any initial size to which values are added holds these values, in order, between
  -- `buffer_begin` and `buffer_end`, and `buffer_dup_values` gives them; they fit the allocation.
  pub add_all-buffer_init :
      (els : ℕ) (xs : List A)
      → let b = add_all xs (buffer_init els) in
        (buffer_dup_values b ≡ map some xs)
        × (buffer_end b ≡ buffer_begin b + length xs)
        × (buffer_end b ≤ b.allocated_els)
        × IsValid b
  unfolding buffer_init
  add_all-buffer_init els xs =
      let (valid, held, bound) = add_all_lem xs (buffer_init els) (buffer_init-IsValid els) in
      (held, omega (arith, bound), valid.fits, valid)
