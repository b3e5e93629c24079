-- ===== src/Buffer.antt =====
-- The growing array of buffer.c, for elements of one type. Its memory is taken to be granted, and
-- the number of allocated elements not to reach the bound of `int`.
pub mod Growth
pub mod Contents
use libpuppy.Base.{
  ℕ, zero, suc, ◌+◌, ◌*◌, max, ltb, leb, if◌then◌else◌, Option, none, some, List, [], ◌∷◌, ◌++◌,
  length,
}

-- `elements` holds the elements that are in use; one that was not written yet is `none`.
pub record Buffer {ℓ} (A : Type ℓ) : Type ℓ where
  pub cur_els : ℕ
  pub allocated_els : ℕ
  pub elements : List (Option A)

-- `while(cur_els >= allocated_els) allocated_els *= 2`, on fuel.
unfoldable pub grow : ℕ → ℕ → ℕ → ℕ
grow zero cur_els allocated_els = allocated_els
grow (suc fuel) cur_els allocated_els =
    let grown = grow fuel cur_els (allocated_els * 2) in
    if leb allocated_els cur_els then grown else allocated_els

-- The blocks of memory that a buffer holds: its elements, and the structure.
pub data Block : Type 0 where
  data_block buffer_block : Block

module _ {ℓ} {A : Type ℓ} where
  unfoldable pub buffer_init : ℕ → Buffer A
  buffer_init els = record { cur_els = 0; allocated_els = max els 1; elements = [] }

  -- The index of the new element, and the buffer; `value` is `none` for a null pointer.
  unfoldable pub buffer_add : Buffer A → Option A → ℕ × Buffer A
  unfolding grow
  buffer_add b value = (
    b.cur_els,
    record {
      cur_els = suc b.cur_els;
      allocated_els = grow (suc b.cur_els) b.cur_els b.allocated_els;
      elements = b.elements ++ (value ∷ []);
    },
  )

  -- A copy of what the buffer holds.
  abbrev pub buffer_dup_values : Buffer A → List (Option A)
  buffer_dup_values b = b.elements

  -- The bounds of the elements in use, as the indices that their addresses have.
  abbrev pub buffer_begin : Buffer A → ℕ
  buffer_begin b = 0

  abbrev pub buffer_end : Buffer A → ℕ
  buffer_end b = b.cur_els

  -- The blocks that `buffer_done` frees, in order.
  unfoldable pub buffer_done : Buffer A → List Block
  buffer_done b = data_block ∷ buffer_block ∷ []

  -- A write through the pointer to the element at an index.
  abbrev pub set_at : ℕ → A → List (Option A) → List (Option A)
  set_at i x [] = []
  set_at zero x (y ∷ ys) = some x ∷ ys
  set_at (suc i) x (y ∷ ys) = y ∷ set_at i x ys

  abbrev pub store : ℕ → A → Buffer A → Buffer A
  store i x b = record b { elements = set_at i x b.elements }
