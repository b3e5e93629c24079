-- ===== src/Buffer/Growth.antt =====
-- The buffer never writes past its allocation.
use libpuppy.Base.{
  ℕ, zero, suc, ◌+◌, ◌*◌, ◌≤◌, ◌<◌, ◌≡◌, refl, ap, sym, ◌∙◌, arith, leb, Option, none, some, List,
  [], ◌∷◌, ◌++◌, length, length-append, Bool-cases, inl, inr,
}
use libpuppy.Buffer.{Buffer, grow, buffer_init, buffer_add, store, set_at}

-- The elements in use are those of the data, and fit the allocation.
pub record IsValid {ℓ} {A : Type ℓ} (b : Buffer A) : Type ℓ where
  pub used : length b.elements ≡ b.cur_els
  pub fits : b.cur_els ≤ b.allocated_els
  pub some_room : 1 ≤ b.allocated_els

grow-enough :
    (fuel cur els : ℕ)
    → 1 ≤ els
    → cur < fuel + els
    → (cur < grow fuel cur els) × (els ≤ grow fuel cur els)
unfolding grow
grow-enough zero cur els h k = ground arith
grow-enough (suc fuel) cur els h k = elim (Bool-cases (leb els cur)) [
  | inl e ↦
      let ih = grow-enough fuel cur (els * 2) (omega arith) (omega arith) in
      rw e (omega (arith, ih), omega (arith, ih))
  | inr e ↦ rw e (ground arith)
]

module _ {ℓ} {A : Type ℓ} where
  pub buffer_init-IsValid : (els : ℕ) → IsValid (buffer_init {A = A} els)
  unfolding buffer_init
  buffer_init-IsValid els = record { used = refl; fits = omega arith; some_room = omega arith }

  -- On a valid buffer `buffer_add` gives a valid one: the elements in use still fit the allocation,
  -- which has doubled often enough.
  pub buffer_add-IsValid :
      (b : Buffer A) (value : Option A) → IsValid b → IsValid (buffer_add b value).1
  unfolding buffer_add
  buffer_add-IsValid b value v =
      let enough =
        grow-enough (suc b.cur_els) b.cur_els b.allocated_els v.some_room
          (omega (arith, v.some_room)) in
      record {
        used = omega (arith, length-append b.elements (value ∷ []), v.used);
        fits = omega (arith, enough);
        some_room = omega (arith, enough);
      }

  set_at-end :
      (xs : List (Option A)) (y : Option A) (x : A)
      → set_at (length xs) x (xs ++ (y ∷ [])) ≡ xs ++ (some x ∷ [])
  set_at-end [] y x = refl
  set_at-end (z ∷ xs) y x = ap (◌∷◌ z) (set_at-end xs y x)

  length-set_at : (i : ℕ) (x : A) (xs : List (Option A)) → length (set_at i x xs) ≡ length xs
  length-set_at i x [] = refl
  length-set_at zero x (y ∷ ys) = refl
  length-set_at (suc i) x (y ∷ ys) = ap suc (length-set_at i x ys)

  pub store-IsValid : (i : ℕ) (x : A) (b : Buffer A) → IsValid b → IsValid (store i x b)
  store-IsValid i x b v = record {
    used = length-set_at i x b.elements ∙ v.used;
    fits = v.fits;
    some_room = v.some_room;
  }

  -- An element that is added and then written through its pointer is the last one; the others stay.
  pub store-buffer_add :
      (b : Buffer A) (x : A)
      → IsValid b
      → let (i, b') = buffer_add b none in (store i x b').elements ≡ b.elements ++ (some x ∷ [])
  unfolding buffer_add
  store-buffer_add b x v =
      ap (λ i. set_at i x (b.elements ++ (none ∷ []))) (sym v.used) ∙ set_at-end b.elements none x
