-- ===== src/Descriptor/Reading.antt =====
-- How far a descriptor file is read.
use libpuppy.Base.{
  drop-drop, length-drop, length-take, ℕ, ◌-◌, ◌≤◌, ◌≡◌, refl, ap, ◌∙◌, arith, max, min, Option,
  none, some, List, [], ◌∷◌, length, take, drop, Bool-cases, inl, inr, ltb, ◌==◌,
}
use libpuppy.Base.Memory.{Memory, write_range}
use libpuppy.Descriptor.{
  DescriptorFile, read_from, took_config, took_extra, discard_extra_desc_data, convert_total_length,
  read_config_descriptor, config_size,
}

-- A read that gives all that was asked for.
pub record IsRead (size : ℕ) (f f' : DescriptorFile) (bytes : List ℕ) : Type 0 where
  pub given : bytes ≡ take size f.rest
  pub left : f'.rest ≡ drop size f.rest
  pub enough : size ≤ length f.rest

pub read_from-IsRead :
    (answers : List (Option ℕ)) (size : ℕ) (f : DescriptorFile) (bytes : List ℕ)
    → (read_from answers size f).0 ≡ some bytes
    → length bytes ≡ size
    → IsRead size f (read_from answers size f).1 bytes
unfolding read_from
read_from-IsRead [] size f bytes h e = cc
read_from-IsRead (none ∷ answers) size f bytes h e = cc
read_from-IsRead (some k ∷ answers) size f bytes h e =
    let same : bytes ≡ take (min k size) f.rest = cc in
    let count : length bytes ≡ min (min k size) (length f.rest) =
      ap length same ∙ length-take (min k size) f.rest in
    let all : min k size ≡ size = omega arith in
    record {
      given = same ∙ ap (λ n. take n f.rest) all;
      left = ap (λ n. drop n f.rest) all;
      enough = omega arith;
    }

pub zero_of : {r : ℕ} → ◌≡◌ {A = Option ℕ} (some 0) (some r) → r ≡ 0
zero_of h = cc

pub size_of : {r : ℕ} → ◌≡◌ {A = Option ℕ} (some 18) (some r) → r ≡ 18
size_of h = cc

pub no_result : {r : ℕ} → ◌≡◌ {A = Option ℕ} none (some r) → ⊥
no_result h = cc

took_extra-lem :
    (size : ℕ) (got : Option (List ℕ)) (r : ℕ)
    → took_extra size got ≡ some r
    → (r ≡ 0) × (extra : List ℕ) × (got ≡ some extra) × (length extra ≡ size)
unfolding took_extra
took_extra-lem size none r h = cc
took_extra-lem size (some extra) r h = elim (Bool-cases (length extra == size)) [
  | inl e ↦ (zero_of (rw e at h), extra, refl, ground (arith, e))
  | inr e ↦ absurd (no_result (rw e at h))
]

-- The extra data are read to their end.
discard-lem :
    (f : DescriptorFile) (desc : Memory) (size r : ℕ)
    → (discard_extra_desc_data f desc size).0 ≡ some r
    → (r ≡ 0)
      × (desc 0 - size ≤ length f.rest)
      × ((discard_extra_desc_data f desc size).1.rest ≡ drop (desc 0 - size) f.rest)
unfolding discard_extra_desc_data
discard-lem f desc size r h = elim (Bool-cases (ltb size (desc 0))) [
  | inl e ↦
      let (zeroed, extra, got, whole) =
        took_extra-lem (desc 0 - size) (read_from f.answers (desc 0 - size) f).0 r (rw e at h) in
      let read = read_from-IsRead f.answers (desc 0 - size) f extra got whole in
      rw e (zeroed, read.enough, read.left)
  | inr e ↦
      let none_left : desc 0 - size ≡ 0 = ground (arith, e) in
      rw (e, none_left) (zero_of (rw e at h), omega arith, refl)
]

-- Reading a configuration descriptor, by what is read first.
pub took_config-lem :
    (got : Option (List ℕ)) (f : DescriptorFile) (desc : Memory) (r : ℕ)
    → (took_config got f desc).0 ≡ some r
    → (bytes : List ℕ) × (got ≡ some bytes)
      × (length bytes ≡ config_size)
      × (r ≡ 0)
      × (((took_config got f desc).1 ≡ convert_total_length (write_range desc 0 bytes)))
      × ((took_config got f desc).1 0 - config_size ≤ length f.rest)
      × ((took_config got f desc).2.rest ≡ drop ((took_config got f desc).1 0 - config_size) f.rest)
unfolding took_config
took_config-lem none f desc r h = cc
took_config-lem (some bytes) f desc r h = elim (Bool-cases (length bytes == config_size)) [
  | inl e ↦
      let (zeroed, enough, left) =
        discard-lem f (convert_total_length (write_range desc 0 bytes)) config_size r (rw e at h) in
      rw e (bytes, refl, ground (arith, e), zeroed, refl, enough, left)
  | inr e ↦ absurd (no_result (rw e at h))
]

-- A configuration descriptor that is read without an error: the result is 0, and the file was read
-- past the length that its first byte gives, or past nine bytes where that is less, all of which
-- it held.
pub read_config_descriptor-consumed :
    (f : DescriptorFile) (desc : Memory) (r : ℕ)
    → (read_config_descriptor f desc).0 ≡ some r
    → let desc' = (read_config_descriptor f desc).1 in
      let f' = (read_config_descriptor f desc).2 in
      (r ≡ 0)
      × (max config_size (desc' 0) ≤ length f.rest)
      × (f'.rest ≡ drop (max config_size (desc' 0)) f.rest)
unfolding read_config_descriptor
read_config_descriptor-consumed f desc r h =
    let first = read_from f.answers config_size f in
    let (bytes, got, whole, zeroed, held, enough, left) =
      took_config-lem first.0 first.1 desc r h in
    let read = read_from-IsRead f.answers config_size f bytes got whole in
    let size = (took_config first.0 first.1 desc).1 0 in
    (
      zeroed,
      omega (arith, enough, read.enough, ap length read.left, length-drop config_size f.rest),
      left
          ∙ ap (drop (size - config_size)) read.left
          ∙ drop-drop (size - config_size) config_size f.rest
          ∙ ap (λ n. drop n f.rest) (omega arith),
    )
