-- ===== src/Descriptor/Printing.antt =====
-- What the lines that are printed of a descriptor tell.
use libpuppy.Bytes.Value.{get_u16-value}
use libpuppy.Base.{
  take-bytes, take-append-drop, subst, ◌/◌, if◌then◌else◌, ◌%◌, ℕ, ◌+◌, ◌*◌, ◌<◌, ◌≡◌, refl, sym,
  ap, ◌∙◌, arith, Option, none, some, List, [], ◌∷◌, ◌++◌, length, take, All, flatten, map,
  Bool-cases, inl, inr, ◌==◌,
}
use libpuppy.Base.Memory.{
  read_range-write_range, write_range-IsBytes, read_range, IsBytes, Memory, write_range,
}
use libpuppy.Descriptor.{
  get_u16, DescriptorFile, read_from, took_device, convert_total_length, read_config_descriptor,
  read_device_descriptor, config_size, device_size, FieldLine, print_device_descriptor,
  print_config_descriptor,
}
use libpuppy.Descriptor.Reading.{read_from-IsRead, took_config-lem, size_of, no_result}

-- The bytes that a line tells.
abbrev pub line_bytes : FieldLine → List ℕ
line_bytes l = if l.digits == 2 then l.value ∷ [] else l.value % 256 ∷ l.value / 256 ∷ []

abbrev pub told : List FieldLine → List ℕ
told lines = flatten (map line_bytes lines)

took_device-lem :
    (got : Option (List ℕ)) (desc : Memory) (r : ℕ)
    → (took_device got desc).0 ≡ some r
    → (bytes : List ℕ) × (got ≡ some bytes)
      × (length bytes ≡ device_size)
      × (r ≡ device_size)
      × ((took_device got desc).1 ≡ write_range desc 0 bytes)
unfolding took_device
took_device-lem none desc r h = cc
took_device-lem (some bytes) desc r h = elim (Bool-cases (length bytes == device_size)) [
  | inl e ↦ (bytes, refl, ground (arith, e), size_of (rw e at h), refl)
  | inr e ↦ absurd (no_result (rw e at h))
]

-- A word that is printed tells its bytes.
word_bytes : (a b : ℕ) → a < 256 → b < 256 → ((a + b * 256) % 256 ≡ a) × ((a + b * 256) / 256 ≡ b)
word_bytes a b h k = omega arith

told-print_device_descriptor :
    (desc : Memory) → IsBytes desc → told (print_device_descriptor desc) ≡ read_range desc 0 18
unfolding print_device_descriptor
told-print_device_descriptor desc small =
    let usb = word_bytes (desc 2) (desc 3) (small 2) (small 3) in
    let vendor = word_bytes (desc 8) (desc 9) (small 8) (small 9) in
    let product = word_bytes (desc 10) (desc 11) (small 10) (small 11) in
    let device = word_bytes (desc 12) (desc 13) (small 12) (small 13) in
    rw (usb.0, usb.1, vendor.0, vendor.1, product.0, product.1, device.0, device.1) refl

-- A device descriptor that is read without an error from a file of bytes into a buffer of bytes:
-- the result is 18, and the bytes that the printed lines tell, in order, with those that are left
-- in the file are what the file held.
pub read_device_descriptor-printed :
    (f : DescriptorFile) (desc : Memory) (r : ℕ)
    → IsBytes desc
    → All (λ x. x < 256) f.rest
    → (read_device_descriptor f desc).0 ≡ some r
    → let desc' = (read_device_descriptor f desc).1 in
      let f' = (read_device_descriptor f desc).2 in
      (r ≡ 18) × (told (print_device_descriptor desc') ++ f'.rest ≡ f.rest)
unfolding read_device_descriptor
read_device_descriptor-printed f desc r memory small h =
    let first = read_from f.answers device_size f in
    let (bytes, got, whole, size, held) = took_device-lem first.0 desc r h in
    let read = read_from-IsRead f.answers device_size f bytes got whole in
    let m = write_range desc 0 bytes in
    let bytes_small = subst (All (λ x. x < 256)) (sym read.given) (take-bytes 18 f.rest small) in
    (
      size,
      ap (λ d. told (print_device_descriptor d) ++ first.1.rest) held
          ∙ ap (λ xs. xs ++ first.1.rest)
              (told-print_device_descriptor m (write_range-IsBytes 0 bytes bytes_small memory)
                ∙ ap (read_range m 0) (sym whole)
                ∙ read_range-write_range desc 0 bytes
                ∙ read.given)
          ∙ ap (◌++◌ (take 18 f.rest)) read.left
          ∙ take-append-drop 18 f.rest,
    )

-- The third and the fourth byte exchanged.
abbrev pub exchanged : List ℕ → List ℕ
exchanged (a ∷ b ∷ c ∷ d ∷ xs) = a ∷ b ∷ d ∷ c ∷ xs
exchanged xs = xs

told-print_config_descriptor :
    (desc : Memory)
    → IsBytes desc
    → told (print_config_descriptor (convert_total_length desc)) ≡ exchanged (read_range desc 0 9)
unfolding print_config_descriptor convert_total_length
told-print_config_descriptor desc small =
    let value = get_u16-value desc 2 (small 2) (small 3) in
    let high : get_u16 desc 2 / 256 % 256 ≡ desc 2 = omega (arith, value, small 2, small 3) in
    let low : get_u16 desc 2 % 256 ≡ desc 3 = omega (arith, value, small 2, small 3) in
    let word = word_bytes (desc 3) (desc 2) (small 3) (small 2) in
    rw (high, low, word.0, word.1) refl

-- A configuration descriptor that is read without an error from a file of bytes into a buffer of
-- bytes: the printed lines tell its nine bytes, with the two of `wTotalLength` exchanged.
pub read_config_descriptor-exchanged :
    (f : DescriptorFile) (desc : Memory) (r : ℕ)
    → IsBytes desc
    → All (λ x. x < 256) f.rest
    → (read_config_descriptor f desc).0 ≡ some r
    → let desc' = (read_config_descriptor f desc).1 in
      told (print_config_descriptor desc') ≡ exchanged (take 9 f.rest)
unfolding read_config_descriptor
read_config_descriptor-exchanged f desc r memory small h =
    let first = read_from f.answers config_size f in
    let (bytes, got, whole, zeroed, held, enough, left) =
      took_config-lem first.0 first.1 desc r h in
    let read = read_from-IsRead f.answers config_size f bytes got whole in
    let m = write_range desc 0 bytes in
    let bytes_small = subst (All (λ x. x < 256)) (sym read.given) (take-bytes 9 f.rest small) in
    ap (λ d. told (print_config_descriptor d)) held
    ∙ told-print_config_descriptor m (write_range-IsBytes 0 bytes bytes_small memory)
    ∙ ap exchanged
        (ap (read_range m 0) (sym whole) ∙ read_range-write_range desc 0 bytes ∙ read.given)
