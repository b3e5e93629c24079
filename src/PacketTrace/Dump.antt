-- ===== src/PacketTrace/Dump.antt =====
-- The hexadecimal digits of a traced packet read back as its bytes.
use libpuppy.Base.{
  ℕ, zero, suc, ◌+◌, ◌*◌, ◌-◌, ◌/◌, ◌%◌, ◌<◌, ◌≡◌, refl, sym, ap, ◌∙◌, arith, ltb, ◌==◌,
  if◌then◌else◌, List, [], ◌∷◌, ◌++◌, length, take, Bool-cases, inl, inr, append_assoc,
}
use libpuppy.Base.Memory.{Memory, IsBytes, read_range, length-read_range}
use libpuppy.Bytes.{get_u16}
use libpuppy.Packet.{length_at}
use libpuppy.PacketTrace.{
  print_packet, hex_loop, header_loop, hex_byte, hex_character, line_end, newline,
}

unfoldable pub digit_of : ℕ → ℕ
digit_of ch = if ltb ch 58 then ch - 48 else ch - 87

-- A reader of lines: it skips a prefix, or a space, or it is before the first or the second digit of a byte.
pub data Reader : Type 0 where
  skipping : ℕ → Reader
  at_first : Reader
  at_second : ℕ → Reader

-- The bytes that the lines tell, behind prefixes of some length.
unfoldable pub read_dump : ℕ → Reader → List ℕ → List ℕ
unfolding digit_of
read_dump skip state [] = []
read_dump skip (skipping (suc k)) (ch ∷ s) = read_dump skip (skipping k) s
read_dump skip (skipping zero) (ch ∷ s) =
    let line = read_dump skip (skipping skip) s in
    let digits = read_dump skip at_first s in if ch == newline then line else digits
read_dump skip at_first (ch ∷ s) = read_dump skip (at_second (digit_of ch)) s
read_dump skip (at_second high) (ch ∷ s) =
    (high * 16 + digit_of ch) ∷ read_dump skip (skipping zero) s

digit_of-hex_character : (n : ℕ) → n < 16 → digit_of (hex_character n) ≡ n
unfolding digit_of hex_character
digit_of-hex_character n h = ground arith

read_dump-prefix :
    (skip : ℕ) (prefix s : List ℕ)
    → read_dump skip (skipping (length prefix)) (prefix ++ s) ≡ read_dump skip (skipping zero) s
unfolding read_dump
read_dump-prefix skip [] s = refl
read_dump-prefix skip (x ∷ prefix) s = read_dump-prefix skip prefix s

read_dump-hex_byte :
    (skip byte : ℕ) (s : List ℕ)
    → byte < 256
    → read_dump skip (skipping zero) (hex_byte byte ++ s) ≡ byte ∷ read_dump skip (skipping zero) s
unfolding read_dump hex_byte
read_dump-hex_byte skip byte s h =
    let high = digit_of-hex_character (byte / 16) (omega arith) in
    let low = digit_of-hex_character (byte % 16) (omega arith) in
    rw (high, low) (ap (λ b. b ∷ read_dump skip (skipping zero) s) (omega arith))

module _ (d : Memory) (prefix : List ℕ) (small : IsBytes d) where
  read_dump-line_end :
      (width i : ℕ) (s : List ℕ)
      → read_dump (length prefix) (skipping zero) (line_end d prefix width i ++ s)
        ≡ read_dump (length prefix) (skipping zero) s
  unfolding line_end read_dump
  read_dump-line_end width i s = elim (Bool-cases (i % width == width - 1)) [
    | inl e ↦ rw e (read_dump-prefix (length prefix) prefix s)
    | inr e ↦ rw e refl
  ]

  read_dump-hex_loop :
      (n i : ℕ) (s : List ℕ)
      → read_dump (length prefix) (skipping zero) (hex_loop d prefix n i ++ s)
        ≡ read_range d i n ++ read_dump (length prefix) (skipping zero) s
  unfolding hex_loop
  read_dump-hex_loop zero i s = refl
  read_dump-hex_loop (suc n) i s =
      let end = line_end d prefix 32 i in
      let loop = hex_loop d prefix n (i + 1) in
      let reader = read_dump (length prefix) (skipping zero) in
      ap reader (append_assoc (hex_byte (d i)) (end ++ loop) s)
      ∙ read_dump-hex_byte (length prefix) (d i) ((end ++ loop) ++ s) (small i)
      ∙ ap (◌∷◌ (d i)) (
          ap reader (append_assoc end loop s)
          ∙ read_dump-line_end 32 i (loop ++ s)
          ∙ read_dump-hex_loop n (i + 1) s)

  read_dump-header_loop :
      (n i : ℕ) (s : List ℕ)
      → read_dump (length prefix) (skipping zero) (header_loop d prefix n i ++ s)
        ≡ read_range d i n ++ read_dump (length prefix) (skipping zero) s
  unfolding header_loop
  read_dump-header_loop zero i s = refl
  read_dump-header_loop (suc n) i s =
      let loop = header_loop d prefix n (i + 1) in
      ap (read_dump (length prefix) (skipping zero)) (append_assoc (hex_byte (d i)) loop s)
      ∙ read_dump-hex_byte (length prefix) (d i) (loop ++ s) (small i)
      ∙ ap (◌∷◌ (d i)) (read_dump-header_loop n (i + 1) s)

take_front : (xs ys : List ℕ) → take (length xs) (xs ++ ys) ≡ xs
take_front [] ys = refl
take_front (x ∷ xs) ys = ap (◌∷◌ x) (take_front xs ys)

-- The bytes in front of the rest of the lines.
front_bytes :
    (d : Memory) (n : ℕ) (lines more : List ℕ)
    → lines ≡ read_range d 0 n ++ more
    → take n lines ≡ read_range d 0 n
front_bytes d n lines more e =
    ap (take n) e
    ∙ ap (λ k. take k (read_range d 0 n ++ more)) (sym (length-read_range d 0 n))
    ∙ take_front (read_range d 0 n) more

-- How much of a packet is traced.
unfoldable pub traced : ℕ → Memory → ℕ
traced zero d = 0
traced (suc zero) d = 8
traced (suc (suc level)) d = get_u16 d length_at

-- For a packet of bytes, the digits that `print_packet` prints first read back as no bytes at
-- level 0, as the 8 bytes of the header at level 1, and as all bytes that the length field counts
-- from level 2 on, whatever the prefix of the lines is.
pub read_dump-print_packet :
    (level : ℕ) (d : Memory) (prefix : List ℕ)
    → IsBytes d
    → take
        (traced level d)
        (read_dump (length prefix) (skipping (length prefix)) (print_packet level d prefix))
      ≡ read_range d 0 (traced level d)
unfolding print_packet traced
read_dump-print_packet zero d prefix small = refl
read_dump-print_packet (suc zero) d prefix small =
    front_bytes d 8 _ _
      (read_dump-prefix (length prefix) prefix _ ∙ read_dump-header_loop d prefix small 8 0 _)
read_dump-print_packet (suc (suc level)) d prefix small = front_bytes d (get_u16 d length_at) _ _ (
    read_dump-prefix (length prefix) prefix _
    ∙ read_dump-hex_loop d prefix small (get_u16 d length_at) 0 _)
