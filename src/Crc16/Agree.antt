-- ===== src/Crc16/Agree.antt =====
-- The table-driven loop of crc16.c computes the bit-by-bit CRC.
use libpuppy.Base.{
  ℕ, zero, suc, ◌+◌, ◌*◌, ◌/◌, ◌%◌, ◌^◌, ◌≤◌, ◌<◌, ◌≡◌, refl, ap, ap₂, ◌∙◌, sym, bit_xor, arith,
  get_or, true, ◌==◌, ==→eq, all_below, all_below_sound,
}
use libpuppy.Base.Bits.Masks.{mask_0xff}
use libpuppy.Base.Bits.Xor.{bit_xor_comm, bit_xor-shifted, bit_xor-byte}
use libpuppy.Base.Memory.{Memory, IsBytes, read_range, All-read_range}
use libpuppy.Crc16.{crc_16_table, crc16_step, crc16_from, crc16_ansi}
use libpuppy.Crc16.Reference.{
  divide_bit, divide_bits, divide_bits-bit_xor, divide_bits-byte, reference_crc, reference_crc-lt,
}

table_checked : all_below 256 (λ i. get_or crc_16_table i 0 == divide_bits 8 i) ≡ true
unfolding all_below divide_bits divide_bit
table_checked = refl

table_entry : (i : ℕ) → i < 256 → get_or crc_16_table i 0 ≡ divide_bits 8 i
table_entry i h = ==→eq _ _ (all_below_sound 256 _ i table_checked h)

low_and_high : (x : ℕ) → bit_xor (x % 256) (x / 256 * 256) ≡ x
low_and_high x =
    bit_xor_comm (x % 256) (x / 256 * 256)
    ∙ bit_xor-shifted 8 (x / 256) (x % 256) (omega arith)
    ∙ omega arith

-- One step of the loop divides the running value, with the byte mixed in, by eight bits.
pub crc16_step-divide_bits :
    (crc d : ℕ) → d < 256 → crc16_step crc d ≡ divide_bits 8 (bit_xor crc d)
unfolding crc16_step
crc16_step-divide_bits crc d h =
    ap₂ bit_xor
      (ap (λ i. get_or crc_16_table i 0) (mask_0xff x) ∙ table_entry (x % 256) (omega arith))
      (sym (bit_xor-byte crc d h) ∙ sym (divide_bits-byte (x / 256)))
    ∙ sym (divide_bits-bit_xor 8 (x % 256) (x / 256 * 256))
    ∙ ap (divide_bits 8) (low_and_high x)
  where
    x : ℕ
    x = bit_xor crc d

crc16_from-reference_crc :
    (m : Memory) (d size crc : ℕ)
    → IsBytes m
    → crc16_from m d size crc ≡ reference_crc crc (read_range m d size)
unfolding crc16_from reference_crc
crc16_from-reference_crc m d zero crc h = refl
crc16_from-reference_crc m d (suc size) crc h =
    crc16_from-reference_crc m (d + 1) size (crc16_step crc (m d)) h
    ∙ ap (λ c. reference_crc c (read_range m (d + 1) size)) (crc16_step-divide_bits crc (m d) (h d))

-- Over a memory of bytes, `crc16_ansi` is the bit-by-bit CRC-16 (reflected polynomial 0xa001,
-- start value 0) of the `size` bytes at `addr`, and the result fits 16 bits.
pub crc16_ansi-reference_crc :
    (m : Memory) (addr size : ℕ)
    → IsBytes m
    → (crc16_ansi m addr size ≡ reference_crc 0 (read_range m addr size))
      × (crc16_ansi m addr size < 2 ^ 16)
crc16_ansi-reference_crc m addr size h = (
  same,
  rw same (reference_crc-lt 0 (read_range m addr size) (omega arith) (All-read_range addr size h)),
)
  where
    same : crc16_ansi m addr size ≡ reference_crc 0 (read_range m addr size)
    same = unfold crc16_ansi in crc16_from-reference_crc m addr size 0 h

crc16_from_ext :
    (m s : Memory) (d size crc : ℕ)
    → ((i : ℕ) → d ≤ i → i < d + size → m i ≡ s i)
    → crc16_from m d size crc ≡ crc16_from s d size crc
unfolding crc16_from
crc16_from_ext m s d zero crc h = refl
crc16_from_ext m s d (suc size) crc h =
    crc16_from_ext m s (d + 1) size (crc16_step crc (m d))
      (λ i p q. h i (omega arith) (omega arith))
    ∙ ap (λ x. crc16_from s (d + 1) size (crc16_step crc x)) (h d (omega arith) (omega arith))

-- The CRC looks at its range only.
pub crc16_ansi_ext :
    (m s : Memory) (addr size : ℕ)
    → ((i : ℕ) → addr ≤ i → i < addr + size → m i ≡ s i)
    → crc16_ansi m addr size ≡ crc16_ansi s addr size
unfolding crc16_ansi
crc16_ansi_ext m s addr size h = crc16_from_ext m s addr size 0 h
