-- ===== src/Packet/Swap.antt =====
-- The byte swap before sending is undone by the one after receiving.
use libpuppy.Base.{
  ℕ, zero, suc, ◌+◌, ◌-◌, ◌*◌, ◌/◌, ◌%◌, ◌≤◌, ◌<◌, ◌≡◌, refl, ◌∙◌, ap, fun_ext, arith, ltb, ◌==◌,
  if◌then◌else◌, false,
}
use libpuppy.Base.Memory.{Memory, IsBytes, update, clear_low_bit}
use libpuppy.Bytes.{get_u16, get_u16_raw}
use libpuppy.Bytes.Value.{get_u16-value, get_u16_raw-value, get_u16_raw_ext}
use libpuppy.Packet.{
  byte_swap_from, byte_swap, swap_in_packet, swap_out_packet, length_at, maximum_packet_size,
}

-- The other byte of the pair that `j` stands in.
abbrev pub partner : ℕ → ℕ
partner j = if j % 2 == 0 then j + 1 else j - 1

byte_swap_from-at :
    (rounds i : ℕ) (d : Memory) (j : ℕ)
    → i % 2 ≡ 0
    → byte_swap_from rounds i d j
      ≡ (if ltb j i then d j else if ltb j (i + rounds * 2) then d (partner j) else d j)
unfolding byte_swap_from
byte_swap_from-at zero i d j e = ground arith
byte_swap_from-at (suc rounds) i d j e =
    byte_swap_from-at rounds (i + 2) (update (update d i (d (i + 1))) (i + 1) (d i)) j (omega arith)
    ∙ ground arith

pub byte_swap-at :
    (d : Memory) (n j : ℕ)
    → byte_swap d n j ≡ (if ltb j (clear_low_bit n) then d (partner j) else d j)
unfolding byte_swap
byte_swap-at d n j = byte_swap_from-at (clear_low_bit n / 2) 0 d j refl ∙ ground arith

-- Swapping the same number of bytes twice changes nothing.
pub byte_swap-byte_swap : (d : Memory) (n : ℕ) → byte_swap (byte_swap d n) n ≡ d
byte_swap-byte_swap d n = fun_ext λ j.
    byte_swap-at (byte_swap d n) n j
    ∙ ground (arith, byte_swap-at d n j, byte_swap-at d n (partner j), ap d (again j))
  where
    again : (j : ℕ) → partner (partner j) ≡ j
    again j = ground arith

pub swap_out_packet-IsBytes : (m : Memory) → IsBytes m → IsBytes (swap_out_packet m)
unfolding swap_out_packet
swap_out_packet-IsBytes m h j =
    ground (arith, byte_swap-at m (clear_low_bit (get_u16 m length_at + 1)) j, h j, h (partner j))

-- The receiver reads the length from the first two raw bytes.
pub get_u16_raw-swap_out_packet :
    (m : Memory) → IsBytes m → get_u16_raw (swap_out_packet m) length_at ≡ get_u16 m length_at
unfolding swap_out_packet
get_u16_raw-swap_out_packet m h =
    let size = clear_low_bit (get_u16 m length_at + 1) in
    let h' = swap_out_packet-IsBytes m h in
    ground (
      arith,
      get_u16_raw-value (byte_swap m size) 0 (h' 0) (h' 1),
      get_u16-value m 0 (h 0) (h 1),
      byte_swap-at m size 0,
      byte_swap-at m size 1,
    )

-- Receiving undoes sending, for every packet of bytes whose length is below 65535.
pub swap_in_packet-swap_out_packet :
    (m : Memory) → IsBytes m → get_u16 m length_at ≤ 65534 → swap_in_packet (swap_out_packet m) ≡ m
unfolding swap_in_packet
swap_in_packet-swap_out_packet m h small =
    let size = clear_low_bit (get_u16 m length_at + 1) in
    let fits : ltb maximum_packet_size size ≡ false = ground arith in
    rw (get_u16_raw-swap_out_packet m h, fits)
      (unfold swap_out_packet in byte_swap-byte_swap m size)

-- The swap of a received packet looks at the packet's own bytes only.
pub swap_in_packet_ext :
    (m s : Memory) (n : ℕ)
    → n ≡ clear_low_bit (get_u16_raw s length_at + 1)
    → 2 ≤ n
    → n ≤ 65535
    → ((i : ℕ) → i < n → m i ≡ s i)
    → (i : ℕ) → i < n
    → swap_in_packet m i ≡ swap_in_packet s i
unfolding swap_in_packet
swap_in_packet_ext m s n e two fits h i lt =
    let fits' : ltb maximum_packet_size (clear_low_bit (get_u16_raw s length_at + 1)) ≡ false =
      ground arith in
    rw (get_u16_raw_ext m s 0 (h 0 (omega arith)) (h 1 (omega arith)), fits', ← e)
      (ground (arith, byte_swap-at m n i, byte_swap-at s n i, h i lt, h (partner i)))
