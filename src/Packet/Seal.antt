-- ===== src/Packet/Seal.antt =====
-- The CRC field: writing it changes neither the length nor the CRC that is computed.
use libpuppy.Base.{ℕ, ◌+◌, ◌-◌, ◌^◌, ◌≤◌, ◌<◌, ◌≡◌, inl, arith, ◌∙◌, sym}
use libpuppy.Base.Memory.{Memory, IsBytes, u64}
use libpuppy.Bytes.{get_u16, put_u16}
use libpuppy.Bytes.RoundTrip.{get_u16-put_u16, get_u16-put_u16_apart, put_u16-IsBytes, put_u16-at}
use libpuppy.Crc16.Agree.{crc16_ansi-reference_crc, crc16_ansi_ext}
use libpuppy.Packet.{get_crc, length_at, crc_at, cmd_at}

-- The packet with its CRC filled in.
abbrev pub sealed : Memory → Memory
sealed p = put_u16 p crc_at (get_crc p)

-- The CRC looks at the bytes from the command on, up to the packet's length.
pub get_crc_ext :
    (m s : Memory)
    → get_u16 m length_at ≡ get_u16 s length_at
    → 4 ≤ get_u16 s length_at
    → get_u16 s length_at < 2 ^ 16
    → ((i : ℕ) → 4 ≤ i → i < get_u16 s length_at → m i ≡ s i)
    → get_crc m ≡ get_crc s
unfolding get_crc
get_crc_ext m s e low high h = rw e (
    crc16_ansi_ext m s cmd_at (u64 (get_u16 s length_at + 2 ^ 64 - 4)) λ i a b. h i a (omega arith))

module _ (p : Memory) where
  pub length-sealed : get_u16 (sealed p) length_at ≡ get_u16 p length_at
  length-sealed = get_u16-put_u16_apart p length_at crc_at (get_crc p) (inl (omega arith))

  pub sealed-at : (i : ℕ) → 4 ≤ i → sealed p i ≡ p i
  sealed-at i h = ground (arith, put_u16-at p crc_at (get_crc p) i)

  module _ (bytes : IsBytes p) where
    pub sealed-IsBytes : IsBytes (sealed p)
    sealed-IsBytes = put_u16-IsBytes p crc_at (get_crc p) bytes

    get_crc-lt : get_crc p < 2 ^ 16
    unfolding get_crc
    get_crc-lt = (crc16_ansi-reference_crc p cmd_at _ bytes).1

    crc-sealed : get_u16 (sealed p) crc_at ≡ get_crc p
    crc-sealed = omega (arith, get_u16-put_u16 p crc_at (get_crc p), get_crc-lt)

    -- The CRC that is filled in is the one that the receiver computes.
    pub sealed_lem :
        4 ≤ get_u16 p length_at
        → get_u16 p length_at < 2 ^ 16
        → get_u16 (sealed p) crc_at ≡ get_crc (sealed p)
    sealed_lem low high =
        crc-sealed ∙ sym (get_crc_ext (sealed p) p length-sealed low high (λ i a b. sealed-at i a))
