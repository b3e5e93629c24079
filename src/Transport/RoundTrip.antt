-- ===== src/Transport/RoundTrip.antt =====
-- A packet that is sent is received as it was.
use libpuppy.Base.{
  ◌++◌, Option, List, ℕ, ◌+◌, ◌/◌, ◌≤◌, ◌<◌, ◌≡◌, refl, sym, ap, ◌∙◌, arith, ltb, some, false,
  ==_refl,
}
use libpuppy.Base.Memory.{Memory, IsBytes, clear_low_bit}
use libpuppy.Bytes.{get_u16, get_u16_raw, put_u16}
use libpuppy.Bytes.Value.{get_u16_ext, get_u16-lt}
use libpuppy.Packet.{
  maximum_packet_size, packet_head_size, get_crc, length_at, crc_at, swap_in_packet,
  swap_out_packet,
}
use libpuppy.Packet.Swap.{
  swap_in_packet-swap_out_packet, swap_in_packet_ext, get_u16_raw-swap_out_packet,
}
use libpuppy.Packet.Seal.{sealed, sealed-IsBytes, length-sealed, sealed_lem, get_crc_ext}
use libpuppy.Usb.{Usb, max_transfer, usb_bulk_read, usb_bulk_write, warn_if}
use libpuppy.Usb.Read.{delivery, usb_bulk_read-delivery}
use libpuppy.Transport.Receive.{reads-check_crc, reads-acknowledge_data}
use libpuppy.Transport.{get_tf_packet, send_tf_packet, send_success, check_crc, acknowledge_data}

abbrev pub frame_size : Memory → ℕ
frame_size p = clear_low_bit (get_u16 p length_at + 1)

abbrev pub wire_of : Memory → Memory
wire_of p = swap_out_packet (sealed p)

module _ (p m : Memory) (bytes : IsBytes p) (low : 8 ≤ get_u16 p length_at)
    (high : get_u16 p length_at ≤ 65534)
    (same : (i : ℕ) → i < frame_size p → m i ≡ wire_of p i) where
  raw_length : get_u16_raw (wire_of p) length_at ≡ get_u16 p length_at
  raw_length = get_u16_raw-swap_out_packet (sealed p) (sealed-IsBytes p bytes) ∙ length-sealed p

  -- A buffer that starts with the frame swaps to one that starts with the packet.
  unswapped : (i : ℕ) → i < frame_size p → swap_in_packet m i ≡ sealed p i
  unswapped i h =
      swap_in_packet_ext m (wire_of p) (frame_size p) (rw raw_length refl) (omega arith)
        (omega arith) same i h
      ∙ ap (λ (q : Memory). q i)
          (swap_in_packet-swap_out_packet (sealed p) (sealed-IsBytes p bytes)
            (omega (arith, length-sealed p)))

  received_length : get_u16 (swap_in_packet m) length_at ≡ get_u16 p length_at
  received_length =
      get_u16_ext (swap_in_packet m) (sealed p) 0 (unswapped 0 (omega arith))
        (unswapped 1 (omega arith))
      ∙ length-sealed p

  received_crc : get_u16 (swap_in_packet m) crc_at ≡ get_crc (swap_in_packet m)
  received_crc =
      get_u16_ext (swap_in_packet m) (sealed p) 2 (unswapped 2 (omega arith))
        (unswapped 3 (omega arith))
      ∙ sealed_lem p bytes (omega arith) (omega arith)
      ∙ sym (
          get_crc_ext (swap_in_packet m) (sealed p) (received_length ∙ sym (length-sealed p))
            (omega (arith, length-sealed p)) (get_u16-lt (sealed p) length_at)
            (λ i a b. unswapped i (omega (arith, length-sealed p))))

warnings-send_success : (u : Usb) → (send_success u).1.warnings ≡ u.warnings
unfolding send_success usb_bulk_write warn_if
warnings-send_success u = refl

warnings-acknowledge_data : (u : Usb) (m : Memory) → (acknowledge_data u m).warnings ≡ u.warnings
unfolding acknowledge_data
warnings-acknowledge_data u m = ground (arith, warnings-send_success u)

warnings-check_crc :
    (u : Usb) (m : Memory) → get_u16 m crc_at ≡ get_crc m → (check_crc u m).warnings ≡ u.warnings
unfolding check_crc warn_if
warnings-check_crc u m h = ground (arith, ==_refl (get_crc m))

-- The answers of a device that delivers the frame of a packet.
abbrev pub frame_answers : Memory → List (Option (List ℕ))
frame_answers p = delivery (frame_size p / max_transfer) (wire_of p) 0 (frame_size p)

-- What is received of the frame of a packet.
pub record IsReceived (p : Memory) (v : Usb) (more : List (Option (List ℕ)))
    (run : Option ℕ × Memory × Usb) : Type 0 where
  pub returned : run.0 ≡ some (frame_size p)
  pub same : (i : ℕ) → i < frame_size p → run.1 i ≡ sealed p i
  pub quiet : run.2.warnings ≡ v.warnings
  pub left : run.2.reads ≡ more

pub get_tf_packet-frame :
    (p buf : Memory) (v : Usb) (more : List (Option (List ℕ)))
    → IsBytes p
    → 8 ≤ get_u16 p length_at
    → get_u16 p length_at ≤ 65534
    → v.reads ≡ frame_answers p ++ more
    → IsReceived p v more (get_tf_packet v buf)
unfolding get_tf_packet
get_tf_packet-frame p buf v more bytes low high e =
    let run = usb_bulk_read v buf maximum_packet_size in
    let (total, filled, left) =
      usb_bulk_read-delivery v (wire_of p) buf maximum_packet_size (frame_size p) more e
        (omega arith) in
    let long_enough : ltb run.0 packet_head_size ≡ false = ground arith in
    let length' = received_length p run.1 bytes low high filled in
    let has_head : ltb (get_u16 (swap_in_packet run.1) length_at) packet_head_size ≡ false =
      ground arith in
    rw (long_enough, has_head)
      (record {
        returned = ap some total;
        same = unswapped p run.1 bytes low high filled;
        quiet =
            warnings-check_crc (acknowledge_data run.2 run.1) (swap_in_packet run.1)
              (received_crc p run.1 bytes low high filled)
            ∙ warnings-acknowledge_data run.2 run.1
            ∙ unfold usb_bulk_read in refl;
        left =
            reads-check_crc (acknowledge_data run.2 run.1) (swap_in_packet run.1)
            ∙ reads-acknowledge_data run.2 run.1
            ∙ left;
      })

-- A packet of bytes whose length field is from 8 to 65534 and that `send_tf_packet` prepared, when
-- the device delivers its frame and then has other answers, is received by `get_tf_packet` as it
-- was: the return value is the length rounded up to an even number, every byte of the frame is that
-- of the packet with its CRC filled in, no warning is given, and the other answers are left.
pub get_tf_packet-send_tf_packet :
    (p buf : Memory) (u v : Usb) (more : List (Option (List ℕ)))
    → IsBytes p
    → 8 ≤ get_u16 p length_at
    → get_u16 p length_at ≤ 65534
    → v.reads
      ≡ delivery (frame_size p / max_transfer) (send_tf_packet u p).1 0 (frame_size p) ++ more
    → let (ret, packet, v') = get_tf_packet v buf in
      (ret ≡ some (frame_size p))
      × ((i : ℕ) → i < frame_size p → packet i ≡ put_u16 p crc_at (get_crc p) i)
      × (v'.warnings ≡ v.warnings)
      × (v'.reads ≡ more)
unfolding send_tf_packet
get_tf_packet-send_tf_packet p buf u v more bytes low high e =
    let r = get_tf_packet-frame p buf v more bytes low high e in
    (r.returned, r.same, r.quiet, r.left)
