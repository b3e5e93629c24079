-- ===== src/Transport/Replies.antt =====
-- What receiving a packet that is not a DATA packet sends: nothing.
use libpuppy.Base.{
  Bool-cases, sym, ℕ, ◌+◌, ◌≤◌, ◌<◌, ◌≡◌, ◌≢◌, refl, ◌∙◌, arith, List, Option, ◌++◌, ltb, ◌==◌, inl,
  inr, true,
}
use libpuppy.Base.Memory.{Memory, clear_low_bit}
use libpuppy.Bytes.{get_u16, get_u32, get_u32_raw}
use libpuppy.Packet.{length_at, cmd_at, maximum_packet_size, swap_out_packet}
use libpuppy.Packet.Commands.{data_hdd_file_data}
use libpuppy.Usb.{Usb, usb_bulk_read}
use libpuppy.Usb.Read.{usb_bulk_read-delivery}
use libpuppy.Transport.{get_tf_packet, acknowledge_data, check_crc}
use libpuppy.Transport.RoundTrip.{frame_size, frame_answers, wire_of}
use libpuppy.Packet.Seal.{sealed, length-sealed, sealed-at}
use libpuppy.Packet.Swap.{byte_swap-at, partner}

module _ (p m : Memory) (low : 8 ≤ get_u16 p length_at)
    (same : (i : ℕ) → i < frame_size p → m i ≡ wire_of p i) where
  swapped : (i : ℕ) → 4 ≤ i → i < 8 → m i ≡ p (partner i)
  unfolding swap_out_packet
  swapped i a b =
      let size = clear_low_bit (get_u16 (sealed p) length_at + 1) in
      let inside : ltb i (clear_low_bit size) ≡ true = ground (arith, length-sealed p) in
      same i (omega arith)
      ∙ byte_swap-at (sealed p) size i
      ∙ rw inside (sealed-at p (partner i) (ground arith))

  -- The command as the receiver sees it before the swap.
  raw_cmd : get_u32_raw m cmd_at ≡ get_u32 p cmd_at
  unfolding get_u32_raw get_u32
  raw_cmd =
      rw
        (
          swapped 4 (omega arith) (omega arith),
          swapped 5 (omega arith) (omega arith),
          swapped 6 (omega arith) (omega arith),
          swapped 7 (omega arith) (omega arith),
        )
        refl

-- What is left of the writing side by receiving a packet that is no DATA packet.
pub record IsIdle (v : Usb) (run : Option ℕ × Memory × Usb) : Type 0 where
  pub sent : run.2.sent ≡ v.sent
  pub writes : run.2.writes ≡ v.writes

acknowledge_data-IsIdle :
    (u : Usb) (buf : Memory)
    → get_u32_raw buf cmd_at ≢ data_hdd_file_data
    → ((acknowledge_data u buf).sent ≡ u.sent) × ((acknowledge_data u buf).writes ≡ u.writes)
unfolding acknowledge_data
acknowledge_data-IsIdle u buf h = elim (Bool-cases (get_u32_raw buf cmd_at == data_hdd_file_data)) [
  | inl e ↦ absurd (h (ground (arith, e)))
  | inr e ↦ rw e (refl, refl)
]

pub get_tf_packet-IsIdle :
    (p buf : Memory) (v : Usb) (more : List (Option (List ℕ)))
    → 8 ≤ get_u16 p length_at
    → get_u16 p length_at ≤ 65534
    → get_u32 p cmd_at ≢ data_hdd_file_data
    → v.reads ≡ frame_answers p ++ more
    → IsIdle v (get_tf_packet v buf)
unfolding get_tf_packet check_crc usb_bulk_read
get_tf_packet-IsIdle p buf v more low high other e =
    let run = usb_bulk_read v buf maximum_packet_size in
    let (total, filled, left) =
      usb_bulk_read-delivery v (wire_of p) buf maximum_packet_size (frame_size p) more e
        (omega arith) in
    let quiet =
      acknowledge_data-IsIdle run.2 run.1 (λ h. other (sym (raw_cmd p run.1 low filled) ∙ h)) in
    record { sent = ground (arith, quiet.0); writes = ground (arith, quiet.1) }
