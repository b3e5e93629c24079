-- ===== src/Session/Frames.antt =====
-- A packet that the device delivers, as `receive` hands it over.
use libpuppy.Base.{◌∙◌, arith, ◌<◌, some, ◌++◌, ◌≡◌, Option, List, ◌≤◌, ℕ}
use libpuppy.Base.Memory.{Memory, IsBytes}
use libpuppy.Bytes.{get_u16, get_u32}
use libpuppy.Packet.{length_at, cmd_at}
use libpuppy.Transport.{get_tf_packet}
use libpuppy.Packet.Seal.{sealed, sealed-at, length-sealed}
use libpuppy.Bytes.Value.{get_u16_ext, get_u32_ext}
use libpuppy.Transport.RoundTrip.{frame_size, frame_answers, IsReceived, get_tf_packet-frame}
use libpuppy.Session.{Puppy, receive}

-- A packet that can be sent.
pub record IsPacket (p : Memory) : Type 0 where
  pub bytes : IsBytes p
  pub low : 8 ≤ get_u16 p length_at
  pub high : get_u16 p length_at ≤ 65534

-- The reply that `receive` leaves has the packet's fields, and its bytes behind the CRC.
pub record IsReply (p : Memory) (q : Puppy) (more : List (Option (List ℕ))) : Type 0 where
  pub returned : (receive q).0 ≡ some (frame_size p)
  pub left : (receive q).1.usb.reads ≡ more
  pub length_field : get_u16 ((receive q).1.reply) length_at ≡ get_u16 p length_at
  pub cmd_field : get_u32 ((receive q).1.reply) cmd_at ≡ get_u32 p cmd_at
  pub payload : (i : ℕ) → 4 ≤ i → i < get_u16 p length_at → (receive q).1.reply i ≡ p i

pub receive-IsReply :
    (p : Memory) (q : Puppy) (more : List (Option (List ℕ)))
    → IsPacket p
    → q.usb.reads ≡ frame_answers p ++ more
    → IsReply p q more
unfolding receive
receive-IsReply p q more ok e = record {
  returned = r.returned;
  left = r.left;
  length_field =
      get_u16_ext reply (sealed p) length_at (r.same 0 (omega (arith, ok.low)))
        (r.same 1 (omega (arith, ok.low)))
      ∙ length-sealed p;
  cmd_field =
      get_u32_ext reply p cmd_at (body 4 (omega arith) (omega (arith, ok.low)))
        (body 5 (omega arith) (omega (arith, ok.low)))
        (body 6 (omega arith) (omega (arith, ok.low)))
        (body 7 (omega arith) (omega (arith, ok.low)));
  payload = body;
}
  where
    r : IsReceived p q.usb more (get_tf_packet q.usb q.reply)
    r = get_tf_packet-frame p q.reply q.usb more ok.bytes ok.low ok.high e

    reply : Memory
    reply = (get_tf_packet q.usb q.reply).1

    body : (i : ℕ) → 4 ≤ i → i < get_u16 p length_at → reply i ≡ p i
    body i h k = r.same i (omega arith) ∙ sealed-at p i h
