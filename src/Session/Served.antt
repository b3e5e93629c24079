-- ===== src/Session/Served.antt =====
-- A device that takes every page and answers SUCCESS to every packet.
use libpuppy.Base.{
  subst, ℕ, zero, suc, ◌*◌, ◌≤◌, ◌≡◌, ◌≢◌, sym, ◌∙◌, arith, List, [], ◌++◌, Option, some, length,
  flatten, All,
}
use libpuppy.Base.Memory.{Memory, IsBytes, read_range}
use libpuppy.Bytes.{get_u32}
use libpuppy.Packet.{cmd_at}
use libpuppy.Packet.Commands.{success, data_hdd_file_data}
use libpuppy.Packet.Seal.{sealed, sealed-IsBytes}
use libpuppy.Packet.Swap.{swap_out_packet-IsBytes}
use libpuppy.Usb.{Usb, max_transfer}
use libpuppy.Usb.Write.{willing}
use libpuppy.Usb.Willing.{usb_bulk_write-IsWritten}
use libpuppy.Transport.{send_tf_packet}
use libpuppy.Transport.RoundTrip.{frame_size, frame_answers, wire_of}
use libpuppy.Transport.Replies.{get_tf_packet-IsIdle}
use libpuppy.Session.{Puppy, receive}
use libpuppy.Session.Frames.{IsPacket, receive-IsReply}

-- A packet with the command SUCCESS.
pub record IsSuccess (ok : Memory) : Type 0 where
  pub sound : IsPacket ok
  pub code : get_u32 ok cmd_at ≡ success

-- The answers of a device that delivers the packet this often.
abbrev pub replies : ℕ → Memory → List (Option (List ℕ))
replies zero ok = []
replies (suc n) ok = frame_answers ok ++ replies n ok

-- The bytes of a packet on the wire.
abbrev pub frame_bytes : Memory → List ℕ
frame_bytes p = read_range (wire_of p) 0 (frame_size p)

-- The state after a packet of a request was sent.
abbrev pub requested : Puppy → Memory → Puppy
requested p m = record p { usb = (send_tf_packet (p.usb) m).2 }

-- The device answers SUCCESS `n` times and takes `packets` packets, of 16 pages at most each.
pub record IsServed (ok : Memory) (n packets : ℕ) (p : Puppy) : Type 0 where
  pub reads : p.usb.reads ≡ replies n ok
  pub left : ℕ
  pub writes : p.usb.writes ≡ willing left
  pub enough : packets * 16 ≤ left
  pub pages : All (λ xs. length xs ≤ max_transfer) p.usb.sent
  pub memory : IsBytes p.packet

-- The reply is taken, and nothing else changes.
pub record IsAnswered (ok : Memory) (n packets : ℕ) (p : Puppy) : Type 0 where
  pub returned : (receive p).0 ≡ some (frame_size ok)
  pub code : get_u32 ((receive p).1.reply) cmd_at ≡ success
  pub sent : (receive p).1.usb.sent ≡ p.usb.sent
  pub served : IsServed ok n packets (receive p).1

pub receive-IsAnswered :
    (ok : Memory) (n packets : ℕ) (p : Puppy)
    → IsSuccess ok
    → IsServed ok (suc n) packets p
    → IsAnswered ok n packets p
unfolding receive
receive-IsAnswered ok n packets p is_ok s =
    let r = receive-IsReply ok p (replies n ok) is_ok.sound s.reads in
    let idle =
      get_tf_packet-IsIdle ok p.reply p.usb (replies n ok) is_ok.sound.low is_ok.sound.high
        (λ h. distinct (sym is_ok.code ∙ h)) s.reads in
    record {
      returned = r.returned;
      code = r.cmd_field ∙ is_ok.code;
      sent = idle.sent;
      served = record {
        reads = r.left;
        left = s.left;
        writes = idle.writes ∙ s.writes;
        enough = s.enough;
        pages = subst (All (λ xs. length xs ≤ max_transfer)) (sym idle.sent) s.pages;
        memory = s.memory;
      };
    }
  where
    distinct : success ≢ data_hdd_file_data
    distinct = omega arith

-- The packet goes out whole.
pub record IsTaken (ok : Memory) (n packets : ℕ) (p : Puppy) (m : Memory) (run : ℕ × Memory × Usb)
    : Type 0 where
  pub returned : run.0 ≡ frame_size m
  pub sent : flatten run.2.sent ≡ flatten p.usb.sent ++ frame_bytes m
  pub served : IsServed ok n packets (record p { usb = run.2; packet = run.1 })

pub send_tf_packet-IsTaken :
    (ok : Memory) (n packets : ℕ) (p : Puppy) (m : Memory)
    → IsPacket m
    → IsServed ok n (suc packets) p
    → IsTaken ok n packets p m (send_tf_packet p.usb m)
unfolding send_tf_packet
send_tf_packet-IsTaken ok n packets p m sound s =
    let w =
      usb_bulk_write-IsWritten p.usb (wire_of m) (frame_size m) 16 s.left s.pages s.writes
        (omega arith) (omega (arith, s.enough)) (omega (arith, sound.high)) in
    record {
      returned = w.returned;
      sent = w.sent;
      served = record {
        reads = w.reads ∙ s.reads;
        left = w.left;
        writes = w.writes;
        enough = omega (arith, w.fewer, s.enough);
        pages = w.pages_sent;
        memory = swap_out_packet-IsBytes (sealed m) (sealed-IsBytes m sound.bytes);
      };
    }
