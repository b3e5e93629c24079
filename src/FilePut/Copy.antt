-- ===== src/FilePut/Copy.antt =====
-- An upload from its first round on.
use libpuppy.Base.{
  ℕ, zero, suc, ◌+◌, ◌≤◌, ◌<◌, ◌≡◌, ◌^◌, refl, ap, ◌∙◌, arith, List, ◌++◌, Option, some, length,
  flatten, map, All, append_assoc,
}
use libpuppy.Base.Memory.{Memory, IsBytes}
use libpuppy.Mjd.{TfDatetime}
use libpuppy.Requests.{CString}
use libpuppy.Session.{Puppy, Code, done}
use libpuppy.Session.Served.{IsServed, IsSuccess, frame_bytes}
use libpuppy.FilePut.{Upload, new_upload, start_packet, end_packet, put_loop, send_packet}
use libpuppy.FilePut.RoundTrip.{Sent, IsSent, sent_bytes}
use libpuppy.FilePut.Rounds.{answered, reply_memory, opened-IsRound, opened}
use libpuppy.FilePut.Whole.{data_loop, put_loop-next, frames}

-- A nonempty file of bytes, and reads that give a byte each at least.
pub record IsReadable (content ks : List ℕ) : Type 0 where
  pub small : All (λ x. x < 256) content
  pub some_bytes : 0 < length content
  pub few : length content < 2 ^ 64
  pub asks : All (λ k. 0 < k) ks
  pub enough : length content ≤ length ks

-- A whole upload: its packets and where it ends.
pub record IsWhole (s : Upload) (r : Option (Code × Upload)) : Type 0 where
  pub last : Upload
  pub result : r ≡ some (done, last)
  pub packets : List Sent
  pub sent : All IsSent packets
  pub rounds : length packets ≤ length s.content
  pub ending : Upload
  pub ending_memory : IsBytes ending.puppy.packet
  pub first_memory : IsBytes (answered s).puppy.packet
  pub parts : sent_bytes packets ≡ s.content
  pub wire :
      flatten last.puppy.usb.sent
      ≡ flatten s.puppy.usb.sent
        ++ (frame_bytes (start_packet (answered s))
            ++ (frames packets ++ frame_bytes (end_packet ending)))
  pub counted : last.byte_count ≡ length s.content

pub put_loop-IsWhole :
    (ok : Memory) (m fuel : ℕ) (p : Puppy) (stamp : TfDatetime) (name : CString)
    (content ks : List ℕ)
    → IsSuccess ok
    → IsServed ok m m p
    → All (λ x. x < 256) name
    → IsReadable content ks
    → length content + 3 ≤ m
    → m ≤ fuel
    → let s = new_upload p (length content) stamp name content (map some ks) in
      IsWhole s (put_loop fuel s)
unfolding send_packet
put_loop-IsWhole ok (suc m) (suc fuel) p stamp name content ks is_ok served named readable replies
      enough =
    let s = new_upload p (length content) stamp name content (map some ks) in
    let r = opened-IsRound ok m m s is_ok served refl named in
    let t = opened ok m m s is_ok served in
    let u =
      data_loop ok ks m fuel t is_ok r.served
        (record {
          phase = refl;
          counted = refl;
          sized = refl;
          behind = readable.some_bytes;
          small = readable.small;
          few = readable.few;
        })
        refl readable.asks (omega (arith, readable.enough)) (omega arith) (omega arith) in
    let first = frame_bytes (start_packet (answered s)) in
    record {
      last = u.last;
      result = put_loop-next fuel s t r.goes ∙ u.result;
      packets = u.packets;
      sent = u.sent;
      rounds = omega (arith, u.rounds);
      ending = u.ending;
      ending_memory = u.ending_memory;
      first_memory = reply_memory ok m m s is_ok served;
      parts = u.parts;
      wire =
          u.wire
          ∙ ap (λ ys. ys ++ (frames u.packets ++ frame_bytes (end_packet u.ending))) r.sent
          ∙ append_assoc (flatten p.usb.sent) first _;
      counted = u.counted;
    }
put_loop-IsWhole ok zero fuel p stamp name content ks is_ok served named readable replies enough =
    absurd (omega arith)
put_loop-IsWhole ok (suc m) zero p stamp name content ks is_ok served named readable replies
      enough =
    absurd (omega arith)
