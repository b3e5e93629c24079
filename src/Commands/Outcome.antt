-- ===== src/Commands/Outcome.antt =====
-- What the result of a command says.
use libpuppy.Base.{ℕ, ◌≡◌, refl, ap, sym, ◌∙◌, arith, Option, none, some, List, ◌==◌, if◌then◌else◌}
use libpuppy.Base.Memory.{Memory}
use libpuppy.Bytes.{get_u32}
use libpuppy.Packet.{cmd_at}
use libpuppy.Packet.Commands.{success, data_hdd_size, fail}
use libpuppy.Requests.{
  CString, Ret, failed, count, Request, too_long, overrun, ready, send_request, send_cmd_turbo,
  send_cmd_reset, send_cmd_ready, send_cmd_hdd_size, send_cmd_hdd_del, send_cmd_hdd_rename,
  send_cmd_hdd_create_dir,
}
use libpuppy.Session.{Puppy, Code, done, neg_eproto, neg_one, receive}
use libpuppy.Commands.{
  exchange, refused, puppy_turbo, puppy_reset, puppy_ready, puppy_cancel, puppy_hdd_size,
  puppy_hdd_del, puppy_hdd_rename, puppy_hdd_mkdir,
}
use libpuppy.Transport.{get_tf_packet, send_tf_packet, send_cancel}
use libpuppy.Usb.{Usb, usb_bulk_write, usb_bulk_read}

-- The calls, with their arguments.
pub data Call : Type 0 where
  turbo : ℕ → Call
  reset ready_call cancel hdd_size : Call
  del mkdir : CString → Call
  rename : CString → CString → Call

unfoldable pub run : Call → Puppy → Memory → Option (Code × Puppy)
run (turbo state) p req = puppy_turbo p req state
run reset p req = puppy_reset p req
run ready_call p req = puppy_ready p req
run cancel p req = puppy_cancel p
run hdd_size p req = puppy_hdd_size p req
run (del path) p req = puppy_hdd_del p req path
run (mkdir path) p req = puppy_hdd_mkdir p req path
run (rename src dst) p req = puppy_hdd_rename p req src dst

-- The reply that means success.
unfoldable pub expected : Call → ℕ
expected hdd_size = data_hdd_size
expected _ = success

-- What a receiver gets depends on the reading side only.
get_tf_packet-reads :
    (u v : Usb) (m : Memory)
    → u.reads ≡ v.reads
    → ((get_tf_packet u m).0 ≡ (get_tf_packet v m).0)
      × ((get_tf_packet u m).1 ≡ (get_tf_packet v m).1)
unfolding get_tf_packet usb_bulk_read
get_tf_packet-reads u v m e = (ground arith, ground arith)

receive-reads :
    (p q : Puppy)
    → p.usb.reads ≡ q.usb.reads
    → p.reply ≡ q.reply
    → ((receive p).0 ≡ (receive q).0) × ((receive p).1.reply ≡ (receive q).1.reply)
unfolding receive
receive-reads p q e r = ground (arith, get_tf_packet-reads p.usb q.usb p.reply e)

reads-usb_bulk_write : (u : Usb) (m : Memory) (n : ℕ) → (usb_bulk_write u m n).1.reads ≡ u.reads
unfolding usb_bulk_write
reads-usb_bulk_write u m n = refl

-- Sending leaves the answers that are to be read.
send_request-reads :
    (u v : Usb) (r : Request) (ret : Ret) → send_request u r ≡ some (ret, v) → v.reads ≡ u.reads
unfolding send_request send_tf_packet usb_bulk_write
send_request-reads u v too_long ret h = ground arith
send_request-reads u v overrun ret h = cc
send_request-reads u v (ready m) ret h = ground arith

kept_reads :
    (u w v : Usb) (n : ℕ) (ret : Ret)
    → w.reads ≡ u.reads
    → ◌≡◌ {A = Option (Ret × Usb)} (some (count n, w)) (some (ret, v))
    → v.reads ≡ u.reads
kept_reads u w v n ret e h = ground arith

-- Where a call returns 0, a packet was received in it: the first that the device had to deliver.
pub record IsConfirmed (p q : Puppy) (want : ℕ) : Type 0 where
  pub size : ℕ
  pub received : (receive p).0 ≡ some size
  pub reply : q.reply ≡ (receive p).1.reply
  pub confirmed : get_u32 ((receive p).1.reply) cmd_at ≡ want

module _ (p q : Puppy) (dispatch : Puppy → Code × Puppy) (want : ℕ)
    (confirms : (r : Puppy)
      → dispatch r ≡ (done, q)
      → (q.reply ≡ r.reply) × (get_u32 r.reply cmd_at ≡ want)) where
  exchange_done :
      (sent : Option (Ret × Usb))
      → ((ret : Ret) (u : Usb) → sent ≡ some (ret, u) → u.reads ≡ p.usb.reads)
      → exchange p sent dispatch ≡ some (done, q)
      → IsConfirmed p q want
  unfolding exchange
  exchange_done none kept h = absurd cc
  exchange_done (some (failed, u)) kept h = ground arith
  exchange_done (some (count n, u)) kept h =
      let a = record p { usb = u } in
      let same = receive-reads a p (kept (count n) u refl) refl in
      received (receive a).0 (receive a).1 same.0 same.1 h
    where
      received :
          (r : Option ℕ) (b : Puppy)
          → r ≡ (receive p).0
          → b.reply ≡ (receive p).1.reply
          → ◌≡◌ {A = Option (Code × Puppy)}
              (some (elim r [ none ↦ (neg_eproto, b) | some n ↦ dispatch b ]))
              (some (done, q))
          → IsConfirmed p q want
      received none b e same k = ground arith
      received (some size) b e same k =
          let c = confirms b cc in
          record {
            size = size;
            received = sym e;
            reply = c.0 ∙ same;
            confirmed = sym (ap (λ m. get_u32 m cmd_at) same) ∙ c.1;
          }

  request_done :
      (r : Request)
      → exchange p (send_request p.usb r) dispatch ≡ some (done, q)
      → IsConfirmed p q want
  request_done r h =
      exchange_done (send_request p.usb r) (λ ret u e. send_request-reads p.usb u r ret e) h

-- A command returns 0 only where it received a packet, the first that the device had to deliver when
-- the command was called. That packet is then in `reply`, and it carries the command that confirms
-- the call: DATA_HDD_SIZE for the disk size, SUCCESS for all others.
pub run_done :
    (c : Call) (p q : Puppy) (req : Memory)
    → run c p req ≡ some (done, q)
    → IsConfirmed p q (expected c)
unfolding run expected puppy_turbo puppy_reset puppy_ready puppy_cancel puppy_hdd_size puppy_hdd_del
    puppy_hdd_rename puppy_hdd_mkdir refused send_cmd_turbo send_cmd_reset send_cmd_ready
    send_cmd_hdd_size send_cmd_hdd_del send_cmd_hdd_create_dir send_cmd_hdd_rename
run_done (turbo state) p q req h = request_done p q _ success (λ r e. ground arith) _ h
run_done reset p q req h = request_done p q _ success (λ r e. ground arith) _ h
run_done ready_call p q req h = request_done p q _ success (λ r e. ground arith) _ h
run_done cancel p q req h =
    unfold send_cancel in
    exchange_done p q _ success (λ r e. ground arith) _
      (λ ret u e. kept_reads p.usb _ u _ ret (reads-usb_bulk_write p.usb _ _) e) h
run_done hdd_size p q req h = request_done p q _ data_hdd_size (λ r e. ground arith) _ h
run_done (del path) p q req h = request_done p q _ success (λ r e. ground arith) _ h
run_done (mkdir path) p q req h = request_done p q _ success (λ r e. ground arith) _ h
run_done (rename src dst) p q req h = request_done p q _ success (λ r e. ground arith) _ h

-- The code alone.
abbrev pub verdict : Option (Code × Puppy) → Option Code
verdict none = none
verdict (some (code, p)) = some code

-- Calls of `exchange` agree where the devices answer alike and the switch looks at the reply only.
module _ (p q : Puppy) (answers : p.usb.reads ≡ q.usb.reads) (replies : p.reply ≡ q.reply)
    (dispatch : Puppy → Code × Puppy) (code : Memory → Code)
    (looks : (r : Puppy) → (dispatch r).0 ≡ code r.reply) where
  exchange-sent :
      (n m : ℕ) (u v : Usb)
      → u.reads ≡ p.usb.reads
      → v.reads ≡ q.usb.reads
      → verdict (exchange p (some (count n, u)) dispatch)
        ≡ verdict (exchange q (some (count m, v)) dispatch)
  unfolding exchange
  exchange-sent n m u v eu ev =
      let a = record p { usb = u } in
      let b = record q { usb = v } in
      ground (
        arith,
        receive-reads a b (eu ∙ answers ∙ sym ev) replies,
        looks (receive a).1,
        looks (receive b).1,
        ap code (receive-reads a b (eu ∙ answers ∙ sym ev) replies).1,
      )

  exchange-request :
      (r : Request)
      → verdict (exchange p (send_request p.usb r) dispatch)
        ≡ verdict (exchange q (send_request q.usb r) dispatch)
  unfolding send_request
  exchange-request too_long = unfold exchange in refl
  exchange-request overrun = unfold exchange in refl
  exchange-request (ready m) =
      unfold send_tf_packet in
      exchange-sent _ _ _ _ (reads-usb_bulk_write p.usb _ _) (reads-usb_bulk_write q.usb _ _)

-- The code that a reply gives: 0 for the expected command, -EPROTO for FAIL, `unhandled` else.
abbrev reply_code : ℕ → Code → Memory → Code
reply_code want unhandled m =
    if get_u32 m cmd_at == want
    then done
    else if get_u32 m cmd_at == fail
    then neg_eproto
    else unhandled

-- The code of every command is the same whatever becomes of the bytes that it writes: a command
-- whose request never left the host still reports the next answer that is read.
pub verdict-writes :
    (c : Call) (p : Puppy) (req : Memory) (ws : List (Option ℕ))
    → verdict (run c p req)
      ≡ verdict (run c (record p { usb = record (p.usb) { writes = ws } }) req)
unfolding run refused puppy_turbo puppy_reset puppy_ready puppy_cancel puppy_hdd_size puppy_hdd_del
    puppy_hdd_rename puppy_hdd_mkdir send_cmd_turbo send_cmd_reset send_cmd_ready send_cmd_hdd_size
    send_cmd_hdd_del send_cmd_hdd_create_dir send_cmd_hdd_rename
verdict-writes (turbo state) p req ws =
    exchange-request p _ refl refl _ (reply_code success neg_eproto) (λ r. ground arith) _
verdict-writes reset p req ws =
    exchange-request p _ refl refl _ (reply_code success neg_eproto) (λ r. ground arith) _
verdict-writes ready_call p req ws =
    exchange-request p _ refl refl _ (reply_code success neg_one) (λ r. ground arith) _
verdict-writes cancel p req ws =
    unfold send_cancel in
    exchange-sent p _ refl refl _ (reply_code success neg_eproto) (λ r. ground arith) _ _ _ _
      (reads-usb_bulk_write p.usb _ _) (reads-usb_bulk_write _ _ _)
verdict-writes hdd_size p req ws =
    exchange-request p _ refl refl _ (reply_code data_hdd_size neg_eproto) (λ r. ground arith) _
verdict-writes (del path) p req ws =
    exchange-request p _ refl refl _ (reply_code success neg_eproto) (λ r. ground arith) _
verdict-writes (mkdir path) p req ws =
    exchange-request p _ refl refl _ (reply_code success neg_eproto) (λ r. ground arith) _
verdict-writes (rename src dst) p req ws =
    exchange-request p _ refl refl _ (reply_code success neg_eproto) (λ r. ground arith) _
