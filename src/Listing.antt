-- ===== src/Listing.antt =====
-- `puppy_hdd_dir` and `decode_dir` of libpuppy.c.
pub mod Entries
pub mod Descriptor
pub mod Ends
pub mod Result
pub mod Pages
pub mod Whole
use libpuppy.Base.{
  ℕ, zero, suc, ◌+◌, ◌-◌, ◌*◌, ◌/◌, ◌==◌, ltb, leb, if◌then◌else◌, Bool, true, false, Option, none,
  some, List, [], ◌∷◌, ◌++◌, length,
}
use libpuppy.Base.Memory.{Memory, u16, read_range}
use libpuppy.Buffer.{Buffer, buffer_init, buffer_add, buffer_dup_values, store}
use libpuppy.Bytes.{get_u16, get_u32, get_u64}
use libpuppy.Mjd.{TfDatetime}
use libpuppy.Packet.{length_at, cmd_at, data_at, packet_head_size, decode_error}
use libpuppy.Packet.Commands.{fail, data_hdd_dir, data_hdd_dir_end}
use libpuppy.Packet.Typefile.{typefile_size, filetype_at, size_at, name_at, name_size, stamp_of}
use libpuppy.Requests.{CString, Ret, failed, count, send_cmd_hdd_dir}
use libpuppy.Session.{
  Puppy, Error, no_error, eproto, is_ok, receive, say, unhandled_packet, device_reports,
}
use libpuppy.Transport.{send_success}

-- `puppy_ftype_t`
pub data Ftype : Type 0 where
  puppy_dir puppy_file puppy_unknown : Ftype

-- `puppy_dir_entry_t`. The time is `tfdt_to_time` of the stamp. The size is the 64 bits of the `long
-- long int`, which is the same number below 2 ^ 63.
pub record Entry : Type 0 where
  pub ftype : Ftype
  pub stamp : TfDatetime
  pub size : ℕ
  pub name : CString

unfoldable pub ftype_of : ℕ → Ftype
ftype_of filetype =
    if filetype == 1 then puppy_dir else if filetype == 2 then puppy_file else puppy_unknown

-- What `strcpy` copies from address `a`: the bytes before the first zero; `none` where there is no
-- zero among the `room` bytes of the destination.
unfoldable pub c_string : ℕ → Memory → ℕ → Option CString
c_string zero m a = none
c_string (suc room) m a =
    let rest = c_string room m (a + 1) in
    let more : Option CString = elim rest [ none ↦ none | some s ↦ some (m a ∷ s) ] in
    if m a == 0 then some [] else more

-- The entry of the `struct typefile` at address `a`.
unfoldable pub entry_of : Memory → ℕ → Option Entry
unfolding c_string ftype_of
entry_of m a = elim (c_string name_size m (a + name_at)) [
  | none ↦ none
  | some s ↦ some (record {
    ftype = ftype_of (m (a + filetype_at));
    stamp = stamp_of m a;
    size = get_u64 m (a + size_at);
    name = s;
  })
]

-- `entry = buffer_add(buf, NULL)`, and then its fields are set.
unfoldable pub add_entry : Buffer Entry → Entry → Buffer Entry
add_entry buf entry = let (i, b) = buffer_add buf none in store i entry b

-- The loop of `decode_dir` over `n` entries from address `a` on; `none` is a write past the name.
unfoldable pub decode_from : ℕ → Memory → ℕ → Buffer Entry → Option (Buffer Entry)
unfolding add_entry
decode_from zero m a buf = some buf
decode_from (suc n) m a buf = elim (entry_of m a) [
  | none ↦ none
  | some entry ↦ decode_from n m (a + typefile_size) (add_entry buf entry)
]

-- The length is at least that of a header, as `get_tf_packet` checks.
unfoldable pub decode_dir : Memory → Buffer Entry → Option (Buffer Entry)
unfolding decode_from
decode_dir p buf =
    decode_from (u16 ((get_u16 p length_at - packet_head_size) / typefile_size)) p data_at buf

pub record Browse : Type 0 where
  pub puppy : Puppy
  pub buf : Buffer Entry
  pub finished : Bool

abbrev pub send_success_to : Puppy → Puppy
send_success_to p = record p { usb = (send_success (p.usb)).1 }

-- `p->error = EPROTO`
abbrev pub set_eproto : Puppy → Puppy
set_eproto p = record p { error = eproto }

-- DATA_HDD_DIR, by the buffer that `decode_dir` leaves.
unfoldable pub on_entries : Option (Buffer Entry) → Browse → Option Browse
on_entries none s = none
on_entries (some buf) s = some (record s { puppy = send_success_to s.puppy; buf = buf })

-- The body of the loop.
unfoldable pub dispatch : Browse → Option Browse
unfolding on_entries
dispatch s =
    let cmd = get_u32 s.puppy.reply cmd_at in
    let p = s.puppy in
    if cmd == data_hdd_dir
    then on_entries (decode_dir p.reply s.buf) s
    else if cmd == data_hdd_dir_end
    then some (record s { finished = true })
    else if cmd == fail
    then some (record s { puppy = set_eproto (say (device_reports (decode_error p.reply)) p) })
    else some (record s { puppy = set_eproto (say unhandled_packet p) })

-- Whether the loop goes on, and the state; `overrun` is a write past a name.
pub data Step : Type 0 where
  next stop : Browse → Step
  overrun : Step

abbrev pub continue : Option Browse → Step
continue none = overrun
continue (some s) = next s

-- By `finished`, by whether there is no error, and by what was received where the condition looks at
-- that: the loop ends, or the body runs.
unfoldable pub decide_round : Bool → Bool → Option ℕ → Browse → Puppy → Step
decide_round true good r s p = stop s
decide_round false false r s p = stop s
decide_round false true none s p = stop (record s { puppy = p })
decide_round false true (some n) s p = continue (dispatch (record s { puppy = p }))

-- One evaluation of `!finished && p->error == 0 && 0 < get_tf_packet(p->fd, &reply)`, and the body.
unfoldable pub round : Browse → Step
unfolding decide_round
round s = let (r, p) = receive s.puppy in decide_round s.finished (is_ok s.puppy.error) r s p

-- What a listing ends with.
pub data Outcome : Type 0 where
  out_of_fuel name_overrun : Outcome
  listed : Browse → Outcome

-- The loop, on fuel.
unfoldable pub dir_loop : ℕ → Browse → Outcome
unfolding round
dir_loop zero s = out_of_fuel
dir_loop (suc fuel) s = elim (round s) [
  | next t ↦ dir_loop fuel t
  | stop t ↦ listed t
  | overrun ↦ name_overrun
]

-- A round that goes on reads an answer, and one more ends the loop.
abbrev pub dir_fuel : Puppy → ℕ
dir_fuel p = suc (length p.usb.reads)

-- The copy is made before the terminating entry is set, which then is in the buffer only.
unfoldable pub finish : Browse → List (Option Entry)
finish s = let (i, b) = buffer_add s.buf none in buffer_dup_values b

abbrev pub new_browse : Puppy → Browse
new_browse p = record { puppy = p; buf = buffer_init 10; finished = false }

-- The entries that are returned and the state; `none` where a packet or a name is overrun, or where
-- the fuel runs out.
abbrev pub finished_listing : Outcome → Option (List (Option Entry) × Puppy)
finished_listing out_of_fuel = none
finished_listing name_overrun = none
finished_listing (listed s) = some (finish s, s.puppy)

unfoldable pub puppy_hdd_dir : Puppy → Memory → CString → Option (List (Option Entry) × Puppy)
unfolding dir_loop finish
puppy_hdd_dir p req path = elim (send_cmd_hdd_dir p.usb req path) [
  | none ↦ none
  | some (failed, u) ↦
      let q = set_eproto (record p { usb = u }) in
      finished_listing (dir_loop (dir_fuel q) (new_browse q))
  | some (count n, u) ↦
      let q = record p { usb = u } in finished_listing (dir_loop (dir_fuel q) (new_browse q))
]
