-- ===== src/FilePut.antt =====
-- `puppy_hdd_file_put` of libpuppy.c: a file to the device. The calls of the progress statistics are left out.
pub mod Stream
pub mod RoundTrip
pub mod Carried
pub mod Rounds
pub mod Whole
pub mod Copy
pub mod Truncated
pub mod Call
pub mod Return
pub mod Ranges
pub mod Ends
pub mod Packets
pub mod Progress
pub mod Result
use libpuppy.Base.{
  ℕ, zero, suc, ◌+◌, ◌-◌, ◌%◌, ◌^◌, min, Option, none, some, List, [], ◌∷◌, ◌++◌, length, take,
  drop, ltb, leb, ◌==◌, ◌&&◌, ◌||◌, Bool, true, false, if◌then◌else◌,
}
use libpuppy.Base.Memory.{Memory, write_range, u64, clear_low_bit}
use libpuppy.Bytes.{get_u32, put_u16, put_u32, put_u64}
use libpuppy.Mjd.{TfDatetime}
use libpuppy.Packet.{
  maximum_packet_size, length_at, cmd_at, data_at, decode_error, packet_head_size,
}
use libpuppy.Packet.Commands.{
  fail, success, data_hdd_file_start, data_hdd_file_data, data_hdd_file_end,
}
use libpuppy.Packet.Typefile.{put_typefile, typefile_size}
use libpuppy.Requests.{CString, failed, count, send_cmd_hdd_file_send}
use libpuppy.Session.{
  Puppy, Code, done, neg_eproto, neg_enodata, errno, receive, say, unhandled_packet, device_reports,
  incomplete_send,
}
use libpuppy.Transport.{send_tf_packet}

abbrev pub direction_put : ℕ
direction_put = 0

pub data Phase : Type 0 where
  start transfer end finished : Phase

-- `content` is the source file, `pos` its file offset, and `source` holds the answers of `read` to
-- come: `none` is -1, and so is the end of the sequence; `some k` gives `k` bytes, if as many were
-- asked for and remain. `stamp` is what `time_to_tfdt` makes of the file's modification time.
pub record Upload : Type 0 where
  pub puppy : Puppy
  pub phase : Phase
  pub byte_count : ℕ
  pub file_size : ℕ
  pub stamp : TfDatetime
  pub name : CString
  pub content : List ℕ
  pub pos : ℕ
  pub source : List (Option ℕ)

pub data Step : Type 0 where
  next : Upload → Step
  exit : Code → Upload → Step

-- `r = send_tf_packet(p->fd, &packet)`, which leaves the packet swapped.
unfoldable pub send_packet : Memory → Upload → ℕ × Upload
send_packet m s =
    let (r, wire, usb) = send_tf_packet (s.puppy.usb) m in
    (r, record s { puppy = record (s.puppy) { usb = usb; packet = wire } })

-- The result of `send_tf_packet` is never negative, so the tests `r < 0` of START and END have no
-- case.
unfoldable pub start_packet : Upload → Memory
start_packet s =
    let m1 = put_u16 (s.puppy.packet) length_at (packet_head_size + typefile_size) in
    put_typefile (put_u32 m1 cmd_at data_hdd_file_start) data_at s.stamp s.file_size s.name

unfoldable pub on_start : Upload → Step
on_start s = next (record ((send_packet (start_packet s) s).1) { phase = transfer })

-- `sizeof(packet.data) - 9`
abbrev pub payload_size : ℕ
payload_size = maximum_packet_size - packet_head_size - 9

-- Four bytes less where the packet would fill a multiple of 512 bytes.
unfoldable pub adjusted : ℕ → ℕ
adjusted w =
    if ltb 4 w && clear_low_bit (packet_head_size + 8 + w + 1) % 0x200 == 0 then w - 4 else w

-- `lseek64(src, -4, SEEK_CUR)` goes with it.
unfoldable pub data_packet : Upload → List ℕ → Memory
data_packet s bytes =
    let m1 = write_range (s.puppy.packet) (data_at + 8) bytes in
    let m2 = put_u16 m1 length_at (packet_head_size + 8 + adjusted (length bytes)) in
    put_u64 (put_u32 m2 cmd_at data_hdd_file_data) data_at s.byte_count

-- The state before a packet of these bytes is sent: the counts, and END once all is sent.
unfoldable pub moved : Upload → List ℕ → Upload
moved s bytes =
    let w = adjusted (length bytes) in
    let byte_count = u64 (s.byte_count + w) in
    let phase : Phase = if leb s.file_size byte_count then end else transfer in
    record s { byte_count = byte_count; phase = phase; pos = s.pos + w }

-- The DATA case after `read` gave these bytes.
unfoldable pub send_data : Upload → List ℕ → Step
send_data s bytes =
    let w = adjusted (length bytes) in
    let m = data_packet s bytes in
    let s' = moved s bytes in
    let (r, sent) = send_packet m s' in
    if ltb 0 w
    then if ltb r w
      then exit neg_eproto (record sent { puppy = say incomplete_send sent.puppy })
      else next sent
    else next (record s' { puppy = record (s'.puppy) { packet = m } })

-- The DATA case after `read` gave -1: nothing is sent, and END is next.
unfoldable pub read_failed : Upload → Step
read_failed s =
    let m1 = put_u16 (s.puppy.packet) length_at (packet_head_size + 7) in
    let m2 = put_u64 (put_u32 m1 cmd_at data_hdd_file_data) data_at s.byte_count in
    next (record s {
      byte_count = u64 (s.byte_count + 2 ^ 64 - 1);
      phase = end;
      puppy = record (s.puppy) { packet = m2 };
    })

-- By the answer of `read`.
unfoldable pub read_source : List (Option ℕ) → Upload → Step
read_source [] s = read_failed s
read_source (none ∷ source) s = read_failed (record s { source = source })
read_source (some k ∷ source) s =
    send_data (record s { source = source }) (take (min k payload_size) (drop s.pos s.content))

unfoldable pub on_data : Upload → Step
unfolding read_source
on_data s = read_source s.source s

unfoldable pub end_packet : Upload → Memory
end_packet s =
    put_u32 (put_u16 (s.puppy.packet) length_at packet_head_size) cmd_at data_hdd_file_end

unfoldable pub on_end : Upload → Step
on_end s = next (record ((send_packet (end_packet s) s).1) { phase = finished })

-- The cases of SUCCESS.
unfoldable pub by_phase : Phase → Upload → Step
by_phase start s = on_start s
by_phase transfer s = on_data s
by_phase end s = on_end s
by_phase finished s = exit done s

-- The body of the loop.
unfoldable pub dispatch : Upload → Step
dispatch s =
    let cmd = get_u32 s.puppy.reply cmd_at in
    if cmd == success
    then by_phase s.phase s
    else if cmd == fail
    then exit neg_eproto
        (record s { puppy = say (device_reports (decode_error s.puppy.reply)) s.puppy })
    else next (record s { puppy = say unhandled_packet s.puppy })

-- One round of `while(0 < get_tf_packet(p->fd, &reply))`, by what was received.
unfoldable pub on_received : Option ℕ → Upload → Step
on_received none s = exit neg_eproto s
on_received (some n) s = dispatch s

unfoldable pub round : Upload → Step
unfolding on_received
round s = let (r, p) = receive s.puppy in on_received r (record s { puppy = p })

-- The loop, on fuel; `none` where that runs out.
unfoldable pub put_loop : ℕ → Upload → Option (Code × Upload)
put_loop zero s = none
put_loop (suc fuel) s = elim (round s) [ next t ↦ put_loop fuel t | exit code t ↦ some (code, t) ]

-- Each round reads at least one answer, so this is enough.
abbrev pub put_fuel : Puppy → ℕ
put_fuel p = suc (length p.usb.reads)

-- What the file system says of the source: it cannot be opened, or not be examined, or its size and
-- the stamp of its time.
pub data Source : Type 0 where
  not_opened not_examined : ℕ → Source
  examined : ℕ → TfDatetime → Source

abbrev pub new_upload : Puppy → ℕ → TfDatetime → CString → List ℕ → List (Option ℕ) → Upload
new_upload p size stamp name content source = record {
  puppy = p;
  phase = start;
  byte_count = 0;
  file_size = size;
  stamp = stamp;
  name = name;
  content = content;
  pos = 0;
  source = source;
}

-- The code, and the upload if one was begun; `none` where the request overruns its packet.
unfoldable pub puppy_hdd_file_put :
    Puppy
    → Memory
    → Source
    → List ℕ
    → List (Option ℕ)
    → CString
    → Option (Code × Option Upload × Puppy)
puppy_hdd_file_put p req (not_opened e) content source dst_path = some (errno e, none, p)
puppy_hdd_file_put p req (not_examined e) content source dst_path = some (errno e, none, p)
puppy_hdd_file_put p req (examined size stamp) content source dst_path =
    let started =
      elim (send_cmd_hdd_file_send p.usb req direction_put dst_path)
        as (λ _. Option (Code × Option Upload × Puppy)) [
          | none ↦ none
          | some (failed, u) ↦ some (neg_eproto, none, record p { usb = u })
          | some (count n, u) ↦
              let q = record p { usb = u } in
              elim (put_loop (put_fuel q) (new_upload q size stamp dst_path content source)) [
                | none ↦ none
                | some (code, s) ↦ some (code, some s, s.puppy)
              ]
        ] in
    if size == 0 then some (neg_enodata, none, p) else started
