-- ===== src/Usb.antt =====
-- The bulk transfers of usb_io.c. What the kernel answers to each USBDEVFS_BULK ioctl is given
-- as two sequences, one for each endpoint; the answers may be any.
pub mod Write
pub mod Read
pub mod Willing
use libpuppy.Base.{
  ℕ, ◌+◌, ◌-◌, ◌%◌, min, Bool, ◌&&◌, ltb, ◌==◌, if◌then◌else◌, Option, none, some, List, [], ◌∷◌,
  ◌++◌, length, take,
}
use libpuppy.Base.Memory.{Memory, read_range, write_range}

-- The warnings that matter to a reader of the log.
pub data Warning : Type 0 where
  modulo_0x200 : ℕ → Warning
  crc_mismatch : ℕ → ℕ → Warning

-- `reads` and `writes` are the answers still to come: `none` is a negative return of the ioctl, and
-- so is the end of the sequence. `some k` on the writing side offers to take `k` bytes. `sent`
-- holds what each ioctl that succeeded has handed to the device.
pub record Usb : Type 0 where
  pub reads : List (Option (List ℕ))
  pub writes : List (Option ℕ)
  pub sent : List (List ℕ)
  pub warnings : List Warning
  pub ignore_crc : Bool

-- MAX_READ and MAX_WRITE
abbrev pub max_transfer : ℕ
max_transfer = 4096

-- Where a run of the writing loop ends: the return value, the answers left and the transfers.
pub record Wrote : Type 0 where
  pub count : ℕ
  pub rest : List (Option ℕ)
  pub transfers : List (List ℕ)

-- `do { ... } while((ret > 0) && (sent < length))`. An ioctl transfers no more than it was given.
unfoldable pub write_loop : Memory → ℕ → List (Option ℕ) → ℕ → List (List ℕ) → Wrote
write_loop bytes length [] sent done = record { count = sent; rest = []; transfers = done }
write_loop bytes length (none ∷ answers) sent done = record {
  count = sent;
  rest = answers;
  transfers = done;
}
write_loop bytes length (some k ∷ answers) sent done =
    let bulk_len = min (length - sent) max_transfer in
    let ret = min k bulk_len in
    let done' = done ++ (read_range bytes sent ret ∷ []) in
    let again = write_loop bytes length answers (sent + ret) done' in
    if ltb 0 ret && ltb (sent + ret) length
    then again
    else record { count = sent + ret; rest = answers; transfers = done' }

unfoldable pub warn_if : Bool → Warning → List Warning → List Warning
warn_if test w ws = if test then ws ++ (w ∷ []) else ws

-- The return value, which starts from 0 and only grows, and the new state.
unfoldable pub usb_bulk_write : Usb → Memory → ℕ → ℕ × Usb
usb_bulk_write u bytes length =
    let run = write_loop bytes length u.writes 0 u.sent in
    (
      run.count,
      record u {
        writes = run.rest;
        sent = run.transfers;
        warnings = warn_if (length % 0x200 == 0) (modulo_0x200 length) u.warnings;
      },
    )

pub record Retrieved : Type 0 where
  pub count : ℕ
  pub rest : List (Option (List ℕ))
  pub bytes : Memory

-- `do { ... } while((ret > 0) && (retrieved < size) && (ret == requested))`. An ioctl delivers no
-- more than was requested.
unfoldable pub read_loop : ℕ → List (Option (List ℕ)) → ℕ → Memory → Retrieved
read_loop size [] retrieved bytes = record { count = retrieved; rest = []; bytes = bytes }
read_loop size (none ∷ answers) retrieved bytes = record {
  count = retrieved;
  rest = answers;
  bytes = bytes;
}
read_loop size (some xs ∷ answers) retrieved bytes =
    let requested = min (size - retrieved) max_transfer in
    let got = take requested xs in
    let ret = length got in
    let bytes' = write_range bytes retrieved got in
    let again = read_loop size answers (retrieved + ret) bytes' in
    if ltb 0 ret && (ltb (retrieved + ret) size && ret == requested)
    then again
    else record { count = retrieved + ret; rest = answers; bytes = bytes' }

unfoldable pub usb_bulk_read : Usb → Memory → ℕ → ℕ × Memory × Usb
usb_bulk_read u bytes size =
    let run = read_loop size u.reads 0 bytes in
    (run.count, run.bytes, record u { reads = run.rest })
