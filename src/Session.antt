-- ===== src/Session.antt =====
-- What the functions of libpuppy.c share: `struct puppy`, the global packets and the result codes.
pub mod Frames
pub mod Progress
pub mod Served
use libpuppy.Base.{ℕ, Bool, true, false, Option, none, some, List, [], ◌∷◌, ◌++◌}
use libpuppy.Base.Memory.{Memory}
use libpuppy.Packet.{ErrorText}
use libpuppy.Requests.{Ret, failed, count}
use libpuppy.Usb.{Usb}
use libpuppy.Transport.{get_tf_packet}

-- The values of `error`: 0, the E_* constants and EPROTO.
pub data Error : Type 0 where
  no_error e_read_device e_not_tf5000pvr e_set_interface e_claim_interface : Error
  e_device_lock e_lock_file e_global_lock e_reset_device eproto : Error

-- What the functions return: 0, -EPROTO, -1, -ENODATA, or the `errno` of a system call.
pub data Code : Type 0 where
  done neg_eproto neg_one neg_enodata : Code
  errno : ℕ → Code

-- The lines that are printed.
pub data Message : Type 0 where
  rebooting ready_report cancelled unhandled_packet incomplete_send short_packet cannot_write :
      Message
  unexpected_packet : ℕ → Message
  device_reports : ErrorText → Message
  disk_sizes : ℕ → ℕ → Message

-- `struct puppy`, the connection, and the globals `reply` and `packet`. A descriptor is `none`
-- where it is -1.
pub record Puppy : Type 0 where
  pub lock_fd : Option ℕ
  pub fd : Option ℕ
  pub error : Error
  pub usb : Usb
  pub reply : Memory
  pub packet : Memory
  pub log : List Message

abbrev pub say : Message → Puppy → Puppy
say line p = record p { log = p.log ++ (line ∷ []) }

unfoldable pub is_ok : Error → Bool
is_ok no_error = true
is_ok _ = false

unfoldable pub puppy_ok : Puppy → Bool
unfolding is_ok
puppy_ok p = is_ok p.error

-- The status, and the state with the error cleared.
unfoldable pub puppy_status : Puppy → Bool × Puppy
unfolding is_ok
puppy_status p = (is_ok p.error, record p { error = no_error })

-- `get_tf_packet(p->fd, &reply)`
unfoldable pub receive : Puppy → Option ℕ × Puppy
receive p =
    let (r, reply, usb) = get_tf_packet p.usb p.reply in (r, record p { usb = usb; reply = reply })
