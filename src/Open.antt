-- ===== src/Open.antt =====
-- `puppy_open` and `puppy_done` of libpuppy.c. The answers of the kernel are a parameter.
pub mod Descriptors
use libpuppy.Base.{
  ℕ, Bool, true, false, ◌&&◌, ◌==◌, if◌then◌else◌, Option, none, some, List, [], ◌∷◌, ◌++◌,
}
use libpuppy.Requests.{CString}
use libpuppy.Session.{
  Puppy, Error, no_error, e_read_device, e_not_tf5000pvr, e_set_interface, e_claim_interface,
  e_device_lock, e_lock_file, e_global_lock, e_reset_device,
}

-- What a run of `puppy_open` is answered: descriptors are `none` where `open` fails, the
-- tests are whether a call succeeds, and the device descriptor is its vendor and product. A call
-- that gets the descriptor of the device as it is then answers by it.
pub record System : Type 0 where
  pub open_lock : Option ℕ
  pub lock_shared : Bool
  pub open_device : CString → Option ℕ
  pub lock_exclusive : Bool
  pub descriptor : Option (ℕ × ℕ)
  pub reset : Bool
  pub claim : Bool
  pub set_interface : Option ℕ → Bool

-- The state and the descriptors that were closed.
pub record Opening : Type 0 where
  pub puppy : Puppy
  pub closed : List ℕ

-- `close(fd)`, which does nothing for -1.
abbrev pub close : Option ℕ → List ℕ → List ℕ
close none closed = closed
close (some fd) closed = closed ++ (fd ∷ [])

-- `close(p->lockFd); p->lockFd = -1;`
abbrev pub close_lock : Opening → Opening
close_lock s = record {
  puppy = record (s.puppy) { lock_fd = none };
  closed = close s.puppy.lock_fd s.closed;
}

-- `close(p->fd); p->fd = -1;`
abbrev pub close_device : Opening → Opening
close_device s = record {
  puppy = record (s.puppy) { fd = none };
  closed = close s.puppy.fd s.closed;
}

abbrev pub with_error : Error → Opening → Opening
with_error e s = record s { puppy = record (s.puppy) { error = e } }

-- Both descriptors are closed, and the error is noted.
abbrev pub abandon : Error → Opening → Opening
abandon e s = with_error e (close_device (close_lock s))

-- The path that is opened; `findToppy` is never called, since this is never NULL.
unfoldable pub device_path : Option CString → Option CString → CString → CString
device_path (some path) puppy_variable default_path = path
device_path none (some path) default_path = path
device_path none none default_path = default_path

unfoldable pub is_toppy : ℕ × ℕ → Bool
is_toppy (vendor, product) = vendor == 0x11db && product == 0x1000

-- USBDEVFS_SETINTERFACE
unfoldable pub choose_setting : System → Opening → Opening
choose_setting sys s = if sys.set_interface s.puppy.fd then s else abandon e_set_interface s

-- USBDEVFS_CLAIMINTERFACE: a failure does not return.
unfoldable pub claim_interface : System → Opening → Opening
unfolding choose_setting
claim_interface sys s = choose_setting sys (if sys.claim then s else abandon e_claim_interface s)

-- USBDEVFS_RESET
unfoldable pub reset_device : System → Opening → Opening
unfolding claim_interface
reset_device sys s =
    let ready = claim_interface sys s in if sys.reset then ready else abandon e_reset_device s

-- `read_device_descriptor` and `isToppy`, by the descriptor that is read.
unfoldable pub identify : Option (ℕ × ℕ) → System → Opening → Opening
unfolding reset_device is_toppy
identify none sys s = abandon e_read_device s
identify (some desc) sys s =
    let ready = reset_device sys s in if is_toppy desc then ready else abandon e_not_tf5000pvr s

-- By what opening the device gives.
unfoldable pub use_device : Option ℕ → System → Opening → Opening
unfolding identify
use_device none sys s = with_error e_read_device (close_lock s)
use_device (some fd) sys s =
    let opened = record s { puppy = record (s.puppy) { fd = some fd } } in
    let ready = identify sys.descriptor sys opened in
    if sys.lock_exclusive then ready else abandon e_device_lock opened

-- By what opening the lock file gives.
unfoldable pub use_lock : Option ℕ → System → CString → Opening → Opening
unfolding use_device
use_lock none sys path s = with_error e_lock_file s
use_lock (some fd) sys path s =
    let opened = record s { puppy = record (s.puppy) { lock_fd = some fd } } in
    let ready = use_device (sys.open_device path) sys opened in
    if sys.lock_shared then ready else close_lock (with_error e_global_lock opened)

-- `p` has the globals; its descriptors and its error are set anew.
unfoldable pub puppy_open : System → Puppy → Option CString → Option CString → CString → Opening
unfolding use_lock device_path
puppy_open sys p path puppy_variable default_path =
    let p0 = record p { lock_fd = none; fd = none; error = no_error } in
    use_lock sys.open_lock sys (device_path path puppy_variable default_path)
      (record { puppy = p0; closed = [] })

-- What `puppy_done` does: the descriptors that it closes, in order, and whether it unlinks the lock
-- file and releases the structure.
pub record Finishing : Type 0 where
  pub released : List ℕ
  pub unlinked : Bool
  pub freed : Bool

-- By `p->fd`.
unfoldable pub finish : Option ℕ → Option ℕ → Finishing
finish none lock_fd = record { released = []; unlinked = false; freed = false }
finish (some fd) lock_fd = record {
  released = close lock_fd (fd ∷ []);
  unlinked = true;
  freed = true;
}

unfoldable pub puppy_done : Puppy → Finishing
unfolding finish
puppy_done p = finish p.fd p.lock_fd
