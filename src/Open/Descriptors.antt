-- ===== src/Open/Descriptors.antt =====
-- What becomes of the descriptors that `puppy_open` opens.
use libpuppy.Base.{
  ℕ, ◌≡◌, ◌≢◌, ◌⊎◌, refl, if◌then◌else◌, Bool, true, false, Option, none, some, List, [], ◌∷◌, inl,
  inr, Bool-cases,
}
use libpuppy.Requests.{CString}
use libpuppy.Session.{
  Puppy, Error, no_error, e_read_device, e_not_tf5000pvr, e_set_interface, e_device_lock,
  e_lock_file, e_global_lock, e_reset_device, e_claim_interface, puppy_ok, is_ok,
}
use libpuppy.Open.{
  System, Opening, device_path, puppy_open, puppy_done, use_lock, use_device, identify,
  reset_device, claim_interface, choose_setting, finish, is_toppy,
}

-- The descriptors that the system gives, in the order in which they are closed.
abbrev pub given : Option ℕ → Bool → Option ℕ → List ℕ
given none shared fd = []
given (some lock_fd) false fd = lock_fd ∷ []
given (some lock_fd) true none = lock_fd ∷ []
given (some lock_fd) true (some fd) = lock_fd ∷ fd ∷ []

-- An open puppy holds both descriptors, and `puppy_done` closes them.
pub record IsOpen (s : Opening) : Type 0 where
  pub ok : puppy_ok s.puppy ≡ true
  pub device : ℕ
  pub lock : ℕ
  pub has_device : s.puppy.fd ≡ some device
  pub has_lock : s.puppy.lock_fd ≡ some lock
  pub kept : s.closed ≡ []
  pub released : (puppy_done s.puppy).released ≡ device ∷ lock ∷ []

-- A puppy that failed to open holds none, these were closed, and the error is not
-- E_CLAIM_INTERFACE.
pub record IsAbandoned (fds : List ℕ) (s : Opening) : Type 0 where
  pub failed : puppy_ok s.puppy ≡ false
  pub no_device : s.puppy.fd ≡ none
  pub no_lock : s.puppy.lock_fd ≡ none
  pub all_closed : s.closed ≡ fds
  pub not_claim : s.puppy.error ≢ e_claim_interface

abbrev pub Settled : List ℕ → Opening → Type 0
Settled fds s = IsOpen s ⊎ IsAbandoned fds s

gave_up :
    (p : Puppy) (fds : List ℕ) (e : Error)
    → is_ok e ≡ false
    → e ≢ e_claim_interface
    → IsAbandoned fds
        (record { puppy = record p { lock_fd = none; fd = none; error = e }; closed = fds })
unfolding puppy_ok
gave_up p fds e bad other = record {
  failed = bad;
  no_device = refl;
  no_lock = refl;
  all_closed = refl;
  not_claim = other;
}

module _ (sys : System) (refused : sys.set_interface none ≡ false) where
  -- Both descriptors are open and there is no error.
  module _ (p : Puppy) (lock fd : ℕ) where
    abbrev opened : Opening
    opened = record {
      puppy = record p { lock_fd = some lock; fd = some fd; error = no_error };
      closed = [];
    }

    abbrev both : List ℕ
    both = lock ∷ fd ∷ []

    is_open : IsOpen opened
    unfolding puppy_ok puppy_done is_ok finish
    is_open = record {
      ok = refl;
      device = fd;
      lock = lock;
      has_device = refl;
      has_lock = refl;
      kept = refl;
      released = refl;
    }

    choose_setting-Settled : Settled both (choose_setting sys opened)
    unfolding choose_setting is_ok
    choose_setting-Settled = elim (Bool-cases (sys.set_interface (some fd))) [
      | inl e ↦ rw e (inl is_open)
      | inr e ↦ rw e (inr (gave_up p both e_set_interface refl (λ h. cc)))
    ]

    claim_interface-Settled : Settled both (claim_interface sys opened)
    unfolding claim_interface choose_setting is_ok
    claim_interface-Settled = elim (Bool-cases sys.claim) [
      | inl e ↦ rw e choose_setting-Settled
      | inr e ↦ rw (e, refused) (inr (gave_up p both e_set_interface refl (λ h. cc)))
    ]

    reset_device-Settled : Settled both (reset_device sys opened)
    unfolding reset_device is_ok
    reset_device-Settled = elim (Bool-cases sys.reset) [
      | inl e ↦ rw e claim_interface-Settled
      | inr e ↦ rw e (inr (gave_up p both e_reset_device refl (λ h. cc)))
    ]

    identify-Settled : (descriptor : Option (ℕ × ℕ)) → Settled both (identify descriptor sys opened)
    unfolding identify is_ok
    identify-Settled none = inr (gave_up p both e_read_device refl (λ h. cc))
    identify-Settled (some desc) = elim (Bool-cases (is_toppy desc)) [
      | inl e ↦ rw e reset_device-Settled
      | inr e ↦ rw e (inr (gave_up p both e_not_tf5000pvr refl (λ h. cc)))
    ]

  -- The lock is open.
  module _ (p : Puppy) (lock : ℕ) where
    use_device-Settled :
        (device : Option ℕ)
        → Settled (given (some lock) true device) (
            use_device device sys (record {
              puppy = record p { lock_fd = some lock; fd = none; error = no_error };
              closed = [];
            }))
    unfolding use_device is_ok
    use_device-Settled none = inr (gave_up p (lock ∷ []) e_read_device refl (λ h. cc))
    use_device-Settled (some fd) =
        by_test sys.lock_exclusive (identify-Settled p lock fd sys.descriptor)
          (inr (gave_up p (both p lock fd) e_device_lock refl (λ h. cc)))
      where
        by_test :
            (test : Bool) {s t : Opening}
            → Settled (both p lock fd) s
            → Settled (both p lock fd) t
            → Settled (both p lock fd) (if test then s else t)
        by_test true hs ht = hs
        by_test false hs ht = ht

  use_lock-Settled :
      (p : Puppy) (path : CString) (lock : Option ℕ)
      → Settled (given lock sys.lock_shared (sys.open_device path)) (
          use_lock lock sys path (record {
            puppy = record p { lock_fd = none; fd = none; error = no_error };
            closed = [];
          }))
  unfolding use_lock is_ok
  use_lock-Settled p path none = inr (gave_up p [] e_lock_file refl (λ h. cc))
  use_lock-Settled p path (some lock) =
      by_test sys.lock_shared (use_device-Settled p lock (sys.open_device path))
        (inr (gave_up p (lock ∷ []) e_global_lock refl (λ h. cc)))
    where
      by_test :
          (test : Bool) {s t : Opening}
          → Settled (given (some lock) true (sys.open_device path)) s
          → Settled (given (some lock) false (sys.open_device path)) t
          → Settled (given (some lock) test (sys.open_device path)) (if test then s else t)
      by_test true hs ht = hs
      by_test false hs ht = ht

  -- Where USBDEVFS_SETINTERFACE fails on the descriptor -1, `puppy_open` ends in one of two ways. The
  -- puppy is fine: it holds a descriptor of the device and one of the lock file, nothing was closed,
  -- and `puppy_done` closes the two. Or it has an error, which is never E_CLAIM_INTERFACE: it holds
  -- no descriptor, and each that was opened was closed once, the lock file's first.
  pub puppy_open-Settled :
      (p : Puppy) (path variable : Option CString) (default_path : CString)
      → Settled
          (given sys.open_lock sys.lock_shared
            (sys.open_device (device_path path variable default_path)))
          (puppy_open sys p path variable default_path)
  unfolding puppy_open
  puppy_open-Settled p path variable default_path =
      use_lock-Settled p (device_path path variable default_path) sys.open_lock
