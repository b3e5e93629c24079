-- ===== src/Session/Progress.antt =====
-- Receiving makes progress: each packet uses up an answer of the reading side.
use libpuppy.Base.{refl, ℕ, ◌<◌, ◌≡◌, some, length}
use libpuppy.Session.{Puppy, receive}
use libpuppy.Transport.Receive.{get_tf_packet-rest}

pub receive-rest :
    (p : Puppy) (r : ℕ)
    → (receive p).0 ≡ some r
    → length (receive p).1.usb.reads < length p.usb.reads
unfolding receive
receive-rest p r h = get_tf_packet-rest p.usb p.reply r h

-- Receiving leaves the error as it is.
pub receive-error : (p : Puppy) → (receive p).1.error ≡ p.error
unfolding receive
receive-error p = refl
