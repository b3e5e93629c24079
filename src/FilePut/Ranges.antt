-- ===== src/FilePut/Ranges.antt =====
-- The parts of the source file that the rounds of an upload send.
use libpuppy.Base.{
  ◌⊎◌, none, min, refl, sym, ◌∙◌, ap, append-nil, drop, some, zero, [], arith, suc, ◌++◌, ◌+◌, ◌∷◌,
  Option, length, take, ◌≡◌, ◌≤◌, List, ℕ,
}
use libpuppy.FilePut.{Puppy, Upload, Step, next, exit, adjusted, payload_size, on_data, data_packet}
use libpuppy.FilePut.Packets.{adjusted_lem}
use libpuppy.Base.Memory.{Memory}
use libpuppy.Usb.{Usb}
use libpuppy.Transport.{send_tf_packet}
use libpuppy.FilePut.Carried.{payload_of}

-- What `read` gives in state DATA, and nothing where it fails.
abbrev pub bytes_read : List (Option ℕ) → Upload → List ℕ
bytes_read [] s = []
bytes_read (none ∷ source) s = []
bytes_read (some k ∷ source) s = take (min k payload_size) (drop s.pos s.content)

-- A round in state DATA: the packet that it built, and the connection before it and after it.
pub record Round : Type 0 where
  pub packet : Memory
  pub before : Usb
  pub after : Usb

-- The round sent its packet, or nothing, and then its packet carries nothing.
abbrev pub IsPosted : Round → Type 0
IsPosted x =
    (x.after ≡ (send_tf_packet x.before x.packet).2)
    ⊎ ((payload_of x.packet ≡ []) × (x.after ≡ x.before))

-- Rounds in state DATA, each after a reply that leaves one of these connections, and the state that
-- they lead to. A round that ends the upload ends them.
unfoldable pub data_rounds : List Puppy → Upload → List Round × Upload
data_rounds [] s = ([], s)
data_rounds (p ∷ ps) s =
    let u = record s { puppy = p } in
    elim (on_data u) [
      | exit code t ↦ ([], u)
      | next t ↦
          let (xs, last) = data_rounds ps t in
          (
            record {
              packet = data_packet u (bytes_read u.source u);
              before = p.usb;
              after = t.puppy.usb;
            }
                ∷ xs,
            last,
          )
    ]

-- The packets of these rounds.
abbrev pub built : List Round → List Memory
built [] = []
built (x ∷ xs) = x.packet ∷ built xs

abbrev round_to : Upload → List ℕ → Upload → Round
round_to s bytes t = record {
  packet = data_packet s bytes;
  before = s.puppy.usb;
  after = t.puppy.usb;
}

-- A step that goes on is past the bytes that its packet carries.
abbrev IsMoved : Upload → List ℕ → Step → Type 0
IsMoved s bytes (exit code t) = Unit
IsMoved s bytes (next t) =
    (t.pos ≡ s.pos + adjusted (length bytes))
    × (t.content ≡ s.content)
    × IsPosted (round_to s bytes t)

pub take-nil : (n : ℕ) → take {A = ℕ} n [] ≡ []
take-nil zero = refl
take-nil (suc n) = refl

take-take : (k n : ℕ) (xs : List ℕ) → k ≤ length (take n xs) → take k (take n xs) ≡ take k xs
take-take zero n xs h = refl
take-take (suc k) zero xs h = absurd (omega arith)
take-take (suc k) (suc n) [] h = refl
take-take (suc k) (suc n) (x ∷ xs) h = ap (◌∷◌ x) (take-take k n xs (omega arith))

take-drop : (p w : ℕ) (xs : List ℕ) → take p xs ++ take w (drop p xs) ≡ take (p + w) xs
take-drop zero w xs = ap (λ n. take n xs) (omega arith)
take-drop (suc p) w [] = take-nil w ∙ sym (take-nil (suc p + w))
take-drop (suc p) w (x ∷ xs) =
    ap (◌∷◌ x) (take-drop p w xs) ∙ ap (λ n. take n (x ∷ xs)) {x = suc (p + w)} (omega arith)

no_range :
    (s : Upload)
    → take s.pos s.content ++ take {A = ℕ} (adjusted 0) [] ≡ take (s.pos + adjusted 0) s.content
unfolding adjusted
no_range s =
    let same : s.pos ≡ s.pos + adjusted 0 = omega arith in
    append-nil (take s.pos s.content) ∙ ap (λ n. take n s.content) same

-- The bytes that a round counts are the next ones of the file.
pub next_range :
    (source : List (Option ℕ)) (s : Upload)
    → let bytes = bytes_read source s in
      take s.pos s.content ++ take (adjusted (length bytes)) bytes
      ≡ take (s.pos + adjusted (length bytes)) s.content
next_range [] s = no_range s
next_range (none ∷ source) s = no_range s
next_range (some k ∷ source) s =
    let n = min k payload_size in
    let bytes = take n (drop s.pos s.content) in
    ap (λ xs. take s.pos s.content ++ xs)
      (take-take (adjusted (length bytes)) n (drop s.pos s.content) (adjusted_lem (length bytes)).0)
    ∙ take-drop s.pos (adjusted (length bytes)) s.content
