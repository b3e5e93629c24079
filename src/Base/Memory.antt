-- ===== src/Base/Memory.antt =====
-- A region of memory as a function from offsets to bytes, and transfers of byte strings.
use Prim.Native.Nat.{ℕ, zero, suc, ◌+◌, ◌-◌, ◌≤◌, ◌<◌, ◌%◌, ◌/◌, ◌*◌, ◌^◌}
use mathlib.Core.Path.{◌≡◌, refl, ap, ap₂, ◌∙◌}
use mathlib.Core.Logic.{◌⊎◌}
use mathlib.Core.List.{List, [], ◌∷◌, ◌++◌}
use native.Mathlib.Omega.{arith}
use libpuppy.Base.Tests.{◌==◌, ltb, if◌then◌else◌}
use libpuppy.Base.Lists.{length, get_or, All}

abbrev pub Memory : Type 0
Memory = ℕ → ℕ

-- The conversions to the unsigned types of the source.
abbrev pub u8 : ℕ → ℕ
u8 n = n % 2 ^ 8

abbrev pub u16 : ℕ → ℕ
u16 n = n % 2 ^ 16

abbrev pub u32 : ℕ → ℕ
u32 n = n % 2 ^ 32

abbrev pub u64 : ℕ → ℕ
u64 n = n % 2 ^ 64

infixl 75 ◌<<<◌ ◌>>>◌
abbrev pub ◌<<<◌ : ℕ → ℕ → ℕ
x <<< k = x * 2 ^ k

abbrev pub ◌>>>◌ : ℕ → ℕ → ℕ
x >>> k = x / 2 ^ k

-- `n & ~1`
abbrev pub clear_low_bit : ℕ → ℕ
clear_low_bit n = n - n % 2

abbrev pub update : Memory → ℕ → ℕ → Memory
update m a v i = if i == a then v else m i

-- The `n` bytes from `a` on.
abbrev pub read_range : Memory → ℕ → ℕ → List ℕ
read_range m a zero = []
read_range m a (suc n) = m a ∷ read_range m (a + 1) n

-- `memcpy` of a byte string to `a`.
abbrev pub write_range : Memory → ℕ → List ℕ → Memory
write_range m a xs i =
    if ltb i a then m i else if ltb i (a + length xs) then get_or xs (i - a) 0 else m i

abbrev pub IsBytes : Memory → Type 0
IsBytes m = (i : ℕ) → m i < 256

pub update-IsBytes : {m : Memory} (a v : ℕ) → v < 256 → IsBytes m → IsBytes (update m a v)
update-IsBytes a v hv h i = ground (arith, h i)

get_or-lt : (xs : List ℕ) (i : ℕ) → All (λ x. x < 256) xs → get_or xs i 0 < 256
get_or-lt [] i h = omega arith
get_or-lt (x ∷ xs) zero h = h.0
get_or-lt (x ∷ xs) (suc i) h = get_or-lt xs i h.1

pub write_range-IsBytes :
    {m : Memory} (a : ℕ) (xs : List ℕ)
    → All (λ x. x < 256) xs
    → IsBytes m
    → IsBytes (write_range m a xs)
write_range-IsBytes a xs hx h i = ground (arith, h i, get_or-lt xs (i - a) hx)

pub length-read_range : (m : Memory) (a n : ℕ) → length (read_range m a n) ≡ n
length-read_range m a zero = refl
length-read_range m a (suc n) = ap suc (length-read_range m (a + 1) n)

pub All-read_range : {m : Memory} (a n : ℕ) → IsBytes m → All (λ x. x < 256) (read_range m a n)
All-read_range a zero h = tt
All-read_range a (suc n) h = (h a, All-read_range (a + 1) n h)

pub get_or-read_range : (m : Memory) (a n i : ℕ) → i < n → get_or (read_range m a n) i 0 ≡ m (a + i)
get_or-read_range m a zero i h = absurd (omega arith)
get_or-read_range m a (suc n) zero h = ap m (omega arith)
get_or-read_range m a (suc n) (suc i) h =
    get_or-read_range m (a + 1) n i (omega arith) ∙ ap m (omega arith)

-- A write below or past an address leaves it alone.
pub write_range_outside :
    (m : Memory) (a : ℕ) (xs : List ℕ) (i : ℕ)
    → (i < a) ⊎ (a + length xs ≤ i)
    → write_range m a xs i ≡ m i
write_range_outside m a xs i h = ground arith

-- What was copied from another region is read there at the same distance.
pub write_range-read_range :
    (m s : Memory) (a b n i : ℕ) → i < n → write_range m a (read_range s b n) (a + i) ≡ s (b + i)
write_range-read_range m s a b n i h = ground (
  arith,
  length-read_range s b n,
  get_or-read_range s b n i,
  ap (λ k. get_or (read_range s b n) k 0) (cancel a i),
)
  where
    cancel : (a i : ℕ) → a + i - a ≡ i
    cancel a i = omega arith

-- Equal bytes give equal ranges.
pub read_range_ext :
    (m s : Memory) (a n : ℕ)
    → ((i : ℕ) → a ≤ i → i < a + n → m i ≡ s i)
    → read_range m a n ≡ read_range s a n
read_range_ext m s a zero h = refl
read_range_ext m s a (suc n) h =
    ap₂ ◌∷◌ (h a (omega arith) (omega arith))
      (read_range_ext m s (a + 1) n (λ i p q. h i (omega arith) (omega arith)))

pub read_range_eq :
    (m : Memory) (a : ℕ) (xs : List ℕ)
    → ((i : ℕ) → i < length xs → m (a + i) ≡ get_or xs i 0)
    → read_range m a (length xs) ≡ xs
read_range_eq m a [] h = refl
read_range_eq m a (x ∷ xs) h =
    ap₂ ◌∷◌ (ap m (omega arith) ∙ h 0 (omega arith))
      (read_range_eq m (a + 1) xs (λ i p. ap m (omega arith) ∙ h (suc i) (omega arith)))

-- A byte string reads back where it was written.
pub read_range-write_range :
    (m : Memory) (a : ℕ) (xs : List ℕ) → read_range (write_range m a xs) a (length xs) ≡ xs
read_range-write_range m a xs =
    read_range_eq (write_range m a xs) a xs
      λ i p. ground (arith, ap (λ k. get_or xs k 0) (cancel i))
  where
    cancel : (i : ℕ) → a + i - a ≡ i
    cancel i = omega arith

-- Adjacent ranges.
pub read_range-append :
    (m : Memory) (a j k : ℕ) → read_range m a j ++ read_range m (a + j) k ≡ read_range m a (j + k)
read_range-append m a zero k = ap₂ (read_range m) (omega arith) (omega arith)
read_range-append m a (suc j) k =
    ap (◌∷◌ (m a)) (ap (λ b. read_range m (a + 1) j ++ read_range m b k) next)
    ∙ ap (◌∷◌ (m a)) (read_range-append m (a + 1) j k)
    ∙ ap (read_range m a) total
  where
    next : a + suc j ≡ a + 1 + j
    next = omega arith

    total : suc (j + k) ≡ suc j + k
    total = omega arith
