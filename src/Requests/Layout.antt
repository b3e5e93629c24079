-- ===== src/Requests/Layout.antt =====
-- What the packet of a request holds when it is ready to be sent.
use libpuppy.Base.{
  ℕ, ◌+◌, ◌-◌, ◌%◌, ◌^◌, ◌≤◌, ◌<◌, ◌≡◌, inl, refl, sym, ap, ◌∙◌, arith, List, [], ◌∷◌, ◌++◌, length,
  length-append, get_or, get_or-append_left, get_or-append_right, All, All-append_one,
}
use libpuppy.Base.Memory.{
  Memory, IsBytes, u16, u32, read_range, write_range, write_range-IsBytes, write_range_outside,
  read_range_eq,
}
use native.Mathlib.Decide.{dec_lt}
use libpuppy.Bytes.{get_u16, get_u32, put_u16, put_u32}
use libpuppy.Bytes.Value.{get_u16_ext, get_u32_ext}
use libpuppy.Bytes.RoundTrip.{
  get_u16-put_u16, get_u32-put_u32, put_u32-at, put_u16-IsBytes, put_u32-IsBytes,
}
use libpuppy.Packet.{length_at, cmd_at, data_at}
use libpuppy.Requests.{CString, Request, ready, strcpy, header, even_size}

-- A packet of bytes is ready, with this length field, command and data.
pub record IsReady (r : Request) (size cmd : ℕ) (payload : List ℕ) : Type 0 where
  pub packet : Memory
  pub built : r ≡ ready packet
  pub bytes : IsBytes packet
  pub size_field : get_u16 packet length_at ≡ size
  pub cmd_field : get_u32 packet cmd_at ≡ cmd
  pub payload_field : read_range packet data_at (length payload) ≡ payload

abbrev pub AreBytes : CString → Type 0
AreBytes = All (λ x. x < 256)

-- The terminated string.
abbrev pub terminated : CString → List ℕ
terminated s = s ++ (0 ∷ [])

pub terminated-bytes : (s : CString) → AreBytes s → AreBytes (terminated s)
terminated-bytes s h = All-append_one (λ x. x < 256) s 0 h (omega arith)

pub length-terminated : (s : CString) → length (terminated s) ≡ length s + 1
length-terminated s = length-append s (0 ∷ [])

module _ (req : Memory) (size cmd : ℕ) where
  header-at : (i : ℕ) → header req size cmd i ≡ put_u32 (put_u16 req length_at size) cmd_at cmd i
  unfolding header
  header-at i = refl

  pub header-IsBytes : IsBytes req → IsBytes (header req size cmd)
  unfolding header
  header-IsBytes h =
      put_u32-IsBytes (put_u16 req length_at size) cmd_at cmd (put_u16-IsBytes req length_at size h)

  -- What agrees with the header below the data has its fields.
  module _ (m : Memory) (same : (i : ℕ) → i < data_at → m i ≡ header req size cmd i) where
    size_of : get_u16 m length_at ≡ u16 size
    unfolding header
    size_of =
        get_u16_ext m (put_u16 req length_at size) 0
          (same 0 (omega arith)
            ∙ ground (arith, put_u32-at (put_u16 req length_at size) cmd_at cmd 0))
          (same 1 (omega arith)
            ∙ ground (arith, put_u32-at (put_u16 req length_at size) cmd_at cmd 1))
        ∙ get_u16-put_u16 req length_at size

    cmd_of : get_u32 m cmd_at ≡ u32 cmd
    unfolding header
    cmd_of =
        get_u32_ext m (header req size cmd) 4 (same 4 (omega arith)) (same 5 (omega arith))
          (same 6 (omega arith)) (same 7 (omega arith))
        ∙ get_u32-put_u32 (put_u16 req length_at size) cmd_at cmd

pub strcpy-fits :
    (m : Memory) (a : ℕ) (s : CString) (next : Memory → Request)
    → a + (length s + 1) ≤ 65535
    → strcpy m a s next ≡ next (write_range m a (terminated s))
unfolding strcpy
strcpy-fits m a s next h = ground arith

-- The last string of a request, behind the bytes `pre` that are already in the data.
module _ (req base : Memory) (size cmd : ℕ) (pre : List ℕ) (path : CString) where
  abbrev path_packet : Memory
  path_packet = write_range base (data_at + length pre) (terminated path)

  module _ (kept : (i : ℕ) → i < length pre → base (data_at + i) ≡ get_or pre i 0) where
    payload_at :
        (i : ℕ)
        → i < length (pre ++ terminated path)
        → path_packet (data_at + i) ≡ get_or (pre ++ terminated path) i 0
    payload_at i h = elim (dec_lt i (length pre)) [
      | yes p ↦
          write_range_outside base (data_at + length pre) (terminated path) (data_at + i)
            (inl (omega arith))
          ∙ kept i p
          ∙ sym (get_or-append_left pre (terminated path) i 0 p)
      | no p ↦
          ground (arith, length-append pre (terminated path), skip (length pre) i)
          ∙ sym (get_or-append_right pre (terminated path) i (i - length pre) 0 (omega arith))
    ]
      where
        skip :
            (k i : ℕ)
            → get_or (terminated path) (data_at + i - (data_at + k)) 0
              ≡ get_or (terminated path) (i - k) 0
        skip k i = ap (λ j. get_or (terminated path) j 0) (omega arith)

    pub last_string :
        ((i : ℕ) → i < data_at → base i ≡ header req size cmd i)
        → IsBytes base
        → AreBytes path
        → size < 2 ^ 16
        → cmd < 2 ^ 32
        → data_at + length pre + (length path + 1) ≤ 65535
        → IsReady (strcpy base (data_at + length pre) path ready) size cmd (pre ++ terminated path)
    last_string headed mem chars small_size small_cmd fits = record {
      packet = path_packet;
      built = strcpy-fits base (data_at + length pre) path ready fits;
      bytes =
          write_range-IsBytes (data_at + length pre) (terminated path) (terminated-bytes path chars)
            mem;
      size_field = size_of req size cmd path_packet below ∙ omega arith;
      cmd_field = cmd_of req size cmd path_packet below ∙ omega arith;
      payload_field = read_range_eq path_packet data_at (pre ++ terminated path) payload_at;
    }
      where
        below : (i : ℕ) → i < data_at → path_packet i ≡ header req size cmd i
        below i h =
            write_range_outside base (data_at + length pre) (terminated path) i (inl (omega arith))
            ∙ headed i h

-- The size of a frame for `n` bytes, rounded up to an even number.
abbrev pub round_up : ℕ → ℕ
round_up n = n + n % 2

pub even_size-round_up : (n : ℕ) → n < 65535 → even_size n ≡ round_up n
even_size-round_up n h = omega arith
