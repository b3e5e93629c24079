-- ===== src/PacketTrace.antt =====
-- `print_packet` of usb_io.c: a packet as it is traced, in characters.
pub mod Dump
use libpuppy.Base.{
  ℕ, zero, suc, ◌+◌, ◌-◌, ◌/◌, ◌%◌, ltb, leb, ◌==◌, ◌&&◌, ◌||◌, Bool, if◌then◌else◌, List, [], ◌∷◌,
  ◌++◌,
}
use libpuppy.Base.Memory.{Memory}
use libpuppy.Bytes.{get_u16}
use libpuppy.Packet.{length_at}

abbrev pub newline : ℕ
newline = 10

abbrev pub space : ℕ
space = 32

abbrev pub full_stop : ℕ
full_stop = 46

-- A digit of `%x`
unfoldable pub hex_character : ℕ → ℕ
hex_character d = if ltb d 10 then 48 + d else 87 + d

-- `fprintf(stderr, " %02x", byte)`
unfoldable pub hex_byte : ℕ → List ℕ
unfolding hex_character
hex_byte byte = space ∷ hex_character (byte / 16) ∷ hex_character (byte % 16) ∷ []

-- `isalnum` and `ispunct`, in the C locale.
abbrev pub between : ℕ → ℕ → ℕ → Bool
between low high ch = leb low ch && leb ch high

unfoldable pub is_alnum : ℕ → Bool
is_alnum ch = between 48 57 ch || (between 65 90 ch || between 97 122 ch)

unfoldable pub is_punct : ℕ → Bool
is_punct ch = between 33 47 ch || (between 58 64 ch || (between 91 96 ch || between 123 126 ch))

unfoldable pub shown_character : ℕ → ℕ
unfolding is_alnum is_punct
shown_character ch = if is_alnum ch || is_punct ch then ch else full_stop

-- The loops have `n` rounds to go and are at byte `i` of the packet `d`.
module _ (d : Memory) (prefix : List ℕ) where
  unfoldable pub header_loop : ℕ → ℕ → List ℕ
  unfolding hex_byte
  header_loop zero i = []
  header_loop (suc n) i = hex_byte (d i) ++ header_loop n (i + 1)

  -- A new line with the prefix, after the last of each `width` bytes.
  unfoldable pub line_end : ℕ → ℕ → List ℕ
  line_end width i = if i % width == width - 1 then newline ∷ prefix else []

  unfoldable pub hex_loop : ℕ → ℕ → List ℕ
  unfolding hex_byte line_end
  hex_loop zero i = []
  hex_loop (suc n) i = hex_byte (d i) ++ (line_end 32 i ++ hex_loop n (i + 1))

  unfoldable pub text_loop : ℕ → ℕ → List ℕ
  unfolding shown_character line_end
  text_loop zero i = []
  text_loop (suc n) i = shown_character (d i) ∷ (line_end 80 i ++ text_loop n (i + 1))

-- By `packet_trace`.
unfoldable pub print_packet : ℕ → Memory → List ℕ → List ℕ
unfolding header_loop hex_loop text_loop
print_packet zero d prefix = []
print_packet (suc zero) d prefix = prefix ++ (header_loop d prefix 8 0 ++ (newline ∷ []))
print_packet (suc (suc level)) d prefix =
    let pl = get_u16 d length_at in
    prefix
    ++ (hex_loop d prefix pl 0
        ++ (newline ∷ (prefix ++ (text_loop d prefix pl 0 ++ (newline ∷ [])))))
