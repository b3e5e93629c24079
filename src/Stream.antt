-- ===== src/Stream.antt =====
-- A file on the wire: the START packet, the DATA packets with its pieces, and the END packet, as
-- `puppy_hdd_file_put` of libpuppy.c sends them and `puppy_hdd_file_get` receives them.
use libpuppy.Base.{ℕ, ◌+◌, ◌≡◌, List, [], ◌∷◌, ◌++◌, Option, length, flatten, map, ◌≤◌}
use libpuppy.Base.Memory.{Memory, read_range}
use libpuppy.Bytes.{get_u16, get_u32}
use libpuppy.Packet.{length_at, cmd_at}
use libpuppy.Packet.Commands.{data_hdd_file_start, data_hdd_file_data, data_hdd_file_end}
use libpuppy.Packet.Typefile.{typefile_size}
use libpuppy.Session.Frames.{IsPacket}
use libpuppy.Transport.RoundTrip.{frame_answers}

-- A packet with the piece of the file that it is to carry.
pub record Piece : Type 0 where
  pub packet : Memory
  pub chunk : List ℕ

-- A DATA packet carries its piece behind the offset.
pub record IsData (x : Piece) : Type 0 where
  pub sound : IsPacket x.packet
  pub cmd : get_u32 (x.packet) cmd_at ≡ data_hdd_file_data
  pub size : get_u16 (x.packet) length_at ≡ 16 + length x.chunk
  pub payload : read_range (x.packet) 16 (length x.chunk) ≡ x.chunk

-- A START packet has room for a descriptor.
pub record IsStart (p : Memory) : Type 0 where
  pub sound : IsPacket p
  pub code : get_u32 p cmd_at ≡ data_hdd_file_start
  pub room : 8 + typefile_size ≤ get_u16 p length_at

-- An END packet has only a header.
pub record IsEnd (p : Memory) : Type 0 where
  pub sound : IsPacket p
  pub code : get_u32 p cmd_at ≡ data_hdd_file_end

-- The bytes of all pieces.
abbrev pub contents : List Piece → List ℕ
contents xs = flatten (map (λ x. x.chunk) xs)

-- The answers of a device that delivers these packets, and then others.
abbrev pub delivered : List Piece → List (Option (List ℕ)) → List (Option (List ℕ))
delivered [] more = more
delivered (x ∷ xs) more = frame_answers x.packet ++ delivered xs more
