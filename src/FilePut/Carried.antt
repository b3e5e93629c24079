-- ===== src/FilePut/Carried.antt =====
-- What the DATA packets of an upload carry, read from the packets themselves.
use libpuppy.Base.{
  ℕ, ◌-◌, ◌≤◌, ◌≡◌, refl, ap, ap₂, ◌∙◌, arith, List, [], ◌∷◌, ◌++◌, length, take, map, All,
}
use libpuppy.Base.Memory.{Memory, read_range}
use libpuppy.Bytes.{get_u16, get_u32}
use libpuppy.Packet.{length_at, cmd_at}
use libpuppy.Packet.Commands.{data_hdd_file_data}
use libpuppy.Session.Served.{frame_bytes}
use libpuppy.FilePut.{Upload, adjusted, data_packet, payload_size}
use libpuppy.FilePut.Packets.{adjusted_lem, length_lem, cmd_lem, payload_lem}
use libpuppy.FilePut.Stream.{read_range-take}
use libpuppy.FilePut.RoundTrip.{Sent, IsSent, sent_bytes}

-- The data behind the offset, as many bytes as the length field counts.
abbrev pub payload_of : Memory → List ℕ
payload_of m = read_range m 16 (get_u16 m length_at - 16)

abbrev pub carried : List Memory → List ℕ
carried [] = []
carried (m ∷ ms) = payload_of m ++ carried ms

abbrev pub IsDataPacket : Memory → Type 0
IsDataPacket m = get_u32 m cmd_at ≡ data_hdd_file_data

-- The bytes of packets on the wire.
abbrev pub frames_of : List Memory → List ℕ
frames_of [] = []
frames_of (m ∷ ms) = frame_bytes m ++ frames_of ms

pub payload_of-data_packet :
    (s : Upload) (bytes : List ℕ)
    → length bytes ≤ payload_size
    → payload_of (data_packet s bytes) ≡ take (adjusted (length bytes)) bytes
payload_of-data_packet s bytes short =
    let packet = data_packet s bytes in
    let k = adjusted (length bytes) in
    let size : get_u16 packet length_at - 16 ≡ k = omega (arith, length_lem s bytes short) in
    ap (λ n. read_range packet 16 n) size
    ∙ read_range-take packet 16 k (length bytes) (adjusted_lem (length bytes)).0
    ∙ ap (take k) (payload_lem s bytes)

abbrev pub packets_of : List Sent → List Memory
packets_of xs = map (λ x. data_packet x.state x.bytes) xs

pub carried-packets_of : (xs : List Sent) → All IsSent xs → carried (packets_of xs) ≡ sent_bytes xs
carried-packets_of [] h = refl
carried-packets_of (x ∷ xs) h =
    ap₂ (λ ys zs. ys ++ zs) (payload_of-data_packet x.state x.bytes h.0.short)
      (carried-packets_of xs h.1)

pub packets_of-IsDataPacket : (xs : List Sent) → All IsDataPacket (packets_of xs)
packets_of-IsDataPacket [] = tt
packets_of-IsDataPacket (x ∷ xs) = (cmd_lem x.state x.bytes, packets_of-IsDataPacket xs)
