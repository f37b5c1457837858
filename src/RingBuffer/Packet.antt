-- ===== src/RingBuffer/Packet.antt =====
-- ring_buffer.rs, `PacketRingBuffer`: packets with their length in front, on a ring of bytes.
pub mod RoundTrip
use icecap.Base.{
  ℕ, ◌+◌, ◌*◌, ◌/◌, ◌%◌, ◌^◌, ltb, leb, if◌then◌else◌, Bool, true, false, List, [], ◌∷◌, length,
  Option, some, none, ok, panic, ◌>>=◌, Call, wrapping_sub, get_or,
}
use icecap.RingBuffer.{RingBuffer, poll_read, poll_write, peek, skip, read_bytes, write_bytes}

-- `size_of::<u32>()`
abbrev header_size : ℕ
header_size = 4

abbrev pub packet_size : List ℕ → ℕ
packet_size buf = header_size + length buf

-- `(n as u32).to_le_bytes()`
abbrev pub serialize_header : ℕ → List ℕ
serialize_header n = (n % 256) ∷ (n / 2 ^ 8 % 256) ∷ (n / 2 ^ 16 % 256) ∷ (n / 2 ^ 24 % 256) ∷ []

-- `u32::from_le_bytes` of four bytes
abbrev pub deserialize_header : List ℕ → ℕ
deserialize_header h =
    get_or h 0 0 + get_or h 1 0 * 2 ^ 8 + get_or h 2 0 * 2 ^ 16 + get_or h 3 0 * 2 ^ 24

-- The part of `poll` behind its first test.
abbrev poll_header : RingBuffer → Call (Option ℕ)
poll_header rb = do
  header ← peek rb header_size
  available ← poll_read rb
  let rest = wrapping_sub available header_size
  let n = deserialize_header header
  if ltb rest n then ok none else ok (some n)

unfoldable pub poll : RingBuffer → Call (Option ℕ)
poll rb = do available ← poll_read rb; if ltb available header_size then ok none else poll_header rb

unfoldable pub read_into : RingBuffer → ℕ → Call (List ℕ × RingBuffer)
read_into rb n = do rb' ← skip rb header_size; read_bytes rb' n

-- The length of a packet that is there, or none.
abbrev read_if : RingBuffer → Option ℕ → Call (Option (List ℕ) × RingBuffer)
read_if rb none = ok (none, rb)
read_if rb (some n) = read_into rb n >>= λ w. ok (some w.0, w.1)

-- `PacketRingBuffer::read`
unfoldable pub read_packet : RingBuffer → Call (Option (List ℕ) × RingBuffer)
unfolding read_into poll
read_packet rb = poll rb >>= λ n. read_if rb n

-- The two writes of a packet for which there is room.
abbrev write_parts : RingBuffer → List ℕ → Call (Bool × RingBuffer)
write_parts rb buf = do
  rb' ← write_bytes rb (serialize_header (length buf))
  rb'' ← write_bytes rb' buf
  ok (true, rb'')

-- `PacketRingBuffer::write`
unfoldable pub write_packet : RingBuffer → List ℕ → Call (Bool × RingBuffer)
write_packet rb buf = do
  room ← poll_write rb
  if ltb room (packet_size buf) then ok (false, rb) else write_parts rb buf
