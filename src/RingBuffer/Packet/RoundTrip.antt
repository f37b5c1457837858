-- ===== src/RingBuffer/Packet/RoundTrip.antt =====
-- ring_buffer.rs, `PacketRingBuffer`: `write` and `read` by the bytes of a packet on the ring.
use icecap.Base.{
  ℕ, zero, suc, ◌+◌, ◌-◌, ◌%◌, ◌^◌, ◌<◌, ◌≤◌, ◌≡◌, refl, sym, ap, ◌∙◌, ltb, leb, true, false,
  lt→ltb, le→ltb, le→leb, List, [], ◌∷◌, ◌++◌, length, length-append, append_assoc, some, none,
  get_or, arith, ok,
}
use icecap.RingBuffer.{RingBuffer}
use icecap.RingBuffer.Window.{window, length-window}
use icecap.RingBuffer.Flow.{
  readable, IsFlow-sides, CanWrite, CanRead, contents, room, written, poll_write_lem,
  write_bytes_lem, written-sends, written-CanWrite,
}
use icecap.RingBuffer.Receive.{
  skipped, poll_read_lem, peek_lem, skip_lem, read_bytes_lem, skipped-CanRead,
}
use icecap.RingBuffer.Packet.{
  packet_size, serialize_header, deserialize_header, poll, read_into, read_packet, write_packet,
}

-- The bytes of a packet on the ring.
abbrev pub encoded : List ℕ → List ℕ
encoded bytes = serialize_header (length bytes) ++ bytes

-- A length of 32 bits is the length read back from its four bytes.
deserialize_header-serialize_header :
    (n : ℕ) → n < 2 ^ 32 → deserialize_header (serialize_header n) ≡ n
deserialize_header-serialize_header n h = omega arith

-- A window that holds `xs` and then `ys`, in parts.
window-parts :
    (xs ys buf : List ℕ) (size r n : ℕ)
    → window buf size r n ≡ xs ++ ys
    → (window buf size r (length xs) ≡ xs)
      × (window buf size (r + length xs) (length ys) ≡ ys)
      × (n ≡ length xs + length ys)
window-parts [] ys buf size r n e =
    let len : n ≡ length ys = sym (length-window buf size r n) ∙ ap length e in
    let start : r + 0 ≡ r = omega arith in
    (
      refl,
      ap (λ k. window buf size k (length ys)) start ∙ sym (ap (window buf size r) len) ∙ e,
      omega (arith, len),
    )
window-parts (x ∷ xs) ys buf size r zero e = cc
window-parts (x ∷ xs) ys buf size r (suc n) e =
    let h = window-parts xs ys buf size (suc r) n (cc) in
    let head : get_or buf (r % size) 0 ≡ x = cc in
    let next : r + suc (length xs) ≡ suc r + length xs = omega arith in
    (rw (head, h.0) refl, ap (λ k. window buf size k (length ys)) next ∙ h.1, omega (arith, h.2))

-- The bytes that the reader knows of.
abbrev pub known : RingBuffer → List ℕ
known rb = window rb.read.buf rb.read.size rb.private_offset_r (readable rb)

module _ (rb : RingBuffer) (w : ℕ) (g : CanRead rb w) (bytes rest : List ℕ)
    (e : known rb ≡ encoded bytes ++ rest) (small : length bytes < 2 ^ 32)
    (fits : rb.private_offset_r + packet_size bytes < 2 ^ 64) where
  header_parts :
      (window rb.read.buf rb.read.size rb.private_offset_r 4 ≡ serialize_header (length bytes))
      × (window rb.read.buf rb.read.size (rb.private_offset_r + 4) (length (bytes ++ rest))
          ≡ bytes ++ rest)
      × (readable rb ≡ 4 + length (bytes ++ rest))
  header_parts =
      window-parts (serialize_header (length bytes)) (bytes ++ rest) rb.read.buf rb.read.size
        rb.private_offset_r (readable rb)
        (e ∙ append_assoc (serialize_header (length bytes)) bytes rest)

  poll-packet : poll rb ≡ ok (some (length bytes))
  unfolding poll
  poll-packet =
      let h = header_parts in
      let len = length-append {0} bytes rest in
      let there : 4 ≤ readable rb = omega (arith, h.2) in
      let a : ltb (readable rb) 4 ≡ false = le→ltb _ _ there in
      let b : leb 4 (readable rb) ≡ true = le→leb _ _ there in
      let c : deserialize_header (window rb.read.buf rb.read.size rb.private_offset_r 4)
          ≡ length bytes =
        ap deserialize_header h.0 ∙ deserialize_header-serialize_header (length bytes) small in
      let d : ltb (readable rb - 4) (length bytes) ≡ false = le→ltb _ _ (omega (arith, h.2, len)) in
      rw (poll_read_lem rb w g, a, peek_lem rb w g 4 there, b, c, d) refl

  body_parts :
      (window rb.read.buf rb.read.size (rb.private_offset_r + 4) (length bytes) ≡ bytes)
      × (window rb.read.buf rb.read.size (rb.private_offset_r + 4 + length bytes) (length rest)
          ≡ rest)
      × (length (bytes ++ rest) ≡ length bytes + length rest)
  body_parts =
      window-parts bytes rest rb.read.buf rb.read.size (rb.private_offset_r + 4)
        (length (bytes ++ rest)) header_parts.1

  read_into-packet : read_into rb (length bytes) ≡ ok (bytes, skipped (skipped rb 4) (length bytes))
  unfolding read_into
  read_into-packet =
      let h = header_parts in
      let b = body_parts in
      let there : 4 ≤ readable rb = omega (arith, h.2) in
      let more : length bytes ≤ readable (skipped rb 4) = omega (arith, h.2, b.2) in
      rw
        (
          skip_lem rb w g 4 there (omega arith),
          read_bytes_lem (skipped rb 4) w (skipped-CanRead rb w g 4 there) (length bytes) more
              (omega arith),
          b.0,
        )
        refl

  -- On a ring in use, if the bytes that the reader knows of begin with those of a packet, shorter than
  -- 2 ^ 32 and with its end at an offset below 2 ^ 64, `read` returns its content, the bytes known
  -- afterwards are the rest, and the ring stays in use.
  pub read_packet-encoded :
      (rb' : RingBuffer) × (read_packet rb ≡ ok (some bytes, rb'))
      × CanRead rb' w
      × (known rb' ≡ rest)
  unfolding read_packet
  read_packet-encoded =
      let h = header_parts in
      let b = body_parts in
      let there : 4 ≤ readable rb = omega (arith, h.2) in
      let v = skipped-CanRead rb w g 4 there in
      let more : length bytes ≤ readable (skipped rb 4) = omega (arith, h.2, b.2) in
      let left : readable (skipped (skipped rb 4) (length bytes)) ≡ length rest =
        omega (arith, h.2, b.2) in
      (
        skipped (skipped rb 4) (length bytes),
        rw (poll-packet, read_into-packet) refl,
        skipped-CanRead (skipped rb 4) w v (length bytes) more,
        ap (window rb.read.buf rb.read.size (rb.private_offset_r + 4 + length bytes)) left ∙ b.1,
      )

-- While fewer bytes are known than a header has, or than the packet announced, `read` returns nothing
-- and takes nothing.
module _ (rb : RingBuffer) (w : ℕ) (g : CanRead rb w) where
  read_packet-incomplete : readable rb < 4 → read_packet rb ≡ ok (none, rb)
  unfolding read_packet poll
  read_packet-incomplete h = rw (poll_read_lem rb w g, lt→ltb (readable rb) 4 h) refl

abbrev pub with_header : RingBuffer → List ℕ → RingBuffer
with_header rb bytes = written rb (serialize_header (length bytes))

module _ (rb : RingBuffer) (r w : ℕ) (f : CanWrite rb r) (g : CanRead rb w) (bytes : List ℕ) where
  -- A packet that does not fit is refused, and the ring stays as it was.
  pub write_packet-full : room rb < packet_size bytes → write_packet rb bytes ≡ ok (false, rb)
  unfolding write_packet
  write_packet-full h = rw (poll_write_lem rb r f, lt→ltb (room rb) (packet_size bytes) h) refl

  header-CanWrite : packet_size bytes ≤ room rb → CanWrite (with_header rb bytes) r
  header-CanWrite fits = written-CanWrite rb r w f g (serialize_header (length bytes)) (omega arith)

  pub write_packet_lem :
      packet_size bytes ≤ room rb
      → rb.private_offset_w + packet_size bytes < 2 ^ 64
      → write_packet rb bytes ≡ ok (true, written (with_header rb bytes) bytes)
  unfolding write_packet
  write_packet_lem fits small =
      rw
        (
          poll_write_lem rb r f,
          le→ltb (room rb) (packet_size bytes) fits,
          write_bytes_lem rb r f (serialize_header (length bytes)) (omega arith) (omega arith),
          write_bytes_lem (with_header rb bytes) r (header-CanWrite fits) bytes
              (omega (arith, f.acknowledged, f.available, f.published)) (omega arith),
        )
        refl

  -- On a ring in use, a packet for which there is room, and after which the offset fits in 64 bits, is
  -- written: the bytes in flight afterwards are those before, followed by the length of the packet in
  -- four bytes and its content, and the ring stays in use.
  pub write_packet-encoded :
      packet_size bytes ≤ room rb
      → rb.private_offset_w + packet_size bytes < 2 ^ 64
      → (rb' : RingBuffer) × (write_packet rb bytes ≡ ok (true, rb'))
        × CanWrite rb' r
        × (contents rb'.write r rb'.private_offset_w
            ≡ contents rb.write r rb.private_offset_w ++ encoded bytes)
  write_packet-encoded fits small =
      let head = serialize_header (length bytes) in
      let rb1 = with_header rb bytes in
      let f1 = header-CanWrite fits in
      let fits1 : length bytes ≤ room rb1 =
        omega (arith, f.acknowledged, f.available, f.published) in
      let g1 : CanRead rb1 w = IsFlow-sides _ _ g refl refl refl refl in
      (
        written rb1 bytes,
        write_packet_lem fits small,
        written-CanWrite rb1 r w f1 g1 bytes fits1,
        written-sends rb1 r w f1 g1 bytes fits1
            ∙ ap (λ k. k ++ bytes) (written-sends rb r w f g head (omega arith))
            ∙ append_assoc (contents rb.write r rb.private_offset_w) head bytes,
      )
