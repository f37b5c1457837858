-- ===== src/RingBuffer/Buffered/Writers.antt =====
-- The two ways to write that the buffered rings use, and two clients of one ring.
use icecap.Base.{
  true, refl, ◌≡◌, subst, ok-injective, ◌+◌, ◌^◌, ◌<◌, ◌≤◌, arith, ltb→lt, ℕ, sym, ◌∙◌, inl, inr,
  ltb, Bool-cases, false, List, append-nil, length, Ensures, returns,
}
use icecap.RingBuffer.{RingBuffer}
use icecap.RingBuffer.Flow.{
  CanWrite, CanRead, IsFlow-sides, written, send-Turns, write_bytes_lem, poll_write_lem, room,
}
use icecap.RingBuffer.Packet.{packet_size, write_packet}
use icecap.RingBuffer.Packet.RoundTrip.{
  encoded, with_header, write_packet_lem, write_packet-full, write_packet-encoded,
}
use icecap.RingBuffer.Buffered.{try_write}
use icecap.RingBuffer.Buffered.InOrder.{Puts, Writer}

module _ (r w : ℕ) (rb : RingBuffer) (f : CanWrite rb r) (g : CanRead rb w) where
  refused : (encode : List ℕ → List ℕ) (buf : List ℕ) → Puts encode r w rb buf (false, rb)
  refused encode buf = record { can_write = f; can_read = g; puts = sym (append-nil _) }

  pub try_write-Puts :
      (buf : List ℕ)
      → rb.private_offset_w + length buf < 2 ^ 64
      → Ensures (Puts (λ b. b) r w rb buf) (try_write rb buf)
  unfolding try_write
  try_write-Puts buf small =
      rw (poll_write_lem rb r f) (elim (Bool-cases (ltb (room rb) (length buf))) [
        | inl full ↦ rw full (returns (refused (λ b. b) buf))
        | inr fits ↦
            let there : length buf ≤ room rb = ground arith in
            let h = send-Turns rb r w f g buf there in
            rw (fits, write_bytes_lem rb r f buf there small)
              (returns (record { can_write = h.can_write; can_read = h.can_read; puts = h.sends }))
      ])

pub write_packet-Puts :
    (r w : ℕ) (rb : RingBuffer) (buf : List ℕ)
    → CanWrite rb r
    → CanRead rb w
    → rb.private_offset_w + packet_size buf < 2 ^ 64
    → Ensures (Puts encoded r w rb buf) (write_packet rb buf)
write_packet-Puts r w rb buf f g small = elim (Bool-cases (ltb (room rb) (packet_size buf))) [
  | inl full ↦
      rw (write_packet-full rb r w f g buf (ltb→lt _ _ full))
        (returns (refused r w rb f g encoded buf))
  | inr fits ↦
      let there : packet_size buf ≤ room rb = ground arith in
      let h = write_packet-encoded rb r w f g buf there small in
      let same : (true, written (with_header rb buf) buf) ≡ (true, h.0) =
        ok-injective (sym (write_packet_lem rb r w f g buf there small) ∙ h.1) in
      rw h.1 (
        returns (record {
          can_write = h.2;
          can_read = subst (λ o. CanRead o.1 w) same (IsFlow-sides _ _ g refl refl refl refl);
          puts = h.3;
        }))
]

-- `BufferedRingBuffer` writes the bytes as they are.
abbrev pub byte_writer : Writer
byte_writer = record {
  write = try_write;
  encode = λ b. b;
  law = λ r w rb buf f g small. try_write-Puts r w rb f g buf small;
}

-- `BufferedPacketRingBuffer` writes packets.
abbrev packet_writer : Writer
packet_writer = record {
  write = write_packet;
  encode = encoded;
  law = λ r w rb buf f g small. write_packet-Puts r w rb buf f g (omega (arith, small));
}
