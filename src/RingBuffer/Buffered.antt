-- ===== src/RingBuffer/Buffered.antt =====
-- buffered_ring_buffer.rs: a queue of what is to be sent, in front of a ring. The two types of the
-- file differ in how they write, so their common code takes that as a parameter: `try_write` for
-- `BufferedRingBuffer`, `write_packet` for `BufferedPacketRingBuffer`.
pub mod InOrder
pub mod Writers
use icecap.Base.{
  ℕ, zero, suc, ltb, leb, ◌==◌, min, if◌then◌else◌, ◌||◌, Bool, true, false, List, [], ◌∷◌, ◌++◌,
  length, Option, some, none, ok, ◌>>=◌, Call,
}
use icecap.RingBuffer.{
  RingBuffer, poll_read, poll_write, read_bytes, write_bytes, notify_read, notify_write,
}
use icecap.RingBuffer.Packet.{poll, read_packet}

pub record Buffered : Type 0 where
  pub rb : RingBuffer
  pub q : List (List ℕ)

abbrev new : RingBuffer → Buffered
new rb = record { rb = rb; q = [] }

-- A write of bytes if there is room for them, as `flush_tx` and `tx` of `BufferedRingBuffer` do it.
unfoldable pub try_write : RingBuffer → List ℕ → Call (Bool × RingBuffer)
try_write rb buf = do
  room ← poll_write rb
  let put = write_bytes rb buf >>= λ rb'. ok (true, rb')
  if ltb room (length buf) then ok (false, rb) else put

module _ (write : RingBuffer → List ℕ → Call (Bool × RingBuffer)) where
  -- The loop of `flush_tx`, with `notify` as it is before.
  unfoldable pub flush : RingBuffer → Bool → List (List ℕ) → Call (Bool × Buffered)
  flush rb notify [] = ok (notify, record { rb = rb; q = [] })
  flush rb notify (buf ∷ q) = do
    w ← write rb buf
    let rest = flush w.1 true q
    let stop = ok (notify, record { rb = w.1; q = buf ∷ q })
    if w.0 then rest else stop

  unfoldable pub flush_tx : Buffered → Call (Bool × Buffered)
  unfolding flush
  flush_tx b = flush b.rb false b.q

  -- `if notify { self.rb.notify_write() }`
  abbrev notified : Bool → Buffered → Call (Bool × Buffered)
  notified notify b = ok (notify, if notify then record b { rb = notify_write b.rb } else b)

  unfoldable pub tx_callback : Buffered → Call (Bool × Buffered)
  tx_callback b = flush_tx b >>= λ w. notified w.0 w.1

  abbrev push_back : Buffered → List ℕ → Buffered
  push_back b buf = record b { q = b.q ++ (buf ∷ []) }

  -- What `tx` does after the flush: write if nothing is queued and there is room, else queue.
  unfoldable pub tx_now : Bool → Buffered → List ℕ → Call (Bool × Buffered)
  tx_now notify b buf = elim b.q [
    | [] ↦ do
      w ← write b.rb buf
      if w.0
          then notified true (record b { rb = w.1 })
          else notified notify (push_back (record b { rb = w.1 }) buf)
    | _ ∷ _ ↦ notified notify (push_back b buf)
  ]

  unfoldable pub tx : Buffered → List ℕ → Call (Bool × Buffered)
  unfolding flush_tx tx_now
  tx b buf = flush_tx b >>= λ w. tx_now w.0 w.1 buf

-- `BufferedRingBuffer::rx_into` for a slice of `n` bytes: the bytes at its front, and their number.
rx_into : Buffered → ℕ → Call (ℕ × List ℕ × Buffered)
rx_into b n = do
  available ← poll_read b.rb
  let n_real = min n available
  let fill = read_bytes b.rb n_real >>= λ w. ok (n_real, w.0, record b { rb = notify_read w.1 })
  if n_real == 0 then ok (n_real, [], b) else fill

-- `BufferedRingBuffer::rx`
rx : Buffered → Call (Option (List ℕ) × Buffered)
rx b = do
  n ← poll_read b.rb
  let all = read_bytes b.rb n >>= λ w. ok (some w.0, record b { rb = notify_read w.1 })
  if n == 0 then ok (none, b) else all

-- `BufferedPacketRingBuffer::rx`
rx_packet : Buffered → Call (Option (List ℕ) × Buffered)
rx_packet b = do
  w ← read_packet b.rb
  let rb : RingBuffer = elim w.0 [ none ↦ w.1 | some buf ↦ notify_read w.1 ]
  ok (w.0, record b { rb = rb })
