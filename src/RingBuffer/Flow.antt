-- ===== src/RingBuffer/Flow.antt =====
-- One direction of a pair of rings: the bytes that one party has written and the other not yet read.
use icecap.Base.{
  Gives, wrapping_add_lem, ℕ, ◌+◌, ◌-◌, ◌^◌, ◌<◌, ◌≤◌, ◌≡◌, refl, sym, ap, ◌∙◌, leb, ◌==◌, true,
  false, List, [], ◌++◌, length, arith, ok, ◌>>=◌, Call,
}
use icecap.RingBuffer.{
  RingBufferSide, RingBuffer, poll_write, read_bytes, write_bytes, notify_read, notify_write,
}
use icecap.RingBuffer.Window.{window, write_each, length-write_each, window-write_each}
use icecap.RingBuffer.Copy.{copy_in-write_each}

-- Of the bytes of `side`, up to `w` are written and up to `r` are read; the control block of `side`
-- tells the reader of a part of the writing, and that of `peer` tells the writer of a part of the
-- reading. At least one byte of the buffer stays free.
pub record IsFlow (side peer : RingBufferSide) (r w : ℕ) : Type 0 where
  pub sized : length side.buf ≡ side.size
  pub acknowledged : peer.ctrl.offset_r ≤ r
  pub available : r ≤ side.ctrl.offset_w
  pub published : side.ctrl.offset_w ≤ w
  pub free : w < peer.ctrl.offset_r + side.size

-- A flow knows of its sides only the buffer and the three offsets.
pub IsFlow-sides :
    {side peer : RingBufferSide} {r w : ℕ} (side' peer' : RingBufferSide)
    → IsFlow side peer r w
    → side'.buf ≡ side.buf
    → side'.size ≡ side.size
    → side'.ctrl.offset_w ≡ side.ctrl.offset_w
    → peer'.ctrl.offset_r ≡ peer.ctrl.offset_r
    → IsFlow side' peer' r w
IsFlow-sides side' peer' f b s o p = record {
  sized = ap length b ∙ f.sized ∙ sym s;
  acknowledged = omega (arith, f.acknowledged);
  available = omega (arith, f.available);
  published = omega (arith, f.published);
  free = omega (arith, f.free);
}

-- The bytes in flight.
abbrev pub contents : RingBufferSide → ℕ → ℕ → List ℕ
contents side r w = window side.buf side.size r (w - r)

-- The two flows of a party, whose peer has read up to `r` and written up to `w`.
abbrev pub CanWrite : RingBuffer → ℕ → Type 0
CanWrite rb r = IsFlow rb.write rb.read r rb.private_offset_w

abbrev pub CanRead : RingBuffer → ℕ → Type 0
CanRead rb w = IsFlow rb.read rb.write rb.private_offset_r w

abbrev pub written : RingBuffer → List ℕ → RingBuffer
written rb bytes = record rb {
  write = record rb.write { buf = write_each rb.write.buf rb.write.size rb.private_offset_w bytes };
  private_offset_w = rb.private_offset_w + length bytes;
}

-- The room for a write, as the writer knows it: what `poll_write` returns.
abbrev pub room : RingBuffer → ℕ
room rb = rb.write.size - (rb.private_offset_w - rb.read.ctrl.offset_r) - 1

module _ (rb : RingBuffer) (r : ℕ) (f : CanWrite rb r) where
  -- `poll_write` never panics on a ring in use, full or not: it returns the free bytes but one.
  pub poll_write_lem : poll_write rb ≡ ok (room rb)
  unfolding poll_write
  poll_write_lem =
      let a : leb rb.read.ctrl.offset_r rb.private_offset_w ≡ true =
        ground (arith, f.acknowledged, f.available, f.published) in
      let b : leb (rb.private_offset_w - rb.read.ctrl.offset_r) rb.write.size ≡ true =
        ground (arith, f.free) in
      let c : leb 1 (rb.write.size - (rb.private_offset_w - rb.read.ctrl.offset_r)) ≡ true =
        ground (arith, f.free) in
      rw (a, b, c) refl

  -- `write` of bytes for which there is room stores them at their offsets.
  pub write_bytes_lem :
      (bytes : List ℕ)
      → length bytes ≤ room rb
      → rb.private_offset_w + length bytes < 2 ^ 64
      → write_bytes rb bytes ≡ ok (written rb bytes)
  unfolding write_bytes
  write_bytes_lem bytes fits small =
      let pos : 0 < rb.write.size =
        omega (arith, f.free, f.acknowledged, f.available, f.published) in
      let c : (rb.write.size == 0) ≡ false = ground arith in
      rw
        (
          c,
          wrapping_add_lem rb.private_offset_w (length bytes) small,
          copy_in-write_each rb.write.buf bytes rb.write.size rb.private_offset_w f.sized pos
              (omega arith),
        )
        refl

-- A party's step, and what it says of the two flows: the bytes written are at the end of the one, the
-- bytes read were at the start of the other.
pub data Turn : Type 0 where
  send : List ℕ → Turn
  receive : ℕ → Turn
  tell_written tell_read : Turn

unfoldable pub turn : RingBuffer → Turn → Call (List ℕ × RingBuffer)
unfolding write_bytes read_bytes notify_read notify_write
turn rb (send bytes) = write_bytes rb bytes >>= λ rb'. ok ([], rb')
turn rb (receive n) = read_bytes rb n
turn rb tell_written = ok ([], notify_write rb)
turn rb tell_read = ok ([], notify_read rb)

-- The bytes that the reader knows of: what `poll_read` returns.
abbrev pub readable : RingBuffer → ℕ
readable rb = rb.read.ctrl.offset_w - rb.private_offset_r

-- What the code leaves to the caller of `write` and of `read`: no more bytes than `poll_write` or
-- `poll_read` returns, and offsets of 64 bits.
abbrev pub MayTurn : RingBuffer → Turn → Type 0
MayTurn rb (send bytes) = (length bytes ≤ room rb) × (rb.private_offset_w + length bytes < 2 ^ 64)
MayTurn rb (receive n) = (n ≤ readable rb) × (rb.private_offset_r + n < 2 ^ 64)
MayTurn rb tell_written = Unit {0}
MayTurn rb tell_read = Unit {0}

abbrev pub sent : Turn → List ℕ
sent (send bytes) = bytes
sent (receive n) = []
sent tell_written = []
sent tell_read = []

pub record Turns (rb : RingBuffer) (r w : ℕ) (t : Turn) (out : List ℕ × RingBuffer) : Type 0 where
  pub can_write : CanWrite out.1 r
  pub can_read : CanRead out.1 w
  pub sends :
      contents out.1.write r out.1.private_offset_w
      ≡ contents rb.write r rb.private_offset_w ++ sent t
  pub receives :
      contents rb.read rb.private_offset_r w ≡ out.0 ++ contents out.1.read out.1.private_offset_r w

module _ (rb : RingBuffer) (r w : ℕ) (f : CanWrite rb r) (g : CanRead rb w) where
  pub written-sends :
      (bytes : List ℕ)
      → length bytes ≤ room rb
      → contents (written rb bytes).write r (rb.private_offset_w + length bytes)
        ≡ contents rb.write r rb.private_offset_w ++ bytes
  written-sends bytes fits =
      let n : ℕ = rb.private_offset_w - r in
      let at_end : rb.private_offset_w ≡ r + (rb.private_offset_w - r) =
        omega (arith, f.available, f.published) in
      let more : rb.private_offset_w + length bytes - r ≡ (rb.private_offset_w - r) + length bytes =
        omega (arith, f.available, f.published) in
      ap
        (λ k.
          window (write_each rb.write.buf rb.write.size k bytes) rb.write.size r
            (rb.private_offset_w + length bytes - r))
        at_end
      ∙ ap
          (window (write_each rb.write.buf rb.write.size (r + (rb.private_offset_w - r)) bytes)
            rb.write.size r)
          more
      ∙ window-write_each bytes rb.write.buf rb.write.size r (rb.private_offset_w - r) f.sized
          (omega (arith, f.acknowledged, f.available, f.published, f.free))

  pub written-CanWrite : (bytes : List ℕ) → length bytes ≤ room rb → CanWrite (written rb bytes) r
  written-CanWrite bytes fits = record {
    sized = length-write_each rb.write.buf rb.write.size rb.private_offset_w bytes ∙ f.sized;
    acknowledged = f.acknowledged;
    available = f.available;
    published = omega (arith, f.published);
    free = omega (arith, f.acknowledged, f.available, f.published, f.free);
  }

  pub send-Turns :
      (bytes : List ℕ) → length bytes ≤ room rb → Turns rb r w (send bytes) ([], written rb bytes)
  send-Turns bytes fits = record {
    can_write = written-CanWrite bytes fits;
    can_read = IsFlow-sides _ _ g refl refl refl refl;
    sends = written-sends bytes fits;
    receives = refl;
  }

  pub send_lem :
      (bytes : List ℕ)
      → MayTurn rb (send bytes)
      → Gives (Turns rb r w (send bytes)) (turn rb (send bytes))
  unfolding turn
  send_lem bytes h =
      (([], written rb bytes), rw (write_bytes_lem rb r f bytes h.0 h.1) refl, send-Turns bytes h.0)
