-- ===== src/RingBuffer.antt =====
-- rust/crates/framework/base/icecap-ring-buffer/src/ring_buffer.rs: one party of a pair of rings. The
-- memory that it shares with its peer is part of its record; RingBuffer/Link.antt joins two parties.
-- The fences have no effect here: the steps of the two parties are taken one after the other.
pub mod Window
pub mod Copy
pub mod Flow
pub mod Receive
pub mod Link
pub mod Packet
pub mod Buffered
mod Examples
use icecap.Base.{
  ℕ, zero, suc, ◌+◌, ◌-◌, ◌%◌, ltb, leb, ◌==◌, if◌then◌else◌, not, Bool, true, false, List, [], ◌∷◌,
  ◌++◌, length, take, drop, Outcome, ok, panic, ◌>>=◌, ◌>>◌, assert, Call, wrapping_add,
  wrapping_sub,
}

-- `register_bitfields! { Status }`
pub record Status : Type 0 where
  pub notify_read : Bool
  pub notify_write : Bool

pub record CtrlBlock : Type 0 where
  pub offset_r : ℕ
  pub offset_w : ℕ
  pub status : Status

-- What a side of a ring buffer points at: the control block and the bytes.
pub record RingBufferSide : Type 0 where
  pub size : ℕ
  pub ctrl : CtrlBlock
  pub buf : List ℕ

-- The calls of the two functions `kick` are counted.
pub record RingBuffer : Type 0 where
  pub read : RingBufferSide
  pub write : RingBufferSide
  pub private_offset_r : ℕ
  pub private_offset_w : ℕ
  pub read_kicks : ℕ
  pub write_kicks : ℕ

-- `RingBuffer::new`
abbrev new : RingBufferSide → RingBufferSide → RingBuffer
new read write = record {
  read = read;
  write = write;
  private_offset_r = 0;
  private_offset_w = 0;
  read_kicks = 0;
  write_kicks = 0;
}

abbrev resume : RingBufferSide → RingBufferSide → RingBuffer
resume read write = record {
  read = read;
  write = write;
  private_offset_r = write.ctrl.offset_r;
  private_offset_w = write.ctrl.offset_w;
  read_kicks = 0;
  write_kicks = 0;
}

-- The bytes between two offsets, once both assertions hold.
abbrev span : ℕ → ℕ → ℕ → Call ℕ
span size offset_r offset_w = do
  assert (leb offset_r offset_w)
  assert (leb (offset_w - offset_r) size)
  ok (offset_w - offset_r)

unfoldable pub poll_read : RingBuffer → Call ℕ
poll_read rb = span rb.read.size rb.private_offset_r rb.read.ctrl.offset_w

-- `max(0, …)` of a `usize` is the number itself, which wraps around if no byte is free.
unfoldable pub poll_write : RingBuffer → Call ℕ
poll_write rb = do
  used ← span rb.write.size rb.read.ctrl.offset_r rb.private_offset_w
  ok (wrapping_sub (rb.write.size - used) 1)

-- `n` bytes from index `offset` on, in two copies if they go past the end.
unfoldable pub copy_out : List ℕ → ℕ → ℕ → ℕ → List ℕ
copy_out buf size offset n =
    if leb n (size - offset)
    then take n (drop offset buf)
    else take (size - offset) (drop offset buf) ++ take (n - (size - offset)) buf

-- `volatile_copy_nonoverlapping_memory(dst.offset(offset), src, n)`
abbrev pub overwrite : List ℕ → ℕ → List ℕ → List ℕ
overwrite buf offset bytes = take offset buf ++ (bytes ++ drop (offset + length bytes) buf)

unfoldable pub copy_in : List ℕ → ℕ → ℕ → List ℕ → List ℕ
copy_in buf size offset bytes =
    if leb (length bytes) (size - offset)
    then overwrite buf offset bytes
    else overwrite (overwrite buf offset (take (size - offset) bytes)) 0
        (drop (size - offset) bytes)

-- `offset % size`, which panics if `size` is 0
abbrev wrap : ℕ → ℕ → Call ℕ
wrap offset size = do assert (not (size == 0)); ok (offset % size)

-- `peek` into a slice of `n` bytes
unfoldable pub peek : RingBuffer → ℕ → Call (List ℕ)
unfolding copy_out
peek rb n = do
  offset ← wrap rb.private_offset_r rb.read.size
  ok (copy_out rb.read.buf rb.read.size offset n)

-- The `debug_assert!` that there are `n` bytes to skip is not in the build that is shipped.
unfoldable pub skip : RingBuffer → ℕ → Call RingBuffer
skip rb n = ok (record rb { private_offset_r = wrapping_add rb.private_offset_r n })

-- `RingBuffer::read`
unfoldable pub read_bytes : RingBuffer → ℕ → Call (List ℕ × RingBuffer)
unfolding peek skip
read_bytes rb n = do bytes ← peek rb n; rb' ← skip rb n; ok (bytes, rb')

-- `RingBuffer::write`. The `debug_assert!` that there is room for the bytes is not in the build that is
-- shipped: unread bytes are overwritten, and more bytes than the buffer has go past its end.
unfoldable pub write_bytes : RingBuffer → List ℕ → Call RingBuffer
unfolding copy_in
write_bytes rb bytes = do
  offset ← wrap rb.private_offset_w rb.write.size
  let private_offset_w = wrapping_add rb.private_offset_w (length bytes)
  let side = record rb.write { buf = copy_in rb.write.buf rb.write.size offset bytes }
  ok (record rb { write = side; private_offset_w = private_offset_w })

abbrev kick_read : RingBuffer → RingBuffer
kick_read rb = record rb { read_kicks = suc rb.read_kicks }

abbrev kick_write : RingBuffer → RingBuffer
kick_write rb = record rb { write_kicks = suc rb.write_kicks }

abbrev with_write_ctrl : RingBuffer → CtrlBlock → RingBuffer
with_write_ctrl rb ctrl = record rb { write = record rb.write { ctrl = ctrl } }

-- The status register of the peer's control block.
abbrev with_read_status : RingBuffer → Status → RingBuffer
with_read_status rb status = record rb {
  read = record rb.read { ctrl = record rb.read.ctrl { status = status } };
}

-- `write.ctrl.offset_r.set(private_offset_r)`
abbrev pub publish_r : RingBuffer → RingBuffer
publish_r rb = with_write_ctrl rb (record rb.write.ctrl { offset_r = rb.private_offset_r })

abbrev pub publish_w : RingBuffer → RingBuffer
publish_w rb = with_write_ctrl rb (record rb.write.ctrl { offset_w = rb.private_offset_w })

unfoldable pub notify_read : RingBuffer → RingBuffer
notify_read rb =
    let rb' = publish_r rb in
    if rb'.read.ctrl.status.notify_write
    then kick_read (with_read_status rb' (record rb'.read.ctrl.status { notify_write = false }))
    else rb'

unfoldable pub notify_write : RingBuffer → RingBuffer
notify_write rb =
    let rb' = publish_w rb in
    if rb'.read.ctrl.status.notify_read
    then kick_write (with_read_status rb' (record rb'.read.ctrl.status { notify_read = false }))
    else rb'

abbrev with_write_status : RingBuffer → Status → RingBuffer
with_write_status rb status = with_write_ctrl rb (record rb.write.ctrl { status = status })

abbrev enable_notify_read : RingBuffer → RingBuffer
enable_notify_read rb = with_write_status rb (record rb.write.ctrl.status { notify_read = true })

abbrev enable_notify_write : RingBuffer → RingBuffer
enable_notify_write rb = with_write_status rb (record rb.write.ctrl.status { notify_write = true })

abbrev disable_notify_read : RingBuffer → RingBuffer
disable_notify_read rb = with_write_status rb (record rb.write.ctrl.status { notify_read = false })

abbrev disable_notify_write : RingBuffer → RingBuffer
disable_notify_write rb =
    with_write_status rb (record rb.write.ctrl.status { notify_write = false })
