-- ===== src/RingBuffer/Receive.antt =====
-- The reading half of a party, and the two notifications.
use icecap.Base.{
  Gives, wrapping_add_lem, Ensures-ok, ℕ, ◌+◌, ◌-◌, ◌^◌, ◌<◌, ◌≤◌, ◌≡◌, refl, sym, ap, ◌∙◌, leb,
  ◌==◌, if◌then◌else◌, true, false, Bool, Ensures, returns, [], ◌++◌, arith, ok, append-nil,
}
use icecap.RingBuffer.{
  RingBuffer, poll_read, peek, skip, read_bytes, notify_read, notify_write, publish_r, publish_w,
}
use icecap.RingBuffer.Window.{window, window-append}
use icecap.RingBuffer.Copy.{copy_out-window}
use icecap.RingBuffer.Flow.{
  readable, MayTurn, IsFlow-sides, contents, CanWrite, CanRead, Turn, send, receive, tell_written,
  tell_read, turn, Turns, send_lem,
}

abbrev pub skipped : RingBuffer → ℕ → RingBuffer
skipped rb n = record rb { private_offset_r = rb.private_offset_r + n }

module _ (rb : RingBuffer) (w : ℕ) (g : CanRead rb w) where
  -- `poll_read` never panics on a ring in use: it returns the number of bytes told of and not read.
  pub poll_read_lem : poll_read rb ≡ ok (readable rb)
  unfolding poll_read
  poll_read_lem =
      let a : leb rb.private_offset_r rb.read.ctrl.offset_w ≡ true = ground (arith, g.available) in
      let b : leb (rb.read.ctrl.offset_w - rb.private_offset_r) rb.read.size ≡ true =
        ground (arith, g.acknowledged, g.published, g.free) in
      rw (a, b) refl

  -- `peek` of the bytes that `poll_read` counts returns the first of them.
  pub peek_lem :
      (n : ℕ)
      → n ≤ readable rb
      → peek rb n ≡ ok (window rb.read.buf rb.read.size rb.private_offset_r n)
  unfolding peek
  peek_lem n hn =
      let pos : 0 < rb.read.size =
        omega (arith, g.acknowledged, g.available, g.published, g.free) in
      let a : (rb.read.size == 0) ≡ false = ground arith in
      rw
        (
          a,
          copy_out-window rb.read.buf rb.read.size g.sized pos rb.private_offset_r n
              (omega (arith, g.acknowledged, g.available, g.published, g.free)),
        )
        refl

  pub skip_lem :
      (n : ℕ) → n ≤ readable rb → rb.private_offset_r + n < 2 ^ 64 → skip rb n ≡ ok (skipped rb n)
  unfolding skip
  skip_lem n hn small = rw (wrapping_add_lem rb.private_offset_r n small) refl

  -- `read` of bytes that the writer told of returns them, the first first.
  pub read_bytes_lem :
      (n : ℕ)
      → n ≤ readable rb
      → rb.private_offset_r + n < 2 ^ 64
      → read_bytes rb n ≡ ok (window rb.read.buf rb.read.size rb.private_offset_r n, skipped rb n)
  unfolding read_bytes skip
  read_bytes_lem n hn small = rw (peek_lem n hn, wrapping_add_lem rb.private_offset_r n small) refl

  pub skipped-CanRead : (n : ℕ) → n ≤ readable rb → CanRead (skipped rb n) w
  skipped-CanRead n hn = record {
    sized = g.sized;
    acknowledged = omega (arith, g.acknowledged);
    available = omega (arith, g.available);
    published = g.published;
    free = g.free;
  }

  contents-skipped :
      (n : ℕ)
      → n ≤ readable rb
      → contents rb.read rb.private_offset_r w
        ≡ window rb.read.buf rb.read.size rb.private_offset_r n
          ++ contents rb.read (rb.private_offset_r + n) w
  contents-skipped n hn =
      let cut : w - rb.private_offset_r ≡ n + (w - (rb.private_offset_r + n)) =
        omega (arith, g.available, g.published) in
      ap (window rb.read.buf rb.read.size rb.private_offset_r) cut
      ∙ window-append rb.read.buf rb.read.size rb.private_offset_r n (w - (rb.private_offset_r + n))

module _ (rb : RingBuffer) (r w : ℕ) (f : CanWrite rb r) (g : CanRead rb w) where
  receive_lem :
      (n : ℕ) → MayTurn rb (receive n) → Gives (Turns rb r w (receive n)) (turn rb (receive n))
  unfolding turn
  receive_lem n h = (
    (window rb.read.buf rb.read.size rb.private_offset_r n, skipped rb n),
    read_bytes_lem rb w g n h.0 h.1,
    record {
      can_write = IsFlow-sides _ _ f refl refl refl refl;
      can_read = skipped-CanRead rb w g n h.0;
      sends = sym (append-nil _);
      receives = contents-skipped rb w g n h.0;
    },
  )

  publish_r-Turns : Turns rb r w tell_read ([], publish_r rb)
  publish_r-Turns = record {
    can_write = IsFlow-sides _ _ f refl refl refl refl;
    can_read = record {
      sized = g.sized;
      acknowledged = omega arith;
      available = g.available;
      published = g.published;
      free = omega (arith, g.free, g.acknowledged);
    };
    sends = sym (append-nil _);
    receives = refl;
  }

  publish_w-Turns : Turns rb r w tell_written ([], publish_w rb)
  publish_w-Turns = record {
    can_write = record {
      sized = f.sized;
      acknowledged = f.acknowledged;
      available = omega (arith, f.available, f.published);
      published = omega arith;
      free = f.free;
    };
    can_read = IsFlow-sides _ _ g refl refl refl refl;
    sends = sym (append-nil _);
    receives = refl;
  }

  Turns-if :
      {t : Turn} (armed : Bool) {x y : RingBuffer}
      → Turns rb r w t ([], x)
      → Turns rb r w t ([], y)
      → Ensures {E = ⊥} (Turns rb r w t) (ok ([], if armed then x else y))
  Turns-if true p q = returns p
  Turns-if false p q = returns q

  tell_read_lem : Ensures (Turns rb r w tell_read) (turn rb tell_read)
  unfolding turn notify_read
  tell_read_lem =
      let p = publish_r-Turns in
      Turns-if rb.read.ctrl.status.notify_write
        (record {
          can_write = IsFlow-sides _ _ p.can_write refl refl refl refl;
          can_read = IsFlow-sides _ _ p.can_read refl refl refl refl;
          sends = p.sends;
          receives = p.receives;
        })
        p

  pub tell_written_lem : Ensures (Turns rb r w tell_written) (turn rb tell_written)
  unfolding turn notify_write
  tell_written_lem =
      let p = publish_w-Turns in
      Turns-if rb.read.ctrl.status.notify_read
        (record {
          can_write = IsFlow-sides _ _ p.can_write refl refl refl refl;
          can_read = IsFlow-sides _ _ p.can_read refl refl refl refl;
          sends = p.sends;
          receives = p.receives;
        })
        p

  -- Every turn of a party that keeps to what `poll_write` and `poll_read` return succeeds, keeps both
  -- flows, appends what it writes to the one and takes what it reads from the head of the other.
  pub turn_lem : (t : Turn) → MayTurn rb t → Gives (Turns rb r w t) (turn rb t)
  unfolding turn
  turn_lem (send bytes) h = send_lem rb r w f g bytes h
  turn_lem (receive n) h = receive_lem n h
  turn_lem tell_written h =
      (([], notify_write rb), refl, Ensures-ok (Turns rb r w tell_written) tell_written_lem refl)
  turn_lem tell_read h =
      (([], notify_read rb), refl, Ensures-ok (Turns rb r w tell_read) tell_read_lem refl)
