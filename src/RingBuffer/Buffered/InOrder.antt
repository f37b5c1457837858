-- ===== src/RingBuffer/Buffered/InOrder.antt =====
-- buffered_ring_buffer.rs: `tx`, `flush_tx` and `tx_callback` by the bytes that are still to be sent.
use icecap.Base.{
  ◌+◌, ◌-◌, ◌^◌, ◌<◌, length, length-append, arith, subst, ℕ, ◌≡◌, refl, sym, ap, ◌∙◌,
  if◌then◌else◌, Bool, true, false, List, [], ◌∷◌, ◌++◌, append-nil, append_assoc, ok, Call,
  Ensures, returns, Ensures-bind, Ensures-map, Ensures-ok,
}
use icecap.RingBuffer.{RingBuffer, notify_write}
use icecap.RingBuffer.Window.{length-window}
use icecap.RingBuffer.Flow.{CanWrite, CanRead, contents, tell_written, turn, Turns}
use icecap.RingBuffer.Receive.{tell_written_lem}
use icecap.RingBuffer.Buffered.{Buffered, flush, flush_tx, tx_callback, tx_now, tx}

-- The bytes of a ring in flight.
abbrev in_flight : RingBuffer → ℕ → List ℕ
in_flight rb r = contents rb.write r rb.private_offset_w

-- The bytes of a queue, each entry as it will be written.
abbrev queued : (List ℕ → List ℕ) → List (List ℕ) → List ℕ
queued encode [] = []
queued encode (buf ∷ q) = encode buf ++ queued encode q

-- What a try to write does to the ring: all of the entry, or nothing.
pub record Puts (encode : List ℕ → List ℕ) (r w : ℕ) (rb : RingBuffer) (buf : List ℕ)
    (out : Bool × RingBuffer) : Type 0 where
  pub can_write : CanWrite out.1 r
  pub can_read : CanRead out.1 w
  pub puts : in_flight out.1 r ≡ in_flight rb r ++ (if out.0 then encode buf else [])

-- A way to write entries, and how each stands on the ring.
pub record Writer : Type 0 where
  pub write : RingBuffer → List ℕ → Call (Bool × RingBuffer)
  pub encode : List ℕ → List ℕ
  pub law :
      (r w : ℕ) (rb : RingBuffer) (buf : List ℕ)
      → CanWrite rb r
      → CanRead rb w
      → rb.private_offset_w + length (encode buf) < 2 ^ 64
      → Ensures (Puts encode r w rb buf) (write rb buf)

-- A buffered ring in use, and all that is still to reach the other party through it.
pub record IsBuffered (b : Buffered) (r w : ℕ) : Type 0 where
  pub can_write : CanWrite b.rb r
  pub can_read : CanRead b.rb w

abbrev pub outgoing : Writer → Buffered → ℕ → List ℕ
outgoing m b r = in_flight b.rb r ++ queued m.encode b.q

-- After a step that was handed `bytes`.
pub record Takes (m : Writer) (r w : ℕ) (before : List ℕ) (bytes : List ℕ) (out : Bool × Buffered)
    : Type 0 where
  pub in_use : IsBuffered out.1 r w
  pub all : outgoing m out.1 r ≡ before ++ bytes

-- The bytes from the reader's offset `r` on end at an offset of 64 bits.
abbrev Fits : ℕ → List ℕ → Type 0
Fits r bytes = r + length bytes < 2 ^ 64

offset-in_flight :
    (rb : RingBuffer) (r : ℕ) → CanWrite rb r → rb.private_offset_w ≡ r + length (in_flight rb r)
offset-in_flight rb r f = omega (
  arith,
  f.available,
  f.published,
  length-window rb.write.buf rb.write.size r (rb.private_offset_w - r),
)

-- Room at the end for what a ring is handed next.
Fits-next :
    (rb : RingBuffer) (r : ℕ) (bytes : List ℕ)
    → CanWrite rb r
    → Fits r (in_flight rb r ++ bytes)
    → rb.private_offset_w + length bytes < 2 ^ 64
Fits-next rb r bytes f h =
    omega (arith, h, offset-in_flight rb r f, length-append (in_flight rb r) bytes)

Fits-front : (r : ℕ) (xs ys : List ℕ) → Fits r (xs ++ ys) → Fits r xs
Fits-front r xs ys h = omega (arith, h, length-append xs ys)

module _ (m : Writer) (r w : ℕ) where
  flush_lem :
      (q : List (List ℕ)) (rb : RingBuffer) (notify : Bool)
      → CanWrite rb r
      → CanRead rb w
      → Fits r (in_flight rb r ++ queued m.encode q)
      → Ensures (Takes m r w (in_flight rb r ++ queued m.encode q) []) (flush m.write rb notify q)
  unfolding flush
  flush_lem [] rb notify f g fits =
      returns (record { in_use = record { can_write = f; can_read = g }; all = sym (append-nil _) })
  flush_lem (buf ∷ q) rb notify f g fits =
      let all : Fits r ((in_flight rb r ++ m.encode buf) ++ queued m.encode q) =
        subst (Fits r) (sym (append_assoc (in_flight rb r) (m.encode buf) (queued m.encode q)))
          fits in
      let first : Fits r (in_flight rb r ++ m.encode buf) =
        Fits-front r (in_flight rb r ++ m.encode buf) (queued m.encode q) all in
      Ensures-bind (m.law r w rb buf f g (Fits-next rb r (m.encode buf) f first))
        (λ o h. step o h all (flush_lem q o.1 true h.can_write h.can_read))
    where
      step :
          (o : Bool × RingBuffer)
          → Puts m.encode r w rb buf o
          → Fits r ((in_flight rb r ++ m.encode buf) ++ queued m.encode q)
          → (Fits r (in_flight o.1 r ++ queued m.encode q)
              → Ensures
                  (Takes m r w (in_flight o.1 r ++ queued m.encode q) [])
                  (flush m.write o.1 true q))
          → Ensures (Takes m r w (in_flight rb r ++ (m.encode buf ++ queued m.encode q)) []) (
              if o.0
              then flush m.write o.1 true q
              else ok (notify, record { rb = o.1; q = buf ∷ q }))
      step (true, rb') h all rest =
          Ensures-map
            (λ a k. record {
              in_use = k.in_use;
              all =
                  k.all
                  ∙ append-nil _
                  ∙ ap (λ z. z ++ queued m.encode q) h.puts
                  ∙ append_assoc (in_flight rb r) (m.encode buf) (queued m.encode q)
                  ∙ sym (append-nil _);
            })
            (rest (subst (λ z. Fits r (z ++ queued m.encode q)) (sym h.puts) all))
      step (false, rb') h all rest = returns (record {
        in_use = record { can_write = h.can_write; can_read = h.can_read };
        all =
            ap (λ z. z ++ (m.encode buf ++ queued m.encode q)) (h.puts ∙ append-nil _)
            ∙ sym (append-nil _);
      })

  notify_write-Takes :
      (b : Buffered) (notify : Bool)
      → IsBuffered b r w
      → Takes m r w
          (outgoing m b r)
          []
          (notify, if notify then record b { rb = notify_write b.rb } else b)
  unfolding turn
  notify_write-Takes b true v =
      let h =
        Ensures-ok (Turns b.rb r w tell_written) (tell_written_lem b.rb r w v.can_write v.can_read)
          refl in
      record {
        in_use = record { can_write = h.can_write; can_read = h.can_read };
        all = ap (λ k. k ++ queued m.encode b.q) (h.sends ∙ append-nil _) ∙ sym (append-nil _);
      }
  notify_write-Takes b false v = record { in_use = v; all = sym (append-nil _) }

  queued-snoc :
      (q : List (List ℕ)) (buf : List ℕ)
      → queued m.encode (q ++ (buf ∷ [])) ≡ queued m.encode q ++ m.encode buf
  queued-snoc [] buf = append-nil (m.encode buf)
  queued-snoc (x ∷ q) buf =
      ap (λ k. m.encode x ++ k) (queued-snoc q buf)
      ∙ sym (append_assoc (m.encode x) (queued m.encode q) (m.encode buf))

  outgoing-snoc :
      (b : Buffered) (buf : List ℕ)
      → outgoing m (record b { q = b.q ++ (buf ∷ []) }) r ≡ outgoing m b r ++ m.encode buf
  outgoing-snoc b buf =
      ap (λ k. in_flight b.rb r ++ k) (queued-snoc b.q buf)
      ∙ sym (append_assoc (in_flight b.rb r) (queued m.encode b.q) (m.encode buf))

  -- A notification after `before ++ bytes` is out or queued.
  then_notify :
      (before bytes : List ℕ) (b : Buffered) (notify : Bool)
      → IsBuffered b r w
      → outgoing m b r ≡ before ++ bytes
      → Takes m r w before bytes (notify, if notify then record b { rb = notify_write b.rb } else b)
  then_notify before bytes b notify v e =
      let h = notify_write-Takes b notify v in
      record { in_use = h.in_use; all = h.all ∙ append-nil _ ∙ e }

  tx_now_lem :
      (rb : RingBuffer) (q : List (List ℕ)) (notify : Bool) (buf : List ℕ)
      → CanWrite rb r
      → CanRead rb w
      → Fits r ((in_flight rb r ++ queued m.encode q) ++ m.encode buf)
      → Ensures
          (Takes m r w (in_flight rb r ++ queued m.encode q) (m.encode buf))
          (tx_now m.write notify (record { rb = rb; q = q }) buf)
  unfolding tx_now
  tx_now_lem rb [] notify buf f g fits =
      let first = subst (λ z. Fits r (z ++ m.encode buf)) (append-nil (in_flight rb r)) fits in
      Ensures-bind (m.law r w rb buf f g (Fits-next rb r (m.encode buf) f first)) (λ o h. put o h)
    where
      put :
          (o : Bool × RingBuffer)
          → Puts m.encode r w rb buf o
          → Ensures {E = ⊥} (Takes m r w (in_flight rb r ++ []) (m.encode buf)) (
              if o.0
              then ok (true, record { rb = notify_write o.1; q = [] })
              else ok (
                notify,
                if notify
                    then record { rb = notify_write o.1; q = buf ∷ [] }
                    else record { rb = o.1; q = buf ∷ [] },
              ))
      put (true, rb') h = returns (
          then_notify (in_flight rb r ++ []) (m.encode buf) (record { rb = rb'; q = [] }) true
            (record { can_write = h.can_write; can_read = h.can_read })
            (append-nil _ ∙ h.puts ∙ ap (λ k. k ++ m.encode buf) (sym (append-nil _))))
      put (false, rb') h = returns (
          then_notify (in_flight rb r ++ []) (m.encode buf) (record { rb = rb'; q = buf ∷ [] })
            notify (record { can_write = h.can_write; can_read = h.can_read })
            (outgoing-snoc (record { rb = rb'; q = [] }) buf
              ∙ ap (λ k. (k ++ []) ++ m.encode buf) (h.puts ∙ append-nil _)))
  tx_now_lem rb (x ∷ q) notify buf f g fits = returns (
      then_notify (in_flight rb r ++ queued m.encode (x ∷ q)) (m.encode buf)
        (record { rb = rb; q = (x ∷ q) ++ (buf ∷ []) }) notify
        (record { can_write = f; can_read = g })
        (outgoing-snoc (record { rb = rb; q = x ∷ q }) buf))

  tx-Takes :
      (b : Buffered) (buf : List ℕ)
      → IsBuffered b r w
      → Fits r (outgoing m b r ++ m.encode buf)
      → Ensures (Takes m r w (outgoing m b r) (m.encode buf)) (tx m.write b buf)
  unfolding tx flush_tx
  tx-Takes b buf v fits =
      Ensures-bind
        (flush_lem b.q b.rb false v.can_write v.can_read
          (Fits-front r (outgoing m b r) (m.encode buf) fits))
        (λ o h.
          Ensures-map
            (λ a k. record {
              in_use = k.in_use;
              all = k.all ∙ ap (λ z. z ++ m.encode buf) (h.all ∙ append-nil _);
            })
            (tx_now_lem o.1.rb o.1.q o.0 buf h.in_use.can_write h.in_use.can_read
              (subst (λ z. Fits r (z ++ m.encode buf)) (sym (h.all ∙ append-nil _)) fits)))

  tx_callback-Takes :
      (b : Buffered)
      → IsBuffered b r w
      → Fits r (outgoing m b r)
      → Ensures (Takes m r w (outgoing m b r) []) (tx_callback m.write b)
  unfolding tx_callback flush_tx
  tx_callback-Takes b v fits =
      Ensures-bind (flush_lem b.q b.rb false v.can_write v.can_read fits)
        (λ o h. returns (then_notify (outgoing m b r) [] o.1 o.0 h.in_use h.all))

  -- With an entry handed to `tx` of a buffered ring in use, all that was still to reach the other
  -- party is still to reach it, in the same order and followed by that entry, be it on the ring or in
  -- the queue, and the ring stays in use, as long as the offset at which all of it ends fits in 64
  -- bits.
  pub tx_in_order :
      {b b' : Buffered} {notify : Bool} (buf : List ℕ)
      → IsBuffered b r w
      → Fits r (outgoing m b r ++ m.encode buf)
      → tx m.write b buf ≡ ok (notify, b')
      → IsBuffered b' r w × (outgoing m b' r ≡ outgoing m b r ++ m.encode buf)
  tx_in_order {b} buf v fits e =
      let h = Ensures-ok (Takes m r w (outgoing m b r) (m.encode buf)) (tx-Takes b buf v fits) e in
      (h.in_use, h.all)

  -- `tx_callback` moves entries from the queue to the ring, and neither drops nor swaps any.
  tx_callback_in_order :
      {b b' : Buffered} {notify : Bool}
      → IsBuffered b r w
      → Fits r (outgoing m b r)
      → tx_callback m.write b ≡ ok (notify, b')
      → IsBuffered b' r w × (outgoing m b' r ≡ outgoing m b r)
  tx_callback_in_order {b} v fits e =
      let h = Ensures-ok (Takes m r w (outgoing m b r) []) (tx_callback-Takes b v fits) e in
      (h.in_use, h.all ∙ append-nil _)
