-- ===== src/RingBuffer/Link.antt =====
-- Two parties that share two rings. The side that one party writes is the side that the other reads:
-- the memory is one, so each turn of a party is seen by both.
use icecap.Base.{
  Gives, Gives-bind, subst, err, panic, ℕ, ◌≡◌, refl, sym, ap, ◌∙◌, List, [], ◌∷◌, ◌++◌,
  append_assoc, append-nil, ok, ◌>>=◌, Call,
}
use icecap.RingBuffer.{RingBuffer, RingBufferSide}
use icecap.RingBuffer.Flow.{MayTurn, IsFlow, contents, Turn, turn, sent}
use icecap.RingBuffer.Receive.{turn_lem}

-- What a party keeps for itself.
pub record Party : Type 0 where
  pub private_offset_r : ℕ
  pub private_offset_w : ℕ
  pub read_kicks : ℕ
  pub write_kicks : ℕ

-- `down` is the side that the first party writes, `up` the one that it reads.
pub record Link : Type 0 where
  pub down : RingBufferSide
  pub up : RingBufferSide
  pub first : Party
  pub second : Party

-- The ring buffer of a party.
abbrev view : RingBufferSide → RingBufferSide → Party → RingBuffer
view read write p = record {
  read = read;
  write = write;
  private_offset_r = p.private_offset_r;
  private_offset_w = p.private_offset_w;
  read_kicks = p.read_kicks;
  write_kicks = p.write_kicks;
}

abbrev own : RingBuffer → Party
own rb = record {
  private_offset_r = rb.private_offset_r;
  private_offset_w = rb.private_offset_w;
  read_kicks = rb.read_kicks;
  write_kicks = rb.write_kicks;
}

pub data Step : Type 0 where
  first_turn second_turn : Turn → Step

-- The bytes that each party receives: those of the first, then those of the second.
pub record Received : Type 0 where
  pub by_first : List ℕ
  pub by_second : List ℕ

unfoldable pub step : Link → Step → Call (Received × Link)
step l (first_turn t) = turn (view l.up l.down l.first) t >>= λ w. ok (
  record { by_first = w.0; by_second = [] },
  record { down = w.1.write; up = w.1.read; first = own w.1; second = l.second },
)
step l (second_turn t) = turn (view l.down l.up l.second) t >>= λ w. ok (
  record { by_first = []; by_second = w.0 },
  record { down = w.1.read; up = w.1.write; first = l.first; second = own w.1 },
)

unfoldable pub run : Link → List Step → Call (Received × Link)
unfolding step
run l [] = ok (record { by_first = []; by_second = [] }, l)
run l (s ∷ steps) = do
  w ← step l s
  rest ← run w.1 steps
  ok (
    record {
      by_first = w.0.by_first ++ rest.0.by_first;
      by_second = w.0.by_second ++ rest.0.by_second;
    },
    rest.1,
  )

-- The bytes sent by each party.
abbrev sent_by_first : List Step → List ℕ
sent_by_first [] = []
sent_by_first (first_turn t ∷ steps) = sent t ++ sent_by_first steps
sent_by_first (second_turn t ∷ steps) = sent_by_first steps

abbrev sent_by_second : List Step → List ℕ
sent_by_second [] = []
sent_by_second (first_turn t ∷ steps) = sent_by_second steps
sent_by_second (second_turn t ∷ steps) = sent t ++ sent_by_second steps

-- Both rings are in use.
pub record IsLinked (l : Link) : Type 0 where
  pub flow_down : IsFlow l.down l.up l.second.private_offset_r l.first.private_offset_w
  pub flow_up : IsFlow l.up l.down l.first.private_offset_r l.second.private_offset_w

abbrev going_down : Link → List ℕ
going_down l = contents l.down l.second.private_offset_r l.first.private_offset_w

abbrev going_up : Link → List ℕ
going_up l = contents l.up l.first.private_offset_r l.second.private_offset_w

abbrev MayStep : Link → Step → Type 0
MayStep l (first_turn t) = MayTurn (view l.up l.down l.first) t
MayStep l (second_turn t) = MayTurn (view l.down l.up l.second) t

abbrev After : (Link → Type 0) → Call (Received × Link) → Type 0
After P (ok w) = P w.1
After P (err e) = Unit {0}
After P panic = Unit {0}

-- Both parties keep to what the code leaves to its callers, in every step.
abbrev pub IsAllowed : Link → List Step → Type 0
IsAllowed l [] = Unit {0}
IsAllowed l (s ∷ steps) = MayStep l s × After (λ l'. IsAllowed l' steps) (step l s)

-- A run of steps: all that was in flight and was sent is received, in order, or is in flight still.
pub record IsFifo (l : Link) (steps : List Step) (out : Received × Link) : Type 0 where
  pub linked : IsLinked out.1
  pub down_in_order : going_down l ++ sent_by_first steps ≡ out.0.by_second ++ going_down out.1
  pub up_in_order : going_up l ++ sent_by_second steps ≡ out.0.by_first ++ going_up out.1

step_lem : {l : Link} (s : Step) → IsLinked l → MayStep l s → Gives (IsFifo l (s ∷ [])) (step l s)
unfolding step
step_lem {l} (first_turn t) v may =
    Gives-bind
      (turn_lem (view l.up l.down l.first) l.second.private_offset_r l.second.private_offset_w
        v.flow_down v.flow_up t may)
      (λ w h. (
        _,
        refl,
        record {
          linked = record { flow_down = h.can_write; flow_up = h.can_read };
          down_in_order = ap (λ k. going_down l ++ k) (append-nil (sent t)) ∙ sym h.sends;
          up_in_order = append-nil _ ∙ h.receives;
        },
      ))
step_lem {l} (second_turn t) v may =
    Gives-bind
      (turn_lem (view l.down l.up l.second) l.first.private_offset_r l.first.private_offset_w
        v.flow_up v.flow_down t may)
      (λ w h. (
        _,
        refl,
        record {
          linked = record { flow_down = h.can_read; flow_up = h.can_write };
          down_in_order = append-nil _ ∙ h.receives;
          up_in_order = ap (λ k. going_up l ++ k) (append-nil (sent t)) ∙ sym h.sends;
        },
      ))

-- One step's order and the order of the rest.
join :
    (before sent1 sent2 got1 got2 middle after : List ℕ)
    → before ++ sent1 ≡ got1 ++ middle
    → middle ++ sent2 ≡ got2 ++ after
    → before ++ (sent1 ++ sent2) ≡ (got1 ++ got2) ++ after
join before sent1 sent2 got1 got2 middle after e e' =
    sym (append_assoc before sent1 sent2)
    ∙ ap (λ k. k ++ sent2) e
    ∙ append_assoc got1 middle sent2
    ∙ ap (λ k. got1 ++ k) e'
    ∙ sym (append_assoc got1 got2 after)

sent_by_first-cons :
    (s : Step) (steps : List Step)
    → sent_by_first (s ∷ steps) ≡ sent_by_first (s ∷ []) ++ sent_by_first steps
sent_by_first-cons (first_turn t) steps =
    ap (λ k. k ++ sent_by_first steps) (sym (append-nil (sent t)))
sent_by_first-cons (second_turn t) steps = refl

sent_by_second-cons :
    (s : Step) (steps : List Step)
    → sent_by_second (s ∷ steps) ≡ sent_by_second (s ∷ []) ++ sent_by_second steps
sent_by_second-cons (first_turn t) steps = refl
sent_by_second-cons (second_turn t) steps =
    ap (λ k. k ++ sent_by_second steps) (sym (append-nil (sent t)))

-- Two parties with rings in use take turns writing, reading and notifying each other, and none writes
-- more bytes than `poll_write` returns to it, reads more than `poll_read` returns, or comes to an offset
-- of 2 ^ 64. Then no call panics, and each party receives the bytes that the other sent: what was in
-- flight and was sent, first to last, is what was received followed by what is in flight at the end;
-- and the rings are still in use.
pub run-IsFifo :
    (steps : List Step) {l : Link}
    → IsLinked l
    → IsAllowed l steps
    → (out : Received × Link) × (run l steps ≡ ok out) × IsFifo l steps out
unfolding run
run-IsFifo [] {l} v may = (
  (record { by_first = []; by_second = [] }, l),
  refl,
  record { linked = v; down_in_order = append-nil _; up_in_order = append-nil _ },
)
run-IsFifo (s ∷ steps) {l} v may =
    let a = step_lem s v may.0 in
    let next = subst (After (λ l'. IsAllowed l' steps)) a.1 may.1 in
    let rest = run-IsFifo steps a.2.linked next in
    (
      _,
      rw (a.1, rest.1) refl,
      record {
        linked = rest.2.linked;
        down_in_order =
            ap (λ z. going_down l ++ z) (sent_by_first-cons s steps)
            ∙ join (going_down l) (sent_by_first (s ∷ [])) (sent_by_first steps) a.0.0.by_second
                rest.0.0.by_second (going_down a.0.1) (going_down rest.0.1) a.2.down_in_order
                rest.2.down_in_order;
        up_in_order =
            ap (λ z. going_up l ++ z) (sent_by_second-cons s steps)
            ∙ join (going_up l) (sent_by_second (s ∷ [])) (sent_by_second steps) a.0.0.by_first
                rest.0.0.by_first (going_up a.0.1) (going_up rest.0.1) a.2.up_in_order
                rest.2.up_in_order;
      },
    )
