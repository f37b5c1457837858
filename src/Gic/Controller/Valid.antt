-- ===== src/Gic/Controller/Valid.antt =====
-- gic.rs: the shape of the controller between its calls, with the distributor, the list registers of each
-- node and the queue behind them.
use icecap.Base.{
  ℕ, ◌≤◌, ◌≡◌, refl, leb, if◌then◌else◌, Bool-cases, inl, inr, List, [], ◌∷◌, ◌++◌, Option, some,
  none, length, length-set, length-replicate, replicate, All, All-set, All-replicate, Distinct,
  Distinct-snoc, set, elem, arith, Outcome, ok, Ensures, returns, Ensures-bind, Ensures-then,
  Ensures-if, Ensures-ok, index-All, index, modify-length, unwrap,
}
use icecap.Biterate.{biterate}
use icecap.Gic.Error.{IrqError, VmFaultData}
use icecap.Gic.Distributor.{WriteAction, inject_and_ack_irqs}
use icecap.Gic.Distributor.Lines.{is_target, get_spi_targets, get_priority, should_inject}
use icecap.Gic.Distributor.WellFormed.{IsWellFormed}
use icecap.Gic.Distributor.WellFormed.Banks.{
  set_pending-IsWellFormed, set_active-IsWellFormed, ack-IsWellFormed,
}
use icecap.Gic.Distributor.WellFormed.Handle.{handle_write-KeepsShape}
use icecap.Gic.Distributor.WellFormed.Reset.{fresh, new-fresh, fresh-IsWellFormed}
use icecap.Gic.Controller.{
  create, num_lrs, Gic, Lr, Callbacks, QualifiedIrq, qualified_ppi, spi, first_empty, set_mirror,
  irq_in_lrs_overflow, inject_now, inject_irq, queue_irq, forward_to_slot, forward_irq,
  forward_first, handle_irq, refill, handle_maintenance, ack_all, forward_all, listed, perform,
  write, ended_irq, swept_irq,
}

pub record LrIsValid (lr : Lr) : Type 0 where
  pub slots : length lr.mirror ≡ 4
  pub distinct : Distinct lr.overflow

pub record IsValid {T : Type 0} (g : Gic T) : Type 0 where
  pub dist : IsWellFormed g.dist
  pub nodes : length g.lrs ≡ g.num_nodes
  pub each : All LrIsValid g.lrs

abbrev AreValid : ℕ → List Lr → Type 0
AreValid n lrs = (length lrs ≡ n) × All LrIsValid lrs

set_lr-AreValid :
    (n : ℕ) (lrs : List Lr) (node : ℕ) (lr : Lr)
    → AreValid n lrs
    → LrIsValid lr
    → AreValid n (set lrs node lr)
set_lr-AreValid n lrs node lr h v =
    (omega (arith, length-set {0} lrs node lr), All-set LrIsValid lrs node lr h.1 v)

set_mirror-AreValid :
    (n : ℕ) (lrs : List Lr) (node i : ℕ) (slot : Option ℕ)
    → AreValid n lrs
    → Ensures (AreValid n) (set_mirror lrs node i slot)
set_mirror-AreValid n lrs node i slot h = Ensures-bind (index-All LrIsValid lrs node h.1) (λ lr v.
    Ensures-bind (modify-length lr.mirror i _) (λ w kept. returns (
      set_lr-AreValid n lrs node _ h
        (record { slots = omega (arith, kept, v.1.slots); distinct = v.1.distinct }))))

module _ {T : Type 0} (ops : Callbacks T) where
  abbrev Keeps : Outcome IrqError (Gic T) → Type 0
  Keeps = Ensures IsValid

  inject_now-IsValid :
      {g : Gic T} (calling target i irq priority : ℕ)
      → IsValid g
      → Keeps (inject_now ops g calling target i irq priority)
  unfolding inject_now
  inject_now-IsValid {g} calling target i irq priority v =
      Ensures-bind (set_active-IsWellFormed v.dist irq target) (λ dist h.
        Ensures-bind (set_mirror-AreValid g.num_nodes g.lrs target i (some irq) (v.nodes, v.each))
          (λ lrs k.
            Ensures-then (ops.vcpu_inject_irq g.callbacks calling target i irq priority)
              (λ cb. returns (record { dist = h; nodes = k.0; each = k.1 }))))

  inject_irq-IsValid :
      {g : Gic T} (calling target i irq : ℕ)
      → IsValid g
      → Keeps (inject_irq ops g calling target i irq)
  unfolding inject_irq
  inject_irq-IsValid {g} calling target i irq v =
      Ensures-then (get_priority g.dist irq target) (λ priority.
        Ensures-bind (set_pending-IsWellFormed v.dist irq target) (λ dist h.
          let v' : IsValid (record g { dist = dist }) = record {
            dist = h;
            nodes = v.nodes;
            each = v.each;
          } in
          Ensures-then (should_inject dist irq target)
            (λ hit. Ensures-if hit (inject_now-IsValid calling target i irq _ v') (returns v'))))

  queue_irq-IsValid : {g : Gic T} (node irq : ℕ) → IsValid g → Keeps (queue_irq ops g node irq)
  unfolding queue_irq irq_in_lrs_overflow
  queue_irq-IsValid {g} node irq v = Ensures-bind (index-All LrIsValid g.lrs node v.each) (λ lr l.
      rw l.0 (elim (Bool-cases (elem irq lr.overflow)) [
        | inl queued ↦ rw queued (returns v)
        | inr fresh ↦
            let lr' : LrIsValid (record lr { overflow = lr.overflow ++ (irq ∷ []) }) = record {
              slots = l.1.slots;
              distinct = Distinct-snoc irq lr.overflow l.1.distinct fresh;
            } in
            let k = set_lr-AreValid g.num_nodes g.lrs node _ (v.nodes, v.each) lr' in
            rw fresh (returns (record { dist = v.dist; nodes = k.0; each = k.1 }))
      ]))

  forward_irq-IsValid :
      {g : Gic T} (calling target irq : ℕ)
      → IsValid g
      → Keeps (forward_irq ops g calling target irq)
  unfolding forward_irq forward_to_slot
  forward_irq-IsValid {g} calling target irq v =
      Ensures-then (index g.lrs target) (λ lr. go (first_empty lr.mirror 0))
    where
      go : (slot : Option ℕ) → Keeps (forward_to_slot ops g calling target irq slot)
      go (some i) = inject_irq-IsValid calling target i irq v
      go none = queue_irq-IsValid target irq v

  forward_first-IsValid :
      {g : Gic T} (calling : ℕ) (targets : List ℕ) (irq : ℕ)
      → IsValid g
      → Keeps (forward_first ops g calling targets irq)
  unfolding forward_first
  forward_first-IsValid calling [] irq v = returns v
  forward_first-IsValid calling (target ∷ _) irq v = forward_irq-IsValid calling target irq v

  pub handle_irq-Keeps :
      {g : Gic T} (calling : ℕ) (irq : QualifiedIrq)
      → IsValid g
      → Keeps (handle_irq ops g calling irq)
  unfolding handle_irq
  handle_irq-Keeps calling (qualified_ppi node irq) v = forward_irq-IsValid calling node irq v
  handle_irq-Keeps {g} calling (spi irq) v = Ensures-then (is_target g.dist irq calling) (λ mine.
      Ensures-if mine (forward_irq-IsValid calling calling irq v) (
        Ensures-then (get_spi_targets g.dist irq)
          (λ targets. forward_first-IsValid calling (biterate targets) irq v)))

  refill-IsValid :
      {g : Gic T} (node i : ℕ) (m : List (Option ℕ)) (queue : List ℕ)
      → IsValid g
      → LrIsValid (record { mirror = m; overflow = queue })
      → Keeps (refill ops g node i (record { mirror = m; overflow = queue }))
  unfolding refill
  refill-IsValid node i m [] v l = returns v
  refill-IsValid {g} node i m (irq ∷ rest) v l =
      let k =
        set_lr-AreValid g.num_nodes g.lrs node _ (v.nodes, v.each)
          (record { slots = l.slots; distinct = l.distinct.1 }) in
      inject_irq-IsValid node node i irq (record { dist = v.dist; nodes = k.0; each = k.1 })

  pub handle_maintenance-Keeps :
      {g : Gic T} (node i : ℕ) → IsValid g → Keeps (handle_maintenance ops g node i)
  unfolding handle_maintenance
  handle_maintenance-Keeps {g} node i v = Ensures-then (index g.lrs node) λ lr.
      Ensures-then (index lr.mirror i) λ slot. Ensures-then (unwrap slot) λ irq.
        Ensures-bind (set_mirror-AreValid g.num_nodes g.lrs node i none (v.nodes, v.each)) λ lrs k.
          Ensures-bind (ack-IsWellFormed v.dist irq node) λ dist h.
            Ensures-then (ops.ack_irq g.callbacks node (ended_irq node irq)) λ cb.
              Ensures-bind (index-All LrIsValid lrs node k.1) λ lr' l.
                refill-IsValid node i lr'.mirror lr'.overflow
                  (record { dist = h; nodes = k.0; each = k.1 }) l.1

  ack_all-IsValid :
      (calling : ℕ) (irqs : List (ℕ × ℕ)) {g : Gic T}
      → IsValid g
      → Keeps (ack_all ops g calling irqs)
  unfolding ack_all
  ack_all-IsValid calling [] v = returns v
  ack_all-IsValid calling ((irq, target) ∷ rest) {g} v =
      Ensures-bind (ack-IsWellFormed v.dist irq target) λ dist h.
        Ensures-then
          (if leb 16 irq
            then ops.ack_irq g.callbacks calling (swept_irq irq target)
            else ok g.callbacks)
          λ cb. ack_all-IsValid calling rest (record { dist = h; nodes = v.nodes; each = v.each })

  forward_all-IsValid :
      (calling : ℕ) (irqs : List (ℕ × ℕ)) {g : Gic T}
      → IsValid g
      → Keeps (forward_all ops g calling irqs)
  unfolding forward_all
  forward_all-IsValid calling [] v = returns v
  forward_all-IsValid calling ((irq, target) ∷ rest) v =
      Ensures-bind (forward_irq-IsValid calling target irq v)
        λ g' h. forward_all-IsValid calling rest h

  perform-IsValid :
      {g : Gic T} (calling : ℕ) (action : WriteAction)
      → IsValid g
      → Keeps (perform ops g calling action)
  unfolding perform
  perform-IsValid calling WriteAction.no_action v = returns v
  perform-IsValid calling (inject_and_ack_irqs to_inject to_ack) v =
      Ensures-bind (ack_all-IsValid calling (listed to_ack) v)
        λ g' h. forward_all-IsValid calling (listed to_inject) h

  pub write-Keeps :
      {g : Gic T} (calling offset : ℕ) (val : VmFaultData)
      → IsValid g
      → Keeps (write ops g calling offset val)
  unfolding write
  write-Keeps {g} calling offset val v =
      Ensures-bind (handle_write-KeepsShape v.dist offset calling val)
        λ w h. perform-IsValid calling w.0 (record { dist = h; nodes = v.nodes; each = v.each })

module _ {T : Type 0} (ops : Callbacks T) {g g' : Gic T} where
  -- An interrupt from outside that a valid controller takes leaves it valid: the distributor well
  -- formed, each node with its four list registers, and no interrupt twice in the queue of a node.
  pub handle_irq-IsValid :
      (calling : ℕ) (irq : QualifiedIrq)
      → IsValid g
      → handle_irq ops g calling irq ≡ ok g'
      → IsValid g'
  handle_irq-IsValid calling irq v = Ensures-ok IsValid (handle_irq-Keeps ops calling irq v)

  -- The end of an interrupt that a valid controller handles leaves it valid.
  handle_maintenance-IsValid :
      (node i : ℕ) → IsValid g → handle_maintenance ops g node i ≡ ok g' → IsValid g'
  handle_maintenance-IsValid node i v = Ensures-ok IsValid (handle_maintenance-Keeps ops node i v)

  -- A guest's write to the distributor that a valid controller handles, with the acknowledgements and
  -- injections that follow it, leaves it valid.
  pub write-IsValid :
      (calling offset : ℕ) (val : VmFaultData)
      → IsValid g
      → write ops g calling offset val ≡ ok g'
      → IsValid g'
  write-IsValid calling offset val v = Ensures-ok IsValid (write-Keeps ops calling offset val v)

-- A new controller of up to eight nodes is valid.
pub create-IsValid :
    {T : Type 0} (n : ℕ) (callbacks : T)
    → n ≤ 8
    → (g : Gic T) × (create n callbacks ≡ ok g) × IsValid g
unfolding create
create-IsValid n callbacks few = (
  record {
    num_nodes = n;
    callbacks = callbacks;
    dist = fresh n;
    lrs = replicate n (record { mirror = replicate num_lrs none; overflow = [] });
  },
  rw (new-fresh n) refl,
  record {
    dist = fresh-IsWellFormed n few;
    nodes = length-replicate n (record { mirror = replicate num_lrs none; overflow = [] });
    each =
        All-replicate LrIsValid n (record { mirror = replicate num_lrs none; overflow = [] })
          (record { slots = refl; distinct = tt });
  },
)
