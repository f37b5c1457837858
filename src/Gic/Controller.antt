-- ===== src/Gic/Controller.antt =====
-- gic.rs: the controller. It joins the distributor with the list registers of each node, and calls
-- back into the virtual machine monitor.
pub mod Valid
pub mod Inject
pub mod Forward
pub mod Maintenance
mod Examples
use icecap.Base.{
  ℕ, zero, suc, ◌/◌, ◌^◌, ltb, leb, ◌==◌, if◌then◌else◌, ◌&&◌, Bool, List, [], ◌∷◌, ◌++◌, replicate,
  set, elem, Option, some, none, Outcome, ok, panic, ◌>>=◌, ◌>>◌, unwrap, index, modify,
}
use icecap.Biterate.{biterate}
use icecap.Gic.Error.{IrqError, VmFaultWidth, VmFaultData}
use icecap.Gic.Distributor.{Distributor, WriteAction, ReadAction, inject_and_ack_irqs, new}
use icecap.Gic.Distributor.Lines.{
  is_target, get_spi_targets, get_priority, set_pending, set_active, should_inject, ack,
}
use icecap.Gic.Distributor.Read.{handle_read}
use icecap.Gic.Distributor.Dispatch.{handle_write}

pub data QualifiedIrq : Type 0 where
  qualified_ppi : ℕ → ℕ → QualifiedIrq
  spi : ℕ → QualifiedIrq

-- `trait GICCallbacks`, over the state that the implementor keeps. An error of a callback is passed
-- on as it is, so it is written with the errors of the distributor.
pub record Callbacks (T : Type 0) : Type 0 where
  pub ack_irq : T → ℕ → QualifiedIrq → Outcome IrqError T
  pub vcpu_inject_irq : T → ℕ → ℕ → ℕ → ℕ → ℕ → Outcome IrqError T
  pub set_affinity : T → ℕ → ℕ → ℕ → Outcome IrqError T
  pub set_priority : T → ℕ → QualifiedIrq → ℕ → Outcome IrqError T
  pub set_enabled : T → ℕ → QualifiedIrq → Bool → Outcome IrqError T

-- What the monitor knows of the list registers of a node, and the queue behind them.
pub record Lr : Type 0 where
  pub mirror : List (Option ℕ)
  pub overflow : List ℕ

abbrev pub num_lrs : ℕ
num_lrs = 4

pub record Gic (T : Type 0) : Type 0 where
  pub num_nodes : ℕ
  pub callbacks : T
  pub dist : Distributor
  pub lrs : List Lr

-- `GIC::new`
unfoldable pub create : {T : Type 0} → ℕ → T → Outcome IrqError (Gic T)
create num_nodes callbacks = do
  dist ← new num_nodes
  ok (record {
    num_nodes = num_nodes;
    callbacks = callbacks;
    dist = dist;
    lrs = replicate num_nodes (record { mirror = replicate num_lrs none; overflow = [] });
  })

-- The number of the first `None`, counted from `i`.
unfoldable pub first_empty : List (Option ℕ) → ℕ → Option ℕ
first_empty [] i = none
first_empty (none ∷ slots) i = some i
first_empty (some irq ∷ slots) i = first_empty slots (suc i)

-- `self.lrs[node].mirror[index] = slot`
abbrev pub set_mirror : List Lr → ℕ → ℕ → Option ℕ → Outcome IrqError (List Lr)
set_mirror lrs node i slot = do
  lr ← index lrs node
  w ← modify lr.mirror i (λ old. (old, slot))
  ok (set lrs node (record lr { mirror = w.1 }))

unfoldable pub irq_in_lrs_overflow : {T : Type 0} → Gic T → ℕ → ℕ → Outcome IrqError Bool
irq_in_lrs_overflow g node irq = do lr ← index g.lrs node; ok (elem irq lr.overflow)

-- `ack_callback`: a PPI is acknowledged for its node; all else, as it is written, is an SPI.
abbrev pub ended_irq : ℕ → ℕ → QualifiedIrq
ended_irq node irq = if leb 16 irq && ltb irq 32 then qualified_ppi node irq else spi irq

-- The interrupt that a sweep acknowledges.
abbrev pub swept_irq : ℕ → ℕ → QualifiedIrq
swept_irq irq target_node = if ltb irq 32 then qualified_ppi target_node irq else spi irq

-- The interrupts of an optional list.
abbrev pub listed : Option (List (ℕ × ℕ)) → List (ℕ × ℕ)
listed none = []
listed (some irqs) = irqs

module _ {T : Type 0} (ops : Callbacks T) where
  -- The part of `inject_irq` under its `if`.
  unfoldable pub inject_now : Gic T → ℕ → ℕ → ℕ → ℕ → ℕ → Outcome IrqError (Gic T)
  inject_now g calling_node target_node i irq priority = do
    dist ← set_active g.dist irq target_node
    lrs ← set_mirror g.lrs target_node i (some irq)
    callbacks ← ops.vcpu_inject_irq g.callbacks calling_node target_node i irq priority
    ok (record g { callbacks = callbacks; dist = dist; lrs = lrs })

  unfoldable pub inject_irq : Gic T → ℕ → ℕ → ℕ → ℕ → Outcome IrqError (Gic T)
  unfolding inject_now
  inject_irq g calling_node target_node i irq = do
    priority ← get_priority g.dist irq target_node
    dist ← set_pending g.dist irq target_node
    let g' = record g { dist = dist }
    hit ← should_inject dist irq target_node
    if hit then inject_now g' calling_node target_node i irq (priority / 2 ^ 3) else ok g'

  -- `self.lrs[node].overflow.push_back(irq)`, unless it is there.
  unfoldable pub queue_irq : Gic T → ℕ → ℕ → Outcome IrqError (Gic T)
  queue_irq g node irq = do
    lr ← index g.lrs node
    queued ← irq_in_lrs_overflow g node irq
    let lr' = record lr { overflow = lr.overflow ++ (irq ∷ []) }
    if queued then ok g else ok (record g { lrs = set g.lrs node lr' })

  -- The `match` of `forward_irq` on the first free list register.
  unfoldable pub forward_to_slot : Gic T → ℕ → ℕ → ℕ → Option ℕ → Outcome IrqError (Gic T)
  forward_to_slot g calling_node target_node irq (some i) =
      inject_irq g calling_node target_node i irq
  forward_to_slot g calling_node target_node irq none = queue_irq g target_node irq

  unfoldable pub forward_irq : Gic T → ℕ → ℕ → ℕ → Outcome IrqError (Gic T)
  unfolding forward_to_slot
  forward_irq g calling_node target_node irq = index g.lrs target_node >>= λ lr.
      forward_to_slot g calling_node target_node irq (first_empty lr.mirror 0)

  -- `for target_node in biterate(targets) { …; break; }`
  unfoldable pub forward_first : Gic T → ℕ → List ℕ → ℕ → Outcome IrqError (Gic T)
  forward_first g calling_node [] irq = ok g
  forward_first g calling_node (target_node ∷ _) irq = forward_irq g calling_node target_node irq

  unfoldable pub handle_irq : Gic T → ℕ → QualifiedIrq → Outcome IrqError (Gic T)
  unfolding forward_first
  handle_irq g calling_node (qualified_ppi node irq) = forward_irq g calling_node node irq
  handle_irq g calling_node (spi irq) = do
    mine ← is_target g.dist irq calling_node
    let to_caller = forward_irq g calling_node calling_node irq
    let to_first = get_spi_targets g.dist irq >>= λ targets.
        forward_first g calling_node (biterate targets) irq
    if mine then to_caller else to_first

  -- `if let Some(irq) = self.lrs[node].overflow.pop_front() { … }`
  unfoldable pub refill : Gic T → ℕ → ℕ → Lr → Outcome IrqError (Gic T)
  refill g node i lr = elim lr.overflow [
    | [] ↦ ok g
    | irq ∷ rest ↦
        inject_irq (record g { lrs = set g.lrs node (record lr { overflow = rest }) }) node node i
          irq
  ]

  unfoldable pub handle_maintenance : Gic T → ℕ → ℕ → Outcome IrqError (Gic T)
  unfolding refill
  handle_maintenance g node i = do
    lr ← index g.lrs node
    slot ← index lr.mirror i
    irq ← unwrap slot
    lrs ← set_mirror g.lrs node i none
    dist ← ack g.dist irq node
    callbacks ← ops.ack_irq g.callbacks node (ended_irq node irq)
    lr' ← index lrs node
    refill (record g { callbacks = callbacks; dist = dist; lrs = lrs }) node i lr'

  -- `GIC::handle_read`
  pub read : Gic T → ℕ → ℕ → VmFaultWidth → Outcome IrqError VmFaultData
  read g node offset width = handle_read g.dist offset node width >>= λ w. ok w.0

  -- `for (irq, target_node) in to_ack.iter()`
  unfoldable pub ack_all : Gic T → ℕ → List (ℕ × ℕ) → Outcome IrqError (Gic T)
  ack_all g calling_node [] = ok g
  ack_all g calling_node ((irq, target_node) ∷ rest) = do
    dist ← ack g.dist irq target_node
    callbacks ←
        (if leb 16 irq
          then ops.ack_irq g.callbacks calling_node (swept_irq irq target_node)
          else ok g.callbacks)
    ack_all (record g { callbacks = callbacks; dist = dist }) calling_node rest

  -- `for (irq, target_node) in to_inject.iter()`
  unfoldable pub forward_all : Gic T → ℕ → List (ℕ × ℕ) → Outcome IrqError (Gic T)
  forward_all g calling_node [] = ok g
  forward_all g calling_node ((irq, target_node) ∷ rest) =
      forward_irq g calling_node target_node irq >>= λ g'. forward_all g' calling_node rest

  unfoldable pub perform : Gic T → ℕ → WriteAction → Outcome IrqError (Gic T)
  unfolding ack_all forward_all
  perform g calling_node WriteAction.no_action = ok g
  perform g calling_node (inject_and_ack_irqs to_inject to_ack) = do
    g' ← ack_all g calling_node (listed to_ack)
    forward_all g' calling_node (listed to_inject)

  -- `GIC::handle_write`
  unfoldable pub write : Gic T → ℕ → ℕ → VmFaultData → Outcome IrqError (Gic T)
  unfolding perform
  write g calling_node offset val = do
    w ← handle_write g.dist offset calling_node val
    perform (record g { dist = w.1 }) calling_node w.0
