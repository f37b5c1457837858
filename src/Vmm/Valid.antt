-- ===== src/Vmm/Valid.antt =====
-- The interrupt controller that the nodes of a monitor share, whatever the nodes receive.
use icecap.Base.{
  ℕ, ◌≤◌, ◌≡◌, true, List, ok, ◌>>=◌, index, replicate, Ensures, returns, Ensures-bind,
  Ensures-then, Ensures-ok,
}
use icecap.Gic.Controller.Valid.{
  IsValid, create-IsValid, handle_irq-Keeps, handle_maintenance-Keeps, write-Keeps,
}
use icecap.Vmm.{IrqMap, Monitor, VmmCallbacks, Vmm, NodeEvent}
use icecap.Vmm.Node.{callbacks, run, boot}
use icecap.Vmm.Steps.{IsKept, run-Keeps}

module _ {W : Type 0} (monitor : Monitor W) where
  abbrev IsSound : Vmm W → Type 0
  IsSound v = IsValid v.gic

  IsSound-IsKept : IsKept monitor IsSound
  IsSound-IsKept = record {
    world = λ v w h. record { dist = h.dist; nodes = h.nodes; each = h.each };
    irq = λ v node irq h. handle_irq-Keeps (callbacks monitor) node irq h;
    maintenance = λ v node i h. handle_maintenance-Keeps (callbacks monitor) node i h;
    written = λ v node offset val h. write-Keeps (callbacks monitor) node offset val h;
    started = λ v target h. h;
  }

  boot-Keeps :
      (n : ℕ) (irq_map : IrqMap) (w : W) (paddr : ℕ)
      → n ≤ 8
      → Ensures IsSound (boot monitor n irq_map w paddr)
  unfolding boot
  boot-Keeps n irq_map w paddr few =
      let made =
        create-IsValid {T = VmmCallbacks W} n (record { irq_map = irq_map; world = w }) few in
      rw made.1 (Ensures-then (index (replicate n true) 0) λ _. returns made.2)

  -- Whatever the nodes of a monitor of up to eight nodes receive after its start, in whatever order, and
  -- whatever its clients answer: while no call has failed, the interrupt controller they share is valid,
  -- the distributor well formed, each node with its four list registers, and no interrupt twice in the
  -- queue of a node.
  pub run-IsValid :
      (n : ℕ) (irq_map : IrqMap) (w : W) (gic_dist_paddr : ℕ) (events : List (ℕ × NodeEvent))
      {v : Vmm W}
      → n ≤ 8
      → (boot monitor n irq_map w gic_dist_paddr >>= λ v₀. run monitor v₀ events) ≡ ok v
      → IsValid v.gic
  run-IsValid n irq_map w gic_dist_paddr events few = Ensures-ok IsSound (
      Ensures-bind (boot-Keeps n irq_map w gic_dist_paddr few)
        λ v₀ h. run-Keeps monitor IsSound-IsKept v₀ events h)
