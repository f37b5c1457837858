-- ===== src/Gic/Distributor/Sweep.antt =====
-- distributor/mod.rs: the sweeps over a range of interrupts and all nodes.
pub mod Hits
pub mod Exact
use icecap.Base.{
  ℕ, zero, suc, leb, if◌then◌else◌, not, Bool, false, List, [], ◌∷◌, ◌++◌, Outcome, ok, ◌>>=◌,
}
use icecap.Gic.Error.{IrqError}
use icecap.Gic.Distributor.{Distributor}
use icecap.Gic.Distributor.Lines.{and_then, should_inject, is_enabled}

-- `for node_index in node_index..node_index + k`, left after the first hit of an SPI.
unfoldable pub sweep_nodes :
    (ℕ → ℕ → Outcome IrqError Bool) → ℕ → ℕ → ℕ → Outcome IrqError (List (ℕ × ℕ))
sweep_nodes hits irq node_index zero = ok []
sweep_nodes hits irq node_index (suc k) = do
  hit ← hits irq node_index
  let rest = sweep_nodes hits irq (suc node_index) k
  if hit
      then if leb 32 irq
        then ok ((irq, node_index) ∷ [])
        else (rest >>= λ r. ok ((irq, node_index) ∷ r))
      else rest

-- `for irq in irq..irq + k`
unfoldable pub sweep_irqs :
    (ℕ → ℕ → Outcome IrqError Bool) → ℕ → ℕ → ℕ → Outcome IrqError (List (ℕ × ℕ))
unfolding sweep_nodes
sweep_irqs hits num_nodes irq zero = ok []
sweep_irqs hits num_nodes irq (suc k) = do
  here ← sweep_nodes hits irq 0 num_nodes
  rest ← sweep_irqs hits num_nodes (suc irq) k
  ok (here ++ rest)

unfoldable pub sweep_irqs_to_inject : Distributor → ℕ → ℕ → Outcome IrqError (List (ℕ × ℕ))
sweep_irqs_to_inject d base_irq num_irqs =
    sweep_irqs (should_inject d) d.num_nodes base_irq num_irqs

-- `!self.should_inject(irq, node_index) && self.is_enabled(irq, node_index)`
unfoldable pub should_ack : Distributor → ℕ → ℕ → Outcome IrqError Bool
should_ack d irq cpu = and_then (should_inject d irq cpu >>= λ b. ok (not b)) (is_enabled d irq cpu)

unfoldable pub sweep_irqs_to_ack : Distributor → ℕ → ℕ → Outcome IrqError (List (ℕ × ℕ))
sweep_irqs_to_ack d base_irq num_irqs = sweep_irqs (should_ack d) d.num_nodes base_irq num_irqs
