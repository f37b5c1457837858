-- ===== src/Gic/Distributor/Sweep/Exact.antt =====
-- distributor/mod.rs, `sweep_irqs_to_inject` and `sweep_irqs_to_ack` against their tests.
use icecap.Base.{ℕ, ◌+◌, ◌≤◌, ◌<◌, ◌≡◌, not, ◌&&◌, Bool, List, arith, ok}
use icecap.Gic.Distributor.{Distributor}
use icecap.Gic.Distributor.WellFormed.{IsWellFormed}
use icecap.Gic.Distributor.Lines.Effects.{enabled_line, is_enabled_lem}
use icecap.Gic.Distributor.Lines.Inject.{injectable, should_inject_lem}
use icecap.Gic.Distributor.Sweep.{sweep_irqs_to_inject, sweep_irqs_to_ack, should_ack}
use icecap.Gic.Distributor.Sweep.Hits.{
  In, IsHit, irq_hits, irq_hits_sound, irq_hits_complete, sweep_irqs_lem,
}

-- An interrupt that is enabled and not to be injected.
abbrev pub ackable : Distributor → ℕ → ℕ → Bool
ackable d irq cpu = not (injectable d irq cpu) && enabled_line d irq cpu

-- The list holds just the hits of a test among the interrupts `base ≤ irq < base + num`, on the nodes.
abbrev pub Sweeps : (ℕ → ℕ → Bool) → Distributor → ℕ → ℕ → List (ℕ × ℕ) → Type 0
Sweeps test d base num out =
    (irq cpu : ℕ)
    → (In (irq, cpu) out
        → (base ≤ irq) × (irq < base + num) × (cpu < d.num_nodes) × IsHit test irq 0 cpu)
      × (base ≤ irq
          → irq < base + num
          → cpu < d.num_nodes
          → IsHit test irq 0 cpu
          → In (irq, cpu) out)

irq_hits-Sweeps :
    (test : ℕ → ℕ → Bool) (d : Distributor) (base num : ℕ)
    → Sweeps test d base num (irq_hits test d.num_nodes base num)
irq_hits-Sweeps test d base num irq cpu = (
  irq_hits_sound test d.num_nodes base num irq cpu,
  irq_hits_complete test d.num_nodes base num irq cpu,
)

module _ {d : Distributor} (base num : ℕ) (v : IsWellFormed d) (inside : base + num ≤ 1020) where
  -- A sweep for interrupts to inject, within the 1020 that the controller has, returns. Its list
  -- holds a pair of an interrupt and a node exactly if the interrupt lies in the range, the node
  -- exists, and the interrupt is to be injected there; of an interrupt from 32 on, if no node before
  -- is one where it is to be injected.
  pub sweep_irqs_to_inject_exact :
      (out : List (ℕ × ℕ)) × (sweep_irqs_to_inject d base num ≡ ok out)
      × Sweeps (injectable d) d base num out
  unfolding sweep_irqs_to_inject
  sweep_irqs_to_inject_exact = (
    irq_hits (injectable d) d.num_nodes base num,
    sweep_irqs_lem (injectable d) _ d.num_nodes base num
        (λ i cpu below node. should_inject_lem v i cpu (omega arith) node),
    irq_hits-Sweeps (injectable d) d base num,
  )

  should_ack_lem :
      (irq cpu : ℕ) → irq < 1020 → cpu < d.num_nodes → should_ack d irq cpu ≡ ok (ackable d irq cpu)
  unfolding should_ack
  should_ack_lem irq cpu hi hc =
      rw (should_inject_lem v irq cpu hi hc, is_enabled_lem v irq cpu (omega arith) hc)
        (ground arith)

  -- A sweep for interrupts to acknowledge, within the 1020 that the controller has, returns. Its list
  -- holds a pair of an interrupt and a node exactly if the interrupt lies in the range, the node
  -- exists, and the interrupt is enabled there and not to be injected there; of an interrupt from 32
  -- on, if no node before is such a one.
  pub sweep_irqs_to_ack_exact :
      (out : List (ℕ × ℕ)) × (sweep_irqs_to_ack d base num ≡ ok out)
      × Sweeps (ackable d) d base num out
  unfolding sweep_irqs_to_ack
  sweep_irqs_to_ack_exact = (
    irq_hits (ackable d) d.num_nodes base num,
    sweep_irqs_lem (ackable d) _ d.num_nodes base num
        (λ i cpu below node. should_ack_lem i cpu (omega arith) node),
    irq_hits-Sweeps (ackable d) d base num,
  )
