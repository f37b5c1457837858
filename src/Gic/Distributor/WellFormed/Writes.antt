-- ===== src/Gic/Distributor/WellFormed/Writes.antt =====
-- distributor/mod.rs, `handle_write`: the shape of the banks over each arm.
use icecap.Base.{
  ℕ, ◌-◌, ◌*◌, ltb, ◌==◌, List, arith, Ensures, returns, fails, Ensures-bind, Ensures-then,
  Ensures-if, modify-length, modify_in-lengths,
}
use icecap.Gic.Distributor.{Distributor}
use icecap.Gic.Distributor.Sweep.{sweep_irqs_to_inject, sweep_irqs_to_ack}
use icecap.Gic.Distributor.WellFormed.{IsWellFormed}
use icecap.Gic.Distributor.WellFormed.Banks.{modify_banked-KeepsLengths}
use icecap.Gic.Distributor.Write.{
  Written, sweep_both, sweep_inject, inject_only, write_ctlr, write_igroupr, write_isenabler,
  write_icenabler, write_ispendr, write_icpendr, write_isactiver, write_icactiver, write_ipriorityr,
  write_targets, write_icfgr, set_pending_reg, clear_pending_reg, is_empty,
}

-- The distributor that a write leaves is well formed.
abbrev pub KeepsShape : Written → Type 0
KeepsShape = Ensures (λ w. IsWellFormed w.1)

module _ {d : Distributor} (v : IsWellFormed d) where
  sweep_both-KeepsShape : (base num : ℕ) → KeepsShape (sweep_both d base num)
  unfolding sweep_both
  sweep_both-KeepsShape base num = Ensures-then (sweep_irqs_to_inject d base num) (λ inj.
      Ensures-then (sweep_irqs_to_ack d base num) (λ acks. Ensures-if _ (returns v) (returns v)))

  pub inject_only-KeepsShape : (irqs : List (ℕ × ℕ)) → KeepsShape (inject_only irqs d)
  inject_only-KeepsShape irqs = Ensures-if (is_empty irqs) (returns v) (returns v)

  pub sweep_inject-KeepsShape : (base num : ℕ) → KeepsShape (sweep_inject d base num)
  unfolding sweep_inject
  sweep_inject-KeepsShape base num =
      Ensures-then (sweep_irqs_to_inject d base num) (λ inj. inject_only-KeepsShape inj)

module _ {d : Distributor} (v : IsWellFormed d) where
  pub write_ctlr-KeepsShape : (val : ℕ) → KeepsShape (write_ctlr d val)
  unfolding write_ctlr
  write_ctlr-KeepsShape val =
      Ensures-if (val == 1)
        (Ensures-if (d.control == 0) (sweep_both-KeepsShape (ground arith) 0 1020)
          (returns (ground arith)))
        (Ensures-if (val == 0) (returns (ground arith)) fails)

  pub write_igroupr-KeepsShape : (node n val : ℕ) → KeepsShape (write_igroupr d node n val)
  unfolding write_igroupr
  write_igroupr-KeepsShape node n val =
      Ensures-bind (modify_banked-KeepsLengths d.irq_group0 d.irq_group node n _)
        (λ w h. returns (ground arith))

  pub write_isenabler-KeepsShape : (node n val : ℕ) → KeepsShape (write_isenabler d node n val)
  unfolding write_isenabler
  write_isenabler-KeepsShape node n val = Ensures-if (val == 0) (returns v) (
      Ensures-bind (modify_banked-KeepsLengths d.enable0 d.enable node n _)
        (λ w h. sweep_both-KeepsShape (ground arith) (n * 32) 32))

  pub write_icenabler-KeepsShape : (node n val : ℕ) → KeepsShape (write_icenabler d node n val)
  unfolding write_icenabler
  write_icenabler-KeepsShape node n val = Ensures-if (val == 0) (returns v) (
      Ensures-if (n == 0)
        (Ensures-bind (modify-length d.enable0 node _) (λ w h. returns (ground arith)))
        (Ensures-bind (modify-length d.enable n _) (λ w h. returns (ground arith))))

  set_pending_reg-KeepsShape : (node n val : ℕ) → KeepsShape (set_pending_reg d node n val)
  unfolding set_pending_reg
  set_pending_reg-KeepsShape node n val =
      Ensures-bind (modify_banked-KeepsLengths d.pending0 d.pending node n _)
        (λ w h. sweep_inject-KeepsShape (ground arith) (n * 32) 32)

  pub write_ispendr-KeepsShape : (node n val : ℕ) → KeepsShape (write_ispendr d node n val)
  unfolding write_ispendr
  write_ispendr-KeepsShape node n val =
      Ensures-if (val == 0) (returns v)
        (Ensures-if _ (returns v) (set_pending_reg-KeepsShape node n val))

  pub write_icpendr-KeepsShape : (node n val : ℕ) → KeepsShape (write_icpendr d node n val)
  unfolding write_icpendr clear_pending_reg
  write_icpendr-KeepsShape node n val = Ensures-if (val == 0) (returns v) (
      Ensures-if _ fails (
        Ensures-bind (modify_banked-KeepsLengths d.pending0 d.pending node n _)
          (λ w h. returns (ground arith))))

  pub write_isactiver-KeepsShape : (node n val : ℕ) → KeepsShape (write_isactiver d node n val)
  unfolding write_isactiver
  write_isactiver-KeepsShape node n val = Ensures-if (val == 0) (returns v) (
      Ensures-bind (modify_banked-KeepsLengths d.active0 d.active node n _)
        (λ w h. returns (ground arith)))

  pub write_icactiver-KeepsShape : (node n val : ℕ) → KeepsShape (write_icactiver d node n val)
  unfolding write_icactiver
  write_icactiver-KeepsShape node n val = Ensures-if (val == 0) (returns v) (
      Ensures-bind (modify_banked-KeepsLengths d.active0 d.active node n _)
        (λ w h. returns (ground arith)))

  pub write_ipriorityr-KeepsShape : (node n val : ℕ) → KeepsShape (write_ipriorityr d node n val)
  unfolding write_ipriorityr
  write_ipriorityr-KeepsShape node n val =
      Ensures-if (ltb n 8)
        (Ensures-bind (modify_in-lengths d.priority0 node n _) (λ w h. returns (ground arith)))
        (Ensures-bind (modify-length d.priority (n - 8) _) (λ w h. returns (ground arith)))

  pub write_targets-KeepsShape :
      (n : ℕ) (f : ℕ → ℕ × ℕ) (bits : ℕ) → KeepsShape (write_targets d n f bits)
  unfolding write_targets
  write_targets-KeepsShape n f bits = Ensures-if (ltb n 8) fails (
      Ensures-bind (modify-length d.targets (n - 8) f) (λ w h.
        Ensures-if _ (returns (ground arith)) (sweep_both-KeepsShape (ground arith) (n * 4) 4)))

  pub write_icfgr-KeepsShape : (node n val : ℕ) → KeepsShape (write_icfgr d node n val)
  unfolding write_icfgr
  write_icfgr-KeepsShape node n val = Ensures-if (n == 0) (returns v) (
      Ensures-if (n == 1)
        (Ensures-bind (modify-length d.config1 node _) (λ w h. returns (ground arith)))
        (Ensures-bind (modify-length d.config (n - 2) _) (λ w h. returns (ground arith))))
