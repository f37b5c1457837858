-- ===== src/Gic/Distributor/Write/Arms.antt =====
-- distributor/mod.rs, `handle_write`: the fields that each of its arms reaches.
use icecap.Base.{
  ℕ, ◌-◌, ◌*◌, ltb, ◌==◌, refl, List, [], ◌∷◌, assert, modify, modify_in, bit_and, returns, fails,
  Ensures-bind, Ensures-then, Ensures-if, Ensures-expect,
}
use icecap.Base.Bits.{not32}
use icecap.Biterate.{biterate}
use icecap.Gic.Registers.{
  GicDistRegWord, gicd_ctlr, gicd_igroupr, gicd_isenabler, gicd_icenabler, gicd_isactiver,
  gicd_icactiver, gicd_icfgr,
}
use icecap.Gic.Distributor.{Distributor}
use icecap.Gic.Distributor.Write.{
  quiet, modify_banked, write_ctlr, write_igroupr, write_isenabler, write_icenabler, write_ispendr,
  write_icpendr, write_isactiver, write_icactiver, write_ipriorityr, write_targets, write_icfgr,
  set_pending_reg, clear_pending_reg,
}
use icecap.Gic.Distributor.Sgi.{
  forward_to, sgi_int_id, cpu_target_list, target_list_filter, all_but, write_sgir, clear_if_idle,
  set_if_new, write_cpendsgir, write_spendsgir,
}
use icecap.Gic.Distributor.Write.Frame.{
  with_register, with_pending, with_targets, with_sgi, Frame, inject_only-Frame, sweep_inject-Frame,
  sweep_both-Frame, set_pending-Within, clear_pending-Within, forward_sgi-Within, mask_loop-Within,
  modify_sgi-Within,
}

module _ (d : Distributor) (node n val : ℕ) where
  pub write_ctlr-Frame : Frame (with_register gicd_ctlr) d (write_ctlr d val)
  unfolding write_ctlr
  write_ctlr-Frame =
      Ensures-if (val == 1)
        (Ensures-if (d.control == 0) (sweep_both-Frame (with_register gicd_ctlr) d _ refl 0 1020)
          (returns refl))
        (Ensures-if (val == 0) (returns refl) fails)

  pub write_igroupr-Frame : Frame (with_register (gicd_igroupr n)) d (write_igroupr d node n val)
  unfolding write_igroupr
  write_igroupr-Frame =
      Ensures-then (modify_banked d.irq_group0 d.irq_group node n _) (λ w. returns refl)

  pub write_isenabler-Frame :
      Frame (with_register (gicd_isenabler n)) d (write_isenabler d node n val)
  unfolding write_isenabler
  write_isenabler-Frame = Ensures-if (val == 0) (returns refl) (
      Ensures-then (modify_banked d.enable0 d.enable node n _)
        (λ w. sweep_both-Frame (with_register (gicd_isenabler n)) d _ refl (n * 32) 32))

  pub write_icenabler-Frame :
      Frame (with_register (gicd_icenabler n)) d (write_icenabler d node n val)
  unfolding write_icenabler
  write_icenabler-Frame = Ensures-if (val == 0) (returns refl) (
      Ensures-if (n == 0) (Ensures-then (modify d.enable0 node _) (λ w. returns refl))
        (Ensures-then (modify d.enable n _) (λ w. returns refl)))

  pub write_ispendr-Frame : Frame with_pending d (write_ispendr d node n val)
  unfolding write_ispendr set_pending_reg
  write_ispendr-Frame = Ensures-if (val == 0) (returns refl) (
      Ensures-if _ (returns refl) (
        Ensures-then (modify_banked d.pending0 d.pending node n _)
          (λ w. sweep_inject-Frame with_pending d _ refl (n * 32) 32)))

  pub write_icpendr-Frame : Frame with_pending d (write_icpendr d node n val)
  unfolding write_icpendr clear_pending_reg
  write_icpendr-Frame = Ensures-if (val == 0) (returns refl) (
      Ensures-if _ fails
        (Ensures-then (modify_banked d.pending0 d.pending node n _) (λ w. returns refl)))

  pub write_isactiver-Frame :
      Frame (with_register (gicd_isactiver n)) d (write_isactiver d node n val)
  unfolding write_isactiver
  write_isactiver-Frame =
      Ensures-if (val == 0) (returns refl)
        (Ensures-then (modify_banked d.active0 d.active node n _) (λ w. returns refl))

  pub write_icactiver-Frame :
      Frame (with_register (gicd_icactiver n)) d (write_icactiver d node n val)
  unfolding write_icactiver
  write_icactiver-Frame =
      Ensures-if (val == 0) (returns refl)
        (Ensures-then (modify_banked d.active0 d.active node n _) (λ w. returns refl))

  pub write_ipriorityr-Frame :
      Frame (with_register (GicDistRegWord.gicd_ipriorityr n)) d (write_ipriorityr d node n val)
  unfolding write_ipriorityr
  write_ipriorityr-Frame =
      Ensures-if (ltb n 8) (Ensures-then (modify_in d.priority0 node n _) (λ w. returns refl))
        (Ensures-then (modify d.priority (n - 8) _) (λ w. returns refl))

  pub write_icfgr-Frame : Frame (with_register (gicd_icfgr n)) d (write_icfgr d node n val)
  unfolding write_icfgr
  write_icfgr-Frame = Ensures-if (n == 0) (returns refl) (
      Ensures-if (n == 1) (Ensures-then (modify d.config1 node _) (λ w. returns refl))
        (Ensures-then (modify d.config (n - 2) _) (λ w. returns refl)))

  forward_to-Frame : (irq : ℕ) (cpus : List ℕ) → Frame with_pending d (forward_to d irq cpus)
  forward_to-Frame irq cpus =
      Ensures-bind (forward_sgi-Within irq cpus d)
        (λ w e. inject_only-Frame with_pending d w.1 e w.0)

  pub write_sgir-Frame : Frame with_pending d (write_sgir d node val)
  unfolding write_sgir
  write_sgir-Frame =
      let to = λ (cpus : List ℕ). forward_to-Frame (sgi_int_id val) cpus in
      Ensures-if (target_list_filter val == 0) (to (biterate (cpu_target_list val))) (
        Ensures-if (target_list_filter val == 1)
          (Ensures-then (assert (ltb node 8)) (λ _. to (biterate (all_but node))))
          (Ensures-if (target_list_filter val == 2) (to (node ∷ [])) (returns refl)))

  pub write_cpendsgir-Frame : Frame with_sgi d (write_cpendsgir d node n val)
  unfolding write_cpendsgir
  write_cpendsgir-Frame = Ensures-if (val == 0) (returns refl) (
      Ensures-bind (modify_sgi-Within d node n _) (λ w e0.
        Ensures-bind {f = λ d'. quiet d'}
          (mask_loop-Within (clear_if_idle node (bit_and w.0 (not32 val)))
            (λ irq mask d'.
              Ensures-if _ (Ensures-expect (clear_pending-Within d' irq node)) (returns refl))
            4 (n * 4) 0 0xFF d w.1 e0)
          (λ d' e. returns e)))

  pub write_spendsgir-Frame : Frame with_sgi d (write_spendsgir d node n val)
  unfolding write_spendsgir
  write_spendsgir-Frame = Ensures-if (val == 0) (returns refl) (
      Ensures-bind (modify_sgi-Within d node n _) (λ w e0.
        Ensures-bind
          (mask_loop-Within (set_if_new node (bit_and val (not32 w.0)))
            (λ irq mask d'.
              Ensures-if _ (returns refl) (Ensures-expect (set_pending-Within d' irq node)))
            4 (n * 4) 0 0xFF d w.1 e0)
          (λ d' e. sweep_inject-Frame with_sgi d d' e (n * 4) 4)))

pub write_targets-Frame :
    (d : Distributor) (n : ℕ) (f : ℕ → ℕ × ℕ) (bits : ℕ)
    → Frame with_targets d (write_targets d n f bits)
unfolding write_targets
write_targets-Frame d n f bits = Ensures-if (ltb n 8) fails (
    Ensures-then (modify d.targets (n - 8) f)
      (λ w. Ensures-if _ (returns refl) (sweep_both-Frame with_targets d _ refl (n * 4) 4)))
