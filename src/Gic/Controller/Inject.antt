-- ===== src/Gic/Controller/Inject.antt =====
-- What the controller does with one interrupt: it becomes pending, and then goes to a list register,
-- to the queue of its node, or nowhere yet.
use icecap.Base.{
  ℕ, ◌/◌, ◌^◌, ◌<◌, ◌≡◌, refl, ◌==◌, if◌then◌else◌, not, ◌&&◌, ◌||◌, Bool, true, some, none, List,
  length, get_elem?, set, arith, ok, ◌>>=◌, get_elem?-eq-get_or,
}
use icecap.Gic.Distributor.{Distributor}
use icecap.Gic.Distributor.Lines.{should_inject}
use icecap.Gic.Distributor.Lines.Banks.{same_line}
use icecap.Gic.Distributor.Lines.Effects.{
  enabled_line, pending_line, active_line, pending_after, active_after, set_bit, set_pending_lem,
  set_active_lem, pending_line-set, pending_after-IsWellFormed,
}
use icecap.Gic.Distributor.Lines.Inject.{
  target_line, injectable, should_inject_lem, priority_of, get_priority_lem,
}
use icecap.Gic.Distributor.WellFormed.{IsWellFormed}
use icecap.Gic.Controller.{Gic, Lr, Callbacks, inject_now, inject_irq}

-- An interrupt would go to the CPU as soon as it is pending.
abbrev pub ready : Distributor → ℕ → ℕ → Bool
ready d irq cpu =
    (d.control == 1)
    && (enabled_line d irq cpu && (target_line d irq cpu && not (active_line d irq cpu)))

abbrev pub made_pending : Distributor → ℕ → ℕ → Distributor
made_pending d irq cpu = pending_after d (set_bit irq) irq cpu

abbrev made_active : Distributor → ℕ → ℕ → Distributor
made_active d irq cpu = active_after d (set_bit irq) irq cpu

-- `lrs` with `irq` in slot `i` of the mirror of `node`.
abbrev with_slot : List Lr → ℕ → Lr → ℕ → ℕ → List Lr
with_slot lrs node lr i irq = set lrs node (record lr { mirror = set lr.mirror i (some irq) })

pending_drops :
    (c e t p s a : Bool)
    → s ≡ true
    → (c && (e && (t && ((p || s) && not a)))) ≡ (c && (e && (t && not a)))
pending_drops c e t p s a h = ground arith

module _ {d : Distributor} (v : IsWellFormed d) (irq cpu : ℕ) (hi : irq < 1020)
    (hc : cpu < d.num_nodes) where
  same_line_refl : same_line irq cpu irq cpu ≡ true
  same_line_refl = ground arith

  injectable-made_pending : injectable (made_pending d irq cpu) irq cpu ≡ ready d irq cpu
  injectable-made_pending = rw (pending_line-set v irq cpu (omega arith) hc irq cpu) (
      pending_drops (d.control == 1) (enabled_line d irq cpu) (target_line d irq cpu)
        (pending_line d irq cpu) (same_line irq cpu irq cpu) (active_line d irq cpu) same_line_refl)

  should_inject-made_pending : should_inject (made_pending d irq cpu) irq cpu ≡ ok (ready d irq cpu)
  should_inject-made_pending =
      rw
        (should_inject_lem (pending_after-IsWellFormed v irq cpu (omega arith) hc (set_bit irq)) irq
          cpu hi hc)
        (rw injectable-made_pending refl)

-- A slot of a mirror that `get_elem?` finds.
abbrev HasSlot : {T : Type 0} → Gic T → ℕ → Lr → ℕ → Type 0
HasSlot g node lr i = (get_elem? g.lrs node ≡ some lr) × (i < length lr.mirror)

module _ {T : Type 0} (ops : Callbacks T) (g : Gic T) (irq target : ℕ) where
  -- The controller once `irq` is in slot `i`, before the call back.
  abbrev pub placed : Lr → ℕ → T → Gic T
  placed lr i cb = record g {
    callbacks = cb;
    dist = made_active (made_pending g.dist irq target) irq target;
    lrs = with_slot g.lrs target lr i irq;
  }

module _ {T : Type 0} (ops : Callbacks T) (g : Gic T) (irq target : ℕ) (v : IsWellFormed g.dist)
    (hi : irq < 1020) (ht : target < g.dist.num_nodes) where
  inject_now_lem :
      (calling i priority : ℕ) (lr : Lr)
      → HasSlot g target lr i
      → inject_now ops
          (record g { dist = made_pending g.dist irq target })
          calling
          target
          i
          irq
          priority
        ≡ (ops.vcpu_inject_irq g.callbacks calling target i irq priority >>= λ cb.
            ok (placed ops g irq target lr i cb))
  unfolding inject_now
  inject_now_lem calling i priority lr h =
      let v' = pending_after-IsWellFormed v irq target (omega arith) ht (set_bit irq) in
      rw
        (
          set_active_lem v' irq target (omega arith) ht,
          h.0,
          get_elem?-eq-get_or lr.mirror i none h.1,
        )
        refl

  -- Given a slot that the mirror of the target has, `inject_irq` makes an interrupt below 1020 pending
  -- for that CPU, one that the distributor has. If the controller is on and the
  -- interrupt is enabled, targeted at that CPU and not active, it also becomes active, is put in the
  -- given slot of the mirror, and goes to the virtual CPU with its priority in the list register's
  -- five bits; else nothing more happens: no slot is taken and no call back is made.
  pub inject_irq_lem :
      (calling i : ℕ) (lr : Lr)
      → HasSlot g target lr i
      → inject_irq ops g calling target i irq ≡ (
          if ready g.dist irq target
          then (ops.vcpu_inject_irq g.callbacks calling target i irq
                (priority_of g.dist irq target / 2 ^ 3)
              >>= λ cb. ok (placed ops g irq target lr i cb))
          else ok (record g { dist = made_pending g.dist irq target }))
  unfolding inject_irq
  inject_irq_lem calling i lr h =
      rw
        (
          get_priority_lem v irq target hi ht,
          set_pending_lem v irq target (omega arith) ht,
          should_inject-made_pending v irq target hi ht,
          inject_now_lem calling i _ lr h,
        )
        refl
