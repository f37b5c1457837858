-- ===== src/Gic/Distributor/Write/Frame.antt =====
-- distributor/mod.rs, `handle_write`: the fields that a write to each register reaches.
use icecap.Base.{
  ℕ, zero, suc, ◌*◌, leb, ◌≡◌, refl, sym, ap, ◌∙◌, List, [], ◌∷◌, Outcome, modify_in, Ensures,
  returns, fails, Ensures-bind, Ensures-then, Ensures-if, Ensures-expect,
}
use icecap.Gic.Error.{IrqError}
use icecap.Gic.Register32.{shl32}
use icecap.Gic.Registers.{
  GicDistRegWord, gicd_ctlr, gicd_typer, gicd_iidr, gicd_sgir, gicd_igroupr, gicd_isenabler,
  gicd_icenabler, gicd_ispendr, gicd_icpendr, gicd_isactiver, gicd_icactiver, gicd_icfgr,
  gicd_nsacr, iccidr, icpidr,
}
use icecap.Gic.Distributor.{Distributor}
use icecap.Gic.Distributor.Lines.{
  should_inject, set_pending, clear_pending, modify_line, modify_sgi,
}
use icecap.Gic.Distributor.Sweep.{sweep_irqs_to_inject, sweep_irqs_to_ack}
use icecap.Gic.Distributor.Write.{Written, is_empty, sweep_both, sweep_inject, inject_only}
use icecap.Gic.Distributor.Sgi.{forward_sgi, mask_loop}

abbrev pub with_pending : Distributor → Distributor → Distributor
with_pending d d' = record d { pending0 = d'.pending0; pending = d'.pending }

abbrev pub with_targets : Distributor → Distributor → Distributor
with_targets d d' = record d { targets = d'.targets }

abbrev pub with_sgi : Distributor → Distributor → Distributor
with_sgi d d' = record d {
  sgi_pending = d'.sgi_pending;
  pending0 = d'.pending0;
  pending = d'.pending;
}

-- The distributor `d` with the fields of a register taken from `d'`.
abbrev pub with_register : GicDistRegWord → Distributor → Distributor → Distributor
with_register gicd_ctlr d d' = record d { control = d'.control }
with_register (gicd_igroupr n) d d' = record d {
  irq_group0 = d'.irq_group0;
  irq_group = d'.irq_group;
}
with_register (gicd_isenabler n) d d' = record d { enable0 = d'.enable0; enable = d'.enable }
with_register (gicd_icenabler n) d d' = record d { enable0 = d'.enable0; enable = d'.enable }
with_register (gicd_ispendr n) d d' = with_pending d d'
with_register (gicd_icpendr n) d d' = with_pending d d'
with_register (gicd_isactiver n) d d' = record d { active0 = d'.active0; active = d'.active }
with_register (gicd_icactiver n) d d' = record d { active0 = d'.active0; active = d'.active }
with_register (GicDistRegWord.gicd_ipriorityr n) d d' = record d {
  priority0 = d'.priority0;
  priority = d'.priority;
}
with_register (GicDistRegWord.gicd_itargetsr n) d d' = with_targets d d'
with_register (gicd_icfgr n) d d' = record d { config1 = d'.config1; config = d'.config }
with_register gicd_sgir d d' = with_pending d d'
with_register (GicDistRegWord.gicd_cpendsgir n) d d' = with_sgi d d'
with_register (GicDistRegWord.gicd_spendsgir n) d d' = with_sgi d d'
with_register gicd_typer d d' = d
with_register gicd_iidr d d' = d
with_register (gicd_nsacr n) d d' = d
with_register (icpidr n) d d' = d
with_register (iccidr n) d d' = d

-- What a write leaves differs from what was there in the fields that `with` takes.
abbrev pub Frame : (Distributor → Distributor → Distributor) → Distributor → Written → Type 0
Frame with d = Ensures (λ w. w.1 ≡ with d w.1)

abbrev Within :
    (Distributor → Distributor → Distributor) → Distributor → Outcome IrqError Distributor → Type 0
Within with d = Ensures (λ d'. d' ≡ with d d')

-- What comes after a write asks questions only.
module _ (with : Distributor → Distributor → Distributor) (d d' : Distributor)
    (e : d' ≡ with d d') where
  pub inject_only-Frame : (irqs : List (ℕ × ℕ)) → Frame with d (inject_only irqs d')
  inject_only-Frame irqs = Ensures-if (is_empty irqs) (returns e) (returns e)

  pub sweep_inject-Frame : (base num : ℕ) → Frame with d (sweep_inject d' base num)
  unfolding sweep_inject
  sweep_inject-Frame base num =
      Ensures-then (sweep_irqs_to_inject d' base num) (λ irqs. inject_only-Frame irqs)

  pub sweep_both-Frame : (base num : ℕ) → Frame with d (sweep_both d' base num)
  unfolding sweep_both
  sweep_both-Frame base num = Ensures-then (sweep_irqs_to_inject d' base num) (λ inj.
      Ensures-then (sweep_irqs_to_ack d' base num) (λ acks. Ensures-if _ (returns e) (returns e)))

pub set_pending-Within :
    (d : Distributor) (irq cpu : ℕ) → Within with_pending d (set_pending d irq cpu)
unfolding set_pending
set_pending-Within d irq cpu =
    Ensures-if (leb d.num_nodes cpu) fails
      (Ensures-then (modify_line d.pending0 d.pending irq cpu _) (λ w. returns refl))

pub clear_pending-Within :
    (d : Distributor) (irq cpu : ℕ) → Within with_pending d (clear_pending d irq cpu)
unfolding clear_pending
clear_pending-Within d irq cpu =
    Ensures-if (leb d.num_nodes cpu) fails
      (Ensures-then (modify_line d.pending0 d.pending irq cpu _) (λ w. returns refl))

then_pending :
    (d d' d'' : Distributor)
    → d' ≡ with_pending d d'
    → d'' ≡ with_pending d' d''
    → d'' ≡ with_pending d d''
then_pending d d' d'' e e' = e' ∙ ap (λ z. with_pending z d'') e

then_sgi :
    (d d' d'' : Distributor) → d' ≡ with_sgi d d' → d'' ≡ with_pending d' d'' → d'' ≡ with_sgi d d''
then_sgi d d' d'' e e' =
    let same : d''.sgi_pending ≡ d'.sgi_pending = ap (λ z. z.sgi_pending) e' in
    e'
    ∙ ap (λ z. with_pending z d'') e
    ∙ ap (λ s. record (with_sgi d d'') { sgi_pending = s }) (sym same)

pub forward_sgi-Within :
    (irq : ℕ) (cpus : List ℕ) (d : Distributor)
    → Ensures (λ w. w.1 ≡ with_pending d w.1) (forward_sgi d irq cpus)
unfolding forward_sgi
forward_sgi-Within irq [] d = returns refl
forward_sgi-Within irq (cpu ∷ cpus) d =
    Ensures-bind (Ensures-expect (set_pending-Within d irq cpu)) (λ d' e.
      Ensures-then (should_inject d' irq cpu) (λ hit.
        Ensures-bind (forward_sgi-Within irq cpus d')
          (λ rest e'. returns (then_pending d d' rest.1 e e'))))

pub mask_loop-Within :
    (body : ℕ → ℕ → Distributor → Outcome IrqError Distributor)
    → ((irq mask : ℕ) (d' : Distributor) → Within with_pending d' (body irq mask d'))
    → (k irq i mask : ℕ) (d d' : Distributor) → d' ≡ with_sgi d d'
    → Within with_sgi d (mask_loop body k irq i mask d')
unfolding mask_loop
mask_loop-Within body step zero irq i mask d d' e = returns e
mask_loop-Within body step (suc k) irq i mask d d' e =
    Ensures-bind (step irq (shl32 mask (i * 8)) d') (λ d'' e'.
      mask_loop-Within body step k (suc irq) (suc i) (shl32 mask (i * 8)) d d''
        (then_sgi d d' d'' e e'))

pub modify_sgi-Within :
    (d : Distributor) (node n : ℕ) (f : ℕ → ℕ × ℕ)
    → Ensures (λ w. w.1 ≡ with_sgi d w.1) (modify_sgi d node n f)
modify_sgi-Within d node n f = Ensures-then (modify_in d.sgi_pending node n f) (λ w. returns refl)
