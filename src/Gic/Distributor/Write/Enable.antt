-- ===== src/Gic/Distributor/Write/Enable.antt =====
-- Enabling and disabling interrupts.
use icecap.Base.{
  ℕ, ◌+◌, ◌-◌, ◌*◌, ◌/◌, ◌%◌, ◌^◌, ◌<◌, ◌≤◌, ◌≡◌, ◌≢◌, refl, ◌==◌, if◌then◌else◌, not, ◌&&◌, ◌||◌,
  Bool, true, false, List, length, get_or, set, index-eq-get_or, arith, Outcome, ok, some, suc,
  Ensures-ok,
}
use icecap.Base.Bits.{test_bit, not32}
use icecap.Gic.Error.{IrqError}
use icecap.Gic.Register32.{fetch_and, fetch_or}
use icecap.Gic.Distributor.{Distributor, WriteAction}
use icecap.Gic.Distributor.WellFormed.{IsWellFormed}
use icecap.Gic.Distributor.WellFormed.Banks.{KeepsLengths, modify_banked-KeepsLengths}
use icecap.Gic.Distributor.Lines.Effects.{enabled_line}
use icecap.Gic.Distributor.Lines.Inject.{injectable}
use icecap.Gic.Distributor.Sweep.Exact.{
  ackable, Sweeps, sweep_irqs_to_inject_exact, sweep_irqs_to_ack_exact,
}
use icecap.Gic.Distributor.Write.{write_isenabler, write_icenabler, sweep_both, is_empty}
use icecap.Gic.Distributor.Write.Banked.{
  covers, modify_banked_lem, banked_after, shared_after, banked_line, or_word, and_not_word,
}

-- What a write that sweeps a range reports: lists of the interrupts to inject and to acknowledge, or
-- nothing if both are empty.
abbrev pub report : List (ℕ × ℕ) → List (ℕ × ℕ) → WriteAction
report to_inject to_ack =
    if is_empty to_inject && is_empty to_ack
    then WriteAction.no_action
    else WriteAction.inject_and_ack_irqs (some to_inject) (some to_ack)

report-cases :
    (d : Distributor) (a : WriteAction) (b : Bool)
    → ◌≡◌ {A = Outcome IrqError (WriteAction × Distributor)}
        (if b then ok (WriteAction.no_action, d) else ok (a, d))
        (ok (if b then WriteAction.no_action else a, d))
report-cases d a true = refl
report-cases d a false = refl

sweep_both_exact :
    {d : Distributor} (base num : ℕ)
    → IsWellFormed d
    → base + num ≤ 1020
    → (to_inject to_ack : List (ℕ × ℕ)) × (sweep_both d base num ≡ ok (report to_inject to_ack, d))
      × Sweeps (injectable d) d base num to_inject
      × Sweeps (ackable d) d base num to_ack
unfolding sweep_both
sweep_both_exact {d} base num v inside =
    let (to_inject, e, inj) = sweep_irqs_to_inject_exact base num v inside in
    let (to_ack, e', acks) = sweep_irqs_to_ack_exact base num v inside in
    (
      to_inject,
      to_ack,
      rw (e, e') (report-cases d _ (is_empty to_inject && is_empty to_ack)),
      inj,
      acks,
    )

-- The interrupts of register `n` whose bits are set in `val` are enabled in `d'`, all else is as in
-- `d`.
abbrev pub Enables : Distributor → ℕ → ℕ → ℕ → Distributor → Type 0
Enables d node n val d' =
    (irq cpu : ℕ)
    → enabled_line d' irq cpu
      ≡ (enabled_line d irq cpu || (covers n node irq cpu && test_bit val (irq % 32)))

-- The interrupts from `32 * n` on whose bits are set in `val` are disabled in `d'`, all else is as in
-- `d`.
abbrev pub Disables : Distributor → ℕ → ℕ → Distributor → Type 0
Disables d n val d' =
    (irq cpu : ℕ)
    → enabled_line d' irq cpu
      ≡ (enabled_line d irq cpu && not (irq / 32 == n && test_bit val (irq % 32)))

-- The distributor after a write to GICD_ISENABLERn.
abbrev enabled_after : Distributor → ℕ → ℕ → ℕ → Distributor
enabled_after d node n val = record d {
  enable0 = banked_after d.enable0 (fetch_or val) node n;
  enable = shared_after d.enable (fetch_or val) n;
}

and_true : (b : Bool) → (b && true) ≡ b
and_true true = refl
and_true false = refl

enabled_after-IsWellFormed :
    {d : Distributor} (node n val : ℕ)
    → IsWellFormed d
    → node < d.num_nodes
    → n < 32
    → IsWellFormed (enabled_after d node n val)
enabled_after-IsWellFormed {d} node n val v hc hn =
    let (bank, shared) =
      Ensures-ok (KeepsLengths d.enable0 d.enable)
        (modify_banked-KeepsLengths d.enable0 d.enable node n (fetch_or val))
        (modify_banked_lem d.enable0 d.enable v.length_enable node n hn (omega arith)
          (fetch_or val)) in
    ground arith

module _ {d : Distributor} (node n val : ℕ) (v : IsWellFormed d) (hc : node < d.num_nodes)
    (some_bit : val ≢ 0) where
  -- A write of some bits to GICD_ISENABLERn, for n up to 30, by a node that exists, returns. It
  -- enables the interrupts of the register whose bits are set (for n = 0 those of the writing node),
  -- and of no others changes whether they are enabled. It reports the interrupts of the register
  -- that are now to be injected, and those that are enabled and not to be injected.
  pub write_isenabler_exact :
      n ≤ 30
      → (d' : Distributor) × (to_inject to_ack : List (ℕ × ℕ)) × (write_isenabler d node n val
          ≡ ok (report to_inject to_ack, d'))
        × Sweeps (injectable d') d' (n * 32) 32 to_inject
        × Sweeps (ackable d') d' (n * 32) 32 to_ack
        × Enables d node n val d'
  unfolding write_isenabler
  write_isenabler_exact hn =
      let sized : length d.enable0 ≡ d.num_nodes = v.length_enable0 in
      let bits : (val == 0) ≡ false = ground arith in
      let v' = enabled_after-IsWellFormed node n val v hc (omega arith) in
      let (to_inject, to_ack, e, inj, acks) = sweep_both_exact (n * 32) 32 v' (omega arith) in
      (
        enabled_after d node n val,
        to_inject,
        to_ack,
        rw
            (
              bits,
              modify_banked_lem d.enable0 d.enable v.length_enable node n (omega arith)
                  (omega arith) (fetch_or val),
            )
            e,
        inj,
        acks,
        λ irq cpu.
            banked_line d.enable0 d.enable v.length_enable node n (omega arith) (omega arith)
              (fetch_or val) (λ here old. old || here) val irq cpu (or_word val)
              (λ b. ground arith),
      )

  -- The same register read as one to disable interrupts by: GICD_ICENABLERn, for n from 1 to 30,
  -- clears the bits of the interrupts of the next register, n + 1, and those of register n stay as
  -- they were.
  pub write_icenabler_next :
      1 ≤ n
      → n ≤ 30
      → val < 2 ^ 32
      → (d' : Distributor) × (write_icenabler d node n val ≡ ok (WriteAction.no_action, d'))
        × Disables d (suc n) val d'
  unfolding write_icenabler
  write_icenabler_next one hn small =
      let sized : length d.enable0 ≡ d.num_nodes = v.length_enable0 in
      let bits : (val == 0) ≡ false = ground arith in
      let shared : (n == 0) ≡ false = ground arith in
      let full : length d.enable ≡ 31 = v.length_enable in
      let positive : (suc n == 0) ≡ false = ground arith in
      let back : suc n - 1 ≡ n = omega arith in
      let f = fetch_and (not32 val) in
      (
        record d { enable = set d.enable n (f (get_or d.enable n 0)).1 },
        rw (bits, shared, index-eq-get_or {E = IrqError} d.enable n 0 (omega arith)) refl,
        λ irq cpu.
            rw (positive, back, and_true (irq / 32 == suc n)) at
              (banked_line d.enable0 d.enable v.length_enable node (suc n) (omega arith)
                (omega arith) f (λ here old. old && not here) val irq cpu
                (λ x s h. and_not_word val x s small h) (λ b. ground arith)),
      )
