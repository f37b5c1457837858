-- ===== src/Gic/Distributor/Lines/Inject.antt =====
-- When an interrupt is to be injected, as a condition on the bits of its state.
use icecap.Base.{
  ℕ, ◌-◌, ◌*◌, ◌/◌, ◌%◌, ◌^◌, ◌<◌, ◌≡◌, refl, inl, inr, ltb, ◌==◌, if◌then◌else◌, not, ◌&&◌, Bool,
  Bool-cases, lt→leb, length, get_or, [], arith, ok, ◌>>=◌, bit_and, index-eq-get_or, index_in-row,
}
use icecap.Base.Bits.{test_bit}
use icecap.Gic.Register32.{shl32}
use icecap.Gic.Distributor.{Distributor}
use icecap.Gic.Distributor.WellFormed.{IsWellFormed}
use icecap.Gic.Distributor.Lines.{
  and_then, is_gic_enabled, is_target, should_inject, get_priority, target_reg, priority_reg,
  byte_of,
}
use icecap.Gic.Distributor.Lines.Effects.{
  enabled_line, pending_line, active_line, is_enabled_lem, is_pending_lem, is_active_lem,
}

-- The word that holds the targets of an interrupt below 1020.
abbrev target_word : Distributor → ℕ → ℕ → ℕ
target_word d irq cpu =
    if ltb irq 32
    then get_or (get_or d.targets0 cpu []) (irq / 4) 0
    else get_or d.targets (irq / 4 - 8) 0

abbrev pub target_line : Distributor → ℕ → ℕ → Bool
target_line d irq cpu = test_bit (byte_of (target_word d irq cpu) irq) cpu

-- The word that holds its priority.
abbrev priority_word : Distributor → ℕ → ℕ → ℕ
priority_word d irq cpu =
    if ltb (irq / 4) 8
    then get_or (get_or d.priority0 cpu []) (irq / 4) 0
    else get_or d.priority (irq / 4 - 8) 0

-- The controller is on, and the interrupt enabled, targeted at the CPU, pending, and not active.
abbrev pub injectable : Distributor → ℕ → ℕ → Bool
injectable d irq cpu =
    (d.control == 1)
    && (enabled_line d irq cpu
        && (target_line d irq cpu && (pending_line d irq cpu && not (active_line d irq cpu))))

abbrev pub priority_of : Distributor → ℕ → ℕ → ℕ
priority_of d irq cpu =
    bit_and (priority_word d irq cpu) (shl32 0xFF (irq % 4 * 8)) / 2 ^ (irq % 4 * 8)

-- The chain of `&&` on calls that all return.
and_then-ok :
    (on enabled target pending active : Bool)
    → and_then (ok on) (
        and_then
          (ok enabled)
          (and_then (ok target) (and_then (ok pending) (ok active >>= λ a. ok (not a)))))
      ≡ ok (on && (enabled && (target && (pending && not active))))
and_then-ok on enabled target pending active = ground arith

module _ {d : Distributor} (v : IsWellFormed d) (irq cpu : ℕ) (hi : irq < 1020)
    (hc : cpu < d.num_nodes) where
  target_reg_lem : target_reg d irq cpu ≡ ok (target_word d irq cpu)
  target_reg_lem = elim (Bool-cases (ltb irq 32)) [
    | inl low ↦
        rw low
          (index_in-row d.targets0 d.num_nodes 8 cpu (irq / 4) 0 v.rows_targets0 hc (ground arith))
    | inr high ↦
        let full : length d.targets ≡ 247 = v.length_targets in
        rw high (index-eq-get_or d.targets (irq / 4 - 8) 0 (ground arith))
  ]

  is_target_lem : is_target d irq cpu ≡ ok (target_line d irq cpu)
  unfolding is_target
  is_target_lem = rw (lt→leb d.num_nodes cpu hc, target_reg_lem) refl

  priority_reg_lem : priority_reg d (irq / 4) cpu ≡ ok (priority_word d irq cpu)
  priority_reg_lem = elim (Bool-cases (ltb (irq / 4) 8)) [
    | inl low ↦
        rw low (
          index_in-row d.priority0 d.num_nodes 8 cpu (irq / 4) 0 v.rows_priority0 hc (ground arith))
    | inr high ↦
        let full : length d.priority ≡ 247 = v.length_priority in
        rw high (index-eq-get_or d.priority (irq / 4 - 8) 0 (ground arith))
  ]

  pub get_priority_lem : get_priority d irq cpu ≡ ok (priority_of d irq cpu)
  unfolding get_priority
  get_priority_lem = rw (lt→leb d.num_nodes cpu hc, priority_reg_lem) refl

  -- Of an interrupt below 1020 and a CPU that the controller has, `should_inject` returns true exactly
  -- if the controller is on and the interrupt is enabled, targeted at the CPU, pending and not
  -- active; it does not panic.
  pub should_inject_lem : should_inject d irq cpu ≡ ok (injectable d irq cpu)
  unfolding should_inject is_gic_enabled
  should_inject_lem =
      rw
        (
          is_enabled_lem v irq cpu (omega arith) hc,
          is_pending_lem v irq cpu (omega arith) hc,
          is_active_lem v irq cpu (omega arith) hc,
          is_target_lem,
        )
        (and_then-ok (d.control == 1) (enabled_line d irq cpu) (target_line d irq cpu)
          (pending_line d irq cpu) (active_line d irq cpu))
