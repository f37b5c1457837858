-- ===== src/Gic/Distributor/Lines/Effects.antt =====
-- distributor/mod.rs: the functions for one interrupt by the bits that they read and change.
use icecap.Base.{ℕ, ◌<◌, ◌%◌, ◌^◌, ◌≡◌, refl, not, ◌&&◌, ◌||◌, Bool, lt→leb, arith, ok, Ensures-ok}
use icecap.Base.Bits.{not32}
use icecap.Gic.Register32.{fetch_and, fetch_or}
use icecap.Gic.Distributor.{Distributor}
use icecap.Gic.Distributor.WellFormed.{IsWellFormed}
use icecap.Gic.Distributor.WellFormed.Banks.{pending-IsWellFormed}
use icecap.Gic.Distributor.Lines.{
  is_enabled, is_pending, is_active, set_pending, clear_pending, set_active, clear_active,
  set_pending_lines, set_active_lines,
}
use icecap.Gic.Distributor.Lines.Banks.{
  line, same_line, changed_bank, changed_shared, line_reg_lem, modify_line_lem, changed_line,
  or_acts, and_not_acts,
}

-- The state of an interrupt for a CPU.
abbrev pub enabled_line : Distributor → ℕ → ℕ → Bool
enabled_line d = line d.enable0 d.enable

abbrev pub pending_line : Distributor → ℕ → ℕ → Bool
pending_line d = line d.pending0 d.pending

abbrev pub active_line : Distributor → ℕ → ℕ → Bool
active_line d = line d.active0 d.active

module _ {d : Distributor} (v : IsWellFormed d) (irq cpu : ℕ) (hi : irq < 1024)
    (hc : cpu < d.num_nodes) where
  pub is_enabled_lem : is_enabled d irq cpu ≡ ok (enabled_line d irq cpu)
  unfolding is_enabled
  is_enabled_lem =
      rw
        (
          lt→leb d.num_nodes cpu hc,
          line_reg_lem d.enable0 d.enable v.length_enable irq cpu hi (omega arith),
        )
        refl

  pub is_pending_lem : is_pending d irq cpu ≡ ok (pending_line d irq cpu)
  unfolding is_pending
  is_pending_lem =
      rw
        (
          lt→leb d.num_nodes cpu hc,
          line_reg_lem d.pending0 d.pending v.length_pending irq cpu hi (omega arith),
        )
        refl

  pub is_active_lem : is_active d irq cpu ≡ ok (active_line d irq cpu)
  unfolding is_active
  is_active_lem =
      rw
        (
          lt→leb d.num_nodes cpu hc,
          line_reg_lem d.active0 d.active v.length_active irq cpu hi (omega arith),
        )
        refl

-- What is done to the word of `irq`.
abbrev pub set_bit : ℕ → ℕ → ℕ × ℕ
set_bit irq = fetch_or (2 ^ (irq % 32))

abbrev pub clear_bit : ℕ → ℕ → ℕ × ℕ
clear_bit irq = fetch_and (not32 (2 ^ (irq % 32)))

-- The distributor after a change of the pending, or the active, word of `irq` for `cpu`.
abbrev pub pending_after : Distributor → (ℕ → ℕ × ℕ) → ℕ → ℕ → Distributor
pending_after d f irq cpu = record d {
  pending0 = changed_bank d.pending0 f irq cpu;
  pending = changed_shared d.pending f irq;
}

abbrev pub active_after : Distributor → (ℕ → ℕ × ℕ) → ℕ → ℕ → Distributor
active_after d f irq cpu = record d {
  active0 = changed_bank d.active0 f irq cpu;
  active = changed_shared d.active f irq;
}

module _ {d : Distributor} (v : IsWellFormed d) (irq cpu : ℕ) (hi : irq < 1024)
    (hc : cpu < d.num_nodes) where
  pending_after_lem :
      (f : ℕ → ℕ × ℕ) → set_pending_lines d irq cpu f ≡ ok (pending_after d f irq cpu)
  pending_after_lem f =
      rw (modify_line_lem d.pending0 d.pending v.length_pending f irq cpu hi (omega arith)) refl

  active_after_lem : (f : ℕ → ℕ × ℕ) → set_active_lines d irq cpu f ≡ ok (active_after d f irq cpu)
  active_after_lem f =
      rw (modify_line_lem d.active0 d.active v.length_active f irq cpu hi (omega arith)) refl

  pub set_pending_lem : set_pending d irq cpu ≡ ok (pending_after d (set_bit irq) irq cpu)
  unfolding set_pending
  set_pending_lem = rw (lt→leb d.num_nodes cpu hc) (pending_after_lem (set_bit irq))

  pub clear_pending_lem : clear_pending d irq cpu ≡ ok (pending_after d (clear_bit irq) irq cpu)
  unfolding clear_pending
  clear_pending_lem = rw (lt→leb d.num_nodes cpu hc) (pending_after_lem (clear_bit irq))

  pub set_active_lem : set_active d irq cpu ≡ ok (active_after d (set_bit irq) irq cpu)
  unfolding set_active
  set_active_lem = rw (lt→leb d.num_nodes cpu hc) (active_after_lem (set_bit irq))

  pub clear_active_lem : clear_active d irq cpu ≡ ok (active_after d (clear_bit irq) irq cpu)
  unfolding clear_active
  clear_active_lem = rw (lt→leb d.num_nodes cpu hc) (active_after_lem (clear_bit irq))

  module _ (irq' cpu' : ℕ) where
    pub pending_line-set :
        pending_line (pending_after d (set_bit irq) irq cpu) irq' cpu'
        ≡ (pending_line d irq' cpu' || same_line irq cpu irq' cpu')
    pending_line-set =
        changed_line d.pending0 d.pending v.length_pending (set_bit irq) (λ here old. old || here)
          irq cpu irq' cpu' (or_acts irq) (λ b. ground arith) hi (omega arith)

    pub pending_line-clear :
        pending_line (pending_after d (clear_bit irq) irq cpu) irq' cpu'
        ≡ (pending_line d irq' cpu' && not (same_line irq cpu irq' cpu'))
    pending_line-clear =
        changed_line d.pending0 d.pending v.length_pending (clear_bit irq)
          (λ here old. old && not here) irq cpu irq' cpu' (and_not_acts irq) (λ b. ground arith) hi
          (omega arith)

    active_line-set :
        active_line (active_after d (set_bit irq) irq cpu) irq' cpu'
        ≡ (active_line d irq' cpu' || same_line irq cpu irq' cpu')
    active_line-set =
        changed_line d.active0 d.active v.length_active (set_bit irq) (λ here old. old || here) irq
          cpu irq' cpu' (or_acts irq) (λ b. ground arith) hi (omega arith)

    pub active_line-clear :
        active_line (active_after d (clear_bit irq) irq cpu) irq' cpu'
        ≡ (active_line d irq' cpu' && not (same_line irq cpu irq' cpu'))
    active_line-clear =
        changed_line d.active0 d.active v.length_active (clear_bit irq)
          (λ here old. old && not here) irq cpu irq' cpu' (and_not_acts irq) (λ b. ground arith) hi
          (omega arith)

  -- Setting an interrupt below 1024 pending for a CPU that the controller has succeeds. It sets the
  -- one bit that holds that state, which the CPUs share from interrupt 32 on, and leaves every other
  -- pending bit, and all else, as it was.
  pub set_pending_exact :
      (irq' cpu' : ℕ)
      → (d' : Distributor) × (set_pending d irq cpu ≡ ok d')
        × (d' ≡ record d { pending0 = d'.pending0; pending = d'.pending })
        × (pending_line d' irq' cpu' ≡ (pending_line d irq' cpu' || same_line irq cpu irq' cpu'))
  set_pending_exact irq' cpu' = (_, set_pending_lem, refl, pending_line-set irq' cpu')

  -- Setting an interrupt below 1024 active for a CPU that the controller has succeeds, sets the one
  -- bit that holds that state, and leaves every other active bit, and all else, as it was.
  pub set_active_exact :
      (irq' cpu' : ℕ)
      → (d' : Distributor) × (set_active d irq cpu ≡ ok d')
        × (d' ≡ record d { active0 = d'.active0; active = d'.active })
        × (active_line d' irq' cpu' ≡ (active_line d irq' cpu' || same_line irq cpu irq' cpu'))
  set_active_exact irq' cpu' = (_, set_active_lem, refl, active_line-set irq' cpu')

  pub pending_after-IsWellFormed : (f : ℕ → ℕ × ℕ) → IsWellFormed (pending_after d f irq cpu)
  pending_after-IsWellFormed f =
      Ensures-ok IsWellFormed (pending-IsWellFormed v irq cpu f) (pending_after_lem f)
