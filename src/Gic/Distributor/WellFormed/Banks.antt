-- ===== src/Gic/Distributor/WellFormed/Banks.antt =====
-- distributor/mod.rs: the shape of the banks over a change of one register, and over the functions for one
-- interrupt.
use icecap.Base.{
  ℕ, ◌-◌, ◌/◌, ◌≡◌, refl, ltb, ◌==◌, List, length, arith, Ensures, returns, fails, Ensures-bind,
  Ensures-then, Ensures-if, Ensures-expect, modify-length, modify_in-lengths,
}
use icecap.Gic.Distributor.{Distributor}
use icecap.Gic.Distributor.WellFormed.{IsWellFormed}
use icecap.Gic.Distributor.Lines.{
  modify_line, set_pending, clear_pending, set_active, clear_active, ack, clear_sgi_pending,
  set_pending_lines, set_active_lines, modify_sgi, guard_sgi,
}
use icecap.Gic.Distributor.Write.{modify_banked}

-- Both banks keep their lengths.
abbrev pub KeepsLengths : List ℕ → List ℕ → ℕ × List ℕ × List ℕ → Type 0
KeepsLengths bank shared w = (length w.1 ≡ length bank) × (length w.2 ≡ length shared)

modify_line-KeepsLengths :
    (bank shared : List ℕ) (irq cpu : ℕ) (f : ℕ → ℕ × ℕ)
    → Ensures (KeepsLengths bank shared) (modify_line bank shared irq cpu f)
modify_line-KeepsLengths bank shared irq cpu f =
    Ensures-if (ltb irq 32) (Ensures-bind (modify-length bank cpu f) (λ w h. returns (h, refl)))
      (Ensures-bind (modify-length shared (irq / 32 - 1) f) (λ w h. returns (refl, h)))

pub modify_banked-KeepsLengths :
    (bank shared : List ℕ) (node reg_num : ℕ) (f : ℕ → ℕ × ℕ)
    → Ensures (KeepsLengths bank shared) (modify_banked bank shared node reg_num f)
modify_banked-KeepsLengths bank shared node reg_num f =
    Ensures-if (reg_num == 0) (Ensures-bind (modify-length bank node f) (λ w h. returns (h, refl)))
      (Ensures-bind (modify-length shared (reg_num - 1) f) (λ w h. returns (refl, h)))

module _ {d : Distributor} (v : IsWellFormed d) where
  pub pending-IsWellFormed :
      (irq cpu : ℕ) (f : ℕ → ℕ × ℕ) → Ensures IsWellFormed (set_pending_lines d irq cpu f)
  pending-IsWellFormed irq cpu f =
      Ensures-bind (modify_line-KeepsLengths d.pending0 d.pending irq cpu f)
        (λ w h. returns (ground arith))

  active-IsWellFormed :
      (irq cpu : ℕ) (f : ℕ → ℕ × ℕ) → Ensures IsWellFormed (set_active_lines d irq cpu f)
  active-IsWellFormed irq cpu f =
      Ensures-bind (modify_line-KeepsLengths d.active0 d.active irq cpu f)
        (λ w h. returns (ground arith))

  pub set_pending-IsWellFormed : (irq cpu : ℕ) → Ensures IsWellFormed (set_pending d irq cpu)
  unfolding set_pending
  set_pending-IsWellFormed irq cpu = Ensures-if _ fails (pending-IsWellFormed irq cpu _)

  pub clear_pending-IsWellFormed : (irq cpu : ℕ) → Ensures IsWellFormed (clear_pending d irq cpu)
  unfolding clear_pending
  clear_pending-IsWellFormed irq cpu = Ensures-if _ fails (pending-IsWellFormed irq cpu _)

  pub set_active-IsWellFormed : (irq cpu : ℕ) → Ensures IsWellFormed (set_active d irq cpu)
  unfolding set_active
  set_active-IsWellFormed irq cpu = Ensures-if _ fails (active-IsWellFormed irq cpu _)

  clear_active-IsWellFormed : (irq cpu : ℕ) → Ensures IsWellFormed (clear_active d irq cpu)
  unfolding clear_active
  clear_active-IsWellFormed irq cpu = Ensures-if _ fails (active-IsWellFormed irq cpu _)

  pub modify_sgi-IsWellFormed :
      (cpu reg_num : ℕ) (f : ℕ → ℕ × ℕ)
      → Ensures (λ w. IsWellFormed w.1) (modify_sgi d cpu reg_num f)
  modify_sgi-IsWellFormed cpu reg_num f =
      Ensures-bind (modify_in-lengths d.sgi_pending cpu reg_num f) (λ w h. returns (ground arith))

clear_sgi_pending-IsWellFormed :
    {d : Distributor}
    → IsWellFormed d
    → (irq source target : ℕ) → Ensures IsWellFormed (clear_sgi_pending d irq source target)
unfolding clear_sgi_pending
clear_sgi_pending-IsWellFormed {d} v irq source target =
    Ensures-then (guard_sgi d irq source target) (λ _.
      Ensures-bind (modify_sgi-IsWellFormed v target (irq / 4) _) (λ w h.
        Ensures-if _ (Ensures-expect (clear_pending-IsWellFormed h irq target)) (returns h)))

pub ack-IsWellFormed :
    {d : Distributor} → IsWellFormed d → (irq cpu : ℕ) → Ensures IsWellFormed (ack d irq cpu)
unfolding ack
ack-IsWellFormed v irq cpu = Ensures-if _ fails (
    Ensures-bind
      (Ensures-if (ltb irq 16) (clear_sgi_pending-IsWellFormed v irq 0 cpu)
        (clear_pending-IsWellFormed v irq cpu))
      (λ d' h. clear_active-IsWellFormed h irq cpu))
