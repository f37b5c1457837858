-- ===== src/Gic/Distributor/Write/Banked.antt =====
-- A write of a whole register, banked or shared: what it does to the bit of every interrupt.
use icecap.Base.{
  ℕ, ◌-◌, ◌/◌, ◌%◌, ◌^◌, ◌<◌, ◌≡◌, ◌≢◌, refl, sym, inl, inr, ltb, ◌==◌, if◌then◌else◌, not, ◌&&◌,
  ◌||◌, Bool, true, false, Bool-cases, List, length, get_or, set, get_or-set_self, get_or-set_ne,
  index-eq-get_or, arith, ok, bit_and, bit_or,
}
use icecap.Base.Bits.{test_bit, not32, test_bit-bit_or, test_bit-bit_and, test_bit-not32}
use native.Mathlib.Decide.{ℕ_discrete}
use icecap.Gic.Error.{IrqError}
use icecap.Gic.Distributor.Lines.Banks.{line}
use icecap.Gic.Distributor.Write.{modify_banked}

-- Whether register `n`, written by `node`, holds the bit of an interrupt for a CPU.
abbrev pub covers : ℕ → ℕ → ℕ → ℕ → Bool
covers n node irq cpu = (irq / 32 == n) && (not (n == 0) || (cpu == node))

abbrev pub banked_after : List ℕ → (ℕ → ℕ × ℕ) → ℕ → ℕ → List ℕ
banked_after bank f node n = if n == 0 then set bank node (f (get_or bank node 0)).1 else bank

abbrev pub shared_after : List ℕ → (ℕ → ℕ × ℕ) → ℕ → List ℕ
shared_after shared f n =
    if n == 0 then shared else set shared (n - 1) (f (get_or shared (n - 1) 0)).1

abbrev banked_word : List ℕ → List ℕ → ℕ → ℕ → ℕ
banked_word bank shared node n = if n == 0 then get_or bank node 0 else get_or shared (n - 1) 0

module _ (bank shared : List ℕ) (full : length shared ≡ 31) (node n : ℕ) (hn : n < 32)
    (hc : node < length bank) where
  pub modify_banked_lem :
      (f : ℕ → ℕ × ℕ)
      → modify_banked bank shared node n f
        ≡ ok (
          (f (banked_word bank shared node n)).0,
          banked_after bank f node n,
          shared_after shared f n,
        )
  modify_banked_lem f = elim (Bool-cases (n == 0)) [
    | inl zero_reg ↦ rw zero_reg (rw (index-eq-get_or {E = IrqError} bank node 0 hc) refl)
    | inr other ↦
        rw other (rw (index-eq-get_or {E = IrqError} shared (n - 1) 0 (ground arith)) refl)
  ]

  module _ (f : ℕ → ℕ × ℕ) (g : Bool → Bool → Bool) (val irq cpu : ℕ)
      (acts : (x s : ℕ) → s < 32 → test_bit (f x).1 s ≡ g (test_bit val s) (test_bit x s))
      (keeps : (b : Bool) → g false b ≡ b) where
    outside :
        covers n node irq cpu ≡ false
        → line bank shared irq cpu
          ≡ g (covers n node irq cpu && test_bit val (irq % 32)) (line bank shared irq cpu)
    outside e = rw e (sym (keeps _))

    private_line :
        n ≡ 0
        → line (set bank node (f (get_or bank node 0)).1) shared irq cpu
          ≡ g (covers n node irq cpu && test_bit val (irq % 32)) (line bank shared irq cpu)
    private_line e = elim (Bool-cases (ltb irq 32)) [
      | inl low ↦ elim (ℕ_discrete node cpu) [
        | yes same ↦
            let here : covers n node irq cpu ≡ true = ground arith in
            rw
              (
                here,
                low,
                ← same,
                get_or-set_self bank node (f (get_or bank node 0)).1 0 hc,
                acts (get_or bank node 0) (irq % 32) (omega arith),
              )
              refl
        | no other ↦
            let apart : covers n node irq cpu ≡ false = ground arith in
            rw (apart, low, get_or-set_ne bank node cpu (f (get_or bank node 0)).1 0 other)
              (sym (keeps _))
      ]
      | inr high ↦
          let apart : covers n node irq cpu ≡ false = ground arith in
          rw (apart, high) (sym (keeps _))
    ]

    shared_line :
        n ≢ 0
        → line bank (set shared (n - 1) (f (get_or shared (n - 1) 0)).1) irq cpu
          ≡ g (covers n node irq cpu && test_bit val (irq % 32)) (line bank shared irq cpu)
    shared_line ne = elim (Bool-cases (ltb irq 32)) [
      | inl low ↦
          let apart : covers n node irq cpu ≡ false = ground arith in
          rw (apart, low) (sym (keeps _))
      | inr high ↦ elim (ℕ_discrete (n - 1) (irq / 32 - 1)) [
        | yes same ↦
            let here : covers n node irq cpu ≡ true = ground arith in
            rw
              (
                here,
                high,
                ← same,
                get_or-set_self shared (n - 1) (f (get_or shared (n - 1) 0)).1 0 (omega arith),
                acts (get_or shared (n - 1) 0) (irq % 32) (omega arith),
              )
              refl
        | no other ↦
            let apart : covers n node irq cpu ≡ false = ground arith in
            rw
              (
                apart,
                high,
                get_or-set_ne shared (n - 1) (irq / 32 - 1) (f (get_or shared (n - 1) 0)).1 0 other,
              )
              (sym (keeps _))
      ]
    ]

    pub banked_line :
        line (banked_after bank f node n) (shared_after shared f n) irq cpu
        ≡ g (covers n node irq cpu && test_bit val (irq % 32)) (line bank shared irq cpu)
    banked_line = elim (Bool-cases (n == 0)) [
      | inl zero_reg ↦ rw zero_reg (rw zero_reg at (private_line (ground arith)))
      | inr other ↦ rw other (rw other at (shared_line (ground arith)))
    ]

pub or_word : (val x s : ℕ) → s < 32 → test_bit (bit_or x val) s ≡ (test_bit x s || test_bit val s)
or_word val x s h = test_bit-bit_or x val s

pub and_not_word :
    (val x s : ℕ)
    → val < 2 ^ 32
    → s < 32
    → test_bit (bit_and x (not32 val)) s ≡ (test_bit x s && not (test_bit val s))
and_not_word val x s small h =
    rw (test_bit-bit_and x (not32 val) s, test_bit-not32 val s small h) refl
