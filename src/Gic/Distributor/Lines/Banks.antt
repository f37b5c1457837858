-- ===== src/Gic/Distributor/Lines/Banks.antt =====
-- One bit of a banked register or of a shared one: what a read returns and what a change does to
-- every bit.
use icecap.Base.{
  ℕ, ◌-◌, ◌/◌, ◌%◌, ◌^◌, ◌<◌, ◌≡◌, refl, sym, inl, inr, ltb, leb, ◌==◌, if◌then◌else◌, not, ◌&&◌,
  ◌||◌, Bool, true, false, Bool-cases, List, length, get_or, set, get_or-set_self, get_or-set_ne,
  index-eq-get_or, arith, ok, bit_and, bit_or,
}
use icecap.Base.Bits.{
  test_bit, not32, test_bit-bit_or, test_bit-bit_and, test_bit-not32, test_bit-two-pow, two-pow-lt,
}
use native.Mathlib.Decide.{ℕ_discrete}
use icecap.Gic.Error.{IrqError}
use icecap.Gic.Distributor.Lines.{line_reg, modify_line}

-- The register of an interrupt below 1024.
abbrev line_word : List ℕ → List ℕ → ℕ → ℕ → ℕ
line_word bank shared irq cpu =
    if ltb irq 32 then get_or bank cpu 0 else get_or shared (irq / 32 - 1) 0

-- The bit of an interrupt.
abbrev pub line : List ℕ → List ℕ → ℕ → ℕ → Bool
line bank shared irq cpu = test_bit (line_word bank shared irq cpu) (irq % 32)

-- Whether two interrupts, each for its CPU, have one bit: from 32 on all CPUs share it.
abbrev pub same_line : ℕ → ℕ → ℕ → ℕ → Bool
same_line irq cpu irq' cpu' = irq == irq' && (leb 32 irq || cpu == cpu')

-- A change of the word of `irq` for `cpu`, as two banks.
abbrev pub changed_bank : List ℕ → (ℕ → ℕ × ℕ) → ℕ → ℕ → List ℕ
changed_bank bank f irq cpu = if ltb irq 32 then set bank cpu (f (get_or bank cpu 0)).1 else bank

abbrev pub changed_shared : List ℕ → (ℕ → ℕ × ℕ) → ℕ → List ℕ
changed_shared shared f irq =
    if ltb irq 32 then shared else set shared (irq / 32 - 1) (f (get_or shared (irq / 32 - 1) 0)).1

module _ (bank shared : List ℕ) (full : length shared ≡ 31) where
  pub line_reg_lem :
      (irq cpu : ℕ)
      → irq < 1024
      → cpu < length bank
      → line_reg bank shared irq cpu ≡ ok (line_word bank shared irq cpu)
  line_reg_lem irq cpu hi hc = elim (Bool-cases (ltb irq 32)) [
    | inl low ↦ rw low (index-eq-get_or bank cpu 0 hc)
    | inr high ↦ rw high (index-eq-get_or shared (irq / 32 - 1) 0 (ground arith))
  ]

  pub modify_line_lem :
      (f : ℕ → ℕ × ℕ) (irq cpu : ℕ)
      → irq < 1024
      → cpu < length bank
      → modify_line bank shared irq cpu f
        ≡ ok (
          (f (line_word bank shared irq cpu)).0,
          changed_bank bank f irq cpu,
          changed_shared shared f irq,
        )
  modify_line_lem f irq cpu hi hc = elim (Bool-cases (ltb irq 32)) [
    | inl low ↦ rw low (rw (index-eq-get_or {E = IrqError} bank cpu 0 hc) refl)
    | inr high ↦
        rw high (rw (index-eq-get_or {E = IrqError} shared (irq / 32 - 1) 0 (ground arith)) refl)
  ]

  -- A change that acts on bit `irq % 32` of a word by `g true`, and on each other bit not at all,
  -- acts so on the bit of `irq` alone.
  module _ (f : ℕ → ℕ × ℕ) (g : Bool → Bool → Bool) (irq cpu irq' cpu' : ℕ)
      (acts : (x s : ℕ) → s < 32 → test_bit (f x).1 s ≡ g (irq % 32 == s) (test_bit x s))
      (keeps : (b : Bool) → g false b ≡ b) (hi : irq < 1024) (hc : cpu < length bank) where
    changed_private :
        ltb irq 32 ≡ true
        → ltb irq' 32 ≡ true
        → line (set bank cpu (f (get_or bank cpu 0)).1) shared irq' cpu'
          ≡ g (same_line irq cpu irq' cpu') (line bank shared irq' cpu')
    changed_private low low' = elim (ℕ_discrete cpu cpu') [
      | yes same ↦
          rw
            (
              low',
              ← same,
              get_or-set_self bank cpu (f (get_or bank cpu 0)).1 0 hc,
              acts (get_or bank cpu 0) (irq' % 32) (omega arith),
            )
            (ground arith)
      | no other ↦
          let apart : same_line irq cpu irq' cpu' ≡ false = ground arith in
          rw (low', get_or-set_ne bank cpu cpu' (f (get_or bank cpu 0)).1 0 other, apart)
            (sym (keeps _))
    ]

    changed_shared_line :
        ltb irq 32 ≡ false
        → ltb irq' 32 ≡ false
        → line bank (set shared (irq / 32 - 1) (f (get_or shared (irq / 32 - 1) 0)).1) irq' cpu'
          ≡ g (same_line irq cpu irq' cpu') (line bank shared irq' cpu')
    changed_shared_line high high' =
        let i = irq / 32 - 1 in
        let j = irq' / 32 - 1 in
        let old = get_or shared i 0 in
        elim (ℕ_discrete i j) [
          | yes same ↦
              let here : (irq % 32 == irq' % 32) ≡ same_line irq cpu irq' cpu' = ground arith in
              rw
                (
                  high',
                  ← same,
                  get_or-set_self shared i (f old).1 0 (ground arith),
                  acts old (irq' % 32) (omega arith),
                  here,
                )
                refl
          | no other ↦
              let apart : same_line irq cpu irq' cpu' ≡ false = ground arith in
              rw (high', get_or-set_ne shared i j (f old).1 0 other, apart) (sym (keeps _))
        ]

    pub changed_line :
        line (changed_bank bank f irq cpu) (changed_shared shared f irq) irq' cpu'
        ≡ g (same_line irq cpu irq' cpu') (line bank shared irq' cpu')
    changed_line = elim (Bool-cases (ltb irq 32)) [
      | inl low ↦ elim (Bool-cases (ltb irq' 32)) [
        | inl low' ↦ rw low (changed_private low low')
        | inr high' ↦
            let apart : same_line irq cpu irq' cpu' ≡ false = ground arith in
            rw (low, high', apart) (sym (keeps _))
      ]
      | inr high ↦ elim (Bool-cases (ltb irq' 32)) [
        | inl low' ↦
            let apart : same_line irq cpu irq' cpu' ≡ false = ground arith in
            rw (high, low', apart) (sym (keeps _))
        | inr high' ↦ rw high (changed_shared_line high high')
      ]
    ]

-- What `fetch_or` of a bit and `fetch_and` of all others do, in the form that `changed_line` wants.
pub or_acts :
    (irq x s : ℕ)
    → s < 32
    → test_bit (bit_or x (2 ^ (irq % 32))) s ≡ (test_bit x s || (irq % 32 == s))
or_acts irq x s h = rw (test_bit-bit_or x (2 ^ (irq % 32)) s, test_bit-two-pow (irq % 32) s) refl

pub and_not_acts :
    (irq x s : ℕ)
    → s < 32
    → test_bit (bit_and x (not32 (2 ^ (irq % 32)))) s ≡ (test_bit x s && not (irq % 32 == s))
and_not_acts irq x s h =
    rw
      (
        test_bit-bit_and x (not32 (2 ^ (irq % 32))) s,
        test_bit-not32 (2 ^ (irq % 32)) s (two-pow-lt (irq % 32) (omega arith)) h,
        test_bit-two-pow (irq % 32) s,
      )
      refl
