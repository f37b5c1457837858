-- ===== src/Gic/Registers/Decode.antt =====
-- The registers of the distributor's page and their offsets: decoding against an address table.
use icecap.Base.{
  ℕ, ◌+◌, ◌*◌, ◌/◌, ◌%◌, ◌<◌, ◌≤◌, ◌≡◌, refl, sym, ◌∙◌, inl, inr, ◌⊎◌, subst, ok-injective, Bool,
  true, false, Bool-cases, ◌&&◌, ltb, ◌==◌, ==_iff, all_below, all_below_lem, and-true, arith,
  Outcome, ok, err, panic,
}
use icecap.Gic.Error.{IrqError}
use icecap.Gic.Registers.{
  GicDistRegWord, gicd_ctlr, gicd_typer, gicd_iidr, gicd_sgir, gicd_igroupr, gicd_isenabler,
  gicd_icenabler, gicd_ispendr, gicd_icpendr, gicd_isactiver, gicd_icactiver, gicd_icfgr,
  gicd_nsacr, iccidr, icpidr, from_offset, from_offset_high, within,
}

-- The offset of a register in the distributor's page, as the GICv2 specification lists them.
abbrev address : GicDistRegWord → ℕ
address gicd_ctlr = 0x000
address gicd_typer = 0x004
address gicd_iidr = 0x008
address (gicd_igroupr n) = 0x080 + n * 4
address (gicd_isenabler n) = 0x100 + n * 4
address (gicd_icenabler n) = 0x180 + n * 4
address (gicd_ispendr n) = 0x200 + n * 4
address (gicd_icpendr n) = 0x280 + n * 4
address (gicd_isactiver n) = 0x300 + n * 4
address (gicd_icactiver n) = 0x380 + n * 4
address (GicDistRegWord.gicd_ipriorityr n) = 0x400 + n * 4
address (GicDistRegWord.gicd_itargetsr n) = 0x800 + n * 4
address (gicd_icfgr n) = 0xC00 + n * 4
address (gicd_nsacr n) = 0xE00 + n * 4
address gicd_sgir = 0xF00
address (GicDistRegWord.gicd_cpendsgir n) = 0xF10 + n * 4
address (GicDistRegWord.gicd_spendsgir n) = 0xF20 + n * 4
address (icpidr n) = 0xFD0 + n * 4
address (iccidr n) = 0xFF0 + n * 4

-- How many registers of each kind there are.
abbrev exists : GicDistRegWord → Bool
exists gicd_ctlr = true
exists gicd_typer = true
exists gicd_iidr = true
exists (gicd_igroupr n) = ltb n 32
exists (gicd_isenabler n) = ltb n 32
exists (gicd_icenabler n) = ltb n 32
exists (gicd_ispendr n) = ltb n 32
exists (gicd_icpendr n) = ltb n 32
exists (gicd_isactiver n) = ltb n 32
exists (gicd_icactiver n) = ltb n 32
exists (GicDistRegWord.gicd_ipriorityr n) = ltb n 255
exists (GicDistRegWord.gicd_itargetsr n) = ltb n 255
exists (gicd_icfgr n) = ltb n 64
exists (gicd_nsacr n) = ltb n 64
exists gicd_sgir = true
exists (GicDistRegWord.gicd_cpendsgir n) = ltb n 4
exists (GicDistRegWord.gicd_spendsgir n) = ltb n 4
exists (icpidr n) = ltb n 8
exists (iccidr n) = ltb n 4

-- What decoding an offset must return.
abbrev sound : ℕ → Outcome IrqError GicDistRegWord → Bool
sound offset (ok reg) = exists reg && (address reg == offset / 4 * 4)
sound offset (err e) = false
sound offset panic = true

sound_page : all_below 4096 (λ offset. sound offset (from_offset offset)) ≡ true
unfolding from_offset from_offset_high
sound_page = refl

above : (lo hi x : ℕ) → hi < x → within lo hi x ≡ false
above lo hi x h = ground arith

beyond : (k x : ℕ) → k < x → (x == k) ≡ false
beyond k x h = ground arith

from_offset-outside : (offset : ℕ) → 4096 ≤ offset → from_offset offset ≡ panic
unfolding from_offset from_offset_high
from_offset-outside offset h =
    let ne = λ (k : ℕ) (le : k < 4096). beyond k offset (omega arith) in
    let out = λ (lo hi : ℕ) (le : hi < 4096). above lo hi offset (omega arith) in
    rw
      (
        ne 0x000 (omega arith),
        ne 0x004 (omega arith),
        ne 0x008 (omega arith),
        out 0x080 0x0FC (omega arith),
        out 0x100 0x17C (omega arith),
        out 0x180 0x1FC (omega arith),
        out 0x200 0x27C (omega arith),
        out 0x280 0x2FC (omega arith),
        out 0x300 0x37C (omega arith),
        out 0x380 0x3FC (omega arith),
        out 0x400 0x7F8 (omega arith),
        out 0x800 0xBF8 (omega arith),
        out 0xC00 0xCFC (omega arith),
        out 0xE00 0xEFC (omega arith),
        ne 0xF00 (omega arith),
        out 0xF10 0xF1C (omega arith),
        out 0xF20 0xF2C (omega arith),
        out 0xFD0 0xFEC (omega arith),
        out 0xFF0 0xFFC (omega arith),
      )
      refl

-- A register that is there, and whose four bytes hold the offset.
abbrev pub IsAt : ℕ → GicDistRegWord → Type 0
IsAt offset reg = (exists reg ≡ true) × (address reg ≡ offset / 4 * 4)

sound-lem :
    (offset : ℕ) (m : Outcome IrqError GicDistRegWord)
    → sound offset m ≡ true
    → ((reg : GicDistRegWord) × (m ≡ ok reg) × IsAt offset reg) ⊎ (m ≡ panic)
sound-lem offset (ok reg) h =
    let split = and-true (exists reg) (address reg == offset / 4 * 4) h in
    inl (reg, refl, (split.0, (==_iff (address reg) (offset / 4 * 4)).0 split.1))
sound-lem offset (err e) h = cc
sound-lem offset panic h = inr refl

-- Decoding an offset returns a register of the distributor, the one whose four bytes hold the offset,
-- or panics: never an error and never a register that does not exist.
pub from_offset-address :
    (offset : ℕ)
    → ((reg : GicDistRegWord) × (from_offset offset ≡ ok reg) × IsAt offset reg)
      ⊎ (from_offset offset ≡ panic)
from_offset-address offset = elim (Bool-cases (ltb offset 4096)) [
  | inl inside ↦
      sound-lem offset (from_offset offset)
        (all_below_lem 4096 (λ x. sound x (from_offset x)) offset sound_page (ground arith))
  | inr outside ↦ inr (from_offset-outside offset (ground arith))
]

from_offset-ok : (offset : ℕ) (reg : GicDistRegWord) → from_offset offset ≡ ok reg → IsAt offset reg
from_offset-ok offset reg e = elim (from_offset-address offset) [
  | inl found ↦ subst (IsAt offset) (ok-injective {E = IrqError} (sym found.1 ∙ e)) found.2
  | inr outside ↦ absurd (ok≢panic (sym e ∙ outside))
]
  where
    ok≢panic : ◌≡◌ {A = Outcome IrqError GicDistRegWord} (ok reg) panic → ⊥
    ok≢panic h = cc

-- Two offsets that are multiples of four and decode to one register are equal: no two words of the
-- page name one register.
from_offset-injective :
    (a b : ℕ) (reg : GicDistRegWord)
    → a % 4 ≡ 0
    → b % 4 ≡ 0
    → from_offset a ≡ ok reg
    → from_offset b ≡ ok reg
    → a ≡ b
from_offset-injective a b reg ha hb ea eb =
    let (ex, here) = from_offset-ok a reg ea in
    let (ey, there) = from_offset-ok b reg eb in omega arith
