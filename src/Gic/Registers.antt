-- ===== src/Gic/Registers.antt =====
-- distributor/registers.rs: the register that an offset into the distributor's page names.
pub mod Decode
use icecap.Base.{
  ℕ, ◌+◌, ◌-◌, ◌*◌, ◌/◌, ◌%◌, ◌<◌, ◌≤◌, ltb, leb, ◌==◌, if◌then◌else◌, ◌&&◌, ◌≡◌, arith, Bool,
  Outcome, ok, panic, ◌>>=◌, ◌>>◌, assert,
}
use icecap.Gic.Error.{IrqError}

pub data GicDistRegWord : Type 0 where
  gicd_ctlr gicd_typer gicd_iidr gicd_sgir : GicDistRegWord
  gicd_igroupr gicd_isenabler gicd_icenabler gicd_ispendr gicd_icpendr : ℕ → GicDistRegWord
  gicd_isactiver gicd_icactiver gicd_ipriorityr gicd_itargetsr gicd_icfgr : ℕ → GicDistRegWord
  gicd_nsacr gicd_cpendsgir gicd_spendsgir iccidr icpidr : ℕ → GicDistRegWord

pub data GicDistRegByte : Type 0 where
  gicd_ipriorityr : ℕ → ℕ → GicDistRegByte
  gicd_itargetsr : ℕ → ℕ → GicDistRegByte
  gicd_cpendsgir : ℕ → ℕ → GicDistRegByte
  gicd_spendsgir : ℕ → ℕ → GicDistRegByte

-- `mem::size_of::<u32>()` is 4.
abbrev calc_reg_num : ℕ → ℕ → Outcome IrqError ℕ
calc_reg_num offset base = do
  let reg_num = (offset - base) / 4
  assert (ltb reg_num 256)
  ok reg_num

abbrev calc_reg_byte_offset : ℕ → ℕ → Outcome IrqError ℕ
calc_reg_byte_offset offset base = do
  let reg_byte = (offset - base) % 4
  assert (ltb reg_byte 4)
  ok reg_byte

-- The pattern `lo..=hi`.
abbrev pub within : ℕ → ℕ → ℕ → Bool
within lo hi x = leb lo x && leb x hi

abbrev numbered : (ℕ → GicDistRegWord) → ℕ → ℕ → Outcome IrqError GicDistRegWord
numbered reg base offset = do n ← calc_reg_num offset base; ok (reg n)

abbrev numbered_byte : (ℕ → ℕ → GicDistRegByte) → ℕ → ℕ → Outcome IrqError GicDistRegByte
numbered_byte reg base offset = do
  n ← calc_reg_num offset base
  b ← calc_reg_byte_offset offset base
  ok (reg n b)

-- `GICDistRegWord::from_offset`, the arms from 0x400 on.
unfoldable from_offset_high : ℕ → Outcome IrqError GicDistRegWord
from_offset_high offset =
    if within 0x400 0x7F8 offset
    then numbered GicDistRegWord.gicd_ipriorityr 0x400 offset
    else if within 0x800 0xBF8 offset
    then numbered GicDistRegWord.gicd_itargetsr 0x800 offset
    else if within 0xC00 0xCFC offset
    then numbered gicd_icfgr 0xC00 offset
    else if within 0xE00 0xEFC offset
    then numbered gicd_nsacr 0xE00 offset
    else if offset == 0xF00
    then ok gicd_sgir
    else if within 0xF10 0xF1C offset
    then numbered GicDistRegWord.gicd_cpendsgir 0xF10 offset
    else if within 0xF20 0xF2C offset
    then numbered GicDistRegWord.gicd_spendsgir 0xF20 offset
    else if within 0xFD0 0xFEC offset
    then numbered icpidr 0xFD0 offset
    else if within 0xFF0 0xFFC offset
    then numbered iccidr 0xFF0 offset
    else panic

-- `GICDistRegWord::from_offset`
unfoldable pub from_offset : ℕ → Outcome IrqError GicDistRegWord
unfolding from_offset_high
from_offset offset =
    if offset == 0x000
    then ok gicd_ctlr
    else if offset == 0x004
    then ok gicd_typer
    else if offset == 0x008
    then ok gicd_iidr
    else if within 0x080 0x0FC offset
    then numbered gicd_igroupr 0x080 offset
    else if within 0x100 0x17C offset
    then numbered gicd_isenabler 0x100 offset
    else if within 0x180 0x1FC offset
    then numbered gicd_icenabler 0x180 offset
    else if within 0x200 0x27C offset
    then numbered gicd_ispendr 0x200 offset
    else if within 0x280 0x2FC offset
    then numbered gicd_icpendr 0x280 offset
    else if within 0x300 0x37C offset
    then numbered gicd_isactiver 0x300 offset
    else if within 0x380 0x3FC offset
    then numbered gicd_icactiver 0x380 offset
    else from_offset_high offset

-- `GICDistRegByte::from_offset`
pub from_offset_byte : ℕ → Outcome IrqError GicDistRegByte
from_offset_byte offset =
    if within 0x400 0x7F8 offset
    then numbered_byte GicDistRegByte.gicd_ipriorityr 0x400 offset
    else if within 0x800 0xBF8 offset
    then numbered_byte GicDistRegByte.gicd_itargetsr 0x800 offset
    else if within 0xF10 0xF1C offset
    then numbered_byte GicDistRegByte.gicd_cpendsgir 0xF10 offset
    else if within 0xF20 0xF2C offset
    then numbered_byte GicDistRegByte.gicd_spendsgir 0xF20 offset
    else panic
