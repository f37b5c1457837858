-- ===== src/Vmm/Fault.antt =====
-- framework/base/icecap-sel4/src/fault.rs: what the fault of a guest's access says of the access.
use icecap.Base.{
  ℕ, ◌+◌, ◌-◌, ◌/◌, ◌%◌, ◌^◌, ◌==◌, Bool, not, Outcome, ok, ◌>>=◌, ◌>>◌, assert, if◌then◌else◌,
}
use icecap.Base.Bits.{test_bit}
use icecap.Gic.Error.{IrqError, VmFaultWidth, VmFaultData}

pub record VmFault : Type 0 where
  pub addr : ℕ
  pub fsr : ℕ

abbrev pub is_valid : VmFault → Bool
is_valid fault = test_bit fault.fsr 24

abbrev valid_hsr : VmFault → Outcome IrqError ℕ
valid_hsr fault = do assert (is_valid fault); ok fault.fsr

-- A number of two bits.
abbrev pub width_of : ℕ → VmFaultWidth
width_of n =
    if n == 0
    then VmFaultWidth.byte
    else if n == 1
    then VmFaultWidth.half_word
    else if n == 2
    then VmFaultWidth.word
    else VmFaultWidth.double_word

abbrev pub fault_width : VmFault → Outcome IrqError VmFaultWidth
fault_width fault = do hsr ← valid_hsr fault; ok (width_of (hsr / 2 ^ 22 % 4))

-- The number of bits of `mask`.
abbrev pub bits : VmFaultWidth → ℕ
bits VmFaultWidth.byte = 8
bits VmFaultWidth.half_word = 16
bits VmFaultWidth.word = 32
bits VmFaultWidth.double_word = 64

abbrev pub is_aligned : VmFault → Outcome IrqError Bool
is_aligned fault = do width ← fault_width fault; ok (fault.addr % (bits width / 8) == 0)

abbrev pub is_write : VmFault → Outcome IrqError Bool
is_write fault = do hsr ← valid_hsr fault; ok (test_bit hsr 6)

abbrev pub is_read : VmFault → Outcome IrqError Bool
is_read fault = do written ← is_write fault; ok (not written)

abbrev gpr_index : VmFault → Outcome IrqError ℕ
gpr_index fault = do hsr ← valid_hsr fault; ok (hsr / 2 ^ 16 % 32)

abbrev pub truncate : VmFaultWidth → ℕ → VmFaultData
truncate VmFaultWidth.byte val = VmFaultData.byte (val % 2 ^ 8)
truncate VmFaultWidth.half_word val = VmFaultData.half_word (val % 2 ^ 16)
truncate VmFaultWidth.word val = VmFaultData.word (val % 2 ^ 32)
truncate VmFaultWidth.double_word val = VmFaultData.double_word (val % 2 ^ 64)

-- `u64::from`
abbrev raw : VmFaultData → ℕ
raw (VmFaultData.byte x) = x
raw (VmFaultData.half_word x) = x
raw (VmFaultData.word x) = x
raw (VmFaultData.double_word x) = x

-- `VMFaultWidth::from`
abbrev pub data_width : VmFaultData → VmFaultWidth
data_width (VmFaultData.byte x) = VmFaultWidth.byte
data_width (VmFaultData.half_word x) = VmFaultWidth.half_word
data_width (VmFaultData.word x) = VmFaultWidth.word
data_width (VmFaultData.double_word x) = VmFaultWidth.double_word

-- `(old_val & !mask) | val`, where the value has no more bits than the mask.
abbrev pub set_data : VmFaultData → ℕ → ℕ
set_data val old_val = old_val - old_val % 2 ^ bits (data_width val) + raw val

-- `data`, over `ctx.read_gpr`
abbrev pub fault_data : VmFault → (ℕ → ℕ) → Outcome IrqError VmFaultData
fault_data fault read_gpr = do
  written ← is_write fault
  assert written
  width ← fault_width fault
  gpr ← gpr_index fault
  ok (truncate width (read_gpr gpr))

-- The register that `emulate_read` changes, and its new value.
abbrev pub emulate_read : VmFault → (ℕ → ℕ) → VmFaultData → Outcome IrqError (ℕ × ℕ)
emulate_read fault read_gpr val = do
  for_read ← is_read fault
  assert for_read
  width ← fault_width fault
  assert (bits width == bits (data_width val))
  gpr ← gpr_index fault
  ok (gpr, set_data val (read_gpr gpr))

abbrev pub is_wf : ℕ → Bool
is_wf hsr = hsr / 2 ^ 26 == 1
