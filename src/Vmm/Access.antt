-- ===== src/Vmm/Access.antt =====
-- fault.rs, `emulate_read` and `VMFaultWidth::truncate`: the register that a guest's load changes.
use icecap.Base.{ℕ, ◌/◌, ◌%◌, ◌^◌, ◌<◌, ◌≡◌}
use icecap.Gic.Error.{VmFaultWidth}
use icecap.Vmm.Fault.{VmFault, width_of, bits, truncate}

-- The width and the register that the syndrome of a fault names.
abbrev pub named_width : VmFault → VmFaultWidth
named_width fault = width_of (fault.fsr / 2 ^ 22 % 4)

abbrev pub named_gpr : VmFault → ℕ
named_gpr fault = fault.fsr / 2 ^ 16 % 32

-- What a register of 64 bits holds after a load of that width into it.
pub record IsLoaded (w : VmFaultWidth) (x old new : ℕ) : Type 0 where
  pub loaded : truncate w new ≡ truncate w x
  pub kept : new / 2 ^ bits w ≡ old / 2 ^ bits w
  pub small : new < 2 ^ 64
