-- ===== src/Gic/Error.antt =====
-- gic/src/error.rs: the errors of the distributor; and what a fault carries, icecap-sel4/src/fault.rs.
use icecap.Base.{ℕ}

pub data IrqError : Type 0 where
  invalid_cpu : ℕ → IrqError
  invalid_irq : ℕ → IrqError
  invalid_irq_cpu : ℕ → ℕ → IrqError
  invalid_register_write : IrqError
  invalid_register_read : IrqError

pub data VmFaultWidth : Type 0 where
  byte half_word word double_word : VmFaultWidth

pub data VmFaultData : Type 0 where
  byte : ℕ → VmFaultData
  half_word : ℕ → VmFaultData
  word : ℕ → VmFaultData
  double_word : ℕ → VmFaultData
