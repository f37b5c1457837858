-- ===== src/Gic.antt =====
-- The virtual interrupt controller, rust/crates/framework/vmm/gic.
pub mod Error
pub mod Register32
pub mod Registers
pub mod Distributor
pub mod Controller
pub mod Examples
