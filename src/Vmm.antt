-- ===== src/Vmm.antt =====
-- rust/crates/hypervisor/components/vmm/core/src/vmm.rs with framework/vmm/utils and framework/vmm/psci:
-- the loop of a node of the virtual machine monitor. All nodes share one interrupt controller, and the
-- monitor is its GICCallbacks. The kernel, the event server, the registers of the guest and the
-- extension of a monitor are a parameter, over the state of the world.
pub mod Fault
pub mod Access
pub mod Node
pub mod Steps
pub mod Valid
pub mod Once
mod Examples
use icecap.Base.{
  wrapping_add, ℕ, zero, suc, ◌+◌, ◌-◌, ◌%◌, ◌^◌, ltb, leb, ◌==◌, if◌then◌else◌, ◌&&◌, ◌||◌, not,
  Bool, true, false, List, [], ◌∷◌, set, Option, some, none, Outcome, ok, err, panic, ◌>>=◌, ◌>>◌,
  assert, unwrap, index, Map, lookup,
}
use icecap.Gic.Error.{IrqError}
use icecap.EventServer.{ConfigureAction}
use icecap.Vmm.Fault.{VmFault}
use icecap.Gic.Controller.{
  QualifiedIrq, qualified_ppi, spi, Callbacks, Gic, handle_irq, handle_maintenance, read, write,
}

-- Each entry with its index at the event server; an SPI with its node as well; the flag is `must_ack`.
pub record IrqMap : Type 0 where
  pub ppi_map : Map (ℕ × Bool)
  pub spi_map : Map (ℕ × ℕ × Bool)

-- `syscall`, and the registers x0 to x3.
pub record UnknownSyscall : Type 0 where
  pub syscall : ℕ
  pub x0 : ℕ
  pub x1 : ℕ
  pub x2 : ℕ
  pub x3 : ℕ

-- The calls of the event server's client, the kernel's, those on the registers of a node's thread, and
-- the bitfield's `clear`, which returns the bits of the groups.
pub record Monitor (W : Type 0) : Type 0 where
  pub end_event : W → ℕ → ℕ → ℕ → Outcome IrqError W
  pub configure_event : W → ℕ → ℕ → ℕ → ConfigureAction → Outcome IrqError W
  pub ack_vppi : W → ℕ → ℕ → Outcome IrqError W
  pub inject_irq : W → ℕ → ℕ → ℕ → ℕ → Outcome IrqError W
  pub read_gpr : W → ℕ → ℕ → ℕ
  pub write_gpr : W → ℕ → ℕ → ℕ → W
  pub advance : W → ℕ → W
  pub clear_bits : W → ℕ → ℕ → List ℕ × W
  pub reply : W → ℕ → W
  -- The result in x0, with `advance_and_reply`.
  pub return_value : W → ℕ → ℕ → W
  -- A thread that sets the registers and runs the node.
  pub start_node : W → ℕ → ℕ → ℕ → Outcome IrqError W
  pub extension_wf : W → ℕ → Outcome IrqError W
  pub extension_syscall : W → ℕ → UnknownSyscall → Outcome IrqError W
  pub extension_putchar : W → ℕ → ℕ → Outcome IrqError W

-- `VMMGICCallbacks`, with the world that its clients and VCPUs are part of.
pub record VmmCallbacks (W : Type 0) : Type 0 where
  pub irq_map : IrqMap
  pub world : W

-- What the nodes share: the controller, and which nodes are not started.
pub record Vmm (W : Type 0) : Type 0 where
  pub gic : Gic (VmmCallbacks W)
  pub waiting : List Bool
  pub gic_dist_paddr : ℕ

-- What a node receives.
pub data NodeEvent : Type 0 where
  vm_fault : VmFault → NodeEvent
  unknown_syscall : UnknownSyscall → NodeEvent
  vgic_maintenance : Option ℕ → NodeEvent
  vcpu_fault : ℕ → NodeEvent
  vppi_event : ℕ → NodeEvent
  event_bit_groups : ℕ → NodeEvent

pub data PsciCall : Type 0 where
  version migrate_info_type : PsciCall
  features : ℕ → PsciCall
  cpu_on : ℕ → ℕ → ℕ → PsciCall

-- `fault.x0 as u32`, and `unwrap` of what is parsed
abbrev pub parse : UnknownSyscall → Outcome IrqError PsciCall
parse fault =
    let fid = fault.x0 % 2 ^ 32 in
    if fid == 0x84000000
    then ok version
    else if fid == 0x8400000a
    then ok (features (fault.x1 % 2 ^ 32))
    else if fid == 0xC4000003
    then ok (cpu_on fault.x1 fault.x2 fault.x3)
    else if fid == 0x84000006
    then ok migrate_info_type
    else panic

-- `RET_NOT_SUPPORTED as u64`
abbrev pub not_supported : ℕ
not_supported = 2 ^ 64 - 1

abbrev pub offset_in_region : ℕ → ℕ → ℕ → Option ℕ
offset_in_region addr region_start region_size =
    if leb region_start addr && ltb addr (wrapping_add region_start region_size)
    then some (addr - region_start)
    else none

-- The first PPI of an index at the event server.
abbrev pub find_ppi : ℕ → Map (ℕ × Bool) → Option ℕ
find_ppi in_index [] = none
find_ppi in_index ((ppi, (ppi_in_index, must_ack)) ∷ rest) =
    if ppi_in_index == in_index then some ppi else find_ppi in_index rest

-- The first SPI; each entry that is looked at has to be of this node.
abbrev pub find_spi : ℕ → ℕ → Map (ℕ × ℕ × Bool) → Outcome IrqError (Option ℕ)
find_spi node_index in_index [] = ok none
find_spi node_index in_index ((irq, (spi_in_index, nid, must_ack)) ∷ rest) =
    let further = find_spi node_index in_index rest in
    assert (nid == node_index) >> (if spi_in_index == in_index then ok (some irq) else further)
