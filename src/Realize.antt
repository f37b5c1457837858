-- ===== src/Realize.antt =====
-- rust/crates/framework/dyndl/realize/src: the memory that realms are made of. The kernel is a
-- parameter, whose state is threaded through; so are the sizes of its objects.
pub mod CRegion
pub mod Node
pub mod Allocator
mod Examples
use icecap.Base.{ℕ, ◌+◌, Outcome}

-- lib.rs
pub record UntypedId : Type 0 where
  pub paddr : ℕ
  pub size_bits : ℕ

-- A CPtr is its word.
pub record CPtrWithDepth : Type 0 where
  pub cptr : ℕ
  pub depth : ℕ

pub record RelativeCPtr : Type 0 where
  pub root : ℕ
  pub path : CPtrWithDepth

pub record ElaboratedUntyped : Type 0 where
  pub cptr : ℕ
  pub untyped_id : UntypedId

-- base/icecap-sel4/src/cspace.rs
pub data ObjectBlueprint : Type 0 where
  untyped cnode : ℕ → ObjectBlueprint
  endpoint notification tcb vcpu small_page large_page huge_page pt pd pud pgd : ObjectBlueprint

-- `seL4_…Bits` of the kernel's headers; `slot_bits` is the size of a slot of a CNode.
pub record ObjectBits : Type 0 where
  pub slot_bits : ℕ
  pub endpoint_bits : ℕ
  pub notification_bits : ℕ
  pub tcb_bits : ℕ
  pub vcpu_bits : ℕ
  pub page_bits : ℕ
  pub large_page_bits : ℕ
  pub huge_page_bits : ℕ
  pub page_table_bits : ℕ
  pub page_dir_bits : ℕ
  pub pud_bits : ℕ
  pub pgd_bits : ℕ

abbrev pub physical_size_bits : ObjectBits → ObjectBlueprint → ℕ
physical_size_bits bits (untyped size_bits) = size_bits
physical_size_bits bits (cnode size_bits) = bits.slot_bits + size_bits
physical_size_bits bits endpoint = bits.endpoint_bits
physical_size_bits bits notification = bits.notification_bits
physical_size_bits bits tcb = bits.tcb_bits
physical_size_bits bits vcpu = bits.vcpu_bits
physical_size_bits bits small_page = bits.page_bits
physical_size_bits bits large_page = bits.large_page_bits
physical_size_bits bits huge_page = bits.huge_page_bits
physical_size_bits bits pt = bits.page_table_bits
physical_size_bits bits pd = bits.page_dir_bits
physical_size_bits bits pud = bits.pud_bits
physical_size_bits bits pgd = bits.pgd_bits

-- The system calls: `retype` of an untyped into one object at a slot of a CNode, `revoke`, `mutate` of
-- a source with the data of its guard, and `delete`.
pub record Kernel (E W : Type 0) : Type 0 where
  pub retype : W → ℕ → ObjectBlueprint → RelativeCPtr → ℕ → Outcome E W
  pub revoke : W → RelativeCPtr → Outcome E W
  pub mutate : W → RelativeCPtr → RelativeCPtr → ℕ → ℕ → Outcome E W
  pub delete : W → RelativeCPtr → Outcome E W
