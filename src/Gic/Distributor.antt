-- ===== src/Gic/Distributor.antt =====
-- distributor/mod.rs: the state of the distributor, its creation and its reset. A register is a
-- number below 2 ^ 32, a bank of registers a list.
pub mod Lines
pub mod Sweep
pub mod Write
pub mod Sgi
pub mod Dispatch
pub mod Read
pub mod WellFormed
use icecap.Base.{
  ℕ, suc, zero, ◌+◌, ◌*◌, ◌^◌, List, [], ◌∷◌, map, Option, replicate, set, Outcome, ok, ◌>>=◌,
  modify, bit_or,
}
use icecap.Gic.Error.{IrqError}
use icecap.Gic.Register32.{shl32}

-- What a write asks the caller to do: interrupts to inject, and to acknowledge.
pub data WriteAction : Type 0 where
  no_action : WriteAction
  inject_and_ack_irqs : Option (List (ℕ × ℕ)) → Option (List (ℕ × ℕ)) → WriteAction

pub data ReadAction : Type 0 where
  no_action : ReadAction

pub record Distributor : Type 0 where
  pub num_nodes : ℕ
  pub control : ℕ
  pub ic_type : ℕ
  pub dist_ident : ℕ
  pub irq_group0 : List ℕ
  pub irq_group : List ℕ
  pub enable0 : List ℕ
  pub enable : List ℕ
  pub pending0 : List ℕ
  pub pending : List ℕ
  pub active0 : List ℕ
  pub active : List ℕ
  pub priority0 : List (List ℕ)
  pub priority : List ℕ
  pub targets0 : List (List ℕ)
  pub targets : List ℕ
  pub config0 : ℕ
  pub config1 : List ℕ
  pub config : List ℕ
  pub sgi_pending : List (List ℕ)
  pub periph_id : List ℕ
  pub component_id : List ℕ

-- The struct literal of `new`, before the reset.
abbrev pub blank : ℕ → Distributor
blank n = record {
  num_nodes = n;
  control = 0;
  ic_type = 0;
  dist_ident = 0;
  irq_group0 = replicate n 0;
  irq_group = replicate 31 0;
  enable0 = replicate n 0;
  enable = replicate 31 0;
  pending0 = replicate n 0;
  pending = replicate 31 0;
  active0 = replicate n 0;
  active = replicate 31 0;
  priority0 = replicate n (replicate 8 0);
  priority = replicate 247 0;
  targets0 = replicate n (replicate 8 0);
  targets = replicate 247 0;
  config0 = 0;
  config1 = replicate n 0;
  config = replicate 62 0;
  sgi_pending = replicate n (replicate 4 0);
  periph_id = replicate 12 0;
  component_id = replicate 4 0;
}

-- `for i in i..i + k { regs[i].store(v) }`
abbrev pub store_each : ℕ → ℕ → ℕ → List ℕ → Outcome IrqError (List ℕ)
store_each i zero v regs = ok regs
store_each i (suc k) v regs = do w ← modify regs i (λ old. (old, v)); store_each (suc i) k v w.1

-- A target register of bank `idx`: stored 0, then or-ed with the bit of each of its four IRQs.
abbrev bank_target : ℕ → ℕ
bank_target idx =
    bit_or
      (bit_or (bit_or (bit_or 0 (shl32 (shl32 1 idx) 0)) (shl32 (shl32 1 idx) 8))
        (shl32 (shl32 1 idx) 16))
      (shl32 (shl32 1 idx) 24)

-- `for (idx, bank) in self.targets0.iter_mut().enumerate()`
abbrev reset_targets0 : ℕ → List (List ℕ) → List (List ℕ)
reset_targets0 idx [] = []
reset_targets0 idx (bank ∷ banks) = map (λ _. bank_target idx) bank ∷ reset_targets0 (suc idx) banks

-- The stores to the identification registers.
abbrev identify : List ℕ → Outcome IrqError (List ℕ)
identify ids = do
  a ← modify ids 4 (λ old. (old, 0x04))
  b ← modify a.1 8 (λ old. (old, 0x90))
  c ← modify b.1 9 (λ old. (old, 0xb4))
  d ← modify c.1 10 (λ old. (old, 0x2b))
  ok d.1

abbrev identify_component : List ℕ → Outcome IrqError (List ℕ)
identify_component ids = do
  a ← modify ids 0 (λ old. (old, 0x0d))
  b ← modify a.1 1 (λ old. (old, 0xf0))
  c ← modify b.1 2 (λ old. (old, 0x05))
  d ← modify c.1 3 (λ old. (old, 0xb1))
  ok d.1

-- `reset`, the values of the GICv2 specification.
unfoldable pub reset : Distributor → Outcome IrqError Distributor
reset d = do
  enable0 ← store_each 0 d.num_nodes 0x0000ffff d.enable0
  config1 ← store_each 0 d.num_nodes 0x55540000 d.config1
  config ← store_each 0 14 0x55555555 d.config
  periph_id ← identify d.periph_id
  component_id ← identify_component d.component_id
  ok (record d {
    ic_type = 0x0000fce7;
    dist_ident = 0x0200043b;
    enable0 = enable0;
    config0 = 0xaaaaaaaa;
    config1 = config1;
    config = config;
    targets0 = reset_targets0 0 d.targets0;
    targets = map (λ _. 0x01010101) d.targets;
    periph_id = periph_id;
    component_id = component_id;
  })

-- `new`
unfoldable pub new : ℕ → Outcome IrqError Distributor
unfolding reset
new num_nodes = reset (blank num_nodes)
