-- ===== src/Gic/Distributor/Write.antt =====
-- distributor/mod.rs: `handle_write`, one function for each arm. A write returns what the caller is
-- to do, and the distributor after it.
pub mod Banked
pub mod Enable
pub mod Frame
pub mod Arms
pub mod Only
use icecap.Base.{
  ℕ, zero, suc, ◌+◌, ◌-◌, ◌*◌, ◌/◌, ◌%◌, ◌^◌, ltb, ◌==◌, if◌then◌else◌, not, ◌&&◌, Bool, true,
  false, List, [], ◌∷◌, ◌++◌, Option, some, none, Outcome, ok, err, panic, ◌>>=◌, ◌>>◌, assert,
  expect, modify, modify_in, bit_and, bit_or, bit_xor,
}
use icecap.Base.Bits.{not32}
use icecap.Biterate.{biterate}
use icecap.Gic.Error.{IrqError, invalid_register_write, VmFaultData}
use icecap.Gic.Register32.{store, swap, fetch_and, fetch_or, set_byte, shl32}
use icecap.Gic.Registers.{
  GicDistRegWord, GicDistRegByte, gicd_ctlr, gicd_typer, gicd_iidr, gicd_sgir, gicd_igroupr,
  gicd_isenabler, gicd_icenabler, gicd_ispendr, gicd_icpendr, gicd_isactiver, gicd_icactiver,
  gicd_icfgr, gicd_nsacr, iccidr, icpidr, from_offset, from_offset_byte,
}
use icecap.Gic.Distributor.{Distributor, WriteAction, inject_and_ack_irqs}
use icecap.Gic.Distributor.Lines.{should_inject, set_pending, clear_pending, modify_sgi}
use icecap.Gic.Distributor.Sweep.{sweep_irqs_to_inject, sweep_irqs_to_ack}

abbrev pub Written : Type 0
Written = Outcome IrqError (WriteAction × Distributor)

abbrev pub quiet : Distributor → Written
quiet d = ok (WriteAction.no_action, d)

-- `if reg_num == 0 { &mut self.x0[node_index] } else { &mut self.x[reg_num - 1] }`
abbrev pub modify_banked :
    List ℕ → List ℕ → ℕ → ℕ → (ℕ → ℕ × ℕ) → Outcome IrqError (ℕ × List ℕ × List ℕ)
modify_banked bank shared node_index reg_num f =
    if reg_num == 0
    then (modify bank node_index f >>= λ w. ok (w.0, w.1, shared))
    else (modify shared (reg_num - 1) f >>= λ w. ok (w.0, bank, w.1))

abbrev pub is_empty : List (ℕ × ℕ) → Bool
is_empty [] = true
is_empty (x ∷ xs) = false

-- The interrupts of the range to inject and those to acknowledge, as an action.
unfoldable pub sweep_both : Distributor → ℕ → ℕ → Written
sweep_both d base_irq num_irqs = do
  to_inject ← sweep_irqs_to_inject d base_irq num_irqs
  to_ack ← sweep_irqs_to_ack d base_irq num_irqs
  if is_empty to_inject && is_empty to_ack
      then quiet d
      else ok (inject_and_ack_irqs (some to_inject) (some to_ack), d)

abbrev pub inject_only : List (ℕ × ℕ) → Distributor → Written
inject_only to_inject d =
    if is_empty to_inject then quiet d else ok (inject_and_ack_irqs (some to_inject) none, d)

unfoldable pub sweep_inject : Distributor → ℕ → ℕ → Written
sweep_inject d base_irq num_irqs = do
  to_inject ← sweep_irqs_to_inject d base_irq num_irqs
  inject_only to_inject d

unfoldable pub write_ctlr : Distributor → ℕ → Written
unfolding sweep_both
write_ctlr d val =
    if val == 1
    then (if d.control == 0
        then sweep_both (record d { control = bit_or d.control val }) 0 1020
        else quiet (record d { control = bit_or d.control val }))
    else if val == 0
    then quiet (record d { control = bit_and d.control val })
    else err invalid_register_write

unfoldable pub write_igroupr : Distributor → ℕ → ℕ → ℕ → Written
write_igroupr d node_index reg_num val = do
  w ← modify_banked d.irq_group0 d.irq_group node_index reg_num (store val)
  quiet (record d { irq_group0 = w.1; irq_group = w.2 })

unfoldable pub write_isenabler : Distributor → ℕ → ℕ → ℕ → Written
write_isenabler d node_index reg_num val = if val == 0 then quiet d else do
  w ← modify_banked d.enable0 d.enable node_index reg_num (fetch_or val)
  sweep_both (record d { enable0 = w.1; enable = w.2 }) (reg_num * 32) 32

-- The shared registers are reached at `self.enable[reg_num]` here.
unfoldable pub write_icenabler : Distributor → ℕ → ℕ → ℕ → Written
write_icenabler d node_index reg_num val =
    if val == 0
    then quiet d
    else if reg_num == 0
    then (modify d.enable0 node_index (fetch_and (not32 val)) >>= λ w.
        quiet (record d { enable0 = w.1 }))
    else (modify d.enable reg_num (fetch_and (not32 val)) >>= λ w.
        quiet (record d { enable = w.1 }))

-- The part of a write to a pending register behind its guards.
unfoldable pub set_pending_reg : Distributor → ℕ → ℕ → ℕ → Written
set_pending_reg d node_index reg_num val = do
  w ← modify_banked d.pending0 d.pending node_index reg_num (fetch_or val)
  sweep_inject (record d { pending0 = w.1; pending = w.2 }) (reg_num * 32) 32

unfoldable pub write_ispendr : Distributor → ℕ → ℕ → ℕ → Written
write_ispendr d node_index reg_num val =
    if val == 0
    then quiet d
    else if reg_num == 0 && not (bit_and val 0xFFFF == 0)
    then quiet d
    else set_pending_reg d node_index reg_num val

unfoldable pub clear_pending_reg : Distributor → ℕ → ℕ → ℕ → Written
clear_pending_reg d node_index reg_num val = do
  w ← modify_banked d.pending0 d.pending node_index reg_num (fetch_and (not32 val))
  quiet (record d { pending0 = w.1; pending = w.2 })

unfoldable pub write_icpendr : Distributor → ℕ → ℕ → ℕ → Written
write_icpendr d node_index reg_num val =
    if val == 0
    then quiet d
    else if reg_num == 0 && not (bit_and val 0xFFFF == 0)
    then err invalid_register_write
    else clear_pending_reg d node_index reg_num val

unfoldable pub write_isactiver : Distributor → ℕ → ℕ → ℕ → Written
write_isactiver d node_index reg_num val = if val == 0 then quiet d else do
  w ← modify_banked d.active0 d.active node_index reg_num (fetch_or val)
  quiet (record d { active0 = w.1; active = w.2 })

unfoldable pub write_icactiver : Distributor → ℕ → ℕ → ℕ → Written
write_icactiver d node_index reg_num val = if val == 0 then quiet d else do
  w ← modify_banked d.active0 d.active node_index reg_num (fetch_and (not32 val))
  quiet (record d { active0 = w.1; active = w.2 })

unfoldable pub write_ipriorityr : Distributor → ℕ → ℕ → ℕ → Written
write_ipriorityr d node_index reg_num val =
    if ltb reg_num 8
    then (modify_in d.priority0 node_index reg_num (store val) >>= λ w.
        quiet (record d { priority0 = w.1 }))
    else (modify d.priority (reg_num - 8) (store val) >>= λ w. quiet (record d { priority = w.1 }))

-- The targets of a shared register, written whole or by a byte: `f` stores, `bits` are the bits
-- stored.
unfoldable pub write_targets : Distributor → ℕ → (ℕ → ℕ × ℕ) → ℕ → Written
write_targets d reg_num f bits = if ltb reg_num 8 then err invalid_register_write else do
  w ← modify d.targets (reg_num - 8) f
  let d' = record d { targets = w.1 }
  if bit_and bits (not32 w.0) == 0 then quiet d' else sweep_both d' (reg_num * 4) 4

unfoldable pub write_icfgr : Distributor → ℕ → ℕ → ℕ → Written
write_icfgr d node_index reg_num val =
    if reg_num == 0
    then quiet d
    else if reg_num == 1
    then (modify d.config1 node_index (store val) >>= λ w. quiet (record d { config1 = w.1 }))
    else (modify d.config (reg_num - 2) (store val) >>= λ w. quiet (record d { config = w.1 }))
