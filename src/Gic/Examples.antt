-- ===== src/Gic/Examples.antt =====
-- A controller of two nodes, and the theorems at its state.
use icecap.Base.{◌⊎◌, panic, ℕ, ◌*◌, ◌≡◌, refl, true, false, List, arith, ok, set, replicate}
use icecap.Gic.Error.{VmFaultData}
use icecap.Gic.Registers.{GicDistRegWord, gicd_isenabler, from_offset}
use icecap.Gic.Registers.Decode.{IsAt, from_offset-address}
use icecap.Gic.Distributor.{Distributor, WriteAction, new}
use icecap.Gic.Distributor.Lines.{ack, set_pending, set_active, should_inject}
use icecap.Gic.Distributor.Lines.Effects.{
  enabled_line, pending_line, active_line, set_pending_exact, set_active_exact,
}
use icecap.Gic.Distributor.Lines.Inject.{injectable, should_inject_lem, target_line}
use icecap.Gic.Distributor.Lines.Ack.{HasEnded, HasEndedSgi, ack_exact, ack_sgi}
use icecap.Gic.Distributor.WellFormed.{IsWellFormed}
use icecap.Gic.Distributor.WellFormed.Reset.{fresh, new_lem}
use icecap.Gic.Distributor.Sweep.{sweep_irqs_to_inject, sweep_irqs_to_ack}
use icecap.Gic.Distributor.Sweep.Exact.{
  Sweeps, ackable, sweep_irqs_to_inject_exact, sweep_irqs_to_ack_exact,
}
use icecap.Gic.Distributor.Write.{write_ipriorityr, write_isenabler, write_icenabler}
use icecap.Gic.Distributor.Write.Only.{IsWithin, handle_write-IsWithin}
use icecap.Gic.Distributor.Write.Enable.{
  Enables, Disables, report, write_isenabler_exact, write_icenabler_next,
}
use icecap.Gic.Distributor.Dispatch.{write_word, handle_write}

-- Two nodes, switched on; interrupts 37 and 72 are enabled, and 37 is pending for CPU 0.
abbrev pub two_nodes : Distributor
two_nodes = record (fresh 2) {
  control = 1;
  enable = set (set (replicate 31 0) 0 32) 1 256;
  pending = set (replicate 31 0) 0 32;
}

pub two_nodes-IsWellFormed : IsWellFormed two_nodes
two_nodes-IsWellFormed = record {
  few_nodes = omega arith;
  length_irq_group0 = refl;
  length_irq_group = refl;
  length_enable0 = refl;
  length_enable = refl;
  length_pending0 = refl;
  length_pending = refl;
  length_active0 = refl;
  length_active = refl;
  length_priority = refl;
  length_targets = refl;
  length_config1 = refl;
  length_config = refl;
  length_periph_id = refl;
  length_component_id = refl;
  rows_priority0 = refl;
  rows_targets0 = refl;
  rows_sgi_pending = refl;
}

should_inject_example : should_inject two_nodes 37 0 ≡ ok true
should_inject_example = should_inject_lem two_nodes-IsWellFormed 37 0 (omega arith) (omega arith)

set_pending_example :
    (d' : Distributor) × (set_pending two_nodes 72 1 ≡ ok d')
    × (d' ≡ record two_nodes { pending0 = d'.pending0; pending = d'.pending })
    × (pending_line d' 72 0 ≡ true)
set_pending_example = set_pending_exact two_nodes-IsWellFormed 72 1 (omega arith) (omega arith) 72 0

set_active_example :
    (d' : Distributor) × (set_active two_nodes 37 0 ≡ ok d')
    × (d' ≡ record two_nodes { active0 = d'.active0; active = d'.active })
    × (active_line d' 38 0 ≡ false)
set_active_example = set_active_exact two_nodes-IsWellFormed 37 0 (omega arith) (omega arith) 38 0

ack_example : (d' : Distributor) × (ack two_nodes 37 0 ≡ ok d') × HasEnded two_nodes 37 0 d'
ack_example = ack_exact 37 0 two_nodes-IsWellFormed (omega arith) (omega arith) (omega arith)

ack_sgi_example : (d' : Distributor) × (ack two_nodes 3 1 ≡ ok d') × HasEndedSgi two_nodes 3 1 d'
ack_sgi_example = ack_sgi 3 1 two_nodes-IsWellFormed (omega arith) (omega arith)

new_example :
    (d : Distributor) × (new 2 ≡ ok d)
    × IsWellFormed d
    × (d.num_nodes ≡ 2)
    × (d.control ≡ 0)
    × (enabled_line d 20 1 ≡ false)
    × (target_line d 20 1 ≡ true)
    × (pending_line d 20 1 ≡ false)
    × (active_line d 20 1 ≡ false)
    × (injectable d 20 1 ≡ false)
new_example = new_lem 2 20 1 (omega arith) (omega arith) (omega arith)

sweep_inject_example :
    (out : List (ℕ × ℕ)) × (sweep_irqs_to_inject two_nodes 32 32 ≡ ok out)
    × Sweeps (injectable two_nodes) two_nodes 32 32 out
sweep_inject_example = sweep_irqs_to_inject_exact 32 32 two_nodes-IsWellFormed (omega arith)

sweep_ack_example :
    (out : List (ℕ × ℕ)) × (sweep_irqs_to_ack two_nodes 0 1020 ≡ ok out)
    × Sweeps (ackable two_nodes) two_nodes 0 1020 out
sweep_ack_example = sweep_irqs_to_ack_exact 0 1020 two_nodes-IsWellFormed (omega arith)

write_isenabler_example :
    (d' : Distributor) × (to_inject to_ack : List (ℕ × ℕ)) × (write_isenabler two_nodes 0 1 6
      ≡ ok (report to_inject to_ack, d'))
    × Sweeps (injectable d') d' (1 * 32) 32 to_inject
    × Sweeps (ackable d') d' (1 * 32) 32 to_ack
    × Enables two_nodes 0 1 6 d'
write_isenabler_example =
    write_isenabler_exact 0 1 6 two_nodes-IsWellFormed (omega arith) (omega arith) (omega arith)

write_icenabler_example :
    (d' : Distributor) × (write_icenabler two_nodes 0 1 32 ≡ ok (WriteAction.no_action, d'))
    × Disables two_nodes 2 32 d'
write_icenabler_example =
    write_icenabler_next 0 1 32 two_nodes-IsWellFormed (omega arith) (omega arith) (omega arith)
      (omega arith) (omega arith)

-- A write to GICD_IPRIORITYR9 by node 0.
handle_write_result :
    handle_write two_nodes 0x424 0 (VmFaultData.word 0x10101010)
    ≡ ok (WriteAction.no_action, record two_nodes { priority = set (replicate 247 0) 1 0x10101010 })
unfolding handle_write from_offset write_word write_ipriorityr
handle_write_result = refl

handle_write-IsWithin_example :
    IsWithin 0x424
      (VmFaultData.word 0x10101010)
      two_nodes
      (record two_nodes { priority = set (replicate 247 0) 1 0x10101010 })
handle_write-IsWithin_example =
    handle_write-IsWithin two_nodes 0x424 0 (VmFaultData.word 0x10101010) handle_write_result

isenabler1 : from_offset 0x104 ≡ ok (gicd_isenabler 1)
unfolding from_offset
isenabler1 = refl

from_offset_example :
    ((reg : GicDistRegWord) × (from_offset 0x104 ≡ ok reg) × IsAt 0x104 reg)
    ⊎ (from_offset 0x104 ≡ panic)
from_offset_example = from_offset-address 0x104
