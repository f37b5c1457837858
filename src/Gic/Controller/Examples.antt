-- ===== src/Gic/Controller/Examples.antt =====
-- The controller of two nodes with call backs that keep a log, and the theorems at its state.
use icecap.Base.{
  ℕ, ◌/◌, ◌^◌, ◌≡◌, refl, if◌then◌else◌, List, [], ◌∷◌, some, none, arith, ok, ◌>>=◌, set,
  replicate, zero, suc,
}
use icecap.Gic.Error.{VmFaultData}
use icecap.Gic.Distributor.{Distributor}
use icecap.Gic.Distributor.Lines.Inject.{priority_of}
use icecap.Gic.Distributor.Lines.Ack.{HasEnded}
use icecap.Gic.Distributor.Lines.{ack, clear_pending, clear_active}
use icecap.Gic.Distributor.Lines.Effects.{pending_after, clear_bit}
use icecap.Gic.Registers.{from_offset}
use icecap.Gic.Distributor.Write.{write_ipriorityr}
use icecap.Gic.Distributor.Dispatch.{write_word, handle_write}
use icecap.Gic.Examples.{two_nodes, two_nodes-IsWellFormed}
use icecap.Gic.Controller.{
  Gic, Lr, Callbacks, qualified_ppi, refill, perform, first_empty, inject_irq, forward_irq,
  handle_irq, handle_maintenance, write, forward_to_slot, queue_irq, irq_in_lrs_overflow,
}
use icecap.Gic.Controller.Inject.{ready, made_pending, placed, inject_irq_lem}
use icecap.Gic.Controller.Forward.{AreTaken, IsTracked, forward_irq-full, forward_irq-IsTracked}
use icecap.Gic.Controller.Maintenance.{freed, handle_maintenance-last, handle_maintenance-next}
use icecap.Gic.Controller.Valid.{IsValid, handle_irq-IsValid, write-IsValid}

-- The calls made, the last one first, each as its main arguments.
abbrev Log : Type 0
Log = List (ℕ × ℕ)

abbrev logging : Callbacks Log
logging = record {
  ack_irq = λ log node irq. ok ((0, node) ∷ log);
  vcpu_inject_irq = λ log calling target i irq priority. ok ((irq, priority) ∷ log);
  set_affinity = λ log node irq affinity. ok log;
  set_priority = λ log node irq priority. ok log;
  set_enabled = λ log node irq enabled. ok log;
}

abbrev idle : Lr
idle = record { mirror = replicate 4 none; overflow = [] }

-- All list registers of this node are taken, and 50 waits.
abbrev busy : Lr
busy = record { mirror = some 40 ∷ some 41 ∷ some 42 ∷ some 43 ∷ []; overflow = 50 ∷ [] }

abbrev one_busy : Gic Log
one_busy = record { num_nodes = 2; callbacks = []; dist = two_nodes; lrs = idle ∷ busy ∷ [] }

one_busy-IsValid : IsValid one_busy
one_busy-IsValid = record {
  dist = two_nodes-IsWellFormed;
  nodes = refl;
  each = (
    record { slots = refl; distinct = tt },
    (record { slots = refl; distinct = (refl, tt) }, tt),
  );
}

inject_irq_example : inject_irq logging one_busy 0 0 2 37 ≡ (
    if ready two_nodes 37 0
    then (ok ((37, priority_of two_nodes 37 0 / 2 ^ 3) ∷ []) >>= λ cb.
        ok (placed logging one_busy 37 0 idle 2 cb))
    else ok (record one_busy { dist = made_pending two_nodes 37 0 }))
inject_irq_example =
    inject_irq_lem logging one_busy 37 0 two_nodes-IsWellFormed (omega arith) (omega arith) 0 2 idle
      (refl, omega arith)

busy-AreTaken : AreTaken busy.mirror
busy-AreTaken zero e = cc
busy-AreTaken (suc zero) e = cc
busy-AreTaken (suc (suc zero)) e = cc
busy-AreTaken (suc (suc (suc zero))) e = cc
busy-AreTaken (suc (suc (suc (suc j)))) e = cc

abbrev one_queued : Gic Log
one_queued = record one_busy { lrs = idle ∷ record busy { overflow = 50 ∷ 37 ∷ [] } ∷ [] }

forward_irq_example : forward_irq logging one_busy 0 1 37 ≡ ok one_queued
forward_irq_example = forward_irq-full logging one_busy 37 1 0 busy refl busy-AreTaken

forward_irq_result : forward_irq logging one_busy 0 1 37 ≡ ok one_queued
unfolding forward_irq forward_to_slot first_empty queue_irq irq_in_lrs_overflow
forward_irq_result = refl

forward_irq-IsTracked_example : IsTracked one_queued 37 1
forward_irq-IsTracked_example =
    forward_irq-IsTracked logging one_busy 37 1 two_nodes-IsWellFormed (omega arith) (omega arith) 0
      busy refl forward_irq_result

handle_maintenance_next_example :
    (d' : Distributor) × HasEnded two_nodes 41 1 d'
    × (handle_maintenance logging one_busy 1 1
        ≡ inject_irq logging
            (record one_busy {
              callbacks = (0, 1) ∷ [];
              dist = d';
              lrs = freed one_busy.lrs 1 1 busy.mirror [];
            })
            1
            1
            1
            50)
handle_maintenance_next_example =
    handle_maintenance-next logging one_busy 1 1 41 busy.mirror two_nodes-IsWellFormed (omega arith)
      (omega arith) (omega arith) refl 50 [] refl

-- The other node has 37 in its list register 3 and nothing queued.
abbrev one_listed : Gic Log
one_listed = record one_busy {
  lrs = record idle { mirror = none ∷ none ∷ none ∷ some 37 ∷ [] } ∷ busy ∷ [];
}

handle_maintenance_last_example :
    (d' : Distributor) × HasEnded two_nodes 37 0 d'
    × (handle_maintenance logging one_listed 0 3
        ≡ ok (record one_busy {
          callbacks = (0, 0) ∷ [];
          dist = d';
          lrs = freed one_listed.lrs 0 3 (none ∷ none ∷ none ∷ some 37 ∷ []) [];
        }))
handle_maintenance_last_example =
    handle_maintenance-last logging one_listed 0 3 37 (none ∷ none ∷ none ∷ some 37 ∷ [])
      two_nodes-IsWellFormed (omega arith) (omega arith) (omega arith) refl refl

handle_irq_result : handle_irq logging one_busy 0 (qualified_ppi 1 37) ≡ ok one_queued
unfolding handle_irq
handle_irq_result = forward_irq_result

handle_irq-IsValid_example : IsValid one_queued
handle_irq-IsValid_example =
    handle_irq-IsValid logging 0 (qualified_ppi 1 37) one_busy-IsValid handle_irq_result

-- A write to GICD_IPRIORITYR9 by node 0.
abbrev prioritised : Gic Log
prioritised = record one_busy {
  dist = record two_nodes { priority = set (replicate 247 0) 1 0x10101010 };
}

write_result : write logging one_busy 0 0x424 (VmFaultData.word 0x10101010) ≡ ok prioritised
unfolding write handle_write from_offset write_word write_ipriorityr perform
write_result = refl

write-IsValid_example : IsValid prioritised
write-IsValid_example =
    write-IsValid logging 0 0x424 (VmFaultData.word 0x10101010) one_busy-IsValid write_result

abbrev all_free : Gic Log
all_free = record one_busy {
  callbacks = (0, 0) ∷ [];
  dist = pending_after two_nodes (clear_bit 37) 37 0;
}

handle_maintenance_result : handle_maintenance logging one_listed 0 3 ≡ ok all_free
unfolding handle_maintenance ack clear_pending clear_active refill
handle_maintenance_result = refl
