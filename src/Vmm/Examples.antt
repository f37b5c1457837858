-- ===== src/Vmm/Examples.antt =====
-- A monitor of two nodes, whose world counts the calls it gets, and the theorems at its state.
use icecap.Base.{
  Bool, ◌^◌, ℕ, suc, ◌≡◌, refl, true, false, List, [], ◌∷◌, none, arith, ok, panic, ◌>>=◌,
  replicate,
}
use icecap.Gic.Distributor.{new, reset}
use icecap.Gic.Distributor.Lines.{set_pending, should_inject, get_priority, is_gic_enabled}
use icecap.Gic.Distributor.WellFormed.Reset.{fresh}
use icecap.Gic.Controller.{
  create, forward_irq, forward_to_slot, first_empty, inject_irq, handle_irq,
}
use icecap.Gic.Controller.Valid.{IsValid}
use icecap.Vmm.{
  IrqMap, UnknownSyscall, Monitor, Vmm, NodeEvent, unknown_syscall, vcpu_fault, event_bit_groups,
}
use icecap.Vmm.Fault.{VmFault}
use icecap.Vmm.Node.{step, run, boot, handle_syscall, sys_psci, handle_bits}
use icecap.Vmm.Valid.{run-IsValid}
use icecap.Vmm.Once.{IsCpuOn, cpu_on-once}

abbrev monitor : Monitor ℕ
monitor = record {
  end_event = λ w node nid in_index. ok (suc w);
  configure_event = λ w node nid in_index action. ok (suc w);
  ack_vppi = λ w node irq. ok (suc w);
  inject_irq = λ w node irq priority lr. ok (suc w);
  read_gpr = λ w node gpr. 0;
  write_gpr = λ w node gpr val. suc w;
  advance = λ w node. suc w;
  clear_bits = λ w node groups. (5 ∷ [], suc w);
  reply = λ w node. suc w;
  return_value = λ w node value. suc w;
  start_node = λ w target entry ctx_id. ok (suc w);
  extension_wf = λ w node. ok (suc w);
  extension_syscall = λ w node fault. ok (suc w);
  extension_putchar = λ w node c. ok (suc w);
}

-- The private interrupt 27 is that of index 5 at the event server.
abbrev irq_map : IrqMap
irq_map = record { ppi_map = (27, (5, true)) ∷ []; spi_map = [] }

-- CPU_ON for node 1.
abbrev start_call : UnknownSyscall
start_call = record { syscall = 0; x0 = 0xC4000003; x1 = 1; x2 = 4096; x3 = 7 }

start_call-IsCpuOn : IsCpuOn 1 start_call
start_call-IsCpuOn = record { psci = refl; parsed = refl }

abbrev events : List (ℕ × NodeEvent)
events = (1, vcpu_fault 0x4000000) ∷ (0, event_bit_groups 1) ∷ []

-- The world after `w` calls; one bit of `pending0` is 27, if it has come.
abbrev monitor_of : ℕ → ℕ → List Bool → Vmm ℕ
monitor_of w pending waiting = record {
  gic = record {
    num_nodes = 2;
    callbacks = record { irq_map = irq_map; world = w };
    dist = record (fresh 2) { pending0 = pending ∷ 0 ∷ [] };
    lrs = replicate 2 (record { mirror = replicate 4 none; overflow = [] });
  };
  waiting = waiting;
  gic_dist_paddr = 0x8000000;
}

boot_result : boot monitor 2 irq_map 0 0x8000000 ≡ ok (monitor_of 0 0 (false ∷ true ∷ []))
unfolding boot create new reset
boot_result = refl

start_result :
    step monitor (monitor_of 0 0 (false ∷ true ∷ [])) 0 (unknown_syscall start_call)
    ≡ ok (monitor_of 2 0 (false ∷ false ∷ []))
unfolding step handle_syscall sys_psci
start_result = refl

run_result :
    run monitor (monitor_of 2 0 (false ∷ false ∷ [])) events
    ≡ ok (monitor_of 4 (2 ^ 27) (false ∷ false ∷ []))
unfolding run step handle_bits handle_irq forward_irq forward_to_slot first_empty inject_irq
    set_pending should_inject get_priority is_gic_enabled
run_result = refl

all_result :
    (boot monitor 2 irq_map 0 0x8000000 >>= λ v.
    run monitor v ((0, unknown_syscall start_call) ∷ events))
    ≡ ok (monitor_of 4 (2 ^ 27) (false ∷ false ∷ []))
unfolding run step handle_syscall sys_psci handle_bits handle_irq forward_irq forward_to_slot
    first_empty inject_irq set_pending should_inject get_priority is_gic_enabled boot create new
    reset
all_result = refl

run-IsValid_example : IsValid (monitor_of 4 (2 ^ 27) (false ∷ false ∷ [])).gic
run-IsValid_example =
    run-IsValid monitor 2 irq_map 0 0x8000000 ((0, unknown_syscall start_call) ∷ events)
      (omega arith) all_result

cpu_on-once_example :
    step monitor (monitor_of 4 (2 ^ 27) (false ∷ false ∷ [])) 1 (unknown_syscall start_call) ≡ panic
cpu_on-once_example =
    cpu_on-once monitor 1 (monitor_of 0 0 (false ∷ true ∷ [])) start_call start_call 0 1 events
      start_call-IsCpuOn start_call-IsCpuOn start_result run_result

-- A load of two bytes into register 3.
abbrev load : VmFault
load = record { addr = 0x8000100; fsr = 0x1430000 }
