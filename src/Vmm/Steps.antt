-- ===== src/Vmm/Steps.antt =====
-- vmm.rs, the loop of a node: a rule for what holds of the monitor whenever a node waits for its next
-- message, from what the calls of the controller, a change of the world and the start of a node keep.
use icecap.Base.{
  ℕ, ◌==◌, ◌%◌, ◌^◌, Bool, true, false, List, [], ◌∷◌, set, Outcome, assert, unwrap, index, Ensures,
  returns, Ensures-bind, Ensures-then, Ensures-if,
}
use icecap.Gic.Error.{IrqError, VmFaultData}
use icecap.Gic.Controller.{
  qualified_ppi, Gic, handle_irq, handle_maintenance, read, write, QualifiedIrq,
}
use icecap.Vmm.Fault.{
  VmFault, is_valid, is_aligned, is_write, is_read, fault_width, fault_data, emulate_read, is_wf,
}
use icecap.Vmm.{
  UnknownSyscall, Monitor, VmmCallbacks, Vmm, NodeEvent, vm_fault, unknown_syscall,
  vgic_maintenance, vcpu_fault, vppi_event, event_bit_groups, PsciCall, version, features, cpu_on,
  migrate_info_type, parse, offset_in_region,
}
use icecap.Vmm.Node.{
  callbacks, put_world, put_gic, access, handle_page_fault, psci_result, sys_psci, handle_syscall,
  irq_of, handle_bits, step, run,
}

module _ {W : Type 0} (monitor : Monitor W) where
  abbrev AfterGic : (Vmm W → Type 0) → Vmm W → Outcome IrqError (Gic (VmmCallbacks W)) → Type 0
  AfterGic P v = Ensures (λ g. P (put_gic monitor v g))

  pub record IsKept (P : Vmm W → Type 0) : Type 1 where
    pub world : (v : Vmm W) (w : W) → P v → P (put_world monitor v w)
    pub irq :
        (v : Vmm W) (node : ℕ) (irq : QualifiedIrq)
        → P v
        → AfterGic P v (handle_irq (callbacks monitor) v.gic node irq)
    pub maintenance :
        (v : Vmm W) (node i : ℕ)
        → P v
        → AfterGic P v (handle_maintenance (callbacks monitor) v.gic node i)
    pub written :
        (v : Vmm W) (node offset : ℕ) (val : VmFaultData)
        → P v
        → AfterGic P v (write (callbacks monitor) v.gic node offset val)
    pub started :
        (v : Vmm W) (target : ℕ) → P v → P (record v { waiting = set v.waiting target false })

module _ {W : Type 0} (monitor : Monitor W) {P : Vmm W → Type 0} (kept : IsKept monitor P) where
  abbrev Keeps : Outcome IrqError (Vmm W) → Type 0
  Keeps = Ensures P

  handle_bits-Keeps :
      (v : Vmm W) (node_index : ℕ) (bits : List ℕ)
      → P v
      → AfterGic monitor P v (handle_bits monitor v.gic node_index bits)
  unfolding handle_bits
  handle_bits-Keeps v node_index [] h = returns h
  handle_bits-Keeps v node_index (bit ∷ bits) h =
      Ensures-then (irq_of monitor v.gic.callbacks.irq_map node_index bit) λ irq.
        Ensures-bind (kept.irq v node_index irq h)
          λ g' h'. handle_bits-Keeps (put_gic monitor v g') node_index bits h'

  access-Keeps :
      (v : Vmm W) (node_index : ℕ) (fault : VmFault) (offset : ℕ) (written : Bool)
      → P v
      → Keeps (access monitor v node_index fault offset written)
  access-Keeps v node_index fault offset true h =
      Ensures-then (fault_data fault (monitor.read_gpr v.gic.callbacks.world node_index)) λ val.
        Ensures-bind (kept.written v node_index offset val h) λ g h'.
          returns
            (kept.world (put_gic monitor v g) (monitor.advance g.callbacks.world node_index) h')
  access-Keeps v node_index fault offset false h = Ensures-then (is_read fault) λ for_read.
      Ensures-then (assert for_read) λ _. Ensures-then (fault_width fault) λ width.
        Ensures-then (read (callbacks monitor) v.gic node_index offset width) λ val.
          Ensures-then (emulate_read fault (monitor.read_gpr v.gic.callbacks.world node_index) val)
            λ gpr. returns (kept.world v _ h)

  handle_page_fault-Keeps :
      (v : Vmm W) (node_index : ℕ) (fault : VmFault)
      → P v
      → Keeps (handle_page_fault monitor v node_index fault)
  unfolding handle_page_fault
  handle_page_fault-Keeps v node_index fault h =
      Ensures-then (unwrap (offset_in_region fault.addr v.gic_dist_paddr 4096)) λ offset.
        Ensures-then (assert (is_valid fault)) λ _. Ensures-then (is_aligned fault) λ aligned.
          Ensures-then (assert aligned) λ _.
            Ensures-then (is_write fault)
              λ written. access-Keeps v node_index fault offset written h

  psci_result-Keeps :
      (v : Vmm W) (call : PsciCall)
      → P v
      → Ensures (λ (r : ℕ × Vmm W). P r.1) (psci_result monitor v call)
  psci_result-Keeps v version h = returns h
  psci_result-Keeps v (features qfid) h = returns h
  psci_result-Keeps v (cpu_on target entry ctx_id) h =
      Ensures-then (index v.waiting target) λ waits. Ensures-then (assert waits) λ _.
        Ensures-then (monitor.start_node v.gic.callbacks.world target entry ctx_id)
          λ w. returns (kept.started (put_world monitor v w) target (kept.world v w h))
  psci_result-Keeps v migrate_info_type h = returns h

  sys_psci-Keeps :
      (v : Vmm W) (node_index : ℕ) (fault : UnknownSyscall)
      → P v
      → Keeps (sys_psci monitor v node_index fault)
  unfolding sys_psci
  sys_psci-Keeps v node_index fault h =
      Ensures-then (parse fault)
        λ call. Ensures-bind (psci_result-Keeps v call h) λ r h'. returns (kept.world r.1 _ h')

  handle_syscall-Keeps :
      (v : Vmm W) (node_index : ℕ) (fault : UnknownSyscall)
      → P v
      → Keeps (handle_syscall monitor v node_index fault)
  unfolding handle_syscall
  handle_syscall-Keeps v node_index fault h =
      Ensures-if (fault.syscall == 0) (sys_psci-Keeps v node_index fault h) (
        Ensures-if (fault.syscall == 1337)
          (Ensures-then
            (monitor.extension_putchar v.gic.callbacks.world node_index (fault.x0 % 2 ^ 8))
            λ w. returns (kept.world v _ h))
          (Ensures-then (monitor.extension_syscall v.gic.callbacks.world node_index fault)
            λ w. returns (kept.world v w h)))

  step-Keeps :
      (v : Vmm W) (node_index : ℕ) (event : NodeEvent)
      → P v
      → Keeps (step monitor v node_index event)
  unfolding step
  step-Keeps v node_index (vm_fault fault) h =
      Ensures-bind (handle_page_fault-Keeps v node_index fault h)
        λ v' h'. returns (kept.world v' _ h')
  step-Keeps v node_index (unknown_syscall fault) h = handle_syscall-Keeps v node_index fault h
  step-Keeps v node_index (vgic_maintenance idx) h = Ensures-then (unwrap idx) λ i.
      Ensures-bind (kept.maintenance v node_index i h)
        λ g h'. returns (kept.world (put_gic monitor v g) _ h')
  step-Keeps v node_index (vcpu_fault hsr) h = Ensures-then (assert (is_wf hsr)) λ _.
      Ensures-then (monitor.extension_wf v.gic.callbacks.world node_index)
        λ w. returns (kept.world v w h)
  step-Keeps v node_index (vppi_event irq) h =
      Ensures-bind (kept.irq v node_index (qualified_ppi node_index irq) h)
        λ g h'. returns (kept.world (put_gic monitor v g) _ h')
  step-Keeps v node_index (event_bit_groups groups) h =
      let c = monitor.clear_bits v.gic.callbacks.world node_index groups in
      Ensures-bind (handle_bits-Keeps (put_world monitor v c.1) node_index c.0 (kept.world v c.1 h))
        λ g h'. returns h'

  pub run-Keeps : (v : Vmm W) (events : List (ℕ × NodeEvent)) → P v → Keeps (run monitor v events)
  unfolding run
  run-Keeps v [] h = returns h
  run-Keeps v ((node_index, event) ∷ events) h =
      Ensures-bind (step-Keeps v node_index event h) λ v' h'. run-Keeps v' events h'
