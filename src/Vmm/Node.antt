-- ===== src/Vmm/Node.antt =====
-- vmm.rs: the monitor as GICCallbacks, and the steps of a node.
use icecap.Base.{
  ℕ, ◌%◌, ◌^◌, ◌==◌, if◌then◌else◌, Bool, true, false, List, [], ◌∷◌, set, some, none, Outcome, ok,
  panic, ◌>>=◌, ◌>>◌, assert, unwrap, index, lookup, replicate,
}
use icecap.Gic.Error.{IrqError}
use icecap.Gic.Controller.{
  QualifiedIrq, qualified_ppi, spi, Callbacks, Gic, create, handle_irq, handle_maintenance, read,
  write,
}
use icecap.EventServer.{ConfigureAction, set_enabled, set_priority}
use icecap.Vmm.Fault.{
  VmFault, is_valid, is_aligned, is_write, is_read, fault_width, fault_data, emulate_read, is_wf,
}
use icecap.Vmm.{
  IrqMap, UnknownSyscall, Monitor, VmmCallbacks, Vmm, NodeEvent, vm_fault, unknown_syscall,
  vgic_maintenance, vcpu_fault, vppi_event, event_bit_groups, PsciCall, version, features, cpu_on,
  migrate_info_type, parse, not_supported, offset_in_region, find_ppi, find_spi,
}

module _ {W : Type 0} (monitor : Monitor W) where
  abbrev Back : Type 0
  Back = VmmCallbacks W

  abbrev with_world : Back → Outcome IrqError W → Outcome IrqError Back
  with_world t m = m >>= λ w. ok (record t { world = w })

  -- `if *must_ack { … End … }`
  abbrev end_if : Back → Bool → ℕ → ℕ → ℕ → Outcome IrqError Back
  end_if t false calling_node nid in_index = ok t
  end_if t true calling_node nid in_index =
      with_world t (monitor.end_event t.world calling_node nid in_index)

  abbrev ack_irq : Back → ℕ → QualifiedIrq → Outcome IrqError Back
  ack_irq t calling_node (qualified_ppi node irq) = elim (lookup irq t.irq_map.ppi_map) [
    | some entry ↦ end_if t entry.1 calling_node calling_node entry.0
    | none ↦ with_world t (monitor.ack_vppi t.world node irq)
  ]
  ack_irq t calling_node (spi irq) = elim (lookup irq t.irq_map.spi_map) [
    | some entry ↦ end_if t entry.2 calling_node entry.1 entry.0
    | none ↦ ok t
  ]

  -- `irq as u16`, `priority as u8`, `index as u8`
  abbrev vcpu_inject_irq : Back → ℕ → ℕ → ℕ → ℕ → ℕ → Outcome IrqError Back
  vcpu_inject_irq t calling_node target_node lr irq priority =
      with_world t
        (monitor.inject_irq t.world target_node (irq % 2 ^ 16) (priority % 2 ^ 8) (lr % 2 ^ 8))

  abbrev configure : Back → ℕ → QualifiedIrq → ConfigureAction → Outcome IrqError Back
  configure t calling_node (qualified_ppi node irq) action = elim (lookup irq t.irq_map.ppi_map) [
    | some entry ↦
        with_world t (monitor.configure_event t.world calling_node calling_node entry.0 action)
    | none ↦ with_world t (monitor.ack_vppi t.world node irq)
  ]
  configure t calling_node (spi irq) action = elim (lookup irq t.irq_map.spi_map) [
    | some entry ↦
        with_world t (monitor.configure_event t.world calling_node entry.1 entry.0 action)
    | none ↦ panic
  ]

  -- `impl GICCallbacks for VMMGICCallbacks`
  abbrev pub callbacks : Callbacks Back
  callbacks = record {
    ack_irq = ack_irq;
    vcpu_inject_irq = vcpu_inject_irq;
    set_affinity = λ t calling_node irq affinity. ok t;
    set_priority =
        λ t calling_node irq priority. configure t calling_node irq (set_priority priority);
    set_enabled = λ t calling_node irq enabled. configure t calling_node irq (set_enabled enabled);
  }

  abbrev world_of : Vmm W → W
  world_of v = v.gic.callbacks.world

  abbrev pub put_world : Vmm W → W → Vmm W
  put_world v w = record v {
    gic = record v.gic { callbacks = record v.gic.callbacks { world = w } };
  }

  abbrev pub put_gic : Vmm W → Gic Back → Vmm W
  put_gic v g = record v { gic = g }

  abbrev replied : Vmm W → ℕ → Vmm W
  replied v node_index = put_world v (monitor.reply (world_of v) node_index)

  -- The two branches of `handle_gic_distributor_fault`, for a write and for what is left.
  abbrev pub access : Vmm W → ℕ → VmFault → ℕ → Bool → Outcome IrqError (Vmm W)
  access v node_index fault offset true = do
    val ← fault_data fault (monitor.read_gpr (world_of v) node_index)
    g ← write callbacks v.gic node_index offset val
    let v' = put_gic v g
    ok (put_world v' (monitor.advance (world_of v') node_index))
  access v node_index fault offset false = do
    for_read ← is_read fault
    assert for_read
    width ← fault_width fault
    val ← read callbacks v.gic node_index offset width
    gpr ← emulate_read fault (monitor.read_gpr (world_of v) node_index) val
    let w = monitor.write_gpr (world_of v) node_index gpr.0 gpr.1
    ok (put_world v (monitor.advance w node_index))

  abbrev handle_gic_distributor_fault : Vmm W → ℕ → VmFault → ℕ → Outcome IrqError (Vmm W)
  handle_gic_distributor_fault v node_index fault offset = do
    assert (is_valid fault)
    aligned ← is_aligned fault
    assert aligned
    written ← is_write fault
    access v node_index fault offset written

  unfoldable pub handle_page_fault : Vmm W → ℕ → VmFault → Outcome IrqError (Vmm W)
  handle_page_fault v node_index fault = do
    offset ← unwrap (offset_in_region fault.addr v.gic_dist_paddr 4096)
    handle_gic_distributor_fault v node_index fault offset

  -- The node that is taken out of `nodes`, which has to be there.
  abbrev pub psci_result : Vmm W → PsciCall → Outcome IrqError (ℕ × Vmm W)
  psci_result v version = ok (0x00010001, v)
  psci_result v (features qfid) = ok (if qfid == 0xC4000003 then 0 else not_supported, v)
  psci_result v (cpu_on target entry ctx_id) = do
    waits ← index v.waiting target
    assert waits
    w ← monitor.start_node (world_of v) target entry ctx_id
    ok (0, record (put_world v w) { waiting = set v.waiting target false })
  psci_result v migrate_info_type = ok (not_supported, v)

  unfoldable pub sys_psci : Vmm W → ℕ → UnknownSyscall → Outcome IrqError (Vmm W)
  sys_psci v node_index fault = do
    call ← parse fault
    r ← psci_result v call
    ok (put_world r.1 (monitor.return_value (world_of r.1) node_index r.0))

  unfoldable pub handle_syscall : Vmm W → ℕ → UnknownSyscall → Outcome IrqError (Vmm W)
  unfolding sys_psci
  handle_syscall v node_index fault =
      let putchar = monitor.extension_putchar (world_of v) node_index (fault.x0 % 2 ^ 8) >>= λ w.
      ok (put_world v (monitor.advance w node_index)) in
      let other =
        monitor.extension_syscall (world_of v) node_index fault >>= λ w. ok (put_world v w) in
      if fault.syscall == 0
      then sys_psci v node_index fault
      else if fault.syscall == 1337
      then putchar
      else other

  -- The interrupt of an index at the event server, a private one of this node first.
  abbrev pub irq_of : IrqMap → ℕ → ℕ → Outcome IrqError QualifiedIrq
  irq_of irq_map node_index in_index = elim (find_ppi in_index irq_map.ppi_map) [
    | some ppi ↦ ok (qualified_ppi node_index ppi)
    | none ↦ find_spi node_index in_index irq_map.spi_map >>= λ found.
        unwrap found >>= λ irq. ok (spi irq)
  ]

  -- The closure of `clear`, for one bit after the other.
  unfoldable pub handle_bits : Gic Back → ℕ → List ℕ → Outcome IrqError (Gic Back)
  handle_bits g node_index [] = ok g
  handle_bits g node_index (bit ∷ bits) = do
    irq ← irq_of g.callbacks.irq_map node_index bit
    g' ← handle_irq callbacks g node_index irq
    handle_bits g' node_index bits

  -- One turn of the loop of `run`.
  unfoldable pub step : Vmm W → ℕ → NodeEvent → Outcome IrqError (Vmm W)
  unfolding handle_page_fault handle_syscall handle_bits
  step v node_index (vm_fault fault) =
      handle_page_fault v node_index fault >>= λ v'. ok (replied v' node_index)
  step v node_index (unknown_syscall fault) = handle_syscall v node_index fault
  step v node_index (vgic_maintenance idx) = do
    i ← unwrap idx
    g ← handle_maintenance callbacks v.gic node_index i
    ok (replied (put_gic v g) node_index)
  step v node_index (vcpu_fault hsr) = do
    assert (is_wf hsr)
    w ← monitor.extension_wf (world_of v) node_index
    ok (put_world v w)
  step v node_index (vppi_event irq) = do
    g ← handle_irq callbacks v.gic node_index (qualified_ppi node_index irq)
    ok (replied (put_gic v g) node_index)
  step v node_index (event_bit_groups groups) = do
    let c = monitor.clear_bits (world_of v) node_index groups
    g ← handle_bits (put_world v c.1).gic node_index c.0
    ok (put_gic v g)

  unfoldable pub run : Vmm W → List (ℕ × NodeEvent) → Outcome IrqError (Vmm W)
  unfolding step
  run v [] = ok v
  run v ((node_index, event) ∷ events) = do v' ← step v node_index event; run v' events

  -- `VMMConfig::run`: the controller, the nodes, and the first of them that runs on this thread.
  unfoldable pub boot : ℕ → IrqMap → W → ℕ → Outcome IrqError (Vmm W)
  boot n irq_map w gic_dist_paddr = do
    g ← create n (record { irq_map = irq_map; world = w })
    let nodes = replicate n true
    this ← index nodes 0
    ok (record { gic = g; waiting = set nodes 0 false; gic_dist_paddr = gic_dist_paddr })
