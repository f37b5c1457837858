-- ===== src/Gic/Distributor/Read.antt =====
-- distributor/mod.rs: `handle_read`, which only loads registers.
use icecap.Base.{
  ℕ, ◌-◌, ltb, ◌==◌, if◌then◌else◌, List, Outcome, ok, err, panic, ◌>>=◌, index, index_in,
}
use icecap.Gic.Error.{IrqError, invalid_register_read, VmFaultWidth, VmFaultData}
use icecap.Gic.Register32.{load}
use icecap.Gic.Registers.{
  GicDistRegWord, gicd_ctlr, gicd_typer, gicd_iidr, gicd_sgir, gicd_igroupr, gicd_isenabler,
  gicd_icenabler, gicd_ispendr, gicd_icpendr, gicd_isactiver, gicd_icactiver, gicd_icfgr,
  gicd_nsacr, iccidr, icpidr, from_offset, from_offset_byte,
}
use icecap.Gic.Distributor.{Distributor, ReadAction}

-- `if reg_num == 0 { &self.x0[node_index] } else { &self.x[reg_num - 1] }`
abbrev banked : List ℕ → List ℕ → ℕ → ℕ → Outcome IrqError ℕ
banked bank shared node_index reg_num =
    if reg_num == 0 then index bank node_index else index shared (reg_num - 1)

-- The register of a readable word, or the error of one that cannot be read. The set-enable and the
-- clear-enable registers are read at `self.enable[reg_num]`.
read_word : Distributor → ℕ → GicDistRegWord → Outcome IrqError ℕ
read_word d node gicd_ctlr = ok (load d.control)
read_word d node gicd_typer = ok (load d.ic_type)
read_word d node gicd_iidr = ok (load d.dist_ident)
read_word d node (gicd_igroupr n) = banked d.irq_group0 d.irq_group node n
read_word d node (gicd_isenabler n) = if n == 0 then index d.enable0 node else index d.enable n
read_word d node (gicd_icenabler n) = if n == 0 then index d.enable0 node else index d.enable n
read_word d node (gicd_ispendr n) = banked d.pending0 d.pending node n
read_word d node (gicd_icpendr n) = banked d.pending0 d.pending node n
read_word d node (gicd_isactiver n) = banked d.active0 d.active node n
read_word d node (gicd_icactiver n) = banked d.active0 d.active node n
read_word d node (GicDistRegWord.gicd_ipriorityr n) =
    if ltb n 8 then index_in d.priority0 node n else index d.priority (n - 8)
read_word d node (GicDistRegWord.gicd_itargetsr n) =
    if ltb n 8 then index_in d.targets0 node n else index d.targets (n - 8)
read_word d node (gicd_icfgr n) =
    if n == 0 then ok d.config0 else if n == 1 then index d.config1 node else index d.config (n - 2)
read_word d node (gicd_nsacr n) = err invalid_register_read
read_word d node gicd_sgir = err invalid_register_read
read_word d node (GicDistRegWord.gicd_cpendsgir n) = index_in d.sgi_pending node n
read_word d node (GicDistRegWord.gicd_spendsgir n) = index_in d.sgi_pending node n
read_word d node (icpidr n) = index d.periph_id n
read_word d node (iccidr n) = index d.component_id n

-- `handle_read`. A byte read decodes its register for the text of the panic.
pub handle_read : Distributor → ℕ → ℕ → VmFaultWidth → Outcome IrqError (VmFaultData × ReadAction)
handle_read d offset node_index VmFaultWidth.word = do
  reg ← from_offset offset
  val ← read_word d node_index reg
  ok (VmFaultData.word val, ReadAction.no_action)
handle_read d offset node_index VmFaultWidth.byte = from_offset_byte offset >>= λ _. panic
handle_read d offset node_index VmFaultWidth.half_word = panic
handle_read d offset node_index VmFaultWidth.double_word = panic
