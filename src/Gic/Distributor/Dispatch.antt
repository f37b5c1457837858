-- ===== src/Gic/Distributor/Dispatch.antt =====
-- distributor/mod.rs: `handle_write`, the choice of the arm.
use icecap.Base.{ℕ, ◌*◌, err, panic, ◌>>=◌}
use icecap.Gic.Error.{invalid_register_write, VmFaultData}
use icecap.Gic.Register32.{swap, set_byte, shl32}
use icecap.Gic.Registers.{
  GicDistRegWord, GicDistRegByte, gicd_ctlr, gicd_typer, gicd_iidr, gicd_sgir, gicd_igroupr,
  gicd_isenabler, gicd_icenabler, gicd_ispendr, gicd_icpendr, gicd_isactiver, gicd_icactiver,
  gicd_icfgr, gicd_nsacr, iccidr, icpidr, from_offset, from_offset_byte,
}
use icecap.Gic.Distributor.{Distributor}
use icecap.Gic.Distributor.Write.{
  Written, write_ctlr, write_igroupr, write_isenabler, write_icenabler, write_ispendr,
  write_icpendr, write_isactiver, write_icactiver, write_ipriorityr, write_targets, write_icfgr,
}
use icecap.Gic.Distributor.Sgi.{write_sgir, write_cpendsgir, write_spendsgir}

unfoldable pub write_word : Distributor → ℕ → ℕ → GicDistRegWord → Written
write_word d node val gicd_ctlr = write_ctlr d val
write_word d node val gicd_iidr = err invalid_register_write
write_word d node val gicd_typer = err invalid_register_write
write_word d node val (gicd_igroupr n) = write_igroupr d node n val
write_word d node val (gicd_isenabler n) = write_isenabler d node n val
write_word d node val (gicd_icenabler n) = write_icenabler d node n val
write_word d node val (gicd_ispendr n) = write_ispendr d node n val
write_word d node val (gicd_icpendr n) = write_icpendr d node n val
write_word d node val (gicd_isactiver n) = write_isactiver d node n val
write_word d node val (gicd_icactiver n) = write_icactiver d node n val
write_word d node val (GicDistRegWord.gicd_ipriorityr n) = write_ipriorityr d node n val
write_word d node val (GicDistRegWord.gicd_itargetsr n) = write_targets d n (swap val) val
write_word d node val (gicd_icfgr n) = write_icfgr d node n val
write_word d node val (gicd_nsacr n) = err invalid_register_write
write_word d node val gicd_sgir = write_sgir d node val
write_word d node val (GicDistRegWord.gicd_cpendsgir n) = write_cpendsgir d node n val
write_word d node val (GicDistRegWord.gicd_spendsgir n) = write_spendsgir d node n val
write_word d node val (icpidr n) = err invalid_register_write
write_word d node val (iccidr n) = err invalid_register_write

unfoldable pub write_byte : Distributor → ℕ → GicDistRegByte → Written
write_byte d val (GicDistRegByte.gicd_itargetsr n b) =
    write_targets d n (set_byte b val) (shl32 val (b * 8))
write_byte d val (GicDistRegByte.gicd_ipriorityr n b) = panic
write_byte d val (GicDistRegByte.gicd_cpendsgir n b) = panic
write_byte d val (GicDistRegByte.gicd_spendsgir n b) = panic

-- `handle_write`
unfoldable pub handle_write : Distributor → ℕ → ℕ → VmFaultData → Written
handle_write d offset node_index (VmFaultData.word val) =
    from_offset offset >>= λ reg. write_word d node_index val reg
handle_write d offset node_index (VmFaultData.byte val) =
    from_offset_byte offset >>= λ reg. write_byte d val reg
handle_write d offset node_index (VmFaultData.half_word val) = panic
handle_write d offset node_index (VmFaultData.double_word val) = panic
