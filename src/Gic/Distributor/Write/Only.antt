-- ===== src/Gic/Distributor/Write/Only.antt =====
-- distributor/mod.rs, `handle_write`: the fields that a write at each offset reaches.
use icecap.Base.{ℕ, ◌≡◌, ok, fails, panics, Ensures-bind, Ensures-self, Ensures-ok, Ensures-map}
use icecap.Gic.Error.{VmFaultData}
use icecap.Gic.Registers.{
  GicDistRegWord, GicDistRegByte, gicd_ctlr, gicd_typer, gicd_iidr, gicd_sgir, gicd_igroupr,
  gicd_isenabler, gicd_icenabler, gicd_ispendr, gicd_icpendr, gicd_isactiver, gicd_icactiver,
  gicd_icfgr, gicd_nsacr, iccidr, icpidr, from_offset, from_offset_byte,
}
use icecap.Gic.Distributor.{Distributor, WriteAction}
use icecap.Gic.Distributor.Dispatch.{write_word, write_byte, handle_write}
use icecap.Gic.Distributor.Write.Frame.{Frame, with_register, with_targets}
use icecap.Gic.Distributor.Write.Arms.{
  write_ctlr-Frame, write_igroupr-Frame, write_isenabler-Frame, write_icenabler-Frame,
  write_ispendr-Frame, write_icpendr-Frame, write_isactiver-Frame, write_icactiver-Frame,
  write_ipriorityr-Frame, write_icfgr-Frame, write_sgir-Frame, write_cpendsgir-Frame,
  write_spendsgir-Frame, write_targets-Frame,
}

write_word-Frame :
    (d : Distributor) (node val : ℕ) (reg : GicDistRegWord)
    → Frame (with_register reg) d (write_word d node val reg)
unfolding write_word
write_word-Frame d node val gicd_ctlr = write_ctlr-Frame d node 0 val
write_word-Frame d node val gicd_iidr = fails
write_word-Frame d node val gicd_typer = fails
write_word-Frame d node val (gicd_igroupr n) = write_igroupr-Frame d node n val
write_word-Frame d node val (gicd_isenabler n) = write_isenabler-Frame d node n val
write_word-Frame d node val (gicd_icenabler n) = write_icenabler-Frame d node n val
write_word-Frame d node val (gicd_ispendr n) = write_ispendr-Frame d node n val
write_word-Frame d node val (gicd_icpendr n) = write_icpendr-Frame d node n val
write_word-Frame d node val (gicd_isactiver n) = write_isactiver-Frame d node n val
write_word-Frame d node val (gicd_icactiver n) = write_icactiver-Frame d node n val
write_word-Frame d node val (GicDistRegWord.gicd_ipriorityr n) = write_ipriorityr-Frame d node n val
write_word-Frame d node val (GicDistRegWord.gicd_itargetsr n) = write_targets-Frame d n _ val
write_word-Frame d node val (gicd_icfgr n) = write_icfgr-Frame d node n val
write_word-Frame d node val (gicd_nsacr n) = fails
write_word-Frame d node val gicd_sgir = write_sgir-Frame d node 0 val
write_word-Frame d node val (GicDistRegWord.gicd_cpendsgir n) = write_cpendsgir-Frame d node n val
write_word-Frame d node val (GicDistRegWord.gicd_spendsgir n) = write_spendsgir-Frame d node n val
write_word-Frame d node val (icpidr n) = fails
write_word-Frame d node val (iccidr n) = fails

write_byte-Frame :
    (d : Distributor) (val : ℕ) (reg : GicDistRegByte) → Frame with_targets d (write_byte d val reg)
unfolding write_byte
write_byte-Frame d val (GicDistRegByte.gicd_itargetsr n b) = write_targets-Frame d n _ _
write_byte-Frame d val (GicDistRegByte.gicd_ipriorityr n b) = panics
write_byte-Frame d val (GicDistRegByte.gicd_cpendsgir n b) = panics
write_byte-Frame d val (GicDistRegByte.gicd_spendsgir n b) = panics

-- What a write at an offset may change: a word the fields of the register there, a byte the targets of
-- shared interrupts.
abbrev pub IsWithin : ℕ → VmFaultData → Distributor → Distributor → Type 0
IsWithin offset (VmFaultData.word val) d d' =
    (reg : GicDistRegWord) × (from_offset offset ≡ ok reg) × (d' ≡ with_register reg d d')
IsWithin offset (VmFaultData.byte val) d d' = d' ≡ with_targets d d'
IsWithin offset (VmFaultData.half_word val) d d' = ⊥
IsWithin offset (VmFaultData.double_word val) d d' = ⊥

-- Whatever a guest writes, and in whatever state: if a write returns, it is of a word or a byte. A word
-- changes only the fields that hold the register of its offset, for the software-generated interrupts
-- with their pending bits, and no register that is read only; a byte changes only the targets of shared
-- interrupts. All else of the distributor, its number of nodes too, is as it was.
pub handle_write-IsWithin :
    (d : Distributor) (offset node : ℕ) (val : VmFaultData) {w : WriteAction × Distributor}
    → handle_write d offset node val ≡ ok w
    → IsWithin offset val d w.1
unfolding handle_write
handle_write-IsWithin d offset node (VmFaultData.word val) e =
    Ensures-ok (λ w. IsWithin offset (VmFaultData.word val) d w.1)
      (Ensures-bind (Ensures-self (from_offset offset))
        (λ reg at. Ensures-map (λ w h. (reg, at, h)) (write_word-Frame d node val reg)))
      e
handle_write-IsWithin d offset node (VmFaultData.byte val) e =
    Ensures-ok (λ w. IsWithin offset (VmFaultData.byte val) d w.1)
      (Ensures-bind (Ensures-self (from_offset_byte offset)) (λ reg at. write_byte-Frame d val reg))
      e
handle_write-IsWithin d offset node (VmFaultData.half_word val) e = cc
handle_write-IsWithin d offset node (VmFaultData.double_word val) e = cc
