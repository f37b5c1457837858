-- ===== src/Gic/Distributor/WellFormed/Handle.antt =====
-- distributor/mod.rs, `handle_write` as a whole: the shape of the banks.
use icecap.Base.{
  ℕ, zero, suc, ◌*◌, ltb, ◌==◌, ◌≡◌, List, [], ◌∷◌, Outcome, ok, Ensures, returns, fails, panics,
  Ensures-bind, Ensures-then, Ensures-if, Ensures-expect, Ensures-ok, assert, bit_and,
}
use icecap.Biterate.{biterate}
use icecap.Gic.Error.{IrqError, VmFaultData}
use icecap.Gic.Register32.{shl32}
use icecap.Gic.Registers.{
  GicDistRegWord, GicDistRegByte, gicd_ctlr, gicd_typer, gicd_iidr, gicd_sgir, gicd_igroupr,
  gicd_isenabler, gicd_icenabler, gicd_ispendr, gicd_icpendr, gicd_isactiver, gicd_icactiver,
  gicd_icfgr, gicd_nsacr, iccidr, icpidr, from_offset, from_offset_byte,
}
use icecap.Gic.Distributor.{Distributor, WriteAction}
use icecap.Gic.Distributor.Lines.{should_inject}
use icecap.Gic.Distributor.WellFormed.{IsWellFormed}
use icecap.Gic.Distributor.WellFormed.Banks.{
  set_pending-IsWellFormed, clear_pending-IsWellFormed, modify_sgi-IsWellFormed,
}
use icecap.Gic.Distributor.WellFormed.Writes.{
  KeepsShape, inject_only-KeepsShape, sweep_inject-KeepsShape, write_ctlr-KeepsShape,
  write_igroupr-KeepsShape, write_isenabler-KeepsShape, write_icenabler-KeepsShape,
  write_ispendr-KeepsShape, write_icpendr-KeepsShape, write_isactiver-KeepsShape,
  write_icactiver-KeepsShape, write_ipriorityr-KeepsShape, write_targets-KeepsShape,
  write_icfgr-KeepsShape,
}
use icecap.Gic.Distributor.Sgi.{
  forward_sgi, forward_to, sgi_int_id, cpu_target_list, target_list_filter, all_but, write_sgir,
  mask_loop, clear_if_idle, set_if_new, write_cpendsgir, write_spendsgir,
}
use icecap.Gic.Distributor.Write.{quiet}
use icecap.Base.Bits.{not32}
use icecap.Gic.Distributor.Dispatch.{write_word, write_byte, handle_write}

forward_sgi-IsWellFormed :
    {d : Distributor} (irq : ℕ) (cpus : List ℕ)
    → IsWellFormed d
    → Ensures (λ w. IsWellFormed w.1) (forward_sgi d irq cpus)
unfolding forward_sgi
forward_sgi-IsWellFormed irq [] v = returns v
forward_sgi-IsWellFormed irq (cpu ∷ cpus) v =
    Ensures-bind (Ensures-expect (set_pending-IsWellFormed v irq cpu)) (λ d' h.
      Ensures-then (should_inject d' irq cpu)
        (λ hit. Ensures-bind (forward_sgi-IsWellFormed irq cpus h) (λ rest k. returns k)))

forward_to-KeepsShape :
    {d : Distributor} (irq : ℕ) (cpus : List ℕ)
    → IsWellFormed d
    → KeepsShape (forward_to d irq cpus)
forward_to-KeepsShape irq cpus v =
    Ensures-bind (forward_sgi-IsWellFormed irq cpus v) (λ w h. inject_only-KeepsShape h w.0)

-- A loop over the masks keeps the shape if its body does.
mask_loop-IsWellFormed :
    (body : ℕ → ℕ → Distributor → Outcome IrqError Distributor)
    → ((irq mask : ℕ) (d : Distributor) → IsWellFormed d → Ensures IsWellFormed (body irq mask d))
    → (k irq i mask : ℕ) (d : Distributor) → IsWellFormed d
    → Ensures IsWellFormed (mask_loop body k irq i mask d)
unfolding mask_loop
mask_loop-IsWellFormed body step zero irq i mask d v = returns v
mask_loop-IsWellFormed body step (suc k) irq i mask d v =
    Ensures-bind (step irq (shl32 mask (i * 8)) d v)
      (λ d' h. mask_loop-IsWellFormed body step k (suc irq) (suc i) (shl32 mask (i * 8)) d' h)

module _ {d : Distributor} (v : IsWellFormed d) where
  write_sgir-KeepsShape : (node val : ℕ) → KeepsShape (write_sgir d node val)
  unfolding write_sgir
  write_sgir-KeepsShape node val =
      let to = λ (cpus : List ℕ). forward_to-KeepsShape (sgi_int_id val) cpus v in
      Ensures-if (target_list_filter val == 0) (to (biterate (cpu_target_list val))) (
        Ensures-if (target_list_filter val == 1)
          (Ensures-then (assert (ltb node 8)) (λ _. to (biterate (all_but node))))
          (Ensures-if (target_list_filter val == 2) (to (node ∷ [])) (returns v)))

  write_cpendsgir-KeepsShape : (node n val : ℕ) → KeepsShape (write_cpendsgir d node n val)
  unfolding write_cpendsgir
  write_cpendsgir-KeepsShape node n val = Ensures-if (val == 0) (returns v) (
      Ensures-bind (modify_sgi-IsWellFormed v node n _) (λ w h.
        Ensures-bind {f = λ d'. quiet d'}
          (mask_loop-IsWellFormed (clear_if_idle node (bit_and w.0 (not32 val)))
            (λ irq mask d' h'.
              Ensures-if _ (Ensures-expect (clear_pending-IsWellFormed h' irq node)) (returns h'))
            4 (n * 4) 0 0xFF w.1 h)
          (λ d' h'. returns h')))

  write_spendsgir-KeepsShape : (node n val : ℕ) → KeepsShape (write_spendsgir d node n val)
  unfolding write_spendsgir
  write_spendsgir-KeepsShape node n val = Ensures-if (val == 0) (returns v) (
      Ensures-bind (modify_sgi-IsWellFormed v node n _) (λ w h.
        Ensures-bind
          (mask_loop-IsWellFormed (set_if_new node (bit_and val (not32 w.0)))
            (λ irq mask d' h'.
              Ensures-if _ (returns h') (Ensures-expect (set_pending-IsWellFormed h' irq node)))
            4 (n * 4) 0 0xFF w.1 h)
          (λ d' h'. sweep_inject-KeepsShape h' (n * 4) 4)))

  write_word-KeepsShape :
      (node val : ℕ) (reg : GicDistRegWord) → KeepsShape (write_word d node val reg)
  unfolding write_word
  write_word-KeepsShape node val gicd_ctlr = write_ctlr-KeepsShape v val
  write_word-KeepsShape node val gicd_iidr = fails
  write_word-KeepsShape node val gicd_typer = fails
  write_word-KeepsShape node val (gicd_igroupr n) = write_igroupr-KeepsShape v node n val
  write_word-KeepsShape node val (gicd_isenabler n) = write_isenabler-KeepsShape v node n val
  write_word-KeepsShape node val (gicd_icenabler n) = write_icenabler-KeepsShape v node n val
  write_word-KeepsShape node val (gicd_ispendr n) = write_ispendr-KeepsShape v node n val
  write_word-KeepsShape node val (gicd_icpendr n) = write_icpendr-KeepsShape v node n val
  write_word-KeepsShape node val (gicd_isactiver n) = write_isactiver-KeepsShape v node n val
  write_word-KeepsShape node val (gicd_icactiver n) = write_icactiver-KeepsShape v node n val
  write_word-KeepsShape node val (GicDistRegWord.gicd_ipriorityr n) =
      write_ipriorityr-KeepsShape v node n val
  write_word-KeepsShape node val (GicDistRegWord.gicd_itargetsr n) =
      write_targets-KeepsShape v n _ val
  write_word-KeepsShape node val (gicd_icfgr n) = write_icfgr-KeepsShape v node n val
  write_word-KeepsShape node val (gicd_nsacr n) = fails
  write_word-KeepsShape node val gicd_sgir = write_sgir-KeepsShape node val
  write_word-KeepsShape node val (GicDistRegWord.gicd_cpendsgir n) =
      write_cpendsgir-KeepsShape node n val
  write_word-KeepsShape node val (GicDistRegWord.gicd_spendsgir n) =
      write_spendsgir-KeepsShape node n val
  write_word-KeepsShape node val (icpidr n) = fails
  write_word-KeepsShape node val (iccidr n) = fails

  write_byte-KeepsShape : (val : ℕ) (reg : GicDistRegByte) → KeepsShape (write_byte d val reg)
  unfolding write_byte
  write_byte-KeepsShape val (GicDistRegByte.gicd_itargetsr n b) = write_targets-KeepsShape v n _ _
  write_byte-KeepsShape val (GicDistRegByte.gicd_ipriorityr n b) = panics
  write_byte-KeepsShape val (GicDistRegByte.gicd_cpendsgir n b) = panics
  write_byte-KeepsShape val (GicDistRegByte.gicd_spendsgir n b) = panics

  pub handle_write-KeepsShape :
      (offset node : ℕ) (val : VmFaultData) → KeepsShape (handle_write d offset node val)
  unfolding handle_write
  handle_write-KeepsShape offset node (VmFaultData.word val) =
      Ensures-then (from_offset offset) (λ reg. write_word-KeepsShape node val reg)
  handle_write-KeepsShape offset node (VmFaultData.byte val) =
      Ensures-then (from_offset_byte offset) (λ reg. write_byte-KeepsShape val reg)
  handle_write-KeepsShape offset node (VmFaultData.half_word val) = panics
  handle_write-KeepsShape offset node (VmFaultData.double_word val) = panics

-- Whatever a guest writes, and where, a write that returns leaves every bank with the size it had:
-- a well-formed distributor stays well formed.
handle_write-IsWellFormed :
    {d : Distributor} (offset node : ℕ) (val : VmFaultData) {w : WriteAction × Distributor}
    → IsWellFormed d
    → handle_write d offset node val ≡ ok w
    → IsWellFormed w.1
handle_write-IsWellFormed offset node val v e =
    Ensures-ok (λ w. IsWellFormed w.1) (handle_write-KeepsShape v offset node val) e
