-- ===== src/Gic/Distributor/Sgi.antt =====
-- distributor/mod.rs, `handle_write`: the registers of the software-generated interrupts.
use icecap.Base.{
  ℕ, zero, suc, ◌*◌, ◌/◌, ◌^◌, ltb, ◌==◌, if◌then◌else◌, List, [], ◌∷◌, Outcome, ok, ◌>>=◌, ◌>>◌,
  assert, expect, bit_and, bit_xor,
}
use icecap.Base.Bits.{not32}
use icecap.Biterate.{biterate}
use icecap.Gic.Error.{IrqError}
use icecap.Gic.Register32.{fetch_and, fetch_or, shl32}
use icecap.Gic.Distributor.{Distributor}
use icecap.Gic.Distributor.Lines.{should_inject, set_pending, clear_pending, modify_sgi}
use icecap.Gic.Distributor.Write.{Written, quiet, inject_only, sweep_inject}

-- `for i in biterate(cpu_target_list)`: what is collected, and the distributor after the loop.
unfoldable pub forward_sgi :
    Distributor → ℕ → List ℕ → Outcome IrqError (List (ℕ × ℕ) × Distributor)
forward_sgi d irq [] = ok ([], d)
forward_sgi d irq (cpu ∷ cpus) = do
  d' ← expect (set_pending d irq cpu)
  hit ← should_inject d' irq cpu
  rest ← forward_sgi d' irq cpus
  ok (if hit then (irq, cpu) ∷ rest.0 else rest.0, rest.1)

abbrev pub forward_to : Distributor → ℕ → List ℕ → Written
forward_to d irq cpus = forward_sgi d irq cpus >>= λ w. inject_only w.0 w.1

-- The fields of a write to GICD_SGIR.
abbrev pub sgi_int_id : ℕ → ℕ
sgi_int_id val = bit_and val 0xFF

abbrev pub cpu_target_list : ℕ → ℕ
cpu_target_list val = bit_and (val / 2 ^ 16) 0xFF

abbrev pub target_list_filter : ℕ → ℕ
target_list_filter val = bit_and (val / 2 ^ 24) 0x3

-- `0b11111111 ^ (1 << node_index)`
abbrev pub all_but : ℕ → ℕ
all_but node_index = bit_xor 0xFF (2 ^ node_index)

unfoldable pub write_sgir : Distributor → ℕ → ℕ → Written
unfolding biterate
write_sgir d node_index val =
    if target_list_filter val == 0
    then forward_to d (sgi_int_id val) (biterate (cpu_target_list val))
    else if target_list_filter val == 1
    then (assert (ltb node_index 8)
        >> forward_to d (sgi_int_id val) (biterate (all_but node_index)))
    else if target_list_filter val == 2
    then forward_to d (sgi_int_id val) (node_index ∷ [])
    else quiet d

-- `for irq in irq..irq + k { mask = mask << ((irq - base_irq) * 8); … }`, for `i` the difference. The
-- mask is carried from one round to the next.
unfoldable pub mask_loop :
    (ℕ → ℕ → Distributor → Outcome IrqError Distributor)
    → ℕ
    → ℕ
    → ℕ
    → ℕ
    → Distributor
    → Outcome IrqError Distributor
mask_loop body zero irq i mask d = ok d
mask_loop body (suc k) irq i mask d = do
  d' ← body irq (shl32 mask (i * 8)) d
  mask_loop body k (suc irq) (suc i) (shl32 mask (i * 8)) d'

-- The bodies of the two loops.
abbrev pub clear_if_idle : ℕ → ℕ → ℕ → ℕ → Distributor → Outcome IrqError Distributor
clear_if_idle node_index still_pending irq mask d =
    if bit_and still_pending mask == 0 then expect (clear_pending d irq node_index) else ok d

abbrev pub set_if_new : ℕ → ℕ → ℕ → ℕ → Distributor → Outcome IrqError Distributor
set_if_new node_index newly_pending irq mask d =
    if bit_and newly_pending mask == 0 then ok d else expect (set_pending d irq node_index)

unfoldable pub write_cpendsgir : Distributor → ℕ → ℕ → ℕ → Written
unfolding mask_loop
write_cpendsgir d node_index reg_num val = if val == 0 then quiet d else do
  w ← modify_sgi d node_index reg_num (fetch_and (not32 val))
  let still_pending = bit_and w.0 (not32 val)
  d' ← mask_loop (clear_if_idle node_index still_pending) 4 (reg_num * 4) 0 0xFF w.1
  quiet d'

unfoldable pub write_spendsgir : Distributor → ℕ → ℕ → ℕ → Written
unfolding mask_loop
write_spendsgir d node_index reg_num val = if val == 0 then quiet d else do
  w ← modify_sgi d node_index reg_num (fetch_or val)
  let newly_pending = bit_and val (not32 w.0)
  d' ← mask_loop (set_if_new node_index newly_pending) 4 (reg_num * 4) 0 0xFF w.1
  sweep_inject d' (reg_num * 4) 4
