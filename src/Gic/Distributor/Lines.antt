-- ===== src/Gic/Distributor/Lines.antt =====
-- distributor/mod.rs: the functions that read and change the state of one interrupt for one CPU.
-- `usize::try_from(cpu)` is the identity.
pub mod Banks
pub mod Effects
pub mod Inject
pub mod Ack
use icecap.Base.{
  ℕ, ◌+◌, ◌-◌, ◌*◌, ◌/◌, ◌%◌, ◌^◌, ltb, leb, ◌==◌, if◌then◌else◌, not, Bool, true, false, List, [],
  ◌∷◌, ◌++◌, Outcome, ok, err, ◌>>=◌, ◌>>◌, assert, expect, index, index_in, modify, modify_in,
  bit_and, zero, suc,
}
use icecap.Base.Bits.{test_bit, not32}
use icecap.Gic.Error.{IrqError, invalid_cpu, invalid_irq}
use icecap.Gic.Register32.{load, fetch_and, fetch_or, shl32}
use icecap.Gic.Distributor.{Distributor}

-- `if irq < 32 { &self.x0[cpu] } else { &self.x[irq / 32 - 1] }`
abbrev pub line_reg : List ℕ → List ℕ → ℕ → ℕ → Outcome IrqError ℕ
line_reg banked shared irq cpu =
    if ltb irq 32 then index banked cpu else index shared (irq / 32 - 1)

-- The same register through a mutable reference.
abbrev pub modify_line :
    List ℕ → List ℕ → ℕ → ℕ → (ℕ → ℕ × ℕ) → Outcome IrqError (ℕ × List ℕ × List ℕ)
modify_line banked shared irq cpu f =
    if ltb irq 32
    then (modify banked cpu f >>= λ w. ok (w.0, w.1, shared))
    else (modify shared (irq / 32 - 1) f >>= λ w. ok (w.0, banked, w.1))

-- `&&` of two calls: the second is made if the first is true.
abbrev pub and_then : Outcome IrqError Bool → Outcome IrqError Bool → Outcome IrqError Bool
and_then m k = m >>= λ b. if b then k else ok false

unfoldable pub is_gic_enabled : Distributor → Bool
is_gic_enabled d = load d.control == 1

unfoldable pub is_enabled : Distributor → ℕ → ℕ → Outcome IrqError Bool
is_enabled d irq cpu =
    if leb d.num_nodes cpu
    then ok false
    else do val ← line_reg d.enable0 d.enable irq cpu; ok (test_bit val (irq % 32))

unfoldable pub is_pending : Distributor → ℕ → ℕ → Outcome IrqError Bool
is_pending d irq cpu =
    if leb d.num_nodes cpu
    then ok false
    else do val ← line_reg d.pending0 d.pending irq cpu; ok (test_bit val (irq % 32))

unfoldable pub is_active : Distributor → ℕ → ℕ → Outcome IrqError Bool
is_active d irq cpu =
    if leb d.num_nodes cpu
    then ok false
    else do val ← line_reg d.active0 d.active irq cpu; ok (test_bit val (irq % 32))

-- `targets0[cpu][irq / 4]` or `targets[irq / 4 - 8]`
abbrev pub target_reg : Distributor → ℕ → ℕ → Outcome IrqError ℕ
target_reg d irq cpu =
    if ltb irq 32 then index_in d.targets0 cpu (irq / 4) else index d.targets (irq / 4 - 8)

-- `(val >> shift) & 0xFF`, for `shift` that of the IRQ's byte
abbrev pub byte_of : ℕ → ℕ → ℕ
byte_of val irq = bit_and (val / 2 ^ (irq % 4 * 8)) 0xFF

unfoldable pub is_target : Distributor → ℕ → ℕ → Outcome IrqError Bool
is_target d irq cpu =
    if leb d.num_nodes cpu
    then ok false
    else do val ← target_reg d irq cpu; ok (test_bit (byte_of val irq) cpu)

pub get_spi_targets : Distributor → ℕ → Outcome IrqError ℕ
get_spi_targets d irq = do
  assert (leb 32 irq)
  val ← index d.targets (irq / 4 - 8)
  ok (byte_of val irq)

-- `for cpu in cpu..cpu + k`
vcpu_targets_from : Distributor → ℕ → ℕ → ℕ → Outcome IrqError (List ℕ)
vcpu_targets_from d irq cpu zero = ok []
vcpu_targets_from d irq cpu (suc k) = do
  hit ← is_target d irq cpu
  rest ← vcpu_targets_from d irq (suc cpu) k
  ok (if hit then cpu ∷ rest else rest)

get_vcpu_targets : Distributor → ℕ → Outcome IrqError (List ℕ)
unfolding vcpu_targets_from
get_vcpu_targets d irq = vcpu_targets_from d irq 0 8

unfoldable pub should_inject : Distributor → ℕ → ℕ → Outcome IrqError Bool
should_inject d irq cpu = and_then (ok (is_gic_enabled d)) (
    and_then (is_enabled d irq cpu) (
      and_then (is_target d irq cpu)
        (and_then (is_pending d irq cpu) (is_active d irq cpu >>= λ a. ok (not a)))))

-- `priority0[cpu][reg_num]` or `priority[reg_num - 8]`
abbrev pub priority_reg : Distributor → ℕ → ℕ → Outcome IrqError ℕ
priority_reg d reg_num cpu =
    if ltb reg_num 8 then index_in d.priority0 cpu reg_num else index d.priority (reg_num - 8)

unfoldable pub get_priority : Distributor → ℕ → ℕ → Outcome IrqError ℕ
get_priority d irq cpu = if leb d.num_nodes cpu then err (invalid_cpu cpu) else do
  val ← priority_reg d (irq / 4) cpu
  ok (bit_and val (shl32 0xFF (irq % 4 * 8)) / 2 ^ (irq % 4 * 8))

abbrev pub set_pending_lines : Distributor → ℕ → ℕ → (ℕ → ℕ × ℕ) → Outcome IrqError Distributor
set_pending_lines d irq cpu f = do
  w ← modify_line d.pending0 d.pending irq cpu f
  ok (record d { pending0 = w.1; pending = w.2 })

abbrev pub set_active_lines : Distributor → ℕ → ℕ → (ℕ → ℕ × ℕ) → Outcome IrqError Distributor
set_active_lines d irq cpu f = do
  w ← modify_line d.active0 d.active irq cpu f
  ok (record d { active0 = w.1; active = w.2 })

unfoldable pub clear_pending : Distributor → ℕ → ℕ → Outcome IrqError Distributor
clear_pending d irq cpu =
    if leb d.num_nodes cpu
    then err (invalid_cpu cpu)
    else set_pending_lines d irq cpu (fetch_and (not32 (2 ^ (irq % 32))))

unfoldable pub set_pending : Distributor → ℕ → ℕ → Outcome IrqError Distributor
set_pending d irq cpu =
    if leb d.num_nodes cpu
    then err (invalid_cpu cpu)
    else set_pending_lines d irq cpu (fetch_or (2 ^ (irq % 32)))

unfoldable pub clear_active : Distributor → ℕ → ℕ → Outcome IrqError Distributor
clear_active d irq cpu =
    if leb d.num_nodes cpu
    then err (invalid_cpu cpu)
    else set_active_lines d irq cpu (fetch_and (not32 (2 ^ (irq % 32))))

unfoldable pub set_active : Distributor → ℕ → ℕ → Outcome IrqError Distributor
set_active d irq cpu =
    if leb d.num_nodes cpu
    then err (invalid_cpu cpu)
    else set_active_lines d irq cpu (fetch_or (2 ^ (irq % 32)))

-- `self.sgi_pending[cpu][reg_num]` through a mutable reference.
abbrev pub modify_sgi : Distributor → ℕ → ℕ → (ℕ → ℕ × ℕ) → Outcome IrqError (ℕ × Distributor)
modify_sgi d cpu reg_num f = do
  w ← modify_in d.sgi_pending cpu reg_num f
  ok (w.0, record d { sgi_pending = w.1 })

-- The three guards of `set_sgi_pending` and `clear_sgi_pending`.
abbrev pub guard_sgi : Distributor → ℕ → ℕ → ℕ → Outcome IrqError (Unit {0})
guard_sgi d irq source_cpu target_cpu =
    if leb d.num_nodes source_cpu
    then err (invalid_cpu source_cpu)
    else if leb d.num_nodes target_cpu
    then err (invalid_cpu target_cpu)
    else if ltb 16 irq
    then err (invalid_irq irq)
    else ok tt

set_sgi_pending : Distributor → ℕ → ℕ → ℕ → Outcome IrqError Distributor
set_sgi_pending d irq source_cpu target_cpu = do
  guard_sgi d irq source_cpu target_cpu
  w ← modify_sgi d target_cpu (irq / 4) (fetch_or (shl32 1 (source_cpu + irq % 4 * 8)))
  already ← is_pending w.1 irq target_cpu
  if already then ok w.1 else expect (set_pending w.1 irq target_cpu)

unfoldable pub clear_sgi_pending : Distributor → ℕ → ℕ → ℕ → Outcome IrqError Distributor
clear_sgi_pending d irq source_cpu target_cpu = do
  let val = shl32 1 (source_cpu + irq % 4 * 8)
  guard_sgi d irq source_cpu target_cpu
  w ← modify_sgi d target_cpu (irq / 4) (fetch_and (not32 val))
  let still_pending = bit_and w.0 (not32 val)
  if bit_and still_pending (shl32 0xFF (irq % 4 * 8)) == 0
      then expect (clear_pending w.1 irq target_cpu)
      else ok w.1

unfoldable pub ack : Distributor → ℕ → ℕ → Outcome IrqError Distributor
ack d irq cpu = if leb d.num_nodes cpu then err (invalid_cpu cpu) else do
  d' ← (if ltb irq 16 then clear_sgi_pending d irq 0 cpu else clear_pending d irq cpu)
  clear_active d' irq cpu
