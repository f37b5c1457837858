-- ===== src/Vmm/Once.antt =====
-- vmm.rs, `sys_psci`: CPU_ON, and the node that it takes out of `nodes`.
use icecap.Base.{
  Bool, err, fails, panics, get_elem?-set_self, ℕ, zero, suc, ◌≡◌, refl, false, List, [], ◌∷◌, set,
  some, get_elem?, Outcome, ok, panic, ◌>>=◌, Ensures, returns, Ensures-bind, Ensures-then,
  Ensures-ok, index-Ensures, assert,
}
use icecap.Gic.Error.{IrqError}
use icecap.Gic.Controller.{handle_irq, handle_maintenance, write}
use icecap.Vmm.{UnknownSyscall, Monitor, Vmm, NodeEvent, unknown_syscall, cpu_on, parse}
use icecap.Vmm.Node.{callbacks, put_world, psci_result, sys_psci, handle_syscall, step, run}
use icecap.Vmm.Steps.{IsKept, run-Keeps}

get_elem?-set_false :
    (xs : List Bool) (i j : ℕ)
    → get_elem? xs i ≡ some false
    → get_elem? (set xs j false) i ≡ some false
get_elem?-set_false [] i j e = e
get_elem?-set_false (x ∷ xs) zero zero e = refl
get_elem?-set_false (x ∷ xs) zero (suc j) e = e
get_elem?-set_false (x ∷ xs) (suc i) zero e = e
get_elem?-set_false (x ∷ xs) (suc i) (suc j) e = get_elem?-set_false xs i j e

-- The system call that asks for the start of `target`.
pub record IsCpuOn (target : ℕ) (fault : UnknownSyscall) : Type 0 where
  pub psci : fault.syscall ≡ 0
  pub parsed : parse fault ≡ ok (cpu_on target fault.x2 fault.x3)

module _ {W : Type 0} (monitor : Monitor W) (target : ℕ) where
  abbrev IsTaken : Vmm W → Type 0
  IsTaken v = get_elem? v.waiting target ≡ some false

  always : {A : Type 0} {X : Type 0} (m : Outcome IrqError A) → X → Ensures (λ _. X) m
  always (ok a) x = returns x
  always (err e) x = fails
  always panic x = panics

  IsTaken-IsKept : IsKept monitor IsTaken
  IsTaken-IsKept = record {
    world = λ v w h. h;
    irq = λ v node irq h. always (handle_irq (callbacks monitor) v.gic node irq) h;
    maintenance = λ v node i h. always (handle_maintenance (callbacks monitor) v.gic node i) h;
    written = λ v node offset val h. always (write (callbacks monitor) v.gic node offset val) h;
    started = λ v t h. get_elem?-set_false v.waiting target t h;
  }

  on_call :
      (v : Vmm W) (node_index : ℕ) (fault : UnknownSyscall)
      → IsCpuOn target fault
      → step monitor v node_index (unknown_syscall fault) ≡ (
          psci_result monitor v (cpu_on target fault.x2 fault.x3) >>= λ r.
          ok (put_world monitor r.1 (monitor.return_value r.1.gic.callbacks.world node_index r.0)))
  unfolding step handle_syscall sys_psci
  on_call v node_index fault c = rw (c.psci, c.parsed) refl

  taken-panics :
      (v : Vmm W) (entry ctx_id : ℕ)
      → IsTaken v
      → psci_result monitor v (cpu_on target entry ctx_id) ≡ panic
  taken-panics v entry ctx_id h = rw h refl

  psci_result-IsTaken :
      (v : Vmm W) (entry ctx_id : ℕ)
      → Ensures
          (λ (r : ℕ × Vmm W). IsTaken r.1)
          (psci_result monitor v (cpu_on target entry ctx_id))
  psci_result-IsTaken v entry ctx_id = Ensures-bind (index-Ensures v.waiting target) λ waits e.
      Ensures-then (assert waits) λ _.
        Ensures-then (monitor.start_node v.gic.callbacks.world target entry ctx_id)
          λ w. returns (get_elem?-set_self v.waiting target waits false e)

  on_call-IsTaken :
      (v : Vmm W) (node_index : ℕ) (fault : UnknownSyscall)
      → IsCpuOn target fault
      → Ensures IsTaken (step monitor v node_index (unknown_syscall fault))
  on_call-IsTaken v node_index fault c =
      rw (on_call v node_index fault c)
        (Ensures-bind (psci_result-IsTaken v fault.x2 fault.x3) λ r h. returns h)

  -- A node is started at most once: after a CPU_ON that returned, and whatever the nodes receive after it
  -- without a failure, another CPU_ON for the same node, from any node, panics.
  pub cpu_on-once :
      (v : Vmm W) {v' v'' : Vmm W} (first second : UnknownSyscall) (node_index node_index' : ℕ)
      (events : List (ℕ × NodeEvent))
      → IsCpuOn target first
      → IsCpuOn target second
      → step monitor v node_index (unknown_syscall first) ≡ ok v'
      → run monitor v' events ≡ ok v''
      → step monitor v'' node_index' (unknown_syscall second) ≡ panic
  cpu_on-once v {v'} {v''} first second node_index node_index' events c c' e es =
      let taken = Ensures-ok IsTaken (on_call-IsTaken v node_index first c) e in
      let still = Ensures-ok IsTaken (run-Keeps monitor IsTaken-IsKept v' events taken) es in
      rw (on_call v'' node_index' second c', taken-panics v'' second.x2 second.x3 still) refl
