-- ===== src/Gic/Controller/Maintenance.antt =====
-- `handle_maintenance`: the end of an interrupt that a virtual CPU had in a list register.
use icecap.Base.{
  ℕ, ◌<◌, ◌≤◌, ◌≡◌, refl, Option, some, none, List, [], ◌∷◌, get_elem?, set, ok, panic, ◌>>=◌,
  get_elem?-set_self, set-set,
}
use icecap.Gic.Distributor.{Distributor}
use icecap.Gic.Distributor.Lines.{ack}
use icecap.Gic.Distributor.Lines.Ack.{HasEnded, ack_exact}
use icecap.Gic.Distributor.WellFormed.{IsWellFormed}
use icecap.Gic.Controller.{
  Gic, Lr, Callbacks, set_mirror, inject_irq, refill, handle_maintenance, ended_irq,
}

-- The list registers of a node with slot `i` of the mirror `m` free and `queue` behind them.
abbrev pub freed : List Lr → ℕ → ℕ → List (Option ℕ) → List ℕ → List Lr
freed lrs node i m queue = set lrs node (record { mirror = set m i none; overflow = queue })

module _ {T : Type 0} (ops : Callbacks T) (g : Gic T) (node i : ℕ) (lr : Lr)
    (h : get_elem? g.lrs node ≡ some lr) where
  -- A maintenance interrupt for a list register that the controller believes free is a panic.
  handle_maintenance-free :
      get_elem? lr.mirror i ≡ some none → handle_maintenance ops g node i ≡ panic
  unfolding handle_maintenance
  handle_maintenance-free slot = rw h (rw slot refl)

  set_mirror_lem :
      (irq : ℕ)
      → get_elem? lr.mirror i ≡ some (some irq)
      → set_mirror g.lrs node i none ≡ ok (freed g.lrs node i lr.mirror lr.overflow)
  set_mirror_lem irq slot = rw h (rw slot refl)

  handle_maintenance-refill :
      (irq : ℕ) (d' : Distributor)
      → get_elem? lr.mirror i ≡ some (some irq)
      → ack g.dist irq node ≡ ok d'
      → handle_maintenance ops g node i ≡ (
          ops.ack_irq g.callbacks node (ended_irq node irq) >>= λ cb.
          refill ops
            (record g { callbacks = cb; dist = d'; lrs = freed g.lrs node i lr.mirror lr.overflow })
            node
            i
            (record { mirror = set lr.mirror i none; overflow = lr.overflow }))
  unfolding handle_maintenance
  handle_maintenance-refill irq d' slot acked = rw h (
      rw slot (
        rw acked (
          rw
            (get_elem?-set_self g.lrs node lr
              (record { mirror = set lr.mirror i none; overflow = lr.overflow }) h)
            refl)))

module _ {T : Type 0} (ops : Callbacks T) (g : Gic T) (node i irq : ℕ) (m : List (Option ℕ))
    (v : IsWellFormed g.dist) (hl : 16 ≤ irq) (hi : irq < 1024) (hc : node < g.dist.num_nodes)
    (slot : get_elem? m i ≡ some (some irq)) where
  -- When an interrupt from 16 to 1023 in a list register ends and nothing is queued for the node, it
  -- is no longer pending nor active, nothing else of the distributor changes, its slot of the mirror
  -- becomes free, and the one call back made acknowledges it.
  pub handle_maintenance-last :
      get_elem? g.lrs node ≡ some (record { mirror = m; overflow = [] })
      → (d' : Distributor) × HasEnded g.dist irq node d'
        × (handle_maintenance ops g node i ≡ (
            ops.ack_irq g.callbacks node (ended_irq node irq) >>= λ cb.
            ok (record g { callbacks = cb; dist = d'; lrs = freed g.lrs node i m [] })))
  unfolding refill
  handle_maintenance-last h =
      let a = ack_exact irq node v hl hi hc in
      (a.0, a.2, handle_maintenance-refill ops g node i _ h irq a.0 slot a.1)

  -- When an interrupt from 16 to 1023 in a list register ends and others are queued for the node, it
  -- is no longer pending nor active, nothing else of the distributor changes by that, it is
  -- acknowledged, and the first of the queue leaves it to be injected in the very slot that became free.
  pub handle_maintenance-next :
      (next : ℕ) (rest : List ℕ)
      → get_elem? g.lrs node ≡ some (record { mirror = m; overflow = next ∷ rest })
      → (d' : Distributor) × HasEnded g.dist irq node d'
        × (handle_maintenance ops g node i ≡ (
            ops.ack_irq g.callbacks node (ended_irq node irq) >>= λ cb.
            inject_irq ops
              (record g { callbacks = cb; dist = d'; lrs = freed g.lrs node i m rest })
              node
              node
              i
              next))
  unfolding refill
  handle_maintenance-next next rest h =
      let a = ack_exact irq node v hl hi hc in
      (
        a.0,
        a.2,
        rw
            (
              handle_maintenance-refill ops g node i _ h irq a.0 slot a.1,
              set-set g.lrs node (record { mirror = set m i none; overflow = next ∷ rest })
                  (record { mirror = set m i none; overflow = rest }),
            )
            refl,
      )
