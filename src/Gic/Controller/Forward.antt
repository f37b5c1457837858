-- ===== src/Gic/Controller/Forward.antt =====
-- gic.rs, `forward_irq`: the list register, or the queue, that an interrupt goes to.
use icecap.Base.{
  ℕ, zero, suc, ◌+◌, ◌<◌, ◌≡◌, ◌≢◌, refl, sym, ◌⊎◌, inl, inr, ◌==◌, if◌then◌else◌, Bool, ==_refl,
  true, false, Bool-cases, Option, some, none, List, [], ◌∷◌, ◌++◌, get_elem?, set, elem, arith,
  Outcome, ok, panic, err, ◌>>=◌, get_elem?-set_self, get_elem?-lt, ok-injective, subst, ◌∙◌,
}
use native.Mathlib.Nat.{zero-add}
use icecap.Gic.Error.{IrqError}
use icecap.Gic.Distributor.Lines.Effects.{pending_line, pending_line-set}
use icecap.Gic.Distributor.WellFormed.{IsWellFormed}
use icecap.Gic.Controller.{
  Gic, Lr, Callbacks, first_empty, irq_in_lrs_overflow, inject_irq, queue_irq, forward_to_slot,
  forward_irq,
}
use icecap.Gic.Controller.Inject.{ready, made_pending, inject_irq_lem}

-- No slot is `None`.
abbrev pub AreTaken : List (Option ℕ) → Type 0
AreTaken slots = (j : ℕ) → get_elem? slots j ≢ some none

AreTaken-nil : AreTaken []
AreTaken-nil j e = cc

AreTaken-cons : (irq : ℕ) (slots : List (Option ℕ)) → AreTaken slots → AreTaken (some irq ∷ slots)
AreTaken-cons irq slots h zero e = cc
AreTaken-cons irq slots h (suc j) e = h j e

-- `i` is the first slot that is `None`.
abbrev IsFirstEmpty : List (Option ℕ) → ℕ → Type 0
IsFirstEmpty slots i =
    (get_elem? slots i ≡ some none) × ((j : ℕ) → j < i → get_elem? slots j ≢ some none)

IsFirstEmpty-cons :
    (irq : ℕ) (slots : List (Option ℕ)) (i : ℕ)
    → IsFirstEmpty slots i
    → IsFirstEmpty (some irq ∷ slots) (suc i)
IsFirstEmpty-cons irq slots i h = (h.0, below)
  where
    below : (j : ℕ) → j < suc i → get_elem? (some irq ∷ slots) j ≢ some none
    below zero hj e = cc
    below (suc j) hj e = h.1 j (omega arith) e

-- The search, from a number that it counts on from.
first_empty_from :
    (slots : List (Option ℕ)) (k : ℕ)
    → ((first_empty slots k ≡ none) × AreTaken slots)
      ⊎ ((i : ℕ) × (first_empty slots k ≡ some (i + k)) × IsFirstEmpty slots i)
unfolding first_empty
first_empty_from [] k = inl (refl, AreTaken-nil)
first_empty_from (none ∷ slots) k = inr (0, rw (zero-add k) refl, (refl, λ j h e. elim h [ ]))
first_empty_from (some irq ∷ slots) k = elim (first_empty_from slots (suc k)) [
  | inl h ↦ inl (h.0, AreTaken-cons irq slots h.1)
  | inr h ↦
      let shift : h.0 + suc k ≡ suc h.0 + k = omega arith in
      inr (suc h.0, rw h.1 (rw shift refl), IsFirstEmpty-cons irq slots h.0 h.2)
]

-- The controller's search for a list register finds the first free one, and finds none only if all
-- are taken.
first_empty_lem :
    (slots : List (Option ℕ))
    → ((first_empty slots 0 ≡ none) × AreTaken slots)
      ⊎ ((i : ℕ) × (first_empty slots 0 ≡ some i) × IsFirstEmpty slots i)
first_empty_lem slots = elim (first_empty_from slots 0) [
  | inl h ↦ inl h
  | inr h ↦ let same : h.0 + 0 ≡ h.0 = omega arith in inr (h.0, rw h.1 (rw same refl), h.2)
]

-- `irq` waits in the queue of `lr`, once.
abbrev queued : ℕ → Lr → Lr
queued irq lr =
    if elem irq lr.overflow then lr else record lr { overflow = lr.overflow ++ (irq ∷ []) }

module _ {T : Type 0} (ops : Callbacks T) (g : Gic T) (irq target : ℕ) where
  queue_irq_lem :
      (lr : Lr)
      → get_elem? g.lrs target ≡ some lr
      → queue_irq ops g target irq
        ≡ ok (
            if elem irq lr.overflow then g else record g { lrs = set g.lrs target (queued irq lr) })
  unfolding queue_irq irq_in_lrs_overflow
  queue_irq_lem lr h = elim (Bool-cases (elem irq lr.overflow)) [
    | inl there ↦ rw (h, there) refl
    | inr fresh ↦ rw (h, fresh) refl
  ]

  forward_irq_lem :
      (calling : ℕ) (lr : Lr)
      → get_elem? g.lrs target ≡ some lr
      → forward_irq ops g calling target irq
        ≡ forward_to_slot ops g calling target irq (first_empty lr.mirror 0)
  unfolding forward_irq
  forward_irq_lem calling lr h = rw h refl

  -- While all list registers of a node are taken, an interrupt for it waits at the end of the node's
  -- queue, or where it waits already; the distributor, the mirrors and the call backs' state stay.
  pub forward_irq-full :
      (calling : ℕ) (lr : Lr)
      → get_elem? g.lrs target ≡ some lr
      → AreTaken lr.mirror
      → forward_irq ops g calling target irq
        ≡ ok (
            if elem irq lr.overflow then g else record g { lrs = set g.lrs target (queued irq lr) })
  unfolding forward_to_slot
  forward_irq-full calling lr h taken = elim (first_empty_lem lr.mirror) [
    | inl e ↦ rw (forward_irq_lem calling lr h, e.0) (queue_irq_lem lr h)
    | inr e ↦ absurd (taken e.0 e.2.0)
  ]

  -- With a list register free, `forward_irq` uses the first one that is.
  forward_irq-free :
      (calling i : ℕ) (lr : Lr)
      → get_elem? g.lrs target ≡ some lr
      → IsFirstEmpty lr.mirror i
      → forward_irq ops g calling target irq ≡ inject_irq ops g calling target i irq
  unfolding forward_to_slot
  forward_irq-free calling i lr h first = elim (first_empty_lem lr.mirror) [
    | inl e ↦ absurd (e.1 i first.0)
    | inr e ↦ elim (trichotomy e.0 i) [
      | inl same ↦ rw (forward_irq_lem calling lr h, e.1, same) refl
      | inr (inl less) ↦ absurd (first.1 e.0 less e.2.0)
      | inr (inr more) ↦ absurd (e.2.1 i more first.0)
    ]
  ]
    where
      trichotomy : (a b : ℕ) → (a ≡ b) ⊎ ((a < b) ⊎ (b < a))
      trichotomy a b = ground arith

elem-snoc_self : (a : ℕ) (xs : List ℕ) → elem a (xs ++ (a ∷ [])) ≡ true
elem-snoc_self a [] = rw (==_refl a) refl
elem-snoc_self a (x ∷ xs) = elim (Bool-cases (x == a)) [
  | inl same ↦ rw same refl
  | inr other ↦ rw other (elem-snoc_self a xs)
]

-- The interrupt is pending for its CPU, or waits in the queue.
abbrev pub IsTracked : {T : Type 0} → Gic T → ℕ → ℕ → Type 0
IsTracked g irq target =
    (pending_line g.dist irq target ≡ true)
    ⊎ ((lr : Lr) × (get_elem? g.lrs target ≡ some lr) × (elem irq lr.overflow ≡ true))

if-IsTracked :
    {T : Type 0} {g' : Gic T} (c : Bool) (m : Outcome IrqError T) (f : T → Gic T) (b : Gic T)
    (irq target : ℕ)
    → ((t : T) → IsTracked (f t) irq target)
    → IsTracked b irq target
    → (if c then (m >>= λ t. ok (f t)) else ok b) ≡ ok g'
    → IsTracked g' irq target
if-IsTracked true (ok t) f b irq target h k e =
    subst (λ x. IsTracked x irq target) (ok-injective e) (h t)
if-IsTracked true (err x) f b irq target h k e = cc
if-IsTracked true panic f b irq target h k e = cc
if-IsTracked false m f b irq target h k e = subst (λ x. IsTracked x irq target) (ok-injective e) k

module _ {T : Type 0} (ops : Callbacks T) (g : Gic T) (irq target : ℕ) (v : IsWellFormed g.dist)
    (hi : irq < 1020) (ht : target < g.dist.num_nodes) where
  pending-made : pending_line (made_pending g.dist irq target) irq target ≡ true
  pending-made = rw (pending_line-set v irq target (omega arith) ht irq target) (ground arith)

  -- An interrupt below 1020 that `forward_irq` took in for a CPU of the controller is not lost: it is
  -- pending for that CPU, or waits in the CPU's queue, whether a list register was free or not and
  -- whether the interrupt could be delivered or not.
  pub forward_irq-IsTracked :
      (calling : ℕ) (lr : Lr) {g' : Gic T}
      → get_elem? g.lrs target ≡ some lr
      → forward_irq ops g calling target irq ≡ ok g'
      → IsTracked g' irq target
  forward_irq-IsTracked calling lr {g'} h e = elim (first_empty_lem lr.mirror) [
    | inl full ↦
        let done = sym (forward_irq-full ops g irq target calling lr h full.1) ∙ e in
        subst (λ x. IsTracked x irq target) (ok-injective done) (in_queue lr h)
    | inr free ↦
        let place = sym (forward_irq-free ops g irq target calling free.0 lr h free.2) in
        let slot = get_elem?-lt lr.mirror free.0 none free.2.0 in
        if-IsTracked (ready g.dist irq target) _ _ _ irq target (λ t. inl pending-made)
          (inl pending-made)
          (sym (inject_irq_lem ops g irq target v hi ht calling free.0 lr (h, slot)) ∙ place ∙ e)
  ]
    where
      in_queue :
          (lr : Lr)
          → get_elem? g.lrs target ≡ some lr
          → IsTracked
              (if elem irq lr.overflow
                then g
                else record g { lrs = set g.lrs target (queued irq lr) })
              irq
              target
      in_queue lr h = elim (Bool-cases (elem irq lr.overflow)) [
        | inl there ↦ rw there (inr (lr, h, there))
        | inr fresh ↦
            rw fresh
              (inr (_, get_elem?-set_self g.lrs target lr _ h, elem-snoc_self irq lr.overflow))
      ]
