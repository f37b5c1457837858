-- ===== src/Gic/Distributor/Sweep/Hits.antt =====
-- A sweep over a test that always returns, as a list: which pairs it holds.
use icecap.Base.{
  ℕ, zero, suc, ◌+◌, ◌≤◌, ◌<◌, ◌≡◌, refl, ap, sym, subst, ◌⊎◌, inl, inr, leb, if◌then◌else◌, Bool,
  true, false, Bool-cases, List, [], ◌∷◌, ◌++◌, arith, Outcome, ok,
}
use native.Mathlib.Decide.{ℕ_discrete}
use icecap.Gic.Error.{IrqError}
use icecap.Gic.Distributor.Sweep.{sweep_nodes, sweep_irqs}

abbrev pub In : ℕ × ℕ → List (ℕ × ℕ) → Type 0
In p [] = ⊥
In p (q ∷ qs) = (p ≡ q) ⊎ In p qs

In-append : (p : ℕ × ℕ) (xs ys : List (ℕ × ℕ)) → In p (xs ++ ys) → In p xs ⊎ In p ys
In-append p [] ys m = inr m
In-append p (x ∷ xs) ys (inl e) = inl (inl e)
In-append p (x ∷ xs) ys (inr m) = elim (In-append p xs ys m) [ inl a ↦ inl (inr a) | inr b ↦ inr b ]

In-append_left : (p : ℕ × ℕ) (xs ys : List (ℕ × ℕ)) → In p xs → In p (xs ++ ys)
In-append_left p (x ∷ xs) ys (inl e) = inl e
In-append_left p (x ∷ xs) ys (inr m) = inr (In-append_left p xs ys m)
In-append_left p [] ys m = absurd m

In-append_right : (p : ℕ × ℕ) (xs ys : List (ℕ × ℕ)) → In p ys → In p (xs ++ ys)
In-append_right p [] ys m = m
In-append_right p (x ∷ xs) ys m = inr (In-append_right p xs ys m)

module _ (test : ℕ → ℕ → Bool) where
  -- The hits of one interrupt on the nodes from `c` on, `k` of them.
  node_hits : ℕ → ℕ → ℕ → List (ℕ × ℕ)
  node_hits irq c zero = []
  node_hits irq c (suc k) =
      let rest = node_hits irq (suc c) k in
      if test irq c then (if leb 32 irq then (irq, c) ∷ [] else (irq, c) ∷ rest) else rest

  pub irq_hits : ℕ → ℕ → ℕ → List (ℕ × ℕ)
  irq_hits n irq zero = []
  irq_hits n irq (suc k) = node_hits irq 0 n ++ irq_hits n (suc irq) k

  -- A hit; of a shared interrupt, the first.
  pub record IsHit (irq c cpu : ℕ) : Type 0 where
    hits : test irq cpu ≡ true
    first : 32 ≤ irq → (c' : ℕ) → c ≤ c' → c' < cpu → test irq c' ≡ false

  IsHit-later : {irq c cpu : ℕ} → test irq c ≡ false → IsHit irq (suc c) cpu → IsHit irq c cpu
  IsHit-later {irq} {c} {cpu} miss h = record {
    hits = h.hits;
    first = λ shared c' from below. elim (ℕ_discrete c c') [
      | yes e ↦ subst (λ x. test irq x ≡ false) e miss
      | no ne ↦ h.first shared c' (omega arith) below
    ];
  }

  IsHit-private : {irq c c' cpu : ℕ} → irq < 32 → IsHit irq c cpu → IsHit irq c' cpu
  IsHit-private low h = record { hits = h.hits; first = λ shared _ _ _. absurd (omega arith) }

  IsHit-head :
      {irq c i cpu : ℕ} (k : ℕ)
      → ◌≡◌ {A = ℕ × ℕ} (i, cpu) (irq, c)
      → test irq c ≡ true
      → (i ≡ irq) × (c ≤ cpu) × (cpu < c + suc k) × IsHit irq c cpu
  IsHit-head {irq} {c} {i} {cpu} k e hit =
      let here : cpu ≡ c = ap (λ (p : ℕ × ℕ). p.1) e in
      (
        ap (λ (p : ℕ × ℕ). p.0) e,
        omega arith,
        omega arith,
        record {
          hits = subst (λ x. test irq x ≡ true) (sym here) hit;
          first = λ _ c' from below. absurd (omega arith);
        },
      )

  node_hits_sound :
      (irq c k i cpu : ℕ)
      → In (i, cpu) (node_hits irq c k)
      → (i ≡ irq) × (c ≤ cpu) × (cpu < c + k) × IsHit irq c cpu
  unfolding node_hits
  node_hits_sound irq c zero i cpu m = absurd m
  node_hits_sound irq c (suc k) i cpu m = elim (Bool-cases (test irq c)) [
    | inl hit ↦ elim (Bool-cases (leb 32 irq)) [
      | inl shared ↦ elim (rw (hit, shared) at m) [
        | inl e ↦ IsHit-head k e hit
        | inr none_left ↦ absurd none_left
      ]
      | inr low ↦ elim (rw (hit, low) at m) [
        | inl e ↦ IsHit-head k e hit
        | inr later ↦
            let (e, from, below, h) = node_hits_sound irq (suc c) k i cpu later in
            (e, omega arith, omega arith, IsHit-private (ground arith) h)
      ]
    ]
    | inr miss ↦
        let (e, from, below, h) = node_hits_sound irq (suc c) k i cpu (rw miss at m) in
        (e, omega arith, omega arith, IsHit-later miss h)
  ]

  -- The other way round.
  node_hits_complete :
      (irq c k cpu : ℕ)
      → c ≤ cpu
      → cpu < c + k
      → IsHit irq c cpu
      → In (irq, cpu) (node_hits irq c k)
  unfolding node_hits
  node_hits_complete irq c zero cpu from below h = absurd (omega arith)
  node_hits_complete irq c (suc k) cpu from below h = elim (ℕ_discrete c cpu) [
    | yes e ↦
        let hit : test irq c ≡ true = subst (λ x. test irq x ≡ true) (sym e) h.hits in
        let here : ◌≡◌ {A = ℕ × ℕ} (irq, cpu) (irq, c) = ap (λ x. (irq, x)) (sym e) in
        elim (Bool-cases (leb 32 irq)) [
          | inl shared ↦ rw (hit, shared) (inl here)
          | inr low ↦ rw (hit, low) (inl here)
        ]
    | no ne ↦
        let later : IsHit irq (suc c) cpu = record {
          hits = h.hits;
          first = λ s c' a b. h.first s c' (omega arith) b;
        } in
        let rest = node_hits_complete irq (suc c) k cpu (omega arith) (omega arith) later in
        elim (Bool-cases (test irq c)) [
          | inl hit ↦ elim (Bool-cases (leb 32 irq)) [
            | inl shared ↦
                let missed = h.first (ground arith) c (omega arith) (omega arith) in absurd (cc)
            | inr low ↦ rw (hit, low) (inr rest)
          ]
          | inr miss ↦ rw miss rest
        ]
  ]

  pub irq_hits_sound :
      (n irq k i cpu : ℕ)
      → In (i, cpu) (irq_hits n irq k)
      → (irq ≤ i) × (i < irq + k) × (cpu < n) × IsHit i 0 cpu
  unfolding irq_hits
  irq_hits_sound n irq zero i cpu m = absurd m
  irq_hits_sound n irq (suc k) i cpu m =
      elim (In-append (i, cpu) (node_hits irq 0 n) (irq_hits n (suc irq) k) m) [
        | inl here ↦
            let (e, from, below, h) = node_hits_sound irq 0 n i cpu here in
            (omega arith, omega arith, omega arith, subst (λ x. IsHit x 0 cpu) (sym e) h)
        | inr later ↦
            let (from, below, node, h) = irq_hits_sound n (suc irq) k i cpu later in
            (omega arith, omega arith, node, h)
      ]

  pub irq_hits_complete :
      (n irq k i cpu : ℕ)
      → irq ≤ i
      → i < irq + k
      → cpu < n
      → IsHit i 0 cpu
      → In (i, cpu) (irq_hits n irq k)
  unfolding irq_hits
  irq_hits_complete n irq zero i cpu from below node h = absurd (omega arith)
  irq_hits_complete n irq (suc k) i cpu from below node h = elim (ℕ_discrete irq i) [
    | yes e ↦
        In-append_left (i, cpu) (node_hits irq 0 n) (irq_hits n (suc irq) k)
          (subst (λ x. In (i, cpu) (node_hits x 0 n)) (sym e)
            (node_hits_complete i 0 n cpu (omega arith) (omega arith) h))
    | no ne ↦
        In-append_right (i, cpu) (node_hits irq 0 n) (irq_hits n (suc irq) k)
          (irq_hits_complete n (suc irq) k i cpu (omega arith) (omega arith) node h)
  ]

  -- A sweep whose test returns on all that it meets returns the hits.
  module _ (hits : ℕ → ℕ → Outcome IrqError Bool) where
    sweep_nodes_lem :
        (irq c k : ℕ)
        → ((cpu : ℕ) → cpu < c + k → hits irq cpu ≡ ok (test irq cpu))
        → sweep_nodes hits irq c k ≡ ok (node_hits irq c k)
    unfolding sweep_nodes node_hits
    sweep_nodes_lem irq c zero h = refl
    sweep_nodes_lem irq c (suc k) h =
        let rest = sweep_nodes_lem irq (suc c) k (λ cpu b. h cpu (omega arith)) in
        rw (h c (omega arith), rest)
          (elim (Bool-cases (test irq c)) [
            | inl hit ↦ elim (Bool-cases (leb 32 irq)) [
              | inl shared ↦ rw (hit, shared) refl
              | inr low ↦ rw (hit, low) refl
            ]
            | inr miss ↦ rw miss refl
          ])

    pub sweep_irqs_lem :
        (n irq k : ℕ)
        → ((i cpu : ℕ) → i < irq + k → cpu < n → hits i cpu ≡ ok (test i cpu))
        → sweep_irqs hits n irq k ≡ ok (irq_hits n irq k)
    unfolding sweep_irqs irq_hits
    sweep_irqs_lem n irq zero h = refl
    sweep_irqs_lem n irq (suc k) h =
        rw
          (
            sweep_nodes_lem irq 0 n (λ cpu b. h irq cpu (omega arith) (omega arith)),
            sweep_irqs_lem n (suc irq) k (λ i cpu a b. h i cpu (omega arith) b),
          )
          refl
