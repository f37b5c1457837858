-- ===== src/Gic/Distributor/WellFormed/Reset.antt =====
-- `Distributor::new`: the state of the distributor at the start.
use icecap.Base.{
  ℕ, zero, suc, ◌+◌, ◌-◌, ◌/◌, ◌%◌, ◌<◌, ◌≤◌, ◌≡◌, refl, inl, inr, true, false, Bool-cases, ◌||◌,
  ltb, ◌==◌, all_below, all_below_lem, agree, agree_lem, List, [], ◌∷◌, map, length,
  length-replicate, replicate, get_or, get_or-replicate, arith, ok, ◌>>=◌, get_elem?, set,
  Option-cases, ◌++◌, ◌∙◌, length-map, map-replicate,
}
use icecap.Base.Bits.{test_bit, test_bit-zero}
use icecap.Gic.Distributor.{Distributor, blank, new, reset, reset_targets0, bank_target, store_each}
use icecap.Gic.Distributor.Lines.{byte_of}
use icecap.Gic.Distributor.Lines.Banks.{line}
use icecap.Gic.Distributor.Lines.Effects.{enabled_line, pending_line, active_line}
use icecap.Gic.Distributor.Lines.Inject.{injectable, target_line}
use icecap.Gic.Distributor.WellFormed.{IsWellFormed}

store_each-cons :
    (k i v x : ℕ) (xs : List ℕ)
    → store_each (suc i) k v (x ∷ xs) ≡ (store_each i k v xs >>= λ ys. ok (x ∷ ys))
store_each-cons zero i v x xs = refl
store_each-cons (suc k) i v x xs = elim (Option-cases (get_elem? xs i)) [
  | inl e ↦ rw e refl
  | inr e ↦ rw e.1 (store_each-cons k (suc i) v x (set xs i v))
]

-- The stores to all banks of a controller of `n` nodes.
store_each-all : (n v w : ℕ) → store_each 0 n v (replicate n w) ≡ ok (replicate n v)
store_each-all zero v w = refl
store_each-all (suc n) v w = rw (store_each-cons n 0 v v (replicate n w), store_each-all n v w) refl

-- The state of a distributor of `n` nodes after its reset.
abbrev pub fresh : ℕ → Distributor
fresh n = record (blank n) {
  ic_type = 0x0000fce7;
  dist_ident = 0x0200043b;
  enable0 = replicate n 0x0000ffff;
  config0 = 0xaaaaaaaa;
  config1 = replicate n 0x55540000;
  config = replicate 14 0x55555555 ++ replicate 48 0;
  targets0 = reset_targets0 0 (replicate n (replicate 8 0));
  targets = replicate 247 0x01010101;
  periph_id = 0 ∷ 0 ∷ 0 ∷ 0 ∷ 0x04 ∷ 0 ∷ 0 ∷ 0 ∷ 0x90 ∷ 0xb4 ∷ 0x2b ∷ 0 ∷ [];
  component_id = 0x0d ∷ 0xf0 ∷ 0x05 ∷ 0xb1 ∷ [];
}

pub new-fresh : (n : ℕ) → new n ≡ ok (fresh n)
unfolding new reset
new-fresh n =
    rw
      (
        store_each-all n 0x0000ffff 0,
        store_each-all n 0x55540000 0,
        map-replicate {B = ℕ} (λ (_ : ℕ). 0x01010101) 247 0,
      )
      refl

lengths-reset_targets0 :
    (idx : ℕ) (xss : List (List ℕ)) → map length (reset_targets0 idx xss) ≡ map length xss
lengths-reset_targets0 idx [] = refl
lengths-reset_targets0 idx (xs ∷ xss) =
    rw (length-map (λ _. bank_target idx) xs, lengths-reset_targets0 (suc idx) xss) refl

pub fresh-IsWellFormed : (n : ℕ) → n ≤ 8 → IsWellFormed (fresh n)
fresh-IsWellFormed n h = record {
  few_nodes = h;
  length_irq_group0 = length-replicate n 0;
  length_irq_group = refl;
  length_enable0 = length-replicate n 0x0000ffff;
  length_enable = refl;
  length_pending0 = length-replicate n 0;
  length_pending = refl;
  length_active0 = length-replicate n 0;
  length_active = refl;
  length_priority = refl;
  length_targets = refl;
  length_config1 = length-replicate n 0x55540000;
  length_config = refl;
  length_periph_id = refl;
  length_component_id = refl;
  rows_priority0 = map-replicate length n (replicate 8 0);
  rows_targets0 =
      lengths-reset_targets0 0 (replicate n (replicate 8 0))
      ∙ map-replicate length n (replicate 8 0);
  rows_sgi_pending = map-replicate length n (replicate 4 0);
}

module _ {n : ℕ} (irq cpu : ℕ) (hc : cpu < n) where
  no_line : test_bit 0 (irq % 32) ≡ false
  no_line = test_bit-zero (irq % 32)

  blank_line : irq < 1024 → line (replicate n 0) (replicate 31 0) irq cpu ≡ false
  blank_line hi = elim (Bool-cases (ltb irq 32)) [
    | inl low ↦ rw (low, get_or-replicate {A = ℕ} n 0 cpu 0 hc) no_line
    | inr high ↦ rw (high, get_or-replicate {A = ℕ} 31 0 (irq / 32 - 1) 0 (ground arith)) no_line
  ]

  first_bits : (s : ℕ) → s < 32 → test_bit 0xffff s ≡ ltb s 16
  first_bits s hs =
      agree_lem (test_bit 0xffff s) (ltb s 16)
        (all_below_lem 32 (λ k. agree (test_bit 0xffff k) (ltb k 16)) s refl hs)

  fresh_enabled : irq < 1024 → line (replicate n 0xffff) (replicate 31 0) irq cpu ≡ ltb irq 16
  fresh_enabled hi = elim (Bool-cases (ltb irq 32)) [
    | inl low ↦
        let same : ltb (irq % 32) 16 ≡ ltb irq 16 = ground arith in
        rw (low, get_or-replicate {A = ℕ} n 0xffff cpu 0 hc)
          (first_bits (irq % 32) (omega arith) ∙ same)
    | inr high ↦
        let above : ltb irq 16 ≡ false = ground arith in
        rw (high, get_or-replicate {A = ℕ} 31 0 (irq / 32 - 1) 0 (ground arith), above) no_line
  ]

-- The registers of each node's own targets.
get_or-reset_targets0 :
    (xss : List (List ℕ)) (idx i : ℕ)
    → i < length xss
    → get_or (reset_targets0 idx xss) i [] ≡ map (λ _. bank_target (idx + i)) (get_or xss i [])
get_or-reset_targets0 [] idx i h = elim h [ ]
get_or-reset_targets0 (xs ∷ xss) idx zero h = let same : idx + 0 ≡ idx = omega arith in rw same refl
get_or-reset_targets0 (xs ∷ xss) idx (suc i) h =
    let same : idx + suc i ≡ suc idx + i = omega arith in
    rw same (get_or-reset_targets0 xss (suc idx) i (omega arith))

own_target : (cpu b : ℕ) → cpu < 8 → b < 4 → test_bit (byte_of (bank_target cpu) b) cpu ≡ true
own_target cpu b hc hb =
    all_below_lem 4 (λ k. test_bit (byte_of (bank_target cpu) k) cpu) b
      (all_below_lem 8 (λ c. all_below 4 (λ k. test_bit (byte_of (bank_target c) k) c)) cpu refl hc)
      hb

first_target : (cpu b : ℕ) → cpu < 8 → b < 4 → test_bit (byte_of 0x01010101 b) cpu ≡ (cpu == 0)
first_target cpu b hc hb = agree_lem _ _ (
    all_below_lem 4 (λ k. agree (test_bit (byte_of 0x01010101 k) cpu) (cpu == 0)) b
      (all_below_lem 8 (λ c. all_below 4 (λ k. agree (test_bit (byte_of 0x01010101 k) c) (c == 0)))
        cpu refl hc)
      hb)

module _ {n : ℕ} (few : n ≤ 8) (irq cpu : ℕ) (hi : irq < 1020) (hc : cpu < n) where
  fresh_target : target_line (fresh n) irq cpu ≡ (ltb irq 32 || cpu == 0)
  fresh_target = elim (Bool-cases (ltb irq 32)) [
    | inl low ↦
        let rows : length {A = List ℕ} (replicate n (replicate 8 0)) ≡ n =
          length-replicate n (replicate 8 0) in
        let byte : irq % 4 % 4 ≡ irq % 4 = omega arith in
        let counted : 0 + cpu ≡ cpu = omega arith in
        rw
          (
            low,
            get_or-reset_targets0 (replicate n (replicate 8 0)) 0 cpu (omega (arith, rows)),
            get_or-replicate {A = List ℕ} n (replicate 8 0) cpu [] hc,
          )
          (rw
            (
              map-replicate {B = ℕ} (λ (_ : ℕ). bank_target (0 + cpu)) 8 0,
              get_or-replicate {A = ℕ} 8 (bank_target (0 + cpu)) (irq / 4) 0 (ground arith),
              counted,
            )
            (rw byte at (own_target cpu (irq % 4) (omega arith) (omega arith))))
    | inr high ↦
        let byte : irq % 4 % 4 ≡ irq % 4 = omega arith in
        rw (high, get_or-replicate {A = ℕ} 247 0x01010101 (irq / 4 - 8) 0 (ground arith))
          (rw byte at (first_target cpu (irq % 4) (omega arith) (omega arith)))
  ]

-- A new distributor of up to eight nodes is well formed and off. Just the software-generated
-- interrupts are enabled; the private interrupts of a node target that node, the shared ones CPU 0;
-- none is pending, active or to be injected.
pub new_lem :
    (n irq cpu : ℕ)
    → n ≤ 8
    → irq < 1020
    → cpu < n
    → (d : Distributor) × (new n ≡ ok d)
      × IsWellFormed d
      × (d.num_nodes ≡ n)
      × (d.control ≡ 0)
      × (enabled_line d irq cpu ≡ ltb irq 16)
      × (target_line d irq cpu ≡ (ltb irq 32 || cpu == 0))
      × (pending_line d irq cpu ≡ false)
      × (active_line d irq cpu ≡ false)
      × (injectable d irq cpu ≡ false)
new_lem n irq cpu few hi hc = (
  fresh n,
  new-fresh n,
  fresh-IsWellFormed n few,
  refl,
  refl,
  fresh_enabled irq cpu hc (omega arith),
  fresh_target few irq cpu hi hc,
  blank_line irq cpu hc (omega arith),
  blank_line irq cpu hc (omega arith),
  refl,
)
