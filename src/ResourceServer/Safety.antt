-- ===== src/ResourceServer/Safety.antt =====
-- core/src/lib.rs: the records of where a virtual node is placed and of what a physical node was given to,
-- before and after each operation.
use icecap.Base.{
  ℕ, ◌==◌, ◌≡◌, refl, sym, ap, ◌∙◌, inl, inr, if◌then◌else◌, ◌&&◌, true, false, Bool-cases, ==_iff,
  and-true, List, get_elem?, set, Option, some, none, lookup, Outcome, ok, Ensures, returns,
  Ensures-bind, Ensures-then, index-Ensures, unwrap-Ensures, assert-Ensures, assert,
}
use icecap.ResourceServer.{
  Services, Realm, ResourceServer, VirtualNode, is_none, yield_to, host_event, timeout,
  schedule_all, evict_if, place,
}
use icecap.ResourceServer.Assignment.{home, guest, home-place, guest-set, joined}

-- A virtual node that believes it runs on a physical node is the one that this node was given to.
abbrev pub IsConsistent : {W P S : Type 0} → ResourceServer W P S → Type 0
IsConsistent s = (r v p : ℕ) → home s r v ≡ some p → guest s p ≡ some (r, v)

-- The same, of the two assignments as functions.
abbrev Agree : (ℕ → ℕ → Option ℕ) → (ℕ → Option (ℕ × ℕ)) → Type 0
Agree h g = (r v p : ℕ) → h r v ≡ some p → g p ≡ some (r, v)

abbrev moved : (ℕ → ℕ → Option ℕ) → ℕ → ℕ → Option ℕ → ℕ → ℕ → Option ℕ
moved h r i x r' i' = if r == r' && i == i' then x else h r' i'

abbrev given : (ℕ → Option (ℕ × ℕ)) → ℕ → Option (ℕ × ℕ) → ℕ → Option (ℕ × ℕ)
given g p x p' = if p == p' then x else g p'

pair_test : (r i r' i' : ℕ) → (r == r' && i == i') ≡ true → (r ≡ r') × (i ≡ i')
pair_test r i r' i' h =
    let both = and-true (r == r') (i == i') h in ((==_iff r r').0 both.0, (==_iff i i').0 both.1)

pair_same : (r i r' i' : ℕ) → r ≡ r' → i ≡ i' → (r == r' && i == i') ≡ true
pair_same r i r' i' e f =
    let first : (r == r') ≡ true = (==_iff r r').1 e in
    let second : (i == i') ≡ true = (==_iff i i').1 f in rw (first, second) refl

pub some-injective : {A : Type 0} {a b : A} → ◌≡◌ {A = Option A} (some a) (some b) → a ≡ b
some-injective e = cc

module _ (h : ℕ → ℕ → Option ℕ) (g : ℕ → Option (ℕ × ℕ)) (v : Agree h g) where
  -- A free physical node is given to a virtual one.
  Agree-assign : (p r i : ℕ) → g p ≡ none → Agree (moved h r i (some p)) (given g p (some (r, i)))
  Agree-assign p r i free r' i' p' e = elim (Bool-cases (r == r' && i == i')) [
    | inl same ↦
        let both = pair_test r i r' i' same in
        let here : p ≡ p' = some-injective (rw same at e) in
        let test : (p == p') ≡ true = (==_iff p p').1 here in rw test (rw (both.0, both.1) refl)
    | inr other ↦
        let old : g p' ≡ some (r', i') = v r' i' p' (rw other at e) in
        elim (Bool-cases (p == p')) [
          | inl here ↦
              let clash : g p ≡ some (r', i') = ap g ((==_iff p p').0 here) ∙ old in
              absurd (none≢some (sym free ∙ clash))
          | inr there ↦ rw there old
        ]
  ]
    where
      none≢some : {a : ℕ × ℕ} → ◌≡◌ {A = Option (ℕ × ℕ)} none (some a) → ⊥
      none≢some x = cc

  -- The virtual node that a physical node was given to is taken off.
  Agree-evict : (p r i : ℕ) → g p ≡ some (r, i) → Agree (moved h r i none) (given g p none)
  Agree-evict p r i held r' i' p' e = elim (Bool-cases (r == r' && i == i')) [
    | inl same ↦ let no : none ≡ some p' = rw same at e in cc
    | inr other ↦
        let old : g p' ≡ some (r', i') = v r' i' p' (rw other at e) in
        elim (Bool-cases (p == p')) [
          | inl here ↦
              let clash : ◌≡◌ {A = Option (ℕ × ℕ)} (some (r, i)) (some (r', i')) =
                sym held ∙ (ap g ((==_iff p p').0 here) ∙ old) in
              let pairs : ◌≡◌ {A = ℕ × ℕ} (r, i) (r', i') = some-injective clash in
              let same : (r == r' && i == i') ≡ true =
                pair_same r i r' i' (ap (λ x. x.0) pairs) (ap (λ x. x.1) pairs) in
              let no : true ≡ false = sym same ∙ other in cc
          | inr there ↦ rw there old
        ]
  ]

module _ {E W P S : Type 0} (ops : Services E W P S) (cores : ℕ) (s : ResourceServer W P S) where
  -- A node that was found is placed, with a table of physical nodes that is read as `g`.
  Placed-agrees :
      (w : W) (r i : ℕ) (realm : Realm S) (n : VirtualNode) (x : Option ℕ)
      (nodes : List (Option (ℕ × ℕ))) (g : ℕ → Option (ℕ × ℕ))
      → lookup r s.realms ≡ some realm
      → get_elem? realm.virtual_nodes i ≡ some n
      → ((q : ℕ) → joined (get_elem? nodes q) ≡ g q)
      → Agree (moved (home s) r i x) g
      → IsConsistent
          (record s { world = w; physical_nodes = nodes; realms = place ops cores s r realm i n x })
  Placed-agrees w r i realm n x nodes g e e' f v r' j p h =
      f p ∙ v r' j p (sym (home-place s.realms r i r' j realm n x e e') ∙ h)

  pub yield_to-Ensures :
      (p r i : ℕ) (limit : Option ℕ)
      → IsConsistent s
      → Ensures IsConsistent (yield_to ops cores s p r i limit)
  unfolding yield_to
  yield_to-Ensures p r i limit v = Ensures-then (ops.save_caller s.world p) (λ w0.
      Ensures-bind (index-Ensures s.physical_nodes p) (λ current found.
        Ensures-bind (assert-Ensures (is_none current)) (λ _ free.
          Ensures-bind (unwrap-Ensures (lookup r s.realms)) (λ realm at_realm.
            Ensures-bind (index-Ensures realm.virtual_nodes i) (λ n at_node.
              Ensures-then (assert (is_none n.physical_node)) (λ _.
                Ensures-then (schedule_all ops cores w0 n.tcbs (some p)) (λ w1.
                  Ensures-then (ops.subscribe w1 p) (λ w2. Ensures-then (with_limit w2) (λ w3.
                    returns (
                      Placed-agrees w3 r i realm n (some p) (set s.physical_nodes p (some (r, i)))
                        (given (guest s) p (some (r, i))) at_realm at_node
                        (λ q. guest-set s.physical_nodes p q current (some (r, i)) found)
                        (Agree-assign (home s) (guest s) v p r i
                          (ap joined found ∙ none_of current free))))))))))))
    where
      with_limit : W → Outcome E W
      with_limit w = elim limit as (λ t. Outcome E W) [
        | none ↦ ok w
        | some ns ↦ ops.oneshot_relative w p ns
      ]

      none_of : (o : Option (ℕ × ℕ)) → is_none o ≡ true → ◌≡◌ {A = Option (ℕ × ℕ)} o none
      none_of none h = refl
      none_of (some a) h = cc

  evict_if-Ensures :
      (p : ℕ) (current : Option (ℕ × ℕ)) (finish : W → Outcome E W)
      → get_elem? s.physical_nodes p ≡ some current
      → IsConsistent s
      → Ensures IsConsistent (evict_if ops cores s p current finish)
  evict_if-Ensures p none finish found v = returns v
  evict_if-Ensures p (some (r, i)) finish found v =
      Ensures-bind (unwrap-Ensures (lookup r s.realms)) (λ realm at_realm.
        Ensures-bind (index-Ensures realm.virtual_nodes i) (λ n at_node.
          Ensures-then (schedule_all ops cores s.world n.tcbs none) (λ w1.
            Ensures-then (finish w1) (λ w2. returns (
              Placed-agrees w2 r i realm n none (set s.physical_nodes p none)
                (given (guest s) p none) at_realm at_node
                (λ q. guest-set s.physical_nodes p q (some (r, i)) none found)
                (Agree-evict (home s) (guest s) v p r i (ap joined found)))))))

  pub host_event-Ensures :
      (p : ℕ) → IsConsistent s → Ensures IsConsistent (host_event ops cores s p)
  unfolding host_event
  host_event-Ensures p v =
      Ensures-bind (index-Ensures s.physical_nodes p)
        (λ current found. evict_if-Ensures p current _ found v)

  pub timeout-Ensures : (p : ℕ) → IsConsistent s → Ensures IsConsistent (timeout ops cores s p)
  unfolding timeout
  timeout-Ensures p v =
      Ensures-bind (index-Ensures s.physical_nodes p)
        (λ current found. evict_if-Ensures p current _ found v)
