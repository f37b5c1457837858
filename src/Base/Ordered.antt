-- ===== src/Base/Ordered.antt =====
-- Maps in the order of their keys, and sums over their entries.
use Prim.Native.Nat.{ℕ, ◌+◌, ◌≤◌, ◌<◌}
use mathlib.Core.Path.{◌≡◌, refl, ap, subst}
use mathlib.Core.Bool.{false}
use mathlib.Core.Logic.{inl, inr}
use mathlib.Core.Option.{Option, none, some}
use mathlib.Core.List.{[], ◌∷◌}
use native.Mathlib.Omega.{arith}
use icecap.Base.Tests.{ltb, ◌==◌, Bool-cases, ltb→lt}
use icecap.Base.Maps.{Map, lookup, insert, remove}

module _ {V : Type 0} where
  -- All keys are above one.
  abbrev pub Above : ℕ → Map V → Type 0
  Above k [] = Unit
  Above k ((j, v) ∷ m) = (k < j) × Above k m

  abbrev pub IsOrdered : Map V → Type 0
  IsOrdered [] = Unit
  IsOrdered ((j, v) ∷ m) = Above j m × IsOrdered m

  Above-weaken : (k j : ℕ) (m : Map V) → k ≤ j → Above j m → Above k m
  Above-weaken k j [] h a = tt
  Above-weaken k j ((i, v) ∷ m) h a = (let b = a.0 in omega arith, Above-weaken k j m h a.1)

  pub lookup-Above : (k : ℕ) (m : Map V) → Above k m → lookup k m ≡ none
  lookup-Above k [] a = refl
  lookup-Above k ((j, v) ∷ m) a =
      let no : (j == k) ≡ false = let b = a.0 in ground arith in rw no (lookup-Above k m a.1)

  Above-insert : (i k : ℕ) (v : V) (m : Map V) → i < k → Above i m → Above i (insert k v m)
  Above-insert i k v [] h a = (h, tt)
  Above-insert i k v ((j, u) ∷ m) h a = elim (Bool-cases (ltb k j)) [
    | inl before ↦ rw before (h, a)
    | inr after ↦ elim (Bool-cases (j == k)) [
      | inl same ↦ rw (after, same) (h, a.1)
      | inr other ↦ rw (after, other) (a.0, Above-insert i k v m h a.1)
    ]
  ]

  pub insert-IsOrdered : (k : ℕ) (v : V) (m : Map V) → IsOrdered m → IsOrdered (insert k v m)
  insert-IsOrdered k v [] o = (tt, tt)
  insert-IsOrdered k v ((j, u) ∷ m) o = elim (Bool-cases (ltb k j)) [
    | inl before ↦
        let h : k < j = ltb→lt k j before in
        rw before ((h, Above-weaken k j m (omega arith) o.0), o)
    | inr after ↦ elim (Bool-cases (j == k)) [
      | inl same ↦
          let e : j ≡ k = ground arith in rw (after, same) (subst (λ i. Above i m) e o.0, o.1)
      | inr other ↦
          let h : j < k = ground arith in
          rw (after, other) (Above-insert j k v m h o.0, insert-IsOrdered k v m o.1)
    ]
  ]

  Above-remove : (i k : ℕ) (m : Map V) → Above i m → Above i (remove k m)
  Above-remove i k [] a = tt
  Above-remove i k ((j, u) ∷ m) a = elim (Bool-cases (j == k)) [
    | inl same ↦ rw same (Above-remove i k m a.1)
    | inr other ↦ rw other (a.0, Above-remove i k m a.1)
  ]

  pub remove-IsOrdered : (k : ℕ) (m : Map V) → IsOrdered m → IsOrdered (remove k m)
  remove-IsOrdered k [] o = tt
  remove-IsOrdered k ((j, u) ∷ m) o = elim (Bool-cases (j == k)) [
    | inl same ↦ rw same (remove-IsOrdered k m o.1)
    | inr other ↦ rw other (Above-remove j k m o.0, remove-IsOrdered k m o.1)
  ]

  module _ (f : ℕ → V → ℕ) where
    abbrev pub sum : Map V → ℕ
    sum [] = 0
    sum ((j, v) ∷ m) = f j v + sum m

    -- What the entry of a key adds.
    abbrev pub part : ℕ → Option V → ℕ
    part k none = 0
    part k (some v) = f k v

    pub sum-insert :
        (k : ℕ) (v : V) (m : Map V)
        → IsOrdered m
        → sum (insert k v m) + part k (lookup k m) ≡ f k v + sum m
    sum-insert k v [] o = omega arith
    sum-insert k v ((j, u) ∷ m) o = elim (Bool-cases (ltb k j)) [
      | inl before ↦
          let h : k < j = ltb→lt k j before in
          let no : (j == k) ≡ false = ground arith in
          let fresh : lookup k m ≡ none = lookup-Above k m (Above-weaken k j m (omega arith) o.0) in
          rw (before, no, fresh) (omega arith)
      | inr after ↦ elim (Bool-cases (j == k)) [
        | inl same ↦
            let e : j ≡ k = ground arith in
            let part_same : f j u ≡ f k u = ap (λ i. f i u) e in rw (after, same) (omega arith)
        | inr other ↦ let rest = sum-insert k v m o.1 in rw (after, other) (omega arith)
      ]
    ]

    pub sum-remove :
        (k : ℕ) (m : Map V) → IsOrdered m → sum (remove k m) + part k (lookup k m) ≡ sum m
    sum-remove k [] o = omega arith
    sum-remove k ((j, u) ∷ m) o = elim (Bool-cases (j == k)) [
      | inl same ↦
          let e : j ≡ k = ground arith in
          let part_same : f j u ≡ f k u = ap (λ i. f i u) e in
          let rest = sum-remove k m o.1 in
          let fresh : part k (lookup k m) ≡ 0 =
            ap (part k) (lookup-Above k m (subst (λ i. Above i m) e o.0)) in
          rw same (omega arith)
      | inr other ↦ let rest = sum-remove k m o.1 in rw other (omega arith)
    ]
