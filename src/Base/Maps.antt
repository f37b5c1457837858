-- ===== src/Base/Maps.antt =====
-- A `BTreeMap` with numbers for keys: its entries in the order of the keys.
use Prim.Native.Nat.{ℕ}
use mathlib.Core.Path.{◌≡◌, refl}
use mathlib.Core.Logic.{inl, inr}
use mathlib.Core.Bool.{Bool, true, false}
use mathlib.Core.List.{List, [], ◌∷◌}
use mathlib.Core.Option.{Option, none, some}
use native.Mathlib.Omega.{arith}
use icecap.Base.Tests.{ltb, ◌==◌, if◌then◌else◌, ==_iff, Bool-cases}

abbrev pub Map {ℓ} : Type ℓ → Type ℓ
Map V = List (ℕ × V)

module _ {ℓ} {V : Type ℓ} where
  abbrev pub lookup : ℕ → Map V → Option V
  lookup k [] = none
  lookup k ((j, v) ∷ m) = if j == k then some v else lookup k m

  abbrev pub insert : ℕ → V → Map V → Map V
  insert k v [] = (k, v) ∷ []
  insert k v ((j, u) ∷ m) =
      if ltb k j then (k, v) ∷ (j, u) ∷ m else if j == k then (k, v) ∷ m else (j, u) ∷ insert k v m

  abbrev pub remove : ℕ → Map V → Map V
  remove k [] = []
  remove k ((j, u) ∷ m) = if j == k then remove k m else (j, u) ∷ remove k m

  abbrev pub keys : Map V → List ℕ
  keys [] = []
  keys ((j, v) ∷ m) = j ∷ keys m

module _ {ℓ} {V : Type ℓ} where
  pub lookup-insert :
      (m : Map V) (k i : ℕ) (v : V)
      → lookup i (insert k v m) ≡ (if k == i then some v else lookup i m)
  lookup-insert [] k i v = refl
  lookup-insert ((j, u) ∷ m) k i v = elim (Bool-cases (ltb k j)) [
    | inl before ↦ rw before refl
    | inr after ↦ elim (Bool-cases (j == k)) [
      | inl same ↦ let e : j ≡ k = (==_iff j k).0 same in rw (after, same) (rw e (ground arith))
      | inr other ↦
          rw (after, other)
            (rw (lookup-insert m k i v) (exchanged (j == i) (k == i) (ground arith)))
    ]
  ]
    where
      exchanged :
          (a b : Bool)
          → (a ≡ true → b ≡ false)
          → (if a then some u else (if b then some v else lookup i m))
            ≡ (if b then some v else (if a then some u else lookup i m))
      exchanged true true h = let e : true ≡ false = h refl in cc
      exchanged true false h = refl
      exchanged false b h = refl

  pub lookup-remove :
      (m : Map V) (k i : ℕ) → lookup i (remove k m) ≡ (if k == i then none else lookup i m)
  lookup-remove [] k i = ground arith
  lookup-remove ((j, u) ∷ m) k i = elim (Bool-cases (j == k)) [
    | inl same ↦ rw same (rw (lookup-remove m k i) (drop_it (j == i) (k == i) (ground arith)))
    | inr other ↦ rw other (rw (lookup-remove m k i) (exchanged (j == i) (k == i) (ground arith)))
  ]
    where
      drop_it :
          (a b : Bool)
          → (a ≡ b)
          → (if b then none else lookup i m)
            ≡ (if b then none else (if a then some u else lookup i m))
      drop_it true true h = refl
      drop_it true false h = cc
      drop_it false b h = refl

      exchanged :
          (a b : Bool)
          → (a ≡ true → b ≡ false)
          → (if a then some u else (if b then none else lookup i m))
            ≡ (if b then none else (if a then some u else lookup i m))
      exchanged true true h = let e : true ≡ false = h refl in cc
      exchanged true false h = refl
      exchanged false b h = refl
