-- ===== src/Realize/CRegion/Slots.antt =====
-- cregion/set.rs and cregion/mod.rs: `alloc` and `free` by the slots that are in use.
use icecap.Base.{
  ℕ, suc, ◌-◌, ◌<◌, ◌==◌, ==_iff, ==_refl, ◌≡◌, refl, sym, ap, ◌∙◌, subst, if◌then◌else◌, Bool,
  true, false, Bool-cases, inl, inr, [], ◌∷◌, Option, some, none, lookup, insert, lookup-insert,
  IsOrdered, Above, lookup-Above, arith, ok,
}
use icecap.Realize.CRegion.{CRegion, Set, Search, fresh, search, withdraw, mark, alloc, free}

-- The first key of a slot that is not in use.
abbrev first_free : Set → Option ℕ
first_free [] = none
first_free ((key, used) ∷ elements) = if used then first_free elements else some key

abbrev found : Option ℕ → Search
found none = fresh
found (some key) = record {
  num_found = 1;
  low = key;
  high = key;
  building_range = true;
  found_range = true;
}

search-found : (m : Set) → search 1 fresh m ≡ found (first_free m)
search-found [] = refl
search-found ((key, true) ∷ m) = search-found m
search-found ((key, false) ∷ m) = refl

-- The lowest slot that is not in use, or none if there is no such slot.
abbrev pub Lowest : Set → Option ℕ → Type 0
Lowest m none = (j : ℕ) → ¬ (lookup j m ≡ some false)
Lowest m (some key) =
    (lookup key m ≡ some false) × ((j : ℕ) → j < key → ¬ (lookup j m ≡ some false))

first_free-Lowest : (m : Set) → IsOrdered m → Lowest m (first_free m)
first_free-Lowest [] o = λ j e. cc
first_free-Lowest ((key, false) ∷ m) o = (
  rw (==_refl key) refl,
  λ j below e.
      let no : (key == j) ≡ false = ground arith in
      let absent : lookup j m ≡ none = lookup-Above j m (Above-le j key m below o.0) in
      let clash : none ≡ some false = sym absent ∙ rw no at e in cc,
)
  where
    Above-le : (j k : ℕ) (m : Set) → j < k → Above k m → Above j m
    Above-le j k [] h a = tt
    Above-le j k ((i, v) ∷ m) h a = (let b = a.0 in omega arith, Above-le j k m h a.1)
first_free-Lowest ((key, true) ∷ m) o = go (first_free m) (first_free-Lowest m o.1)
  where
    passed : (j : ℕ) → ¬ (lookup j m ≡ some false) → ¬ (lookup j ((key, true) ∷ m) ≡ some false)
    passed j h e = elim (Bool-cases (key == j)) [
      | inl same ↦ let clash : ◌≡◌ {A = Option Bool} (some true) (some false) = rw same at e in cc
      | inr other ↦ h (rw other at e)
    ]

    go : (r : Option ℕ) → Lowest m r → Lowest ((key, true) ∷ m) r
    go none h = λ j. passed j (h j)
    go (some k) h = (
      elim (Bool-cases (key == k)) [
        | inl same ↦
            let e : key ≡ k = (==_iff key k).0 same in
            let absent : lookup k m ≡ none = lookup-Above k m (subst (λ i. Above i m) e o.0) in
            let clash : none ≡ some false = sym absent ∙ h.0 in cc
        | inr other ↦ rw other h.0
      ],
      λ j below. passed j (h.1 j below),
    )

-- The slot is in use, and the others are as they were.
abbrev pub Marked : Set → Option ℕ → Set → Type 0
Marked m none m' = m' ≡ m
Marked m (some key) m' = (j : ℕ) → lookup j m' ≡ (if key == j then some true else lookup j m)

-- The slot can be freed, and then every slot is as it was before.
abbrev pub Restored : Type 0 → CRegion → Option ℕ → CRegion → Type 0
Restored E r none r' = Unit
Restored E r (some key) r' =
    (r'' : CRegion) × (free {E = E} r' key ≡ ok r'') × ((j : ℕ) → lookup j r''.set ≡ lookup j r.set)

module _ (E : Type 0) where
  mark-one :
      (key : ℕ) (m : Set)
      → lookup key m ≡ some false
      → mark {E = E} (suc key - key) key m ≡ ok (insert key true m)
  mark-one key m e = let one : suc key - key ≡ 1 = omega arith in rw (one, e) refl

  freed_lookup :
      (key j : ℕ) (m : Set)
      → lookup key m ≡ some false
      → lookup j (insert key false (insert key true m)) ≡ lookup j m
  freed_lookup key j m e =
      rw (lookup-insert (insert key true m) key j false) (elim (Bool-cases (key == j)) [
        | inl same ↦
            let here : lookup j m ≡ some false =
              ap (λ i. lookup i m) (sym ((==_iff key j).0 same)) ∙ e in
            rw (same, here) refl
        | inr other ↦ rw other (lookup-insert m key j true ∙ rw other refl)
      ])

  free-marked :
      (r : CRegion) (key : ℕ)
      → lookup key r.set ≡ some false
      → Restored E r (some key) (record r { set = insert key true r.set })
  unfolding free
  free-marked r key e =
      let used : lookup key (insert key true r.set) ≡ some true =
        lookup-insert r.set key key true ∙ rw (==_refl key) refl in
      (
        record r { set = insert key false (insert key true r.set) },
        rw used refl,
        λ j. freed_lookup key j r.set e,
      )

  -- `alloc` returns, on a region whose map is in order, without a panic: the lowest slot that is not in
  -- use, which it marks and no other, or none, and the region as it was, if all are in use. When the slot
  -- is freed again, which does not panic, every slot is as it was before.
  pub alloc-free :
      (r : CRegion)
      → IsOrdered r.set
      → (out : Option ℕ × CRegion) × (alloc {E = E} r ≡ ok out)
        × Lowest r.set out.0
        × Marked r.set out.0 out.1.set
        × Restored E r out.0 out.1
  unfolding alloc withdraw
  alloc-free r o = go (first_free r.set) (first_free-Lowest r.set o) (search-found r.set)
    where
      go :
          (k : Option ℕ)
          → Lowest r.set k
          → search 1 fresh r.set ≡ found k
          → (out : Option ℕ × CRegion) × (alloc {E = E} r ≡ ok out)
            × Lowest r.set out.0
            × Marked r.set out.0 out.1.set
            × Restored E r out.0 out.1
      go none h e = ((none, r), rw e refl, h, refl, tt)
      go (some key) h e = (
        (some key, record r { set = insert key true r.set }),
        rw e (rw (mark-one key r.set h.0) refl),
        h,
        (λ j. lookup-insert r.set key j true),
        free-marked r key h.0,
      )
