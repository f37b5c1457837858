-- ===== src/TimerServer/Sorted.antt =====
-- server.rs, `Timers`: the list of outstanding timers by their times.
use icecap.Base.{
  ℕ, ◌+◌, ◌≤◌, ◌≡◌, refl, sym, ap, ◌∙◌, if◌then◌else◌, Bool, true, Bool-cases, List, [], ◌∷◌, ◌++◌,
  take, drop, take-drop_join, All, arith, subst, ℤ, leℤ, leℤ-trans, inl, inr,
}
use icecap.TimerServer.{Timer, insert_timer, kept, is_timer}

abbrev NoLater : ℤ → List Timer → Type 0
NoLater c ts = All (λ t. leℤ t.compare c ≡ true) ts

abbrev pub NoSooner : ℤ → List Timer → Type 0
NoSooner c ts = All (λ t. leℤ c t.compare ≡ true) ts

abbrev pub IsSorted : List Timer → Type 0
IsSorted [] = Unit
IsSorted (t ∷ ts) = NoSooner t.compare ts × IsSorted ts

-- How many of the timers are that of a client.
abbrev pub count_of : ℕ → ℤ → List Timer → ℕ
count_of cid tid [] = 0
count_of cid tid (t ∷ ts) = (if is_timer cid tid t then 1 else 0) + count_of cid tid ts

abbrev pub IsUnique : List Timer → Type 0
IsUnique ts = (cid : ℕ) (tid : ℤ) → count_of cid tid ts ≤ 1

-- What `binary_search` promises of a sorted slice: no timer before the index is later, and none from it
-- on is sooner.
abbrev pub IsSearch : (List Timer → Timer → ℕ) → Type 0
IsSearch search =
    (ts : List Timer) (t : Timer)
    → IsSorted ts
    → NoLater t.compare (take (search ts t) ts) × NoSooner t.compare (drop (search ts t) ts)

All-append : {A : Type 0} (P : A → Type 0) (xs ys : List A) → All P xs → All P ys → All P (xs ++ ys)
All-append P [] ys h k = k
All-append P (x ∷ xs) ys h k = (h.0, All-append P xs ys h.1 k)

All-split : {A : Type 0} (P : A → Type 0) (xs ys : List A) → All P (xs ++ ys) → All P xs × All P ys
All-split P [] ys h = (tt, h)
All-split P (x ∷ xs) ys h = let r = All-split P xs ys h.1 in ((h.0, r.0), r.1)

IsSorted-middle :
    (before after : List Timer) (t : Timer)
    → IsSorted (before ++ after)
    → NoLater t.compare before
    → NoSooner t.compare after
    → IsSorted (before ++ (t ∷ after))
IsSorted-middle [] after t s h k = (k, s)
IsSorted-middle (b ∷ before) after t s h k =
    let parts = All-split (λ u. leℤ b.compare u.compare ≡ true) before after s.0 in
    (
      All-append (λ u. leℤ b.compare u.compare ≡ true) before (t ∷ after) parts.0 (h.0, parts.1),
      IsSorted-middle before after t s.1 h.1 k,
    )

count_of-append :
    (cid : ℕ) (tid : ℤ) (xs ys : List Timer)
    → count_of cid tid (xs ++ ys) ≡ count_of cid tid xs + count_of cid tid ys
count_of-append cid tid [] ys = omega arith
count_of-append cid tid (x ∷ xs) ys = let rest = count_of-append cid tid xs ys in omega arith

module _ (search : List Timer → Timer → ℕ) (ts : List Timer) (t : Timer) where
  pub insert_timer-IsSorted : IsSearch search → IsSorted ts → IsSorted (insert_timer search ts t)
  insert_timer-IsSorted f s =
      let parts = f ts t s in
      IsSorted-middle (take (search ts t) ts) (drop (search ts t) ts) t
        (subst IsSorted (sym (take-drop_join (search ts t) ts)) s) parts.0 parts.1

  pub count_of-insert_timer :
      (cid : ℕ) (tid : ℤ)
      → count_of cid tid (insert_timer search ts t)
        ≡ (if is_timer cid tid t then 1 else 0) + count_of cid tid ts
  count_of-insert_timer cid tid =
      let front = take (search ts t) ts in
      let back = drop (search ts t) ts in
      let whole : count_of cid tid ts ≡ count_of cid tid front + count_of cid tid back =
        ap (count_of cid tid) (sym (take-drop_join (search ts t) ts))
        ∙ count_of-append cid tid front back in
      let split : count_of cid tid (front ++ (t ∷ back))
          ≡ count_of cid tid front + count_of cid tid (t ∷ back) =
        count_of-append cid tid front (t ∷ back) in
      omega arith

module _ (p : Timer → Bool) where
  kept-All : (P : Timer → Type 0) (ts : List Timer) → All P ts → All P (kept p ts)
  kept-All P [] h = tt
  kept-All P (t ∷ ts) h = elim (Bool-cases (p t)) [
    | inl out ↦ rw out (kept-All P ts h.1)
    | inr stays ↦ rw stays (h.0, kept-All P ts h.1)
  ]

  pub kept-IsSorted : (ts : List Timer) → IsSorted ts → IsSorted (kept p ts)
  kept-IsSorted [] s = tt
  kept-IsSorted (t ∷ ts) s = elim (Bool-cases (p t)) [
    | inl out ↦ rw out (kept-IsSorted ts s.1)
    | inr stays ↦
        rw stays (kept-All (λ u. leℤ t.compare u.compare ≡ true) ts s.0, kept-IsSorted ts s.1)
  ]

  pub count_of-kept_le :
      (cid : ℕ) (tid : ℤ) (ts : List Timer) → count_of cid tid (kept p ts) ≤ count_of cid tid ts
  count_of-kept_le cid tid [] = omega arith
  count_of-kept_le cid tid (t ∷ ts) = elim (Bool-cases (p t)) [
    | inl out ↦ let h = count_of-kept_le cid tid ts in rw out (omega arith)
    | inr stays ↦ let h = count_of-kept_le cid tid ts in rw stays (omega arith)
  ]

pub count_of-kept :
    (cid : ℕ) (tid : ℤ) (ts : List Timer) → count_of cid tid (kept (is_timer cid tid) ts) ≡ 0
count_of-kept cid tid [] = refl
count_of-kept cid tid (t ∷ ts) = elim (Bool-cases (is_timer cid tid t)) [
  | inl out ↦ rw out (count_of-kept cid tid ts)
  | inr stays ↦ let h = count_of-kept cid tid ts in rw (stays, stays) (omega arith)
]

pub NoSooner-trans : (c d : ℤ) (ts : List Timer) → leℤ c d ≡ true → NoSooner d ts → NoSooner c ts
NoSooner-trans c d [] h k = tt
NoSooner-trans c d (t ∷ ts) h k = (leℤ-trans c d t.compare h k.0, NoSooner-trans c d ts h k.1)
