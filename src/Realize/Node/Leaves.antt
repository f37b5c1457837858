-- ===== src/Realize/Node/Leaves.antt =====
-- The leaves by their size, and the memory in them.
use icecap.Base.{
  ℕ, suc, ◌+◌, ◌*◌, ◌^◌, ◌≤◌, ◌<◌, ltb, ltb→lt, ◌==◌, ==_iff, ==_refl, ◌≡◌, refl, sym, ap, ◌∙◌,
  subst, not, true, Bool-cases, inl, inr, List, [], ◌∷◌, length, length-append, All, Option, some,
  none, Map, lookup, insert, remove, IsOrdered, insert-IsOrdered, remove-IsOrdered, sum, part,
  sum-insert, sum-remove, lookup-insert, arith, Outcome, ◌>>=◌, ◌>>◌, Ensures, returns,
  Ensures-bind, unwrap-Ensures, assert, assert-Ensures, unwrap,
}
use icecap.Realize.{UntypedId}
use icecap.Realize.Node.{
  LeafNodes, pop, add_leaf, put_back, next_smallest_size, remove_paddr, pop_leaf, get_leaf,
  remove_leaf, push,
}

abbrev Sized : ℕ → List UntypedId → Type 0
Sized k ids = All (λ id. id.size_bits ≡ k) ids

-- The entries are in the order of their sizes, and each holds leaves of its size.
abbrev pub IsLeaves : LeafNodes → Type 0
IsLeaves leaf_nodes = IsOrdered leaf_nodes × All (λ entry. Sized entry.0 entry.1) leaf_nodes

abbrev bytes : ℕ → List UntypedId → ℕ
bytes k ids = 2 ^ k * length ids

-- The bytes in all leaves.
abbrev pub space : LeafNodes → ℕ
space leaf_nodes = sum bytes leaf_nodes

bytes-suc : (k n : ℕ) → 2 ^ k * suc n ≡ 2 ^ k + 2 ^ k * n
bytes-suc k n = omega arith

All-insert :
    {V : Type 0} (P : ℕ × V → Type 0) (k : ℕ) (v : V) (m : Map V)
    → P (k, v)
    → All P m
    → All P (insert k v m)
All-insert P k v [] h a = (h, tt)
All-insert P k v ((j, u) ∷ m) h a = elim (Bool-cases (ltb k j)) [
  | inl before ↦ rw before (h, a)
  | inr after ↦ elim (Bool-cases (j == k)) [
    | inl same ↦ rw (after, same) (h, a.1)
    | inr other ↦ rw (after, other) (a.0, All-insert P k v m h a.1)
  ]
]

All-remove : {V : Type 0} (P : ℕ × V → Type 0) (k : ℕ) (m : Map V) → All P m → All P (remove k m)
All-remove P k [] a = tt
All-remove P k ((j, u) ∷ m) a = elim (Bool-cases (j == k)) [
  | inl same ↦ rw same (All-remove P k m a.1)
  | inr other ↦ rw other (a.0, All-remove P k m a.1)
]

lookup-All :
    {B : Type 0} (P : ℕ × B → Type 0) (k : ℕ) (v : B) (m : Map B)
    → All P m
    → lookup k m ≡ some v
    → P (k, v)
lookup-All {B} P k v [] a e = let no_entry : ◌≡◌ {A = Option B} none (some v) = e in cc
lookup-All {B} P k v ((j, u) ∷ m) a e = elim (Bool-cases (j == k)) [
  | inl same ↦
      let found : ◌≡◌ {A = Option B} (some u) (some v) = rw same at e in
      let value : u ≡ v = cc in
      let key : j ≡ k = (==_iff j k).0 same in
      subst (λ w. P (k, w)) value (subst (λ i. P (i, u)) key a.0)
  | inr other ↦ lookup-All P k v m a.1 (rw other at e)
]

put_back-IsLeaves :
    (k : ℕ) (ids : List UntypedId) (leaf_nodes : LeafNodes)
    → Sized k ids
    → IsLeaves leaf_nodes
    → IsLeaves (put_back k ids leaf_nodes)
put_back-IsLeaves k [] l h v =
    (remove-IsOrdered k l v.0, All-remove (λ entry. Sized entry.0 entry.1) k l v.1)
put_back-IsLeaves k (id ∷ ids) l h v = (
  insert-IsOrdered k (id ∷ ids) l v.0,
  All-insert (λ entry. Sized entry.0 entry.1) k (id ∷ ids) l h v.1,
)

put_back-space :
    (k : ℕ) (ids ids' : List UntypedId) (l : LeafNodes)
    → IsLeaves l
    → lookup k l ≡ some ids
    → space (put_back k ids' l) + bytes k ids ≡ bytes k ids' + space l
put_back-space k ids [] l v e =
    let s = sum-remove bytes k l v.0 in
    let old : part bytes k (lookup k l) ≡ bytes k ids = ap (part bytes k) e in omega arith
put_back-space k ids (id ∷ ids') l v e =
    let s = sum-insert bytes k (id ∷ ids') l v.0 in
    let old : part bytes k (lookup k l) ≡ bytes k ids = ap (part bytes k) e in omega arith

-- Who is popped, and who stays.
abbrev Popped : {A : Type 0} → (A → Type 0) → ℕ → A × List A → Type 0
Popped P n w = P w.0 × All P w.1 × (n ≡ suc (length w.1))

pop-none : {A : Type 0} (xs : List A) → pop xs ≡ none → length xs ≡ 0
pop-none [] e = refl
pop-none {A} (x ∷ xs) e = go (pop xs) e
  where
    go :
        (o : Option (A × List A))
        → (elim o as (λ _. Option (A × List A)) [
          | none ↦ some (x, [])
          | some w ↦ some (w.0, x ∷ w.1)
        ])
          ≡ none
        → length (x ∷ xs) ≡ 0
    go none e = cc
    go (some w) e = cc

pop-Popped :
    {A : Type 0} (P : A → Type 0) (xs : List A) (w : A × List A)
    → All P xs
    → pop xs ≡ some w
    → Popped P (length xs) w
pop-Popped {A} P [] w a e = let no_entry : ◌≡◌ {A = Option (A × List A)} none (some w) = e in cc
pop-Popped {A} P (x ∷ xs) w a e = go (pop xs) refl e (λ w' e'. pop-Popped P xs w' a.1 e')
  where
    go :
        (o : Option (A × List A))
        → pop xs ≡ o
        → (elim o as (λ _. Option (A × List A)) [
          | none ↦ some (x, [])
          | some w ↦ some (w.0, x ∷ w.1)
        ])
          ≡ some w
        → ((w' : A × List A) → pop xs ≡ some w' → Popped P (length xs) w')
        → Popped P (suc (length xs)) w
    go none h e rest =
        let it : ◌≡◌ {A = A × List A} (x, []) w = cc in
        let alone : suc (length xs) ≡ 1 = ap suc (pop-none xs h) in
        subst (Popped P (suc (length xs))) it (a.0, tt, alone)
    go (some w') h e rest =
        let it : ◌≡◌ {A = A × List A} (w'.0, x ∷ w'.1) w = cc in
        let r = rest w' h in subst (Popped P (suc (length xs))) it (r.0, (a.0, r.1), ap suc r.2)

-- A leaf is taken: what is left has its bytes less, and the leaf has a size at least as asked for.
abbrev Taken : LeafNodes → ℕ → UntypedId × LeafNodes → Type 0
Taken leaf_nodes size_bits g =
    IsLeaves g.1 × (size_bits ≤ g.0.size_bits) × (space g.1 + 2 ^ g.0.size_bits ≡ space leaf_nodes)

next_smallest_size-lt :
    (size_bits : ℕ) (l : LeafNodes)
    → not (next_smallest_size size_bits l == 0) ≡ true
    → size_bits < next_smallest_size size_bits l
next_smallest_size-lt size_bits [] h = cc
next_smallest_size-lt size_bits ((k, ids) ∷ l) h = elim (Bool-cases (ltb size_bits k)) [
  | inl above ↦ rw above (ltb→lt size_bits k above)
  | inr below ↦ rw below (next_smallest_size-lt size_bits l (rw below at h))
]

module _ {E : Type 0} where
  pop_leaf-Ensures :
      (k size_bits : ℕ) (ids : List UntypedId) (l : LeafNodes)
      → IsLeaves l
      → lookup k l ≡ some ids
      → size_bits ≤ k
      → Ensures {E = E} (Taken l size_bits) (pop_leaf k ids l)
  pop_leaf-Ensures k size_bits ids l v e h = Ensures-bind (unwrap-Ensures (pop ids)) (λ w e'.
      let sized : Sized k ids = lookup-All (λ entry. Sized entry.0 entry.1) k ids l v.1 e in
      let p = pop-Popped (λ id. id.size_bits ≡ k) ids w sized e' in
      let own : w.0.size_bits ≡ k = p.0 in
      let fewer : length ids ≡ suc (length w.1) = p.2 in
      let s : space (put_back k w.1 l) + bytes k ids ≡ bytes k w.1 + space l =
        put_back-space k ids w.1 l v e in
      let all_bytes : bytes k ids ≡ 2 ^ k + bytes k w.1 =
        ap (λ n. 2 ^ k * n) fewer ∙ bytes-suc k (length w.1) in
      let one : 2 ^ w.0.size_bits ≡ 2 ^ k = ap (λ n. 2 ^ n) own in
      returns (put_back-IsLeaves k w.1 l p.1 v, omega arith, omega arith))

  pub get_leaf-Ensures :
      (l : LeafNodes) (size_bits : ℕ)
      → IsLeaves l
      → Ensures {E = E} (Taken l size_bits) (get_leaf l size_bits)
  unfolding get_leaf
  get_leaf-Ensures l size_bits v = go (lookup size_bits l) refl
    where
      go :
          (o : Option (List UntypedId))
          → lookup size_bits l ≡ o
          → Ensures {E = E}
              (Taken l size_bits)
              (elim o as (λ _. Outcome E (UntypedId × LeafNodes)) [
                | some ids ↦ pop_leaf size_bits ids l
                | none ↦ do
                  assert (not (next_smallest_size size_bits l == 0))
                  ids ← unwrap (lookup (next_smallest_size size_bits l) l)
                  pop_leaf (next_smallest_size size_bits l) ids l
              ])
      go none e =
          Ensures-bind (assert-Ensures (not (next_smallest_size size_bits l == 0))) (λ _ some_size.
            let above = next_smallest_size-lt size_bits l some_size in
            Ensures-bind (unwrap-Ensures (lookup (next_smallest_size size_bits l) l)) (λ ids e'.
              pop_leaf-Ensures (next_smallest_size size_bits l) size_bits ids l v e' (omega arith)))
      go (some ids) e = pop_leaf-Ensures size_bits size_bits ids l v e (omega arith)

Sized-push :
    (k : ℕ) (ids : List UntypedId) (id : UntypedId)
    → Sized k ids
    → id.size_bits ≡ k
    → Sized k (push ids id)
Sized-push k [] id h e = (e, tt)
Sized-push k (x ∷ ids) id h e = (h.0, Sized-push k ids id h.1 e)

-- A leaf is added: it is found last in its row, and the leaves have its bytes more.
abbrev pub Added : LeafNodes → UntypedId → List UntypedId → LeafNodes → Type 0
Added l id ids l' =
    IsLeaves l'
    × (lookup id.size_bits l' ≡ some (push ids id))
    × (space l' ≡ space l + 2 ^ id.size_bits)

pub add_leaf-Added :
    (l : LeafNodes) (id : UntypedId)
    → IsLeaves l
    → (ids : List UntypedId) × Added l id ids (add_leaf l id)
add_leaf-Added l id v = go (lookup id.size_bits l) refl
  where
    found : (ids : List UntypedId) → lookup id.size_bits (insert id.size_bits ids l) ≡ some ids
    found ids = rw (lookup-insert l id.size_bits id.size_bits ids, ==_refl id.size_bits) refl

    go :
        (o : Option (List UntypedId))
        → lookup id.size_bits l ≡ o
        → (ids : List UntypedId) × Added l id ids (elim o as (λ _. LeafNodes) [
          | some ids ↦ insert id.size_bits (push ids id) l
          | none ↦ insert id.size_bits (id ∷ []) l
        ])
    go none e =
        let s = sum-insert bytes id.size_bits (id ∷ []) l v.0 in
        let old : part bytes id.size_bits (lookup id.size_bits l) ≡ 0 =
          ap (part bytes id.size_bits) e in
        let alone : 2 ^ id.size_bits * 1 ≡ 2 ^ id.size_bits = omega arith in
        (
          [],
          (
            (
              insert-IsOrdered id.size_bits (id ∷ []) l v.0,
              All-insert (λ entry. Sized entry.0 entry.1) id.size_bits (id ∷ []) l (refl, tt) v.1,
            ),
            found (id ∷ []),
            omega arith,
          ),
        )
    go (some ids) e =
        let s = sum-insert bytes id.size_bits (push ids id) l v.0 in
        let old : part bytes id.size_bits (lookup id.size_bits l) ≡ bytes id.size_bits ids =
          ap (part bytes id.size_bits) e in
        let longer : length (push ids id) ≡ suc (length ids) =
          length-append ids (id ∷ []) ∙ omega arith in
        let more : bytes id.size_bits (push ids id) ≡ 2 ^ id.size_bits + bytes id.size_bits ids =
          ap (λ n. 2 ^ id.size_bits * n) longer ∙ bytes-suc id.size_bits (length ids) in
        let sized = lookup-All (λ entry. Sized entry.0 entry.1) id.size_bits ids l v.1 e in
        (
          ids,
          (
            (
              insert-IsOrdered id.size_bits (push ids id) l v.0,
              All-insert (λ entry. Sized entry.0 entry.1) id.size_bits (push ids id) l
                  (Sized-push id.size_bits ids id sized refl) v.1,
            ),
            found (push ids id),
            omega arith,
          ),
        )

-- The row without the first leaf at an address is shorter if there is one, and of the same size.
remove_paddr-push :
    (ids : List UntypedId) (id : UntypedId)
    → length (remove_paddr id.paddr (push ids id)) ≡ length ids
remove_paddr-push [] id = let here = ==_refl id.paddr in rw here refl
remove_paddr-push (x ∷ ids) id = elim (Bool-cases (x.paddr == id.paddr)) [
  | inl here ↦ rw here (length-append ids (id ∷ []) ∙ omega arith)
  | inr there ↦ rw there (ap suc (remove_paddr-push ids id))
]

Sized-remove_paddr :
    (k paddr : ℕ) (ids : List UntypedId) → Sized k ids → Sized k (remove_paddr paddr ids)
Sized-remove_paddr k paddr [] h = tt
Sized-remove_paddr k paddr (x ∷ ids) h = elim (Bool-cases (x.paddr == paddr)) [
  | inl here ↦ rw here h.1
  | inr there ↦ rw there (h.0, Sized-remove_paddr k paddr ids h.1)
]

-- A leaf that was just added is removed again: the leaves have the bytes that they had before.
pub remove_leaf-Added :
    {E : Type 0} (l l' : LeafNodes) (id : UntypedId) (ids : List UntypedId)
    → Added l id ids l'
    → Ensures {E = E} (λ r. IsLeaves r × (space r ≡ space l)) (remove_leaf l' id)
unfolding remove_leaf
remove_leaf-Added {E} l l' id ids h =
    Ensures-bind (unwrap-Ensures (lookup id.size_bits l')) (λ row e.
      let both : ◌≡◌ {A = Option (List UntypedId)} (some row) (some (push ids id)) = sym e ∙ h.1 in
      let it : row ≡ push ids id = cc in
      let sized : Sized id.size_bits row =
        lookup-All (λ entry. Sized entry.0 entry.1) id.size_bits row l' h.0.1 e in
      let left = remove_paddr id.paddr row in
      let s : space (put_back id.size_bits left l') + bytes id.size_bits row
          ≡ bytes id.size_bits left + space l' =
        put_back-space id.size_bits row left l' h.0 e in
      let shorter : length left ≡ length ids =
        ap (λ r. length (remove_paddr id.paddr r)) it ∙ remove_paddr-push ids id in
      let longer : length row ≡ suc (length ids) =
        ap length it ∙ length-append ids (id ∷ []) ∙ omega arith in
      let b0 : bytes id.size_bits left ≡ bytes id.size_bits ids =
        ap (λ n. 2 ^ id.size_bits * n) shorter in
      let b1 : bytes id.size_bits row ≡ 2 ^ id.size_bits + bytes id.size_bits ids =
        ap (λ n. 2 ^ id.size_bits * n) longer ∙ bytes-suc id.size_bits (length ids) in
      let more : space l' ≡ space l + 2 ^ id.size_bits = h.2 in
      returns (
        put_back-IsLeaves id.size_bits left l' (Sized-remove_paddr id.size_bits id.paddr row sized)
            h.0,
        omega arith,
      ))
