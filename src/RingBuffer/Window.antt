-- ===== src/RingBuffer/Window.antt =====
-- The bytes of a ring between two offsets, and what one byte written does to them.
use icecap.Base.{
  ℕ, zero, suc, ◌+◌, ◌-◌, ◌%◌, ◌<◌, ◌≤◌, ◌≡◌, ◌≢◌, refl, sym, ap, ◌∙◌, ◌⊎◌, inl, inr, List, [], ◌∷◌,
  ◌++◌, length, length-set, get_or, set, get_or-set_self, get_or-set_ne, arith, append-nil,
  append_assoc,
}
use native.Mathlib.Nat.{mod-lt, mod-eq_of_lt, mod-eq-sub-mod, mod-add-mod}
use native.Mathlib.Decide.{dec_lt}

-- `n` bytes from offset `r` on, each at its offset modulo the size.
abbrev pub window : List ℕ → ℕ → ℕ → ℕ → List ℕ
window buf size r zero = []
window buf size r (suc n) = get_or buf (r % size) 0 ∷ window buf size (suc r) n

pub length-window : (buf : List ℕ) (size r n : ℕ) → length (window buf size r n) ≡ n
length-window buf size r zero = refl
length-window buf size r (suc n) = ap suc (length-window buf size (suc r) n)

pub window-append :
    (buf : List ℕ) (size r n m : ℕ)
    → window buf size r (n + m) ≡ window buf size r n ++ window buf size (r + n) m
window-append buf size r zero m =
    let a : 0 + m ≡ m = omega arith in let b : r + 0 ≡ r = omega arith in rw (a, b) refl
window-append buf size r (suc n) m =
    let a : suc n + m ≡ suc (n + m) = omega arith in
    let b : r + suc n ≡ suc r + n = omega arith in
    rw (a, b) (ap (λ k. get_or buf (r % size) 0 ∷ k) (window-append buf size (suc r) n m))

-- Where an offset less than a round away lies.
pub round :
    (size r k : ℕ)
    → k ≤ size
    → 0 < size
    → ((r % size + k < size) × ((r + k) % size ≡ r % size + k))
      ⊎ ((size ≤ r % size + k) × ((r + k) % size ≡ (r % size + k - size) % size))
round size r k hk pos = elim (dec_lt (r % size + k) size) [
  | yes below ↦ inl (below, sym (mod-add-mod r size k) ∙ mod-eq_of_lt below)
  | no above ↦
      let over : size ≤ r % size + k = omega arith in
      inr (over, sym (mod-add-mod r size k) ∙ mod-eq-sub-mod over)
]

-- Less than a round apart is not the same place.
round-ne : (size r k : ℕ) → suc k < size → (r + suc k) % size ≢ r % size
round-ne size r k hk = elim (round size r (suc k) (omega arith) (omega arith)) [
  | inl h ↦ omega (arith, h.1)
  | inr h ↦
      let small : r % size < size = mod-lt r (omega arith) in
      let low : (r % size + suc k - size) % size ≡ r % size + suc k - size =
        mod-eq_of_lt (omega arith) in
      omega (arith, h.1, low)
]

-- A byte stored just past a window extends it.
window-set :
    (buf : List ℕ) (size r n x i : ℕ)
    → i ≡ (r + n) % size
    → length buf ≡ size
    → n < size
    → window (set buf i x) size r (suc n) ≡ window buf size r n ++ (x ∷ [])
window-set buf size r zero x i e full hn =
    let a : r + 0 ≡ r = omega arith in
    let here : i ≡ r % size = e ∙ ap (λ k. k % size) a in
    let low : r % size < length buf = omega (arith, mod-lt r hn) in
    rw (here, get_or-set_self buf (r % size) x 0 low) refl
window-set buf size r (suc n) x i e full hn =
    let a : r + suc n ≡ suc r + n = omega arith in
    let apart : i ≢ r % size = λ same. round-ne size r n hn (sym e ∙ same) in
    rw (get_or-set_ne buf i (r % size) x 0 apart) (
      ap (λ k. get_or buf (r % size) 0 ∷ k)
        (window-set buf size (suc r) n x i (e ∙ ap (λ k. k % size) a) full (omega arith)))

-- The bytes stored at the offsets from `w` on.
abbrev pub write_each : List ℕ → ℕ → ℕ → List ℕ → List ℕ
write_each buf size w [] = buf
write_each buf size w (b ∷ bytes) = write_each (set buf (w % size) b) size (suc w) bytes

pub length-write_each :
    (buf : List ℕ) (size w : ℕ) (bytes : List ℕ) → length (write_each buf size w bytes) ≡ length buf
length-write_each buf size w [] = refl
length-write_each buf size w (b ∷ bytes) =
    length-write_each (set buf (w % size) b) size (suc w) bytes ∙ length-set buf (w % size) b

pub window-write_each :
    (bytes buf : List ℕ) (size r n : ℕ)
    → length buf ≡ size
    → n + length bytes ≤ size
    → window (write_each buf size (r + n) bytes) size r (n + length bytes)
      ≡ window buf size r n ++ bytes
window-write_each [] buf size r n full room =
    let a : n + 0 ≡ n = omega arith in rw a (sym (append-nil _))
window-write_each (b ∷ bytes) buf size r n full room =
    let a : n + suc (length bytes) ≡ suc n + length bytes = omega arith in
    let s : suc (r + n) ≡ r + suc n = omega arith in
    let sized : length (set buf ((r + n) % size) b) ≡ size =
      length-set buf ((r + n) % size) b ∙ full in
    rw (a, s)
      (window-write_each bytes (set buf ((r + n) % size) b) size r (suc n) sized (omega arith)
        ∙ ap (λ k. k ++ bytes) (window-set buf size r n b ((r + n) % size) refl full (omega arith))
        ∙ append_assoc (window buf size r n) (b ∷ []) bytes)
