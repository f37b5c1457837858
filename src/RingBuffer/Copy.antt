-- ===== src/RingBuffer/Copy.antt =====
-- The block copies of `peek` and `write` against the byte by byte view of the ring.
use icecap.Base.{
  ℕ, zero, suc, ◌+◌, ◌-◌, ◌%◌, ◌<◌, ◌≤◌, ◌≡◌, refl, sym, ap, ◌∙◌, inl, inr, leb, Bool-cases, List,
  [], ◌∷◌, ◌++◌, length, length-set, take, drop, get_or, set, arith, append_assoc, take-drop_join,
  length-take, length-drop,
}
use native.Mathlib.Nat.{mod-lt, mod-eq_of_lt}
use icecap.RingBuffer.{copy_out, copy_in, overwrite}
use icecap.RingBuffer.Window.{window, window-append, round, write_each, length-write_each}

-- `n` bytes from index `i` on.
abbrev segment : List ℕ → ℕ → ℕ → List ℕ
segment buf i zero = []
segment buf i (suc n) = get_or buf i 0 ∷ segment buf (suc i) n

segment-tail : (x : ℕ) (buf : List ℕ) (i n : ℕ) → segment (x ∷ buf) (suc i) n ≡ segment buf i n
segment-tail x buf i zero = refl
segment-tail x buf i (suc n) = ap (λ k. get_or buf i 0 ∷ k) (segment-tail x buf (suc i) n)

take-segment : (buf : List ℕ) (n : ℕ) → n ≤ length buf → take n buf ≡ segment buf 0 n
take-segment buf zero h = refl
take-segment [] (suc n) h = elim h [ ]
take-segment (x ∷ buf) (suc n) h =
    ap (λ k. x ∷ k) (take-segment buf n (omega arith) ∙ sym (segment-tail x buf 0 n))

take-drop : (buf : List ℕ) (i n : ℕ) → i + n ≤ length buf → take n (drop i buf) ≡ segment buf i n
take-drop buf zero n h = take-segment buf n (omega arith)
take-drop [] (suc i) zero h = refl
take-drop [] (suc i) (suc n) h = absurd (omega arith)
take-drop (x ∷ buf) (suc i) n h = take-drop buf i n (omega arith) ∙ sym (segment-tail x buf i n)

-- The next offset, before the end of the buffer.
round-next : (size r : ℕ) → suc (r % size) < size → suc r % size ≡ suc (r % size)
round-next size r h =
    let one : r + 1 ≡ suc r = omega arith in
    let up : r % size + 1 ≡ suc (r % size) = omega arith in
    elim (round size r 1 (omega arith) (omega arith)) [
      | inl p ↦ sym (ap (λ k. k % size) one) ∙ p.1 ∙ up
      | inr p ↦ absurd (omega (arith, p.0))
    ]

-- Up to the end of the buffer, a window is a segment.
window-segment :
    (buf : List ℕ) (size r n : ℕ)
    → r % size + n ≤ size
    → window buf size r n ≡ segment buf (r % size) n
window-segment buf size r zero h = refl
window-segment buf size r (suc zero) h = refl
window-segment buf size r (suc (suc n)) h =
    let next = round-next size r (omega arith) in
    ap (λ k. get_or buf (r % size) 0 ∷ k)
      (window-segment buf size (suc r) (suc n) (omega (arith, next))
        ∙ ap (λ k. segment buf k (suc n)) next)

-- A round ends at index 0.
round-end : (size r : ℕ) → 0 < size → (r + (size - r % size)) % size ≡ 0
round-end size r pos =
    let small : r % size < size = mod-lt r pos in
    elim (round size r (size - r % size) (omega arith) pos) [
      | inl p ↦ absurd (omega (arith, p.0))
      | inr p ↦
          let none_left : r % size + (size - r % size) - size ≡ 0 = omega arith in
          p.1 ∙ ap (λ k. k % size) none_left ∙ mod-eq_of_lt pos
    ]

module _ (buf : List ℕ) (size : ℕ) (full : length buf ≡ size) (pos : 0 < size) where
  -- `peek` copies out the bytes of the window, whether it goes past the end of the buffer or not.
  pub copy_out-window : (r n : ℕ) → n ≤ size → copy_out buf size (r % size) n ≡ window buf size r n
  unfolding copy_out
  copy_out-window r n hn =
      let small : r % size < size = mod-lt r pos in
      let first : ℕ = size - r % size in
      elim (Bool-cases (leb n (size - r % size))) [
        | inl whole ↦
            let fits : n ≤ size - r % size = ground arith in
            rw whole (
              take-drop buf (r % size) n (omega arith)
              ∙ sym (window-segment buf size r n (omega arith)))
        | inr split ↦
            let long : size - r % size < n = ground arith in
            let parts : n ≡ (size - r % size) + (n - (size - r % size)) = omega arith in
            let ended = round-end size r pos in
            let back : window buf size (r + (size - r % size)) (n - (size - r % size))
                ≡ take (n - (size - r % size)) buf =
              window-segment buf size (r + (size - r % size)) (n - (size - r % size))
                (omega (arith, ended))
              ∙ ap (λ k. segment buf k (n - (size - r % size))) ended
              ∙ sym (take-segment buf (n - (size - r % size)) (omega arith)) in
            let front : window buf size r (size - r % size)
                ≡ take (size - r % size) (drop (r % size) buf) =
              window-segment buf size r (size - r % size) (omega arith)
              ∙ sym (take-drop buf (r % size) (size - r % size) (omega arith)) in
            rw split (
              sym (
                ap (window buf size r) parts
                ∙ window-append buf size r (size - r % size) (n - (size - r % size))
                ∙ ap (λ k. window buf size r (size - r % size) ++ k) back
                ∙ ap (λ k. k ++ take (n - (size - r % size)) buf) front))
      ]

-- The bytes stored from index `i` on.
abbrev set_each : List ℕ → ℕ → List ℕ → List ℕ
set_each buf i [] = buf
set_each buf i (b ∷ bytes) = set_each (set buf i b) (suc i) bytes

take-set :
    (buf : List ℕ) (i b : ℕ) → i < length buf → take (suc i) (set buf i b) ≡ take i buf ++ (b ∷ [])
take-set [] i b h = elim h [ ]
take-set (x ∷ buf) zero b h = refl
take-set (x ∷ buf) (suc i) b h = ap (λ k. x ∷ k) (take-set buf i b (omega arith))

drop-set : (buf : List ℕ) (i k b : ℕ) → i < k → drop k (set buf i b) ≡ drop k buf
drop-set [] i k b h = refl
drop-set (x ∷ buf) zero (suc k) b h = refl
drop-set (x ∷ buf) (suc i) (suc k) b h = drop-set buf i k b (omega arith)
drop-set (x ∷ buf) i zero b h = absurd (omega arith)

overwrite-set_each :
    (bytes buf : List ℕ) (i : ℕ)
    → i + length bytes ≤ length buf
    → overwrite buf i bytes ≡ set_each buf i bytes
overwrite-set_each [] buf i h = let a : i + 0 ≡ i = omega arith in rw a (take-drop_join i buf)
overwrite-set_each (b ∷ bytes) buf i h =
    let sized : length (set buf i b) ≡ length buf = length-set buf i b in
    let a : suc i + length bytes ≡ i + suc (length bytes) = omega arith in
    let rest = overwrite-set_each bytes (set buf i b) (suc i) (omega (arith, sized)) in
    let front = take-set buf i b (omega arith) in
    let back = drop-set buf i (suc i + length bytes) b (omega arith) in
    sym (append_assoc (take i buf) (b ∷ []) (bytes ++ drop (i + suc (length bytes)) buf))
    ∙ ap (λ k. (take i buf ++ (b ∷ [])) ++ (bytes ++ drop k buf)) (sym a)
    ∙ ap (λ k. k ++ (bytes ++ drop (suc i + length bytes) buf)) (sym front)
    ∙ ap (λ k. take (suc i) (set buf i b) ++ (bytes ++ k)) (sym back)
    ∙ rest

write_each-set_each :
    (bytes buf : List ℕ) (size w : ℕ)
    → w % size + length bytes ≤ size
    → write_each buf size w bytes ≡ set_each buf (w % size) bytes
write_each-set_each [] buf size w h = refl
write_each-set_each (b ∷ []) buf size w h = refl
write_each-set_each (b ∷ c ∷ bytes) buf size w h =
    let next = round-next size w (omega arith) in
    write_each-set_each (c ∷ bytes) (set buf (w % size) b) size (suc w) (omega (arith, next))
    ∙ ap (λ k. set_each (set buf (w % size) b) k (c ∷ bytes)) next

write_each-append :
    (xs ys buf : List ℕ) (size w : ℕ)
    → write_each buf size w (xs ++ ys)
      ≡ write_each (write_each buf size w xs) size (w + length xs) ys
write_each-append [] ys buf size w = let a : w + 0 ≡ w = omega arith in rw a refl
write_each-append (x ∷ xs) ys buf size w =
    let a : w + suc (length xs) ≡ suc w + length xs = omega arith in
    rw a (write_each-append xs ys (set buf (w % size) x) size (suc w))

-- In a buffer of `size` bytes, not none, `write` of no more than that stores each byte at its offset,
-- whether they go past the end of the buffer or not.
pub copy_in-write_each :
    (buf bytes : List ℕ) (size w : ℕ)
    → length buf ≡ size
    → 0 < size
    → length bytes ≤ size
    → copy_in buf size (w % size) bytes ≡ write_each buf size w bytes
unfolding copy_in
copy_in-write_each buf bytes size w full pos fits =
    let small : w % size < size = mod-lt w pos in
    elim (Bool-cases (leb (length bytes) (size - w % size))) [
      | inl whole ↦
          let short : length bytes ≤ size - w % size = ground arith in
          rw whole (
            overwrite-set_each bytes buf (w % size) (omega arith)
            ∙ sym (write_each-set_each bytes buf size w (omega arith)))
      | inr split ↦
          let long : size - w % size < length bytes = ground arith in
          let head = take (size - w % size) bytes in
          let tail = drop (size - w % size) bytes in
          let len_head : length head ≡ size - w % size =
            length-take (size - w % size) bytes (omega arith) in
          let len_tail : length tail ≡ length bytes - (size - w % size) =
            length-drop (size - w % size) bytes in
          let front : overwrite buf (w % size) head ≡ write_each buf size w head =
            overwrite-set_each head buf (w % size) (omega arith)
            ∙ sym (write_each-set_each head buf size w (omega arith)) in
          let ended : (w + length head) % size ≡ 0 =
            ap (λ k. (w + k) % size) len_head ∙ round-end size w pos in
          let mid = write_each buf size w head in
          let len_mid : length mid ≡ length buf = length-write_each buf size w head in
          let back : overwrite mid 0 tail ≡ write_each mid size (w + length head) tail =
            overwrite-set_each tail mid 0 (omega arith)
            ∙ sym (
                write_each-set_each tail mid size (w + length head) (omega arith)
                ∙ ap (λ k. set_each mid k tail) ended) in
          rw split (
            ap (λ k. overwrite k 0 tail) front
            ∙ back
            ∙ sym (write_each-append head tail buf size w)
            ∙ ap (write_each buf size w) (take-drop_join (size - w % size) bytes))
    ]
