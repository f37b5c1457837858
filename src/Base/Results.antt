-- ===== src/Base/Results.antt =====
-- How a call of a Rust function ends: with `Ok`, with `Err`, or by a panic. A function that cannot
-- return an error takes any type for its errors.
use Prim.Native.Nat.{◌%◌, ℕ, ◌+◌, ◌-◌, ◌^◌, ◌<◌}
use mathlib.Core.Path.{◌≡◌}
use mathlib.Core.Bool.{Bool, true, false}
use mathlib.Core.List.{List, [], map}
use mathlib.Core.Option.{Option, none, some}
use native.Mathlib.Omega.{arith}
use icecap.Base.Tests.{leb, if◌then◌else◌}
use icecap.Base.Lists.{
  length, get_elem?, get_or, get_elem?-eq-get_or, set, replicate, length-row, rows-length,
}

pub data Outcome {ℓ κ} (E : Type ℓ) (A : Type κ) : Type (ℓ ⊔ κ) where
  ok : A → Outcome E A
  err : E → Outcome E A
  panic : Outcome E A

infixl 5 ◌>>=◌ ◌>>◌
abbrev pub ◌>>=◌ {ℓ κ μ} :
    {E : Type ℓ} {A : Type κ} {B : Type μ} → Outcome E A → (A → Outcome E B) → Outcome E B
panic >>= next = panic
err e >>= next = err e
ok a >>= next = next a

-- The first call for its effect.
abbrev pub ◌>>◌ {ℓ κ} : {E : Type ℓ} {A : Type κ} → Outcome E (Unit {0}) → Outcome E A → Outcome E A
first >> next = first >>= λ done. next

-- `assert!`
abbrev pub assert {ℓ} : {E : Type ℓ} → Bool → Outcome E (Unit {0})
assert false = panic
assert true = ok tt

-- `unwrap` of an option
abbrev pub unwrap {ℓ κ} : {E : Type ℓ} {A : Type κ} → Option A → Outcome E A
unwrap (some a) = ok a
unwrap none = panic

-- `unwrap` of a result
abbrev pub expect {ℓ κ} : {E : Type ℓ} {A : Type κ} → Outcome E A → Outcome E A
expect (ok a) = ok a
expect (err e) = panic
expect panic = panic

-- `xs[i]`, which panics out of bounds
abbrev pub index {ℓ κ} : {E : Type ℓ} {A : Type κ} → List A → ℕ → Outcome E A
index xs i = unwrap (get_elem? xs i)

pub ok-injective {ℓ κ} :
    {E : Type ℓ} {A : Type κ} {a b : A} → ◌≡◌ {A = Outcome E A} (ok a) (ok b) → a ≡ b
ok-injective e = cc

pub index-eq-get_or {ℓ κ} :
    {E : Type ℓ} {A : Type κ} (xs : List A) (i : ℕ) (d : A)
    → i < length xs
    → index {E = E} xs i ≡ ok (get_or xs i d)
index-eq-get_or xs i d h = rw (get_elem?-eq-get_or xs i d h)

-- An access to `xs[i]` through a mutable reference: what it returns, and the list after it.
abbrev pub modify {ℓ κ μ} :
    {E : Type ℓ} {A : Type κ} {B : Type μ} → List A → ℕ → (A → B × A) → Outcome E (B × List A)
modify xs i f = index xs i >>= λ x. ok ((f x).0, set xs i (f x).1)

-- `xss[i][j]`
abbrev pub index_in {ℓ κ} : {E : Type ℓ} {A : Type κ} → List (List A) → ℕ → ℕ → Outcome E A
index_in xss i j = index xss i >>= λ xs. index xs j

-- An access to `xss[i][j]` through a mutable reference.
abbrev pub modify_in {ℓ κ μ} :
    {E : Type ℓ} {A : Type κ} {B : Type μ}
    → List (List A)
    → ℕ
    → ℕ
    → (A → B × A)
    → Outcome E (B × List (List A))
modify_in xss i j f = index xss i >>= λ xs. modify xs j f >>= λ w. ok (w.0, set xss i w.1)

pub index_in-row {ℓ κ} :
    {E : Type ℓ} {A : Type κ} (xss : List (List A)) (n k i j : ℕ) (d : A)
    → map length xss ≡ replicate n k
    → i < n
    → j < k
    → index_in {E = E} xss i j ≡ ok (get_or (get_or xss i []) j d)
index_in-row {E} xss n k i j d e hi hj =
    let rows : length xss ≡ n = rows-length xss n k e in
    let row : length (get_or xss i []) ≡ k = length-row xss n k i e hi in
    rw (index-eq-get_or {E = E} xss i [] (omega arith))
      (index-eq-get_or (get_or xss i []) j d (omega arith))

-- `+` and `-` of a `usize` in the build that is shipped, which does not check them.
abbrev pub wrapping_add : ℕ → ℕ → ℕ
wrapping_add a b = (a + b) % 2 ^ 64

pub wrapping_add_lem : (a b : ℕ) → a + b < 2 ^ 64 → wrapping_add a b ≡ a + b
wrapping_add_lem a b h = omega arith

abbrev pub wrapping_sub : ℕ → ℕ → ℕ
wrapping_sub a b = if leb b a then a - b else 2 ^ 64 + a - b

-- What a call without errors returns.
abbrev pub Call {ℓ} : Type ℓ → Type ℓ
Call A = Outcome ⊥ A
