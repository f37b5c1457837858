-- ===== src/Base/Returning.antt =====
-- What holds of a call's result when it returns `ok`, and the rules that follow the code.
use mathlib.Core.Path.{◌≡◌, refl, subst, ap, sym, ◌∙◌}
use mathlib.Core.Bool.{Bool, true, false}
use mathlib.Core.List.{List, [], ◌∷◌, map}
use mathlib.Core.Option.{Option, none, some}
use Prim.Native.Nat.{ℕ, zero, suc}
use icecap.Base.Tests.{if◌then◌else◌}
use icecap.Base.Lists.{length, set, length-set, get_elem?, All}
use icecap.Base.Results.{
  Outcome, ok, err, panic, ◌>>=◌, expect, index, modify, modify_in, unwrap, assert,
}

-- `P` holds of what is returned, if anything is.
pub data Ensures {ℓ κ μ} {E : Type ℓ} {A : Type κ} (P : A → Type μ)
    : Outcome E A → Type (ℓ ⊔ κ ⊔ μ) where
  returns : {a : A} → P a → Ensures P (ok a)
  fails : {e : E} → Ensures P (err e)
  panics : Ensures P panic

pub Ensures-bind {ℓ κ μ ν ξ} :
    {E : Type ℓ} {A : Type κ} {B : Type μ} {P : A → Type ν} {Q : B → Type ξ} {m : Outcome E A}
    {f : A → Outcome E B}
    → Ensures P m
    → ((a : A) → P a → Ensures Q (f a))
    → Ensures Q (m >>= f)
Ensures-bind (returns {a} h) k = k a h
Ensures-bind fails k = fails
Ensures-bind panics k = panics

-- The rule for a call of which nothing has to be known.
pub Ensures-then {ℓ κ μ ξ} :
    {E : Type ℓ} {A : Type κ} {B : Type μ} {Q : B → Type ξ} (m : Outcome E A) {f : A → Outcome E B}
    → ((a : A) → Ensures Q (f a))
    → Ensures Q (m >>= f)
Ensures-then (ok a) k = k a
Ensures-then (err e) k = fails
Ensures-then panic k = panics

pub Ensures-if {ℓ κ μ} :
    {E : Type ℓ} {A : Type κ} {Q : A → Type μ} (b : Bool) {x y : Outcome E A}
    → Ensures Q x
    → Ensures Q y
    → Ensures Q (if b then x else y)
Ensures-if true h k = h
Ensures-if false h k = k

pub Ensures-expect {ℓ κ μ} :
    {E : Type ℓ} {A : Type κ} {Q : A → Type μ} {m : Outcome E A}
    → Ensures Q m
    → Ensures Q (expect m)
Ensures-expect (returns h) = returns h
Ensures-expect fails = panics
Ensures-expect panics = panics

pub Ensures-map {ℓ κ μ ν} :
    {E : Type ℓ} {A : Type κ} {P : A → Type μ} {Q : A → Type ν} {m : Outcome E A}
    → ((a : A) → P a → Q a)
    → Ensures P m
    → Ensures Q m
Ensures-map f (returns {a} h) = returns (f a h)
Ensures-map f fails = fails
Ensures-map f panics = panics

abbrev Returned {ℓ κ μ} : {E : Type ℓ} {A : Type κ} → (A → Type μ) → Outcome E A → Type μ
Returned P (ok a) = P a
Returned P (err e) = Unit
Returned P panic = Unit

returned {ℓ κ μ} :
    {E : Type ℓ} {A : Type κ} {P : A → Type μ} (m : Outcome E A) → Ensures P m → Returned P m
returned _ (returns h) = h
returned _ fails = tt
returned _ panics = tt

-- Back to an equation.
pub Ensures-ok {ℓ κ μ} :
    {E : Type ℓ} {A : Type κ} (P : A → Type μ) {m : Outcome E A} {a : A}
    → Ensures P m
    → m ≡ ok a
    → P a
Ensures-ok P {m} h e = subst (Returned P) e (returned m h)

pub modify-length {ℓ κ μ} :
    {E : Type ℓ} {A : Type κ} {B : Type μ} (xs : List A) (i : ℕ) (f : A → B × A)
    → Ensures {E = E} (λ w. length w.1 ≡ length xs) (modify xs i f)
modify-length xs i f = Ensures-then (index xs i) (λ x. returns (length-set xs i (f x).1))

-- Rows keep their lengths.
map-length-set {ℓ} :
    {A : Type ℓ} (xss : List (List A)) (i : ℕ) (x y : List A)
    → get_elem? xss i ≡ some x
    → length y ≡ length x
    → map length (set xss i y) ≡ map length xss
map-length-set [] i x y e h = refl
map-length-set (z ∷ xss) zero x y e h =
    let same : z ≡ x = cc in ap (λ k. k ∷ map length xss) (h ∙ ap length (sym same))
map-length-set (z ∷ xss) (suc i) x y e h = ap (λ ks. length z ∷ ks) (map-length-set xss i x y e h)

pub index-Ensures {ℓ κ} :
    {E : Type ℓ} {A : Type κ} (xs : List A) (i : ℕ)
    → Ensures {E = E} (λ x. get_elem? xs i ≡ some x) (index xs i)
index-Ensures {E} {A} xs i = go (get_elem? xs i) refl
  where
    go :
        (o : Option A)
        → get_elem? xs i ≡ o
        → Ensures {E = E} (λ x. get_elem? xs i ≡ some x) (unwrap o)
    go none e = panics
    go (some x) e = returns e

pub modify_in-lengths {ℓ κ μ} :
    {E : Type ℓ} {A : Type κ} {B : Type μ} (xss : List (List A)) (i j : ℕ) (f : A → B × A)
    → Ensures {E = E} (λ w. map length w.1 ≡ map length xss) (modify_in xss i j f)
modify_in-lengths xss i j f =
    Ensures-bind (index-Ensures xss i) (λ xs e.
      Ensures-bind (modify-length xs j f) (λ w h. returns (map-length-set xss i xs w.1 e h)))

-- What is read has what all have.
pub index-All {ℓ κ μ} :
    {E : Type ℓ} {A : Type κ} (P : A → Type μ) (xs : List A) (i : ℕ)
    → All P xs
    → Ensures {E = E} (λ x. (get_elem? xs i ≡ some x) × P x) (index xs i)
index-All P [] i h = panics
index-All P (x ∷ xs) zero h = returns (refl, h.0)
index-All P (x ∷ xs) (suc i) h = index-All P xs i h.1

-- What holds of the results that a pure step follows.
pub Ensures-before {ℓ κ μ ν} :
    {E : Type ℓ} {A : Type κ} {B : Type μ} (P : B → Type ν) (m : Outcome E A) (f : A → B)
    → Ensures P (m >>= λ a. ok (f a))
    → Ensures (λ a. P (f a)) m
Ensures-before P (ok a) f h = returns (Ensures-ok P h refl)
Ensures-before P (err e) f h = fails
Ensures-before P panic f h = panics

pub unwrap-Ensures {ℓ κ} :
    {E : Type ℓ} {A : Type κ} (o : Option A) → Ensures {E = E} (λ a. o ≡ some a) (unwrap o)
unwrap-Ensures none = panics
unwrap-Ensures (some a) = returns refl

pub assert-Ensures {ℓ} : {E : Type ℓ} (b : Bool) → Ensures {E = E} (λ _. b ≡ true) (assert b)
assert-Ensures true = returns refl
assert-Ensures false = panics

-- A call that returns, and what it has established.
abbrev pub Gives {ℓ κ μ} : {E : Type ℓ} {A : Type κ} → (A → Type μ) → Outcome E A → Type (ℓ ⊔ κ ⊔ μ)
Gives {E} {A} P m = (a : A) × (m ≡ ok a) × P a

pub Gives-bind {ℓ κ μ ν ξ} :
    {E : Type ℓ} {A : Type κ} {B : Type μ} {P : A → Type ν} {Q : B → Type ξ} {m : Outcome E A}
    {f : A → Outcome E B}
    → Gives P m
    → ((a : A) → P a → Gives Q (f a))
    → Gives Q (m >>= f)
Gives-bind h k = let b = k h.0 h.2 in (b.0, rw h.1 b.1, b.2)

-- What a call returns is what it returns.
pub Ensures-self {ℓ κ} : {E : Type ℓ} {A : Type κ} (m : Outcome E A) → Ensures (λ a. m ≡ ok a) m
Ensures-self (ok a) = returns refl
Ensures-self (err e) = fails
Ensures-self panic = panics
