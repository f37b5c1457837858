-- ===== src/Base/Bits.antt =====
-- The bits of a word: what `&`, `|`, `^`, `!` and shifts do to each. `bit x s` is bit `s` of `x`.
use Prim.Native.Nat.{
  ℕ, zero, suc, ◌+◌, ◌-◌, ◌*◌, ◌/◌, ◌%◌, ◌^◌, ◌≤◌, ◌<◌, min, max, bit_and, bit_or, bit_xor, digits,
  bitwise, differ, bit_and-bitwise, bit_or-bitwise, bit_xor-bitwise,
}
use mathlib.Core.Path.{◌≡◌, refl, sym, ap, ◌∙◌}
use mathlib.Core.Logic.{◌≢◌}
use mathlib.Core.Bool.{Bool, false, not, ◌&&◌, ◌||◌}
use native.Mathlib.Omega.{arith}
use native.Mathlib.Decide.{ℕ_discrete}
use native.Mathlib.Nat.{pow-succ', pow-le-pow_right, div-div-eq-div-mul, two-pow-succ}
use icecap.Base.Tests.{◌==◌}

module _ (z : ℕ → ℕ) (f : ℕ → ℕ → ℕ) where
  -- The count of digits to go does not matter once it reaches the first number.
  digits_enough : (m n x y : ℕ) → x ≤ m → x ≤ n → digits z f m x y ≡ digits z f n x y
  digits_enough (suc m) (suc n) (suc x) y hm hn =
      ap (λ d. d * 2 + f (suc x % 2) (y % 2))
        (digits_enough m n (suc x / 2) (y / 2) (omega arith) (omega arith))
  digits_enough (suc m) (suc n) zero y hm hn = refl
  digits_enough (suc m) zero (suc x) y hm hn = elim hn [ ]
  digits_enough (suc m) zero zero y hm hn = refl
  digits_enough zero (suc n) (suc x) y hm hn = elim hm [ ]
  digits_enough zero (suc n) zero y hm hn = refl
  digits_enough zero zero x y hm hn = refl

  bitwise_step :
      (a b : ℕ)
      → bitwise z f (suc a) b ≡ bitwise z f (suc a / 2) (b / 2) * 2 + f (suc a % 2) (b % 2)
  bitwise_step a b =
      ap (λ d. d * 2 + f (suc a % 2) (b % 2))
        (digits_enough a (suc a / 2) (suc a / 2) (b / 2) (omega arith) (omega arith))

bit_and_split : (a b : ℕ) → bit_and a b ≡ bit_and (a / 2) (b / 2) * 2 + min (a % 2) (b % 2)
bit_and_split zero b = omega (arith, bit_and-bitwise 0 b, bit_and-bitwise 0 (b / 2))
bit_and_split (suc a) b =
    rw (bit_and-bitwise (suc a) b, bit_and-bitwise (suc a / 2) (b / 2))
      (bitwise_step (λ y. zero) min a b)

bit_or_split : (a b : ℕ) → bit_or a b ≡ bit_or (a / 2) (b / 2) * 2 + max (a % 2) (b % 2)
bit_or_split zero b = omega (arith, bit_or-bitwise 0 b, bit_or-bitwise 0 (b / 2))
bit_or_split (suc a) b =
    rw (bit_or-bitwise (suc a) b, bit_or-bitwise (suc a / 2) (b / 2))
      (bitwise_step (λ y. y) max a b)

bit_xor_split : (a b : ℕ) → bit_xor a b ≡ bit_xor (a / 2) (b / 2) * 2 + differ (a % 2) (b % 2)
bit_xor_split zero b = omega (arith, bit_xor-bitwise 0 b, bit_xor-bitwise 0 (b / 2))
bit_xor_split (suc a) b =
    rw (bit_xor-bitwise (suc a) b, bit_xor-bitwise (suc a / 2) (b / 2))
      (bitwise_step (λ y. y) differ a b)

-- `(x >> s) & 1`, as the recursion on `s` that the laws go by.
bit : ℕ → ℕ → ℕ
bit x zero = x % 2
bit x (suc s) = bit (x / 2) s

-- `(x >> s) & 1 == 1`
abbrev pub test_bit : ℕ → ℕ → Bool
test_bit x s = bit_and (x / 2 ^ s) 1 == 1

bit-lt-two : (x s : ℕ) → bit x s < 2
unfolding bit
bit-lt-two x zero = omega arith
bit-lt-two x (suc s) = bit-lt-two (x / 2) s

bit-zero : (s : ℕ) → bit 0 s ≡ 0
unfolding bit
bit-zero zero = refl
bit-zero (suc s) = bit-zero s

bit-shift : (x s : ℕ) → x / 2 ^ s % 2 ≡ bit x s
unfolding bit
bit-shift x zero = omega arith
bit-shift x (suc s) =
    ap (λ k. x / k % 2) (pow-succ' 2 s)
    ∙ ap (λ k. k % 2) (sym (div-div-eq-div-mul x 2 (2 ^ s)))
    ∙ bit-shift (x / 2) s

bit_and-zero_below : (n a : ℕ) → a ≤ n → bit_and a 0 ≡ 0
bit_and-zero_below n zero h = refl
bit_and-zero_below zero (suc a) h = elim h [ ]
bit_and-zero_below (suc n) (suc a) h =
    omega (arith, bit_and_split (suc a) 0, bit_and-zero_below n (suc a / 2) (omega arith))

pub bit_and-zero : (a : ℕ) → bit_and a 0 ≡ 0
bit_and-zero a = bit_and-zero_below a a (omega arith)

bit_and-one : (a : ℕ) → bit_and a 1 ≡ a % 2
bit_and-one a = omega (arith, bit_and_split a 1, bit_and-zero (a / 2))

test_bit-bit : (x s : ℕ) → test_bit x s ≡ (bit x s == 1)
test_bit-bit x s = ap (λ k. k == 1) (bit_and-one (x / 2 ^ s) ∙ bit-shift x s)

bit-bit_and : (a b s : ℕ) → bit (bit_and a b) s ≡ min (bit a s) (bit b s)
unfolding bit
bit-bit_and a b zero = omega (arith, bit_and_split a b)
bit-bit_and a b (suc s) =
    ap (λ x. bit x s) (omega (arith, bit_and_split a b)) ∙ bit-bit_and (a / 2) (b / 2) s

bit-bit_or : (a b s : ℕ) → bit (bit_or a b) s ≡ max (bit a s) (bit b s)
unfolding bit
bit-bit_or a b zero = omega (arith, bit_or_split a b)
bit-bit_or a b (suc s) =
    ap (λ x. bit x s) (omega (arith, bit_or_split a b)) ∙ bit-bit_or (a / 2) (b / 2) s

bit-complement : (k a s : ℕ) → a < 2 ^ k → s < k → bit (2 ^ k - 1 - a) s ≡ 1 - bit a s
unfolding bit
bit-complement zero a s ha hs = elim hs [ ]
bit-complement (suc k) a zero ha hs = omega (arith, two-pow-succ k)
bit-complement (suc k) a (suc s) ha hs =
    ap (λ x. bit x s) (omega (arith, two-pow-succ k))
    ∙ bit-complement k (a / 2) s (omega (arith, two-pow-succ k)) (omega arith)

bit-two-pow_self : (s : ℕ) → bit (2 ^ s) s ≡ 1
unfolding bit
bit-two-pow_self zero = refl
bit-two-pow_self (suc s) = ap (λ x. bit x s) (omega (arith, two-pow-succ s)) ∙ bit-two-pow_self s

bit-two-pow_ne : (k s : ℕ) → k ≢ s → bit (2 ^ k) s ≡ 0
unfolding bit
bit-two-pow_ne zero zero h = absurd (h refl)
bit-two-pow_ne zero (suc s) h = bit-zero s
bit-two-pow_ne (suc k) zero h = omega (arith, two-pow-succ k)
bit-two-pow_ne (suc k) (suc s) h =
    ap (λ x. bit x s) (omega (arith, two-pow-succ k)) ∙ bit-two-pow_ne k s (λ e. h (ap suc e))

-- `!v` on a 32-bit word
abbrev pub not32 : ℕ → ℕ
not32 v = 2 ^ 32 - 1 - v

pub test_bit-bit_or : (a b s : ℕ) → test_bit (bit_or a b) s ≡ (test_bit a s || test_bit b s)
test_bit-bit_or a b s =
    rw (test_bit-bit (bit_or a b) s, test_bit-bit a s, test_bit-bit b s, bit-bit_or a b s)
      (ground (arith, bit-lt-two a s, bit-lt-two b s))

pub test_bit-bit_and : (a b s : ℕ) → test_bit (bit_and a b) s ≡ (test_bit a s && test_bit b s)
test_bit-bit_and a b s =
    rw (test_bit-bit (bit_and a b) s, test_bit-bit a s, test_bit-bit b s, bit-bit_and a b s)
      (ground (arith, bit-lt-two a s, bit-lt-two b s))

pub test_bit-not32 : (a s : ℕ) → a < 2 ^ 32 → s < 32 → test_bit (not32 a) s ≡ not (test_bit a s)
test_bit-not32 a s ha hs =
    rw (test_bit-bit (not32 a) s, test_bit-bit a s, bit-complement 32 a s ha hs)
      (ground (arith, bit-lt-two a s))

pub test_bit-two-pow : (k s : ℕ) → test_bit (2 ^ k) s ≡ (k == s)
test_bit-two-pow k s = elim (ℕ_discrete k s) [
  | yes e ↦ rw (e, test_bit-bit (2 ^ s) s, bit-two-pow_self s) (ground arith)
  | no ne ↦ rw (test_bit-bit (2 ^ k) s, bit-two-pow_ne k s ne) (ground arith)
]

pub test_bit-zero : (s : ℕ) → test_bit 0 s ≡ false
test_bit-zero s = rw (test_bit-bit 0 s, bit-zero s) refl

-- A word with one bit is a word.
pub two-pow-lt : (k : ℕ) → k < 32 → 2 ^ k < 2 ^ 32
two-pow-lt k h =
    let below : 2 ^ k ≤ 2 ^ 31 = pow-le-pow_right (omega arith) {i = k} {j = 31} (omega arith) in
    omega (arith, below)
