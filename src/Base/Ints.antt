-- ===== src/Base/Ints.antt =====
-- Signed machine integers, and the casts of Rust between them and the words.
use Prim.Native.Nat.{ℕ, zero, suc, ◌+◌, ◌-◌, ◌*◌, ◌/◌, ◌%◌, ◌^◌}
use mathlib.Core.Path.{◌≡◌, refl}
use mathlib.Core.Logic.{inl, inr}
use mathlib.Core.Bool.{Bool, true, false}
use native.Mathlib.Omega.{arith}
use icecap.Base.Tests.{Bool-cases, ltb, leb, ◌==◌, if◌then◌else◌}

-- `negsuc n` is `-(n + 1)`.
pub data ℤ : Type 0 where
  pos : ℕ → ℤ
  negsuc : ℕ → ℤ

infixl 65 ◌+ℤ◌
infix 50 ◌==ℤ◌
abbrev pub leℤ : ℤ → ℤ → Bool
leℤ (pos a) (pos b) = leb a b
leℤ (pos a) (negsuc b) = false
leℤ (negsuc a) (pos b) = true
leℤ (negsuc a) (negsuc b) = leb b a

abbrev pub ◌==ℤ◌ : ℤ → ℤ → Bool
pos a ==ℤ pos b = a == b
pos a ==ℤ negsuc b = false
negsuc a ==ℤ pos b = false
negsuc a ==ℤ negsuc b = a == b

abbrev pub ◌+ℤ◌ : ℤ → ℤ → ℤ
pos a +ℤ pos b = pos (a + b)
pos a +ℤ negsuc b = if leb (suc b) a then pos (a - suc b) else negsuc (b - a)
negsuc a +ℤ pos b = if leb (suc a) b then pos (b - suc a) else negsuc (a - b)
negsuc a +ℤ negsuc b = negsuc (suc (a + b))

abbrev pub negated : ℕ → ℤ
negated zero = pos 0
negated (suc n) = negsuc n

abbrev pub times : ℤ → ℕ → ℤ
times (pos a) n = pos (a * n)
times (negsuc a) n = negated (suc a * n)

-- Division by a positive number, towards 0.
abbrev pub div_by : ℤ → ℕ → ℤ
div_by (pos a) n = pos (a / n)
div_by (negsuc a) n = negated (suc a / n)

abbrev pub in_i64 : ℤ → Bool
in_i64 (pos a) = ltb a (2 ^ 63)
in_i64 (negsuc a) = ltb a (2 ^ 63)

-- `c as i64`, of a word of 64 bits
abbrev pub as_i64 : ℕ → ℤ
as_i64 c = if ltb c (2 ^ 63) then pos c else negsuc (2 ^ 64 - 1 - c)

-- `a as u64`
abbrev pub as_u64 : ℤ → ℕ
as_u64 (pos a) = a % 2 ^ 64
as_u64 (negsuc a) = 2 ^ 64 - 1 - a % 2 ^ 64

-- An addition on `i64`, which wraps around in the build that is shipped.
abbrev pub add_i64 : ℤ → ℤ → ℤ
add_i64 a b = if in_i64 (a +ℤ b) then a +ℤ b else as_i64 (as_u64 (a +ℤ b))

pub in_i64-as_i64 : (c : ℕ) → in_i64 (as_i64 c) ≡ true
in_i64-as_i64 c = elim (Bool-cases (ltb c (2 ^ 63))) [
  | inl low ↦ rw low low
  | inr high ↦ let h : ltb (2 ^ 64 - 1 - c) (2 ^ 63) ≡ true = ground arith in rw high h
]

pub leℤ-refl : (a : ℤ) → leℤ a a ≡ true
leℤ-refl (pos a) = ground arith
leℤ-refl (negsuc a) = ground arith

pub leℤ-trans : (a b c : ℤ) → leℤ a b ≡ true → leℤ b c ≡ true → leℤ a c ≡ true
leℤ-trans (pos a) (pos b) (pos c) h k = ground arith
leℤ-trans (pos a) (pos b) (negsuc c) h k = cc
leℤ-trans (pos a) (negsuc b) c h k = cc
leℤ-trans (negsuc a) b (pos c) h k = refl
leℤ-trans (negsuc a) (pos b) (negsuc c) h k = cc
leℤ-trans (negsuc a) (negsuc b) (negsuc c) h k = ground arith

pub +ℤ_zero : (a : ℤ) → a +ℤ pos 0 ≡ a
+ℤ_zero (pos a) = let e : a + 0 ≡ a = omega arith in rw e refl
+ℤ_zero (negsuc a) =
    let e : a - 0 ≡ a = omega arith in
    let f : leb (suc a) 0 ≡ false = ground arith in rw (f, e) refl

pub add_i64-zero : (a : ℤ) → in_i64 a ≡ true → add_i64 a (pos 0) ≡ a
add_i64-zero a h = rw (+ℤ_zero a, h) refl

pub ==ℤ-refl : (a : ℤ) → (a ==ℤ a) ≡ true
==ℤ-refl (pos a) = ground arith
==ℤ-refl (negsuc a) = ground arith
