-- ===== src/Biterate.antt =====
-- rust/crates/framework/helpers/biterate: the numbers of the bits set in a 32-bit word.
use icecap.Base.{ℕ, zero, suc, ◌/◌, ◌%◌, ◌^◌, ◌==◌, if◌then◌else◌, List, [], ◌∷◌, bit_xor}

-- `trailing_zeros` of a word that is not zero; the first argument bounds the width.
trailing_zeros : ℕ → ℕ → ℕ
trailing_zeros zero x = 0
trailing_zeros (suc width) x = if x % 2 == 1 then 0 else suc (trailing_zeros width (x / 2))

-- `next`, as often as it returns a number: each call clears the lowest bit.
biterate_from : ℕ → ℕ → List ℕ
biterate_from zero x = []
biterate_from (suc fuel) x =
    let r = trailing_zeros 32 x in
    let rest = biterate_from fuel (bit_xor x (2 ^ r)) in if x == 0 then [] else r ∷ rest

unfoldable pub biterate : ℕ → List ℕ
unfolding trailing_zeros biterate_from
biterate x = biterate_from 32 x
