-- ===== src/Realize/CRegion.antt =====
-- cregion/mod.rs and cregion/set.rs: a CNode with the record of which of its slots are in use.
pub mod Slots
use icecap.Base.{
  ℕ, zero, suc, ◌+◌, ◌-◌, ◌*◌, ◌%◌, ◌^◌, ◌==◌, bit_or, if◌then◌else◌, Bool, true, false, List, [],
  ◌∷◌, Option, some, none, Outcome, ok, panic, ◌>>=◌, Map, lookup, insert,
}
use icecap.Realize.{CPtrWithDepth, RelativeCPtr}

-- `Set`: whether each element is in use.
abbrev pub Set : Type 0
Set = Map Bool

pub record CRegion : Type 0 where
  pub root : RelativeCPtr
  pub guard : ℕ
  pub guard_size : ℕ
  pub radix : ℕ
  pub set : Set

-- The variables of the search of `withdraw`.
pub record Search : Type 0 where
  num_found : ℕ
  low : ℕ
  high : ℕ
  building_range : Bool
  found_range : Bool

abbrev pub fresh : Search
fresh = record { num_found = 0; low = 0; high = 0; building_range = false; found_range = false }

abbrev was_free : Option Bool → Bool
was_free (some false) = true
was_free other = false

abbrev was_used : Option Bool → Bool
was_used (some true) = true
was_used other = false

module _ {E : Type 0} where
  -- `deposit` of the range of `count` keys from `key` on
  abbrev deposit : ℕ → ℕ → Set → Outcome E Set
  deposit zero key elements = ok elements
  deposit (suc count) key elements =
      if was_free (lookup key elements)
      then panic
      else deposit count (suc key) (insert key false elements)

  -- The loop that takes the range.
  abbrev mark : ℕ → ℕ → Set → Outcome E Set
  mark zero key elements = ok elements
  mark (suc count) key elements =
      if was_used (lookup key elements)
      then panic
      else mark count (suc key) (insert key true elements)

-- A free key, after which the loop goes on unless the range is complete.
abbrev found_free : Search → ℕ → Search
found_free st key = record st {
  num_found = suc st.num_found;
  low = if st.building_range then st.low else key;
  building_range = true;
}

abbrev pub search : ℕ → Search → Set → Search
search n st [] = st
search n st ((key, used) ∷ elements) =
    let next = found_free st key in
    let after_used = search n (record fresh { found_range = st.found_range }) elements in
    let after_free = search n next elements in
    if used
    then after_used
    else if next.num_found == n
    then record next { high = key; found_range = true }
    else after_free

abbrev start_of : Option (ℕ × ℕ) → Option ℕ
start_of none = none
start_of (some range) = some range.0

module _ {E : Type 0} where
  -- The range is its start and the number of its elements.
  unfoldable pub withdraw : ℕ → Set → Outcome E (Option (ℕ × ℕ) × Set)
  withdraw n elements =
      let st = search n fresh elements in
      let taken = mark (suc st.high - st.low) st.low elements >>= λ elements'.
      ok (some (st.low, suc st.high - st.low), elements') in
      if st.found_range then taken else ok (none, elements)

  unfoldable pub new : RelativeCPtr → ℕ → ℕ → ℕ → Outcome E CRegion
  new root guard guard_size radix = do
    set ← deposit (2 ^ radix) 0 []
    ok (record { root = root; guard = guard; guard_size = guard_size; radix = radix; set = set })

  unfoldable pub alloc : CRegion → Outcome E (Option ℕ × CRegion)
  unfolding withdraw
  alloc r = do w ← withdraw 1 r.set; ok (start_of w.0, record r { set = w.1 })

  unfoldable pub free : CRegion → ℕ → Outcome E CRegion
  free r slot = do set ← deposit 1 slot r.set; ok (record r { set = set })

-- A word of 64 bits, shifted to the left by fewer than 64.
abbrev shifted : ℕ → ℕ → ℕ
shifted word n = word * 2 ^ n % 2 ^ 64

abbrev pub cptr_with_depth : CRegion → ℕ → CPtrWithDepth
cptr_with_depth r slot = record {
  cptr = bit_or (shifted (bit_or (shifted r.root.path.cptr r.guard_size) r.guard) r.radix) slot;
  depth = r.root.path.depth + r.guard_size + r.radix;
}

abbrev pub relative_cptr : CRegion → ℕ → RelativeCPtr
relative_cptr r slot = record { root = r.root.root; path = cptr_with_depth r slot }

-- `local_cptr_hack`
abbrev pub local_cptr_hack : CPtrWithDepth → ℕ
local_cptr_hack path = shifted path.cptr (64 - path.depth)
