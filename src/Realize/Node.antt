-- ===== src/Realize/Node.antt =====
-- allocator/node.rs: the capability derivation tree, and the untyped memory that may be consumed.
pub mod Leaves
use icecap.Base.{
  ℕ, zero, suc, ◌+◌, ◌-◌, ◌*◌, ◌/◌, ◌^◌, ltb, leb, ◌==◌, if◌then◌else◌, ◌&&◌, not, Bool, true,
  false, List, [], ◌∷◌, ◌++◌, length, Option, some, none, Outcome, ok, panic, ◌>>=◌, ◌>>◌, assert,
  unwrap, Map, lookup, insert, remove, wrapping_sub, wrapping_add, ◌%◌,
}
use icecap.Realize.{UntypedId, CPtrWithDepth, RelativeCPtr}
use icecap.Realize.CRegion.{CRegion, cptr_with_depth, relative_cptr, local_cptr_hack}

pub data AccessibleNodeType : Type 0 where
  built_in : ℕ → AccessibleNodeType
  managed : ℕ → AccessibleNodeType

pub data NodeType : Type 0 where
  inaccessible : NodeType
  accessible : Bool → AccessibleNodeType → NodeType

-- `Option<Box<Node>>`: a node is its type and its two children.
pub data Tree : Type 0 where
  absent : Tree
  present : NodeType → Tree → Tree → Tree

abbrev pub is_absent : Tree → Bool
is_absent absent = true
is_absent (present t l r) = false

abbrev pub is_accessible : NodeType → Bool
is_accessible inaccessible = false
is_accessible (accessible consumed t) = true

abbrev pub is_consumed : NodeType → Bool
is_consumed inaccessible = false
is_consumed (accessible consumed t) = consumed

abbrev pub is_deletable : Tree → Bool
is_deletable absent = false
is_deletable (present t l r) = is_accessible t && not (is_consumed t) && is_absent l && is_absent r

module _ {E : Type 0} where
  abbrev pub set_consumed : NodeType → Bool → Outcome E NodeType
  set_consumed inaccessible consumed = panic
  set_consumed (accessible old t) consumed = ok (accessible consumed t)

  abbrev pub get_slot : NodeType → Outcome E ℕ
  get_slot (accessible consumed (managed slot)) = ok slot
  get_slot other = panic

  abbrev pub local_cptr : NodeType → CRegion → Outcome E ℕ
  local_cptr inaccessible cregion = panic
  local_cptr (accessible consumed (built_in cptr)) cregion = ok cptr
  local_cptr (accessible consumed (managed slot)) cregion =
      ok (local_cptr_hack (cptr_with_depth cregion slot))

  -- `cregion.context().relative(cptr)` has the whole word as its depth.
  abbrev pub node_relative_cptr : NodeType → CRegion → Outcome E RelativeCPtr
  node_relative_cptr inaccessible cregion = panic
  node_relative_cptr (accessible consumed (built_in cptr)) cregion =
      ok (record { root = cregion.root.root; path = record { cptr = cptr; depth = 64 } })
  node_relative_cptr (accessible consumed (managed slot)) cregion = ok (relative_cptr cregion slot)

-- `low_addr + ((high_addr - low_addr) >> 1) + 1`
abbrev pub half_addr : ℕ → ℕ → ℕ
half_addr low_addr high_addr = low_addr + (high_addr - low_addr) / 2 + 1

module _ {E A : Type 0} where
  -- The loop of `get_node_mut`, over the levels that are left, and what is then done with the node.
  unfoldable pub descend :
      ℕ → ℕ → ℕ → ℕ → Tree → (NodeType → Tree → Tree → Outcome E (A × Tree)) → Outcome E (A × Tree)
  descend levels low_addr high_addr paddr absent change = panic
  descend zero low_addr high_addr paddr (present t l r) change = change t l r
  descend (suc levels) low_addr high_addr paddr (present t l r) change =
      let half = half_addr low_addr high_addr in
      let on_left =
        descend levels low_addr (half - 1) paddr l change >>= λ w. ok (w.0, present t w.1 r) in
      let on_right =
        descend levels half high_addr paddr r change >>= λ w. ok (w.0, present t l w.1) in
      if ltb paddr half then on_left else on_right

  -- `get_node_mut` from the root
  unfoldable pub get_node_mut :
      Tree → UntypedId → (NodeType → Tree → Tree → Outcome E (A × Tree)) → Outcome E (A × Tree)
  unfolding descend
  get_node_mut root_node id change = do
    assert (leb id.paddr (2 ^ 64 - 1))
    assert (leb id.size_bits 64)
    descend (64 - id.size_bits) 0 (2 ^ 64 - 1) id.paddr root_node change

abbrev pub LeafNodes : Type 0
LeafNodes = Map (List UntypedId)

abbrev push : {A : Type 0} → List A → A → List A
push xs x = xs ++ (x ∷ [])

-- The last element, and those before it.
abbrev pub pop : {A : Type 0} → List A → Option (A × List A)
pop [] = none
pop (x ∷ xs) = elim (pop xs) [ none ↦ some (x, []) | some w ↦ some (w.0, x ∷ w.1) ]

abbrev pub add_leaf : LeafNodes → UntypedId → LeafNodes
add_leaf leaf_nodes id = elim (lookup id.size_bits leaf_nodes) [
  | some ids ↦ insert id.size_bits (push ids id) leaf_nodes
  | none ↦ insert id.size_bits (id ∷ []) leaf_nodes
]

-- `if untyped_ids.len() == 0 { self.leaf_nodes.remove(&size) }`
abbrev pub put_back : ℕ → List UntypedId → LeafNodes → LeafNodes
put_back size [] leaf_nodes = remove size leaf_nodes
put_back size (id ∷ ids) leaf_nodes = insert size (id ∷ ids) leaf_nodes

-- The first key above `size_bits`, or 0.
abbrev pub next_smallest_size : ℕ → LeafNodes → ℕ
next_smallest_size size_bits [] = 0
next_smallest_size size_bits ((untyped_size, ids) ∷ rest) =
    if ltb size_bits untyped_size then untyped_size else next_smallest_size size_bits rest

abbrev pub remove_paddr : ℕ → List UntypedId → List UntypedId
remove_paddr paddr [] = []
remove_paddr paddr (id ∷ ids) = if id.paddr == paddr then ids else id ∷ remove_paddr paddr ids

module _ {E : Type 0} where
  -- The last leaf of a size that is there.
  abbrev pop_leaf : ℕ → List UntypedId → LeafNodes → Outcome E (UntypedId × LeafNodes)
  pop_leaf size ids leaf_nodes = do w ← unwrap (pop ids); ok (w.0, put_back size w.1 leaf_nodes)

  unfoldable pub get_leaf : LeafNodes → ℕ → Outcome E (UntypedId × LeafNodes)
  get_leaf leaf_nodes size_bits = elim (lookup size_bits leaf_nodes) [
    | some ids ↦ pop_leaf size_bits ids leaf_nodes
    | none ↦ do
      assert (not (next_smallest_size size_bits leaf_nodes == 0))
      ids ← unwrap (lookup (next_smallest_size size_bits leaf_nodes) leaf_nodes)
      pop_leaf (next_smallest_size size_bits leaf_nodes) ids leaf_nodes
  ]

  unfoldable pub remove_leaf : LeafNodes → UntypedId → Outcome E LeafNodes
  remove_leaf leaf_nodes id = do
    ids ← unwrap (lookup id.size_bits leaf_nodes)
    ok (put_back id.size_bits (remove_paddr id.paddr ids) leaf_nodes)

-- A sum of products, which wraps around; a shift takes its number modulo 64.
unfoldable consumable_space_from : ℕ → LeafNodes → ℕ
consumable_space_from space [] = space
consumable_space_from space ((size_bits, ids) ∷ rest) =
    consumable_space_from (wrapping_add space (2 ^ (size_bits % 64) * length ids)) rest

pub consumable_space : LeafNodes → ℕ
unfolding consumable_space_from
consumable_space leaf_nodes = consumable_space_from 0 leaf_nodes
