-- ===== src/Realize/Allocator.antt =====
-- allocator/mod.rs: objects are made of untyped memory, which is split in halves until it fits.
pub mod Revoke
pub mod Exact
use icecap.Base.{
  ℕ, zero, suc, ◌+◌, ◌-◌, ◌*◌, ◌^◌, ltb, leb, ◌==◌, if◌then◌else◌, ◌&&◌, ◌||◌, not, Bool, true,
  false, List, [], ◌∷◌, ◌++◌, length, Option, some, none, Outcome, ok, err, panic, ◌>>=◌, ◌>>◌,
  assert, unwrap, expect, wrapping_sub, wrapping_add, ◌%◌,
}
use icecap.Realize.{
  UntypedId, RelativeCPtr, ElaboratedUntyped, ObjectBlueprint, untyped, cnode, ObjectBits,
  physical_size_bits, Kernel,
}
use icecap.Realize.CRegion.{CRegion, new, alloc, free, relative_cptr}
use icecap.Realize.Node.{
  Tree, absent, present, NodeType, inaccessible, accessible, built_in, managed, is_absent,
  is_accessible, is_consumed, is_deletable, set_consumed, get_slot, local_cptr, node_relative_cptr,
  half_addr, get_node_mut, LeafNodes, add_leaf, get_leaf, remove_leaf, consumable_space,
}

-- `world` is the state of the kernel.
pub record Allocator (W : Type 0) : Type 0 where
  pub cregion : CRegion
  pub fragmentation_threshold_size_bits : ℕ
  pub cap_derivation_tree : Tree
  pub leaf_nodes : LeafNodes
  pub world : W

-- The loop of `build` over the levels that are left: the tree with a built-in node of a capability.
abbrev plant : ℕ → ℕ → ℕ → ℕ → ℕ → Tree → Tree
plant zero low_addr high_addr paddr cptr tree =
    present (accessible false (built_in cptr)) absent absent
plant (suc levels) low_addr high_addr paddr cptr absent =
    let half = half_addr low_addr high_addr in
    let on_left = plant levels low_addr (half - 1) paddr cptr absent in
    let on_right = plant levels half high_addr paddr cptr absent in
    if ltb paddr half
    then present inaccessible on_left absent
    else present inaccessible absent on_right
plant (suc levels) low_addr high_addr paddr cptr (present t l r) =
    let half = half_addr low_addr high_addr in
    let on_left = plant levels low_addr (half - 1) paddr cptr l in
    let on_right = plant levels half high_addr paddr cptr r in
    if ltb paddr half then present t on_left r else present t l on_right

module _ {E W : Type 0} (bits : ObjectBits) (kernel : Kernel E W) where
  unfoldable pub add_built_in : Allocator W → ElaboratedUntyped → Outcome E (Allocator W)
  add_built_in a u = do
    assert (not (u.untyped_id.paddr == 0 && u.untyped_id.size_bits == 64))
    assert (leb u.untyped_id.paddr (2 ^ 64 - 1))
    assert (leb u.untyped_id.size_bits 64)
    let levels = 64 - u.untyped_id.size_bits
    ok (record a {
      cap_derivation_tree =
          plant levels 0 (2 ^ 64 - 1) u.untyped_id.paddr u.cptr a.cap_derivation_tree;
      leaf_nodes = add_leaf a.leaf_nodes u.untyped_id;
    })

  unfoldable pub add_all : Allocator W → List ElaboratedUntyped → Outcome E (Allocator W)
  unfolding add_built_in
  add_all a [] = ok a
  add_all a (u ∷ us) = do a' ← add_built_in a u; add_all a' us

  -- `AllocatorBuilder::build`, with the fields of the builder
  unfoldable pub build : CRegion → ℕ → List ElaboratedUntyped → W → Outcome E (Allocator W)
  unfolding add_all
  build cregion threshold built_ins world =
      add_all
        (record {
          cregion = cregion;
          fragmentation_threshold_size_bits = threshold;
          cap_derivation_tree = present inaccessible absent absent;
          leaf_nodes = [];
          world = world;
        })
        built_ins

  -- The loop of `peek_space`, from an index on.
  abbrev required_space : ℕ → ℕ → List ℕ → ℕ
  required_space space size_bits [] = space
  required_space space size_bits (count ∷ counts) =
      required_space (wrapping_add space (2 ^ (size_bits % 64) * count)) (suc size_bits) counts

  peek_space : Allocator W → List ℕ → Bool
  peek_space a count_by_size_bits =
      leb (required_space 0 0 count_by_size_bits) (consumable_space a.leaf_nodes)

  -- A slot of the allocator's own CNode.
  abbrev own_slot : Allocator W → Outcome E (ℕ × Allocator W)
  own_slot a = do w ← alloc a.cregion; slot ← unwrap w.0; ok (slot, record a { cregion = w.1 })

  abbrev child : ℕ → Tree
  child slot = present (accessible false (managed slot)) absent absent

  -- What `split_untyped` does with the node that it splits.
  abbrev split_node : Allocator W → ℕ → ℕ → ℕ → NodeType → Tree → Tree → Outcome E (W × Tree)
  split_node a new_size_bits left_slot right_slot t l r = do
    assert (not (is_consumed t))
    cptr ← local_cptr t a.cregion
    w ← expect (kernel.retype a.world cptr (untyped new_size_bits) a.cregion.root left_slot)
    w ← expect (kernel.retype w cptr (untyped new_size_bits) a.cregion.root right_slot)
    ok (w, present t (child left_slot) (child right_slot))

  unfoldable pub split_untyped :
      Allocator W → UntypedId → Outcome E ((UntypedId × UntypedId) × Allocator W)
  split_untyped a id = do
    let new_size_bits = wrapping_sub id.size_bits 1
    left ← own_slot a
    right ← own_slot left.1
    let a2 = right.1
    n ← get_node_mut a2.cap_derivation_tree id (split_node a2 new_size_bits left.0 right.0)
    let left_child : UntypedId = record { paddr = id.paddr; size_bits = new_size_bits }
    let right_child : UntypedId = record {
      paddr = wrapping_add id.paddr (2 ^ (new_size_bits % 64));
      size_bits = new_size_bits;
    }
    ok (
      (left_child, right_child),
      record a2 {
        cap_derivation_tree = n.1;
        leaf_nodes = add_leaf (add_leaf a2.leaf_nodes left_child) right_child;
        world = n.0;
      },
    )

  -- `for _ in phys_size_bits..untyped_id.size_bits`, down the right side of the tree
  unfoldable pub split_down : ℕ → Allocator W → UntypedId → Outcome E (UntypedId × Allocator W)
  unfolding split_untyped
  split_down zero a id = ok (id, a)
  split_down (suc times) a id = do
    s ← split_untyped a id
    leaf_nodes ← remove_leaf s.1.leaf_nodes s.0.1
    split_down times (record s.1 { leaf_nodes = leaf_nodes }) s.0.1

  -- What `create_object` does with the node that it consumes.
  abbrev consume_node :
      Allocator W
      → ObjectBlueprint
      → RelativeCPtr
      → ℕ
      → NodeType
      → Tree
      → Tree
      → Outcome E (W × Tree)
  consume_node a blueprint destination_cnode slot t l r = do
    t' ← set_consumed t true
    cptr ← local_cptr t' a.cregion
    w ← expect (kernel.retype a.world cptr blueprint destination_cnode slot)
    ok (w, present t' l r)

  unfoldable pub create_object :
      Allocator W → RelativeCPtr → ℕ → ObjectBlueprint → Outcome E (UntypedId × Allocator W)
  unfolding split_down
  create_object a destination_cnode slot blueprint = do
    let phys_size_bits = physical_size_bits bits blueprint
    g ← get_leaf a.leaf_nodes phys_size_bits
    s ← split_down (g.0.size_bits - phys_size_bits) (record a { leaf_nodes = g.1 }) g.0
    let a2 = s.1
    n ← get_node_mut a2.cap_derivation_tree s.0 (consume_node a2 blueprint destination_cnode slot)
    ok (s.0, record a2 { cap_derivation_tree = n.1; world = n.0 })

  unfoldable pub create_objects :
      Allocator W
      → CRegion
      → List ObjectBlueprint
      → Outcome E ((List ℕ × List UntypedId) × CRegion × Allocator W)
  unfolding create_object
  create_objects a realm_cregion [] = ok (([], []), realm_cregion, a)
  create_objects a realm_cregion (blueprint ∷ blueprints) = do
    w ← alloc realm_cregion
    slot ← unwrap w.0
    o ← create_object a w.1.root slot blueprint
    rest ← create_objects o.1 w.1 blueprints
    ok ((slot ∷ rest.0.0, o.0 ∷ rest.0.1), rest.1, rest.2)

  create_cnode : Allocator W → ℕ → Outcome E ((CRegion × UntypedId × ℕ) × Allocator W)
  unfolding create_object
  create_cnode a radix = do
    realm ← own_slot a
    let realm_cnode = relative_cptr realm.1.cregion realm.0
    let guard_size = wrapping_sub (wrapping_sub 64 realm_cnode.path.depth) radix
    realm_cregion ← new realm_cnode 0 guard_size radix
    temp ← own_slot realm.1
    let temp_rel_cptr = relative_cptr temp.1.cregion temp.0
    o ← create_object temp.1 realm.1.cregion.root temp.0 (cnode radix)
    w ← kernel.mutate o.1.world realm_cregion.root temp_rel_cptr 0 guard_size
    w ← kernel.delete w temp_rel_cptr
    cregion ← free o.1.cregion temp.0
    ok ((realm_cregion, o.0, realm.0), record o.1 { cregion = cregion; world = w })
