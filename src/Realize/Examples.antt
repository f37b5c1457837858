-- ===== src/Realize/Examples.antt =====
-- An allocator over one untyped block.
use icecap.Base.{
  ℕ, suc, ◌+◌, ◌^◌, ◌≡◌, refl, true, false, List, [], ◌∷◌, Option, ok, ◌>>=◌, arith, IsOrdered,
}
use icecap.Realize.{
  UntypedId, RelativeCPtr, ElaboratedUntyped, ObjectBlueprint, cnode, ObjectBits, Kernel,
}
use icecap.Realize.CRegion.{CRegion, alloc, withdraw, free}
use icecap.Realize.CRegion.Slots.{Lowest, Marked, Restored, alloc-free}
use icecap.Realize.Node.{
  Tree, absent, present, NodeType, inaccessible, accessible, built_in, managed, get_leaf,
  remove_leaf, get_node_mut, descend,
}
use icecap.Realize.Node.Leaves.{IsLeaves}
use icecap.Realize.Allocator.{
  Allocator, build, add_all, add_built_in, create_objects, create_object, split_down, split_untyped,
}
use icecap.Realize.Allocator.Revoke.{revoke_and_free, revoke_and_free_helper}
use icecap.Realize.Allocator.Exact.{AllMade, create_objects-exact}

abbrev bits : ObjectBits
bits = record {
  slot_bits = 5;
  endpoint_bits = 4;
  notification_bits = 5;
  tcb_bits = 11;
  vcpu_bits = 12;
  page_bits = 12;
  large_page_bits = 21;
  huge_page_bits = 30;
  page_table_bits = 12;
  page_dir_bits = 12;
  pud_bits = 12;
  pgd_bits = 12;
}

-- The kernel counts its calls.
abbrev kernel : Kernel ℕ ℕ
kernel = record {
  retype = λ w cptr blueprint root slot. ok (suc w);
  revoke = λ w cptr. ok (suc w);
  mutate = λ w to from guard guard_size. ok (suc w);
  delete = λ w cptr. ok (suc w);
}

abbrev root : RelativeCPtr
root = record { root = 2; path = record { cptr = 3; depth = 8 } }

-- Slots 0 to 3; 0 and 2 are in use.
abbrev region : CRegion
region = record {
  root = root;
  guard = 0;
  guard_size = 52;
  radix = 2;
  set = (0, true) ∷ (1, false) ∷ (2, true) ∷ (3, false) ∷ [];
}

region-IsOrdered : IsOrdered region.set
region-IsOrdered = (
  (omega arith, (omega arith, (omega arith, tt))),
  ((omega arith, (omega arith, tt)), ((omega arith, tt), (tt, tt))),
)

alloc-free_example :
    (out : Option ℕ × CRegion) × (alloc {E = ℕ} region ≡ ok out)
    × Lowest region.set out.0
    × Marked region.set out.0 out.1.set
    × Restored ℕ region out.0 out.1
alloc-free_example = alloc-free ℕ region region-IsOrdered

abbrev slots : CRegion
slots = record region {
  radix = 4;
  set = (0, true) ∷ (1, false) ∷ (2, false) ∷ (3, false) ∷ (4, false) ∷ [];
}

-- A block of 2 ^ 62 bytes in the second quarter of the addresses.
abbrev block : ElaboratedUntyped
block = record { cptr = 5; untyped_id = record { paddr = 2 ^ 62; size_bits = 62 } }

abbrev leaf : NodeType → Tree
leaf t = present t absent absent

-- The two levels above the block.
abbrev above : Tree → Tree
above t = present inaccessible (present inaccessible absent t) absent

abbrev allocator : Allocator ℕ
allocator = record {
  cregion = slots;
  fragmentation_threshold_size_bits = 0;
  cap_derivation_tree = above (leaf (accessible false (built_in 5)));
  leaf_nodes = (62, record { paddr = 2 ^ 62; size_bits = 62 } ∷ []) ∷ [];
  world = 0;
}

build-allocator : build bits kernel slots 0 (block ∷ []) 0 ≡ ok allocator
unfolding build add_all add_built_in
build-allocator = refl

allocator-IsLeaves : IsLeaves allocator.leaf_nodes
allocator-IsLeaves = ((tt, tt), ((refl, tt), tt))

-- A CNode of 2 ^ 61 bytes and one of 2 ^ 60 bytes.
abbrev blueprints : List ObjectBlueprint
blueprints = cnode 56 ∷ cnode 55 ∷ []

abbrev allocator_after : Allocator ℕ
allocator_after = record {
  cregion = record slots { set = (0, true) ∷ (1, true) ∷ (2, true) ∷ (3, true) ∷ (4, true) ∷ [] };
  fragmentation_threshold_size_bits = 0;
  cap_derivation_tree = above (
      present (accessible false (built_in 5))
        (present (accessible false (managed 1)) (leaf (accessible false (managed 3)))
          (leaf (accessible true (managed 4))))
        (leaf (accessible true (managed 2))));
  leaf_nodes = (60, record { paddr = 2 ^ 62; size_bits = 60 } ∷ []) ∷ [];
  world = 6;
}

abbrev objects : (List ℕ × List UntypedId) × CRegion × Allocator ℕ
objects = (
  (
    1 ∷ 2 ∷ [],
    record { paddr = 2 ^ 62 + 2 ^ 61; size_bits = 61 }
        ∷ record { paddr = 2 ^ 62 + 2 ^ 60; size_bits = 60 }
        ∷ [],
  ),
  record slots { set = (0, true) ∷ (1, true) ∷ (2, true) ∷ (3, false) ∷ (4, false) ∷ [] },
  allocator_after,
)

create_objects-made : create_objects bits kernel allocator slots blueprints ≡ ok objects
unfolding create_objects create_object split_down split_untyped get_leaf remove_leaf get_node_mut
    descend alloc withdraw
create_objects-made = refl

create_objects-exact_example : AllMade bits kernel allocator blueprints objects
create_objects-exact_example =
    create_objects-exact bits kernel allocator slots blueprints objects allocator-IsLeaves
      create_objects-made

-- The two objects are given back, and the block is whole again.
revoke-whole :
    (revoke_and_free bits kernel allocator_after
        (record { paddr = 2 ^ 62 + 2 ^ 60; size_bits = 60 })
      >>= λ a. revoke_and_free bits kernel a (record { paddr = 2 ^ 62 + 2 ^ 61; size_bits = 61 }))
    ≡ ok (record allocator { world = 10; cregion = slots })
unfolding revoke_and_free revoke_and_free_helper remove_leaf free
revoke-whole = refl
