-- ===== src/Realize/Allocator/Exact.antt =====
-- allocator/mod.rs, `create_objects`: the bytes of the leaves before and after each step.
use icecap.Base.{
  ℕ, zero, suc, ◌+◌, ◌-◌, ◌^◌, ◌≤◌, leb, ◌≡◌, refl, sym, ap, ◌∙◌, subst, List, [], ◌∷◌, map, arith,
  ok, Ensures, returns, Ensures-bind, Ensures-then, Ensures-ok, Ensures-map, unwrap, wrapping_sub,
  wrapping_add, ◌%◌, true,
}
use icecap.Realize.{
  UntypedId, RelativeCPtr, ObjectBlueprint, ObjectBits, physical_size_bits, Kernel,
}
use icecap.Realize.CRegion.{CRegion, alloc}
use icecap.Realize.Node.{get_node_mut, LeafNodes, add_leaf}
use icecap.Realize.Node.Leaves.{
  IsLeaves, space, get_leaf-Ensures, Added, add_leaf-Added, remove_leaf-Added,
}
use icecap.Realize.Allocator.{
  Allocator, own_slot, split_node, split_untyped, split_down, consume_node, create_object,
  create_objects,
}

two-pow-suc : (n : ℕ) → 2 ^ suc n ≡ 2 ^ n + 2 ^ n
two-pow-suc n = omega arith

wrapping_sub-one : (a : ℕ) → 1 ≤ a → suc (wrapping_sub a 1) ≡ a
wrapping_sub-one a h = let e : leb 1 a ≡ true = ground arith in rw e (omega arith)

module _ {E W : Type 0} (bits : ObjectBits) (kernel : Kernel E W) where
  own_slot-Ensures :
      (a : Allocator W)
      → Ensures {E = E} (λ w. w.1.leaf_nodes ≡ a.leaf_nodes) (own_slot bits kernel a)
  own_slot-Ensures a =
      Ensures-then (alloc a.cregion) (λ w. Ensures-then (unwrap w.0) (λ slot. returns refl))

  -- After a split the right half was the last to be added, to leaves with the left half.
  abbrev Split : Allocator W → UntypedId → (UntypedId × UntypedId) × Allocator W → Type 0
  Split a id s =
      (suc s.0.1.size_bits ≡ id.size_bits)
      × ((l : LeafNodes) × (ids : List UntypedId) × (space l
            ≡ space a.leaf_nodes + 2 ^ s.0.1.size_bits)
          × Added l s.0.1 ids s.1.leaf_nodes)

  split_untyped-Ensures :
      (a : Allocator W) (id : UntypedId)
      → IsLeaves a.leaf_nodes
      → 1 ≤ id.size_bits
      → Ensures (Split a id) (split_untyped bits kernel a id)
  unfolding split_untyped
  split_untyped-Ensures a id v large =
      let half : ℕ = wrapping_sub id.size_bits 1 in
      Ensures-bind (own_slot-Ensures a) (λ left same.
        Ensures-bind (own_slot-Ensures left.1) (λ right same'.
          Ensures-then
            (get_node_mut right.1.cap_derivation_tree id
              (split_node bits kernel right.1 half left.0 right.0))
            (λ n.
              let kept : right.1.leaf_nodes ≡ a.leaf_nodes = same' ∙ same in
              let first : UntypedId = record { paddr = id.paddr; size_bits = half } in
              let second : UntypedId = record {
                paddr = wrapping_add id.paddr (2 ^ (half % 64));
                size_bits = half;
              } in
              let one = add_leaf-Added right.1.leaf_nodes first (subst IsLeaves (sym kept) v) in
              let two = add_leaf-Added (add_leaf right.1.leaf_nodes first) second one.1.0 in
              returns (
                wrapping_sub-one id.size_bits large,
                (
                  add_leaf right.1.leaf_nodes first,
                  two.0,
                  one.1.2 ∙ ap (λ l. space l + 2 ^ half) kept,
                  two.1,
                ),
              ))))

  -- What is left after the splits, with the leaf that they lead to.
  abbrev Halved : ℕ → Allocator W → UntypedId → UntypedId × Allocator W → Type 0
  Halved times a id s =
      IsLeaves s.1.leaf_nodes
      × (s.0.size_bits + times ≡ id.size_bits)
      × (space s.1.leaf_nodes + 2 ^ s.0.size_bits ≡ space a.leaf_nodes + 2 ^ id.size_bits)

  split_down-Ensures :
      (times : ℕ) (a : Allocator W) (id : UntypedId)
      → IsLeaves a.leaf_nodes
      → times ≤ id.size_bits
      → Ensures (Halved times a id) (split_down bits kernel times a id)
  unfolding split_down
  split_down-Ensures zero a id v fits = returns (v, omega arith, refl)
  split_down-Ensures (suc times) a id v fits =
      Ensures-bind (split_untyped-Ensures a id v (omega (arith, fits))) (λ s h.
        Ensures-bind (remove_leaf-Added h.1.0 s.1.leaf_nodes s.0.1 h.1.1 h.1.3) (λ leaf_nodes k.
          Ensures-map
            (λ r g.
              let size : suc s.0.1.size_bits ≡ id.size_bits = h.0 in
              let whole : 2 ^ id.size_bits ≡ 2 ^ s.0.1.size_bits + 2 ^ s.0.1.size_bits =
                ap (λ n. 2 ^ n) (sym size) ∙ two-pow-suc s.0.1.size_bits in
              let before : space leaf_nodes ≡ space a.leaf_nodes + 2 ^ s.0.1.size_bits =
                k.1 ∙ h.1.2 in
              let after : space r.1.leaf_nodes + 2 ^ r.0.size_bits
                  ≡ space leaf_nodes + 2 ^ s.0.1.size_bits =
                g.2 in
              let deep : r.0.size_bits + times ≡ s.0.1.size_bits = g.1 in
              (g.0, omega arith, omega arith))
            (split_down-Ensures times (record s.1 { leaf_nodes = leaf_nodes }) s.0.1 k.0
              (omega (arith, fits, h.0)))))

  abbrev Made : Allocator W → ℕ → UntypedId × Allocator W → Type 0
  Made a size_bits o =
      IsLeaves o.1.leaf_nodes
      × (o.0.size_bits ≡ size_bits)
      × (space o.1.leaf_nodes + 2 ^ size_bits ≡ space a.leaf_nodes)

  create_object-Ensures :
      (a : Allocator W) (destination_cnode : RelativeCPtr) (slot : ℕ) (blueprint : ObjectBlueprint)
      → IsLeaves a.leaf_nodes
      → Ensures
          (Made a (physical_size_bits bits blueprint))
          (create_object bits kernel a destination_cnode slot blueprint)
  unfolding create_object
  create_object-Ensures a destination_cnode slot blueprint v =
      Ensures-bind (get_leaf-Ensures a.leaf_nodes (physical_size_bits bits blueprint) v) (λ g h.
        Ensures-bind
          (split_down-Ensures (g.0.size_bits - physical_size_bits bits blueprint)
            (record a { leaf_nodes = g.1 }) g.0 h.0 (omega arith))
          (λ s k.
            Ensures-then
              (get_node_mut s.1.cap_derivation_tree s.0
                (consume_node bits kernel s.1 blueprint destination_cnode slot))
              (λ n.
                let large : physical_size_bits bits blueprint ≤ g.0.size_bits = h.1 in
                let deep : s.0.size_bits + (g.0.size_bits - physical_size_bits bits blueprint)
                    ≡ g.0.size_bits =
                  k.1 in
                let size : s.0.size_bits ≡ physical_size_bits bits blueprint = omega arith in
                let taken : space g.1 + 2 ^ g.0.size_bits ≡ space a.leaf_nodes = h.2 in
                let left : space s.1.leaf_nodes + 2 ^ s.0.size_bits
                    ≡ space g.1 + 2 ^ g.0.size_bits =
                  k.2 in
                returns
                  (k.0, size, ap (λ i. space s.1.leaf_nodes + 2 ^ i) (sym size) ∙ left ∙ taken))))

  -- The bytes that objects take.
  abbrev total : List ObjectBlueprint → ℕ
  total [] = 0
  total (b ∷ bs) = 2 ^ physical_size_bits bits b + total bs

  abbrev pub AllMade :
      Allocator W
      → List ObjectBlueprint
      → (List ℕ × List UntypedId) × CRegion × Allocator W
      → Type 0
  AllMade a blueprints o =
      IsLeaves o.2.leaf_nodes
      × (map (λ id. id.size_bits) o.0.1 ≡ map (physical_size_bits bits) blueprints)
      × (space o.2.leaf_nodes + total blueprints ≡ space a.leaf_nodes)

  create_objects-Ensures :
      (a : Allocator W) (realm_cregion : CRegion) (blueprints : List ObjectBlueprint)
      → IsLeaves a.leaf_nodes
      → Ensures (AllMade a blueprints) (create_objects bits kernel a realm_cregion blueprints)
  unfolding create_objects
  create_objects-Ensures a realm_cregion [] v = returns (v, refl, omega arith)
  create_objects-Ensures a realm_cregion (b ∷ bs) v = Ensures-then (alloc realm_cregion) (λ w.
      Ensures-then (unwrap w.0) (λ slot.
        Ensures-bind (create_object-Ensures a w.1.root slot b v) (λ o h.
          Ensures-bind (create_objects-Ensures o.1 w.1 bs h.0) (λ rest k.
            let one : space o.1.leaf_nodes + 2 ^ physical_size_bits bits b ≡ space a.leaf_nodes =
              h.2 in
            let others : space rest.2.leaf_nodes + total bs ≡ space o.1.leaf_nodes = k.2 in
            returns (k.0, (λ i. h.1 i ∷ k.1 i), omega arith)))))

  -- When `create_objects` returns `ok`, on an allocator with its leaves in order, the untyped blocks that
  -- it returns have the sizes of the objects asked for, one for each and in their order, and the free
  -- memory has become less by the sum of these sizes, however often blocks had to be split.
  pub create_objects-exact :
      (a : Allocator W) (realm_cregion : CRegion) (blueprints : List ObjectBlueprint)
      (o : (List ℕ × List UntypedId) × CRegion × Allocator W)
      → IsLeaves a.leaf_nodes
      → create_objects bits kernel a realm_cregion blueprints ≡ ok o
      → AllMade a blueprints o
  create_objects-exact a realm_cregion blueprints o v =
      Ensures-ok (AllMade a blueprints) (create_objects-Ensures a realm_cregion blueprints v)
