-- ===== src/Realize/Allocator/Revoke.antt =====
-- allocator/mod.rs: `revoke_and_free`, which gives a consumed node back and joins what is whole again.
use icecap.Base.{
  ℕ, suc, ◌-◌, ◌^◌, ltb, leb, ◌==◌, if◌then◌else◌, ◌&&◌, ◌||◌, Bool, true, false, Outcome, ok,
  panic, ◌>>=◌, ◌>>◌, assert, wrapping_sub,
}
use icecap.Realize.{UntypedId, Kernel, ObjectBits}
use icecap.Realize.CRegion.{free}
use icecap.Realize.Node.{
  Tree, absent, present, NodeType, is_absent, is_accessible, is_consumed, is_deletable,
  set_consumed, get_slot, node_relative_cptr, half_addr, add_leaf, remove_leaf,
}
use icecap.Realize.Allocator.{Allocator}

module _ {E W : Type 0} (bits : ObjectBits) (kernel : Kernel E W) where
  -- `node.relative_cptr(&self.cregion).revoke()?`
  abbrev revoke : Allocator W → NodeType → Outcome E (Allocator W)
  revoke a t = do
    cptr ← node_relative_cptr t a.cregion
    w ← kernel.revoke a.world cptr
    ok (record a { world = w })

  -- The node of the right level: it is given back.
  abbrev give_back :
      Allocator W → NodeType → Tree → Tree → ℕ → UntypedId → Outcome E (Allocator W × Tree)
  give_back a t l r low_addr id = do
    assert (is_accessible t)
    assert (is_consumed t)
    assert (is_absent l && is_absent r)
    assert (low_addr == id.paddr)
    a' ← revoke a t
    t' ← set_consumed t false
    ok (record a' { leaf_nodes = add_leaf a'.leaf_nodes id }, present t' l r)

  -- A child that is there is deleted: its slot is freed, and it is no leaf any more.
  abbrev delete_child : Allocator W → Tree → UntypedId → Outcome E (Allocator W)
  delete_child a absent id = ok a
  delete_child a (present t l r) id = do
    slot ← get_slot t
    cregion ← free a.cregion slot
    leaf_nodes ← remove_leaf a.leaf_nodes id
    ok (record a { cregion = cregion; leaf_nodes = leaf_nodes })

  abbrev join_if :
      Bool → Allocator W → NodeType → Tree → Tree → ℕ → ℕ → ℕ → Outcome E (Allocator W × Tree)
  join_if false a t l r low_addr high_addr size_bits = ok (a, present t l r)
  join_if true a t l r low_addr high_addr size_bits = do
    a1 ← delete_child a l (record { paddr = low_addr; size_bits = size_bits - 1 })
    a2 ←
        delete_child a1 r
          (record { paddr = half_addr low_addr high_addr; size_bits = size_bits - 1 })
    a3 ← revoke a2 t
    ok (
      record a3 {
        leaf_nodes = add_leaf a3.leaf_nodes (record { paddr = low_addr; size_bits = size_bits });
      },
      present t absent absent,
    )

  -- The way back up: `size_bits` is `64 - depth_from_root`.
  abbrev join : Allocator W → NodeType → Tree → Tree → ℕ → ℕ → ℕ → Outcome E (Allocator W × Tree)
  join a t l r low_addr high_addr size_bits =
      join_if
        (is_accessible t && (is_absent l || is_deletable l) && (is_absent r || is_deletable r)) a t
        l r low_addr high_addr size_bits

  -- Where there is no child, the assertion fails.
  unfoldable pub revoke_and_free_helper :
      Allocator W → Tree → ℕ → ℕ → ℕ → UntypedId → Outcome E (Allocator W × Tree)
  revoke_and_free_helper a absent low_addr high_addr depth_from_root id = panic
  revoke_and_free_helper a (present t l r) low_addr high_addr depth_from_root id = do
    let size_bits = wrapping_sub 64 depth_from_root
    let half = half_addr low_addr high_addr
    let on_left = revoke_and_free_helper a l low_addr (half - 1) (suc depth_from_root) id >>= λ w.
        join w.0 t w.1 r low_addr high_addr size_bits
    let on_right = revoke_and_free_helper a r half high_addr (suc depth_from_root) id >>= λ w.
        join w.0 t l w.1 low_addr high_addr size_bits
    let below =
        assert (leb low_addr id.paddr && leb id.paddr high_addr)
        >> (if ltb id.paddr half then on_left else on_right)
    if size_bits == id.size_bits then give_back a t l r low_addr id else below

  unfoldable pub revoke_and_free : Allocator W → UntypedId → Outcome E (Allocator W)
  unfolding revoke_and_free_helper
  revoke_and_free a id = do
    w ← revoke_and_free_helper a a.cap_derivation_tree 0 (2 ^ 64 - 1) 0 id
    ok (record w.0 { cap_derivation_tree = w.1 })
