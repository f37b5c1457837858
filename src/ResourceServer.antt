-- ===== src/ResourceServer.antt =====
-- rust/crates/hypervisor/components/resource-server/core/src/lib.rs: the realms, and the physical
-- nodes that run their virtual nodes. The kernel, the timer and event servers, and the realizer are a
-- parameter: each call takes the state of that world and returns it, and panics for a node that
-- `node_local` does not have.
pub mod Assignment
pub mod Safety
pub mod Release
mod Examples
pub mod Serve
use icecap.Base.{
  ℕ, zero, suc, ◌+◌, leb, ◌==◌, if◌then◌else◌, not, Bool, true, false, List, [], ◌∷◌, ◌++◌, length,
  take, drop, replicate, set, Option, some, none, Outcome, ok, panic, ◌>>=◌, ◌>>◌, assert, unwrap,
  index, Map, lookup, insert, remove,
}

pub data YieldBackCondition : Type 0 where
  wfe : ℕ → YieldBackCondition

pub data ResumeHostCondition : Type 0 where
  timed_out host_event_came : ResumeHostCondition
  realm_yielded_back : YieldBackCondition → ResumeHostCondition

-- A TCB is its capability.
pub record VirtualNode : Type 0 where
  pub tcbs : List ℕ
  pub physical_node : Option ℕ

-- `W` is the state of the world, `P` a partial subsystem, `S` a subsystem, `E` the errors.
pub record Services (E W P S : Type 0) : Type 0 where
  pub set_affinity : W → ℕ → ℕ → Outcome E W
  pub resume : W → ℕ → Outcome E W
  pub save_caller : W → ℕ → Outcome E W
  pub oneshot_relative : W → ℕ → ℕ → Outcome E W
  pub stop : W → ℕ → Outcome E W
  pub subscribe : W → ℕ → Outcome E W
  pub unsubscribe : W → ℕ → Outcome E W
  -- The reply of a node, with the word that tells why.
  pub send : W → ℕ → ℕ → Outcome E W
  pub create_realm : W → ℕ → ℕ → Outcome E W
  pub destroy_realm : W → ℕ → ℕ → Outcome E W
  -- `postcard::from_bytes` and `realize_start`
  pub realize_start : W → List ℕ → Outcome E (P × W)
  pub realize_continue : W → P → ℕ → ℕ → List ℕ → Outcome E (P × W)
  pub realize_finish : W → P → Outcome E (S × W)
  pub destroy : W → S → Outcome E W
  -- The TCBs of each virtual core, with the flag `resume`.
  pub virtual_cores : S → List (List (ℕ × Bool))

pub record Realm (S : Type 0) : Type 0 where
  pub virtual_nodes : List VirtualNode
  pub subsystem : S

pub record ResourceServer (W P S : Type 0) : Type 0 where
  pub world : W
  pub realms : Map (Realm S)
  pub partial_specs : Map (List ℕ)
  pub partial_realms : Map P
  pub physical_nodes : List (Option (ℕ × ℕ))

-- `NUM_ACTIVE_CORES` is `cores`.
abbrev pub new : {W P S : Type 0} → ℕ → W → ResourceServer W P S
new cores world = record {
  world = world;
  realms = [];
  partial_specs = [];
  partial_realms = [];
  physical_nodes = replicate cores none;
}

abbrev pub is_none : {A : Type 0} → Option A → Bool
is_none none = true
is_none (some a) = false

module _ {E W P S : Type 0} (ops : Services E W P S) (cores : ℕ) where
  abbrev Server : Type 0
  Server = ResourceServer W P S

  -- cpu.rs
  abbrev schedule : W → ℕ → Option ℕ → Outcome E W
  schedule w tcb none = ops.set_affinity w tcb cores
  schedule w tcb (some target) = ops.set_affinity w tcb target

  -- `RPC::send`, where `RealmYieldedBack` is `todo!()`
  abbrev condition_tag : ResumeHostCondition → Outcome E ℕ
  condition_tag timed_out = ok 1
  condition_tag host_event_came = ok 2
  condition_tag (realm_yielded_back condition) = panic

  abbrev resume_host : W → ℕ → ResumeHostCondition → Outcome E W
  resume_host w physical_node condition = do
    tag ← condition_tag condition
    ops.send w physical_node tag

  -- `for tcb in &virtual_node.tcbs { schedule(*tcb, node)? }`
  unfoldable pub schedule_all : W → List ℕ → Option ℕ → Outcome E W
  schedule_all w [] target = ok w
  schedule_all w (tcb ∷ tcbs) target = do w' ← schedule w tcb target; schedule_all w' tcbs target

  unfoldable pub declare : Server → ℕ → ℕ → Outcome E Server
  declare s realm_id spec_size = do
    assert (is_none (lookup realm_id s.partial_specs))
    assert (is_none (lookup realm_id s.realms))
    ok (record s { partial_specs = insert realm_id (replicate spec_size 0) s.partial_specs })

  -- A range that ends past the buffer is a panic.
  unfoldable pub incorporate_spec_chunk : Server → ℕ → ℕ → List ℕ → Outcome E Server
  incorporate_spec_chunk s realm_id offset chunk = do
    partial ← unwrap (lookup realm_id s.partial_specs)
    assert (leb (offset + length chunk) (length partial))
    let spec = take offset partial ++ (chunk ++ drop (offset + length chunk) partial)
    ok (record s { partial_specs = insert realm_id spec s.partial_specs })

  unfoldable pub realize_start : Server → ℕ → Outcome E Server
  realize_start s realm_id = do
    raw ← unwrap (lookup realm_id s.partial_specs)
    w ← ops.realize_start s.world raw
    ok (record s {
      world = w.1;
      partial_specs = remove realm_id s.partial_specs;
      partial_realms = insert realm_id w.0 s.partial_realms;
    })

  unfoldable pub realize_continue : Server → ℕ → ℕ → ℕ → List ℕ → Outcome E Server
  realize_continue s realm_id object_index fill_entry_index content = do
    partial ← unwrap (lookup realm_id s.partial_realms)
    w ← ops.realize_continue s.world partial object_index fill_entry_index content
    ok (record s { world = w.1; partial_realms = insert realm_id w.0 s.partial_realms })

  -- The TCBs of one virtual core, scheduled on no active core and resumed if they ask for it.
  unfoldable pub start_tcbs : W → List (ℕ × Bool) → Outcome E (List ℕ × W)
  start_tcbs w [] = ok ([], w)
  start_tcbs w ((tcb, wants) ∷ rest) = do
    w1 ← schedule w tcb none
    w2 ← (if wants then ops.resume w1 tcb else ok w1)
    r ← start_tcbs w2 rest
    ok (tcb ∷ r.0, r.1)

  unfoldable pub start_cores : W → List (List (ℕ × Bool)) → Outcome E (List VirtualNode × W)
  unfolding start_tcbs
  start_cores w [] = ok ([], w)
  start_cores w (core ∷ rest) = do
    t ← start_tcbs w core
    r ← start_cores t.1 rest
    ok (record { tcbs = t.0; physical_node = none } ∷ r.0, r.1)

  unfoldable pub realize_finish : Server → ℕ → ℕ → Outcome E Server
  unfolding start_cores
  realize_finish s node_index realm_id = do
    partial ← unwrap (lookup realm_id s.partial_realms)
    f ← ops.realize_finish s.world partial
    n ← start_cores f.1 (ops.virtual_cores f.0)
    w ← ops.create_realm n.1 node_index realm_id
    ok (record s {
      world = w;
      partial_realms = remove realm_id s.partial_realms;
      realms = insert realm_id (record { virtual_nodes = n.0; subsystem = f.0 }) s.realms;
    })

  -- `for virtual_node in &realm.virtual_nodes { for tcb in … { schedule(*tcb, None)? } }`
  unfoldable unschedule_nodes : W → List VirtualNode → Outcome E W
  unfolding schedule_all
  unschedule_nodes w [] = ok w
  unschedule_nodes w (n ∷ nodes) = do w' ← schedule_all w n.tcbs none; unschedule_nodes w' nodes

  -- The outer loop of `destroy`: for each node it takes all nodes off.
  unfoldable pub destroy_loop : W → List VirtualNode → List VirtualNode → Outcome E W
  unfolding unschedule_nodes
  destroy_loop w all [] = ok w
  destroy_loop w all (n ∷ nodes) = do
    assert (is_none n.physical_node)
    w' ← unschedule_nodes w all
    destroy_loop w' all nodes

  unfoldable pub destroy : Server → ℕ → ℕ → Outcome E Server
  unfolding destroy_loop
  destroy s node_index realm_id = elim (lookup realm_id s.realms) [
    | none ↦ ok s
    | some realm ↦ do
      w ← destroy_loop s.world realm.virtual_nodes realm.virtual_nodes
      w ← ops.destroy w realm.subsystem
      w ← ops.destroy_realm w node_index realm_id
      ok (record s { world = w; realms = remove realm_id s.realms })
  ]

  -- The realm with the physical node of one of its virtual nodes replaced.
  abbrev pub place : Server → ℕ → Realm S → ℕ → VirtualNode → Option ℕ → Map (Realm S)
  place s realm_id realm i node physical_node =
      insert realm_id
        (record realm {
          virtual_nodes = set realm.virtual_nodes i (record node { physical_node = physical_node });
        })
        s.realms

  unfoldable pub yield_to : Server → ℕ → ℕ → ℕ → Option ℕ → Outcome E Server
  unfolding schedule_all
  yield_to s physical_node realm_id i timeout = do
    w ← ops.save_caller s.world physical_node
    current ← index s.physical_nodes physical_node
    assert (is_none current)
    let physical_nodes = set s.physical_nodes physical_node (some (realm_id, i))
    realm ← unwrap (lookup realm_id s.realms)
    node ← index realm.virtual_nodes i
    assert (is_none node.physical_node)
    w ← schedule_all w node.tcbs (some physical_node)
    w ← ops.subscribe w physical_node
    w ← elim timeout as (λ t. Outcome E W) [
      | none ↦ ok w
      | some ns ↦ ops.oneshot_relative w physical_node ns
    ]
    ok (record s {
      world = w;
      physical_nodes = physical_nodes;
      realms = place s realm_id realm i node (some physical_node);
    })

  unfoldable pub yield_back : Server → ℕ → ℕ → YieldBackCondition → Outcome E Server
  unfolding schedule_all
  yield_back s realm_id i condition = do
    realm ← unwrap (lookup realm_id s.realms)
    node ← index realm.virtual_nodes i
    physical_node ← unwrap node.physical_node
    w ← schedule_all s.world node.tcbs none
    w ← ops.unsubscribe w physical_node
    w ← ops.stop w physical_node
    w ← resume_host w physical_node (realm_yielded_back condition)
    ok (record s { world = w; realms = place s realm_id realm i node none })

  -- What `host_event` and `timeout` do with the node that they took: all but the calls at the end.
  abbrev evict : Server → ℕ → ℕ × ℕ → (W → Outcome E W) → Outcome E Server
  evict s physical_node (realm_id, i) finish = do
    realm ← unwrap (lookup realm_id s.realms)
    node ← index realm.virtual_nodes i
    w ← schedule_all s.world node.tcbs none
    w ← finish w
    ok (record s {
      world = w;
      physical_nodes = set s.physical_nodes physical_node none;
      realms = place s realm_id realm i node none;
    })

  -- `if let Some(…) = self.physical_nodes[physical_node].take() { … }`
  abbrev evict_if : Server → ℕ → Option (ℕ × ℕ) → (W → Outcome E W) → Outcome E Server
  evict_if s physical_node none finish = ok s
  evict_if s physical_node (some who) finish = evict s physical_node who finish

  unfoldable pub host_event : Server → ℕ → Outcome E Server
  unfolding schedule_all
  host_event s physical_node = do
    current ← index s.physical_nodes physical_node
    evict_if s physical_node current (λ w. ops.unsubscribe w physical_node >>= λ w.
        ops.stop w physical_node >>= λ w. resume_host w physical_node host_event_came)

  unfoldable pub timeout : Server → ℕ → Outcome E Server
  unfolding schedule_all
  timeout s physical_node = do
    current ← index s.physical_nodes physical_node
    evict_if s physical_node current
        (λ w. ops.unsubscribe w physical_node >>= λ w. resume_host w physical_node timed_out)

  -- `for (i, virtual_node) in realm.virtual_nodes.iter().enumerate()`
  unfoldable pub run_nodes : W → ℕ → List VirtualNode → Outcome E W
  unfolding schedule_all
  run_nodes w i [] = ok w
  run_nodes w i (n ∷ nodes) = do w' ← schedule_all w n.tcbs (some i); run_nodes w' (suc i) nodes

  unfoldable pub hack_run : Server → ℕ → Outcome E Server
  unfolding run_nodes
  hack_run s realm_id = do
    realm ← unwrap (lookup realm_id s.realms)
    w ← run_nodes s.world 0 realm.virtual_nodes
    ok (record s { world = w })
