-- ===== src/ResourceServer/Serve/Invariant.antt =====
-- core/src/lib.rs: the records of the assignment under the operations that do not move a virtual node.
use icecap.Base.{
  ℕ, zero, suc, ◌+◌, ◌==◌, ◌≡◌, refl, sym, ap, ◌∙◌, inl, inr, Bool, Bool-cases, List, [], ◌∷◌,
  get_elem?, length, leb, Option, some, none, Map, lookup, insert, remove, lookup-insert,
  lookup-remove, Outcome, ok, ◌>>=◌, Ensures, returns, Ensures-bind, Ensures-then, assert, unwrap,
}
use icecap.ResourceServer.{
  Services, Realm, ResourceServer, VirtualNode, is_none, declare, incorporate_spec_chunk,
  realize_start, realize_continue, realize_finish, destroy, hack_run, start_tcbs, start_cores,
  destroy_loop, run_nodes,
}
use icecap.ResourceServer.Assignment.{joined, place_of, node_in}
use icecap.ResourceServer.Safety.{IsConsistent}

module _ {E W P S : Type 0} (ops : Services E W P S) (cores : ℕ) where
  start_cores-idle :
      (w : W) (all : List (List (ℕ × Bool)))
      → Ensures (λ n. (i : ℕ) → place_of (get_elem? n.0 i) ≡ none) (start_cores ops cores w all)
  unfolding start_cores
  start_cores-idle w [] = returns (λ i. refl)
  start_cores-idle w (core ∷ rest) =
      Ensures-then (start_tcbs ops cores w core)
        (λ t. Ensures-bind (start_cores-idle t.1 rest) (λ n h. returns (idle t.0 n.0 h)))
    where
      idle :
          (tcbs : List ℕ) (nodes : List VirtualNode)
          → ((i : ℕ) → place_of (get_elem? nodes i) ≡ none)
          → (i : ℕ)
          → place_of (get_elem? (record { tcbs = tcbs; physical_node = none } ∷ nodes) i) ≡ none
      idle tcbs nodes h zero = refl
      idle tcbs nodes h (suc i) = h i

  -- The realms of `realms'` that run anything ran it before.
  abbrev Fewer : Map (Realm S) → Map (Realm S) → Type 0
  Fewer realms realms' =
      (r i p : ℕ)
      → place_of (node_in (lookup r realms') i) ≡ some p
      → place_of (node_in (lookup r realms) i) ≡ some p

  Fewer-insert :
      (realms : Map (Realm S)) (r : ℕ) (realm : Realm S)
      → ((i : ℕ) → place_of (get_elem? realm.virtual_nodes i) ≡ none)
      → Fewer realms (insert r realm realms)
  Fewer-insert realms r realm idle r' i p e = elim (Bool-cases (r == r')) [
    | inl same ↦
        let no : none ≡ some p = sym (idle i) ∙ rw (lookup-insert realms r r' realm, same) at e in
        cc
    | inr other ↦ rw (lookup-insert realms r r' realm, other) at e
  ]

  Fewer-remove : (realms : Map (Realm S)) (r : ℕ) → Fewer realms (remove r realms)
  Fewer-remove realms r r' i p e = elim (Bool-cases (r == r')) [
    | inl same ↦ let no : none ≡ some p = rw (lookup-remove realms r r', same) at e in cc
    | inr other ↦ rw (lookup-remove realms r r', other) at e
  ]

  -- Realms that run fewer nodes, over the same physical nodes.
  Fewer-IsConsistent :
      (s s' : ResourceServer W P S)
      → Fewer s.realms s'.realms
      → s'.physical_nodes ≡ s.physical_nodes
      → IsConsistent s
      → IsConsistent s'
  Fewer-IsConsistent s s' f e v r i p h = ap (λ l. joined (get_elem? l p)) e ∙ v r i p (f r i p h)

module _ {E W P S : Type 0} (ops : Services E W P S) (cores : ℕ) where
  pub declare-Ensures :
      (s : ResourceServer W P S) (realm_id spec_size : ℕ)
      → IsConsistent s
      → Ensures IsConsistent (declare ops cores s realm_id spec_size)
  unfolding declare
  declare-Ensures s realm_id spec_size v =
      Ensures-then (assert (is_none (lookup realm_id s.partial_specs)))
        (λ _. Ensures-then (assert (is_none (lookup realm_id s.realms))) (λ _. returns v))

  pub incorporate_spec_chunk-Ensures :
      (s : ResourceServer W P S) (realm_id offset : ℕ) (chunk : List ℕ)
      → IsConsistent s
      → Ensures IsConsistent (incorporate_spec_chunk ops cores s realm_id offset chunk)
  unfolding incorporate_spec_chunk
  incorporate_spec_chunk-Ensures s realm_id offset chunk v =
      Ensures-then (unwrap (lookup realm_id s.partial_specs)) (λ partial.
        Ensures-then (assert (leb (offset + length chunk) (length partial))) (λ _. returns v))

  pub realize_start-Ensures :
      (s : ResourceServer W P S) (realm_id : ℕ)
      → IsConsistent s
      → Ensures IsConsistent (realize_start ops cores s realm_id)
  unfolding realize_start
  realize_start-Ensures s realm_id v =
      Ensures-then (unwrap (lookup realm_id s.partial_specs))
        (λ raw. Ensures-then (ops.realize_start s.world raw) (λ w. returns v))

  pub realize_continue-Ensures :
      (s : ResourceServer W P S) (realm_id object_index fill_entry_index : ℕ) (content : List ℕ)
      → IsConsistent s
      → Ensures IsConsistent
          (realize_continue ops cores s realm_id object_index fill_entry_index content)
  unfolding realize_continue
  realize_continue-Ensures s realm_id object_index fill_entry_index content v =
      Ensures-then (unwrap (lookup realm_id s.partial_realms)) (λ partial.
        Ensures-then (ops.realize_continue s.world partial object_index fill_entry_index content)
          (λ w. returns v))

  pub realize_finish-Ensures :
      (s : ResourceServer W P S) (node_index realm_id : ℕ)
      → IsConsistent s
      → Ensures IsConsistent (realize_finish ops cores s node_index realm_id)
  unfolding realize_finish
  realize_finish-Ensures s node_index realm_id v =
      Ensures-then (unwrap (lookup realm_id s.partial_realms)) (λ partial.
        Ensures-then (ops.realize_finish s.world partial) (λ f.
          Ensures-bind (start_cores-idle ops cores f.1 (ops.virtual_cores f.0)) (λ n idle.
            Ensures-then (ops.create_realm n.1 node_index realm_id) (λ w.
              let made : Realm S = record { virtual_nodes = n.0; subsystem = f.0 } in
              returns (
                Fewer-IsConsistent ops cores s
                  (record s {
                    world = w;
                    partial_realms = remove realm_id s.partial_realms;
                    realms = insert realm_id made s.realms;
                  })
                  (Fewer-insert ops cores s.realms realm_id made idle) refl v)))))

  pub destroy-Ensures :
      (s : ResourceServer W P S) (node_index realm_id : ℕ)
      → IsConsistent s
      → Ensures IsConsistent (destroy ops cores s node_index realm_id)
  unfolding destroy
  destroy-Ensures s node_index realm_id v = go (lookup realm_id s.realms)
    where
      go :
          (o : Option (Realm S))
          → Ensures IsConsistent (elim o as (λ _. Outcome E (ResourceServer W P S)) [
            | none ↦ ok s
            | some realm ↦ do
              w ← destroy_loop ops cores s.world realm.virtual_nodes realm.virtual_nodes
              w ← ops.destroy w realm.subsystem
              w ← ops.destroy_realm w node_index realm_id
              ok (record s { world = w; realms = remove realm_id s.realms })
          ])
      go none = returns v
      go (some realm) =
          Ensures-then (destroy_loop ops cores s.world realm.virtual_nodes realm.virtual_nodes)
            (λ w1. Ensures-then (ops.destroy w1 realm.subsystem) (λ w2.
              Ensures-then (ops.destroy_realm w2 node_index realm_id) (λ w3. returns (
                Fewer-IsConsistent ops cores s
                  (record s { world = w3; realms = remove realm_id s.realms })
                  (Fewer-remove ops cores s.realms realm_id) refl v))))

  pub hack_run-Ensures :
      (s : ResourceServer W P S) (realm_id : ℕ)
      → IsConsistent s
      → Ensures IsConsistent (hack_run ops cores s realm_id)
  unfolding hack_run
  hack_run-Ensures s realm_id v =
      Ensures-then (unwrap (lookup realm_id s.realms))
        (λ realm. Ensures-then (run_nodes ops cores s.world 0 realm.virtual_nodes) (λ w. returns v))
