-- ===== src/EventServer/Realms.antt =====
-- impls.rs: realms are made and destroyed, and subscriptions come and go.
use icecap.Base.{
  ℕ, zero, suc, leb, not, true, List, [], ◌∷◌, ◌++◌, length, replicate, set, Option, some, none,
  Outcome, ok, ◌>>=◌, ◌>>◌, assert, unwrap, index, lookup, insert, remove,
}
use icecap.EventServer.{
  Client, ClientNode, InSpace, SubscriptionEntry, EventTarget, InactiveRealm, Store, EventServer,
  Kernel, Error, is_none, put_space, put_event,
}

module _ {E W : Type 0} (kernel : Kernel E W) (realm_in : ℕ) where
  abbrev Result : Type 0 → Type 0
  Result A = Outcome (Error E) A

  -- `Event::connect`
  unfoldable connect : Store W → ℕ → ℕ → ℕ → Result (Store W)
  connect st event i in_index = do
    space ← index st.spaces i
    entry ← index space.entries in_index
    assert (is_none entry)
    ev ← index st.events event
    assert (is_none ev.target)
    let entries = set space.entries in_index (some (record { event = event; enabled = true }))
    let target : EventTarget = record { in_space = i; target_index = in_index }
    ok (
        put_event kernel realm_in
          (put_space kernel realm_in st i (record space { entries = entries })) event
          (record ev { target = some target }))

  -- `for (in_index, entry) in self.in_entries.iter().enumerate()`, from an index on
  abbrev connect_all : Store W → List ℕ → ℕ → List (Option ℕ) → Result (Store W)
  connect_all st in_spaces in_index [] = ok st
  connect_all st in_spaces in_index (none ∷ entries) =
      connect_all st in_spaces (suc in_index) entries
  connect_all st in_spaces in_index (some event ∷ entries) = do
    i ← index in_spaces 0
    st' ← connect st event i in_index
    connect_all st' in_spaces (suc in_index) entries

  -- The in-spaces of the nodes from `nid` on: their numbers, and the store with them.
  abbrev add_spaces : Store W → List ClientNode → ℕ → ℕ → Result (List ℕ × Store W)
  add_spaces st notifications nid zero = ok ([], st)
  add_spaces st notifications nid (suc nodes) = do
    notification ← index notifications nid
    let space : InSpace = record {
      entries = replicate realm_in none;
      notification = notification;
      subscription_slot = none;
    }
    rest ←
        add_spaces (record st { spaces = st.spaces ++ (space ∷ []) }) notifications (suc nid) nodes
    ok (length st.spaces ∷ rest.0, rest.1)

  unfoldable pub create_client : Store W → InactiveRealm → ℕ → Result (Client × Store W)
  unfolding connect
  create_client st r num_nodes = do
    assert (leb num_nodes (length r.in_notifications))
    s ← add_spaces st r.in_notifications 0 num_nodes
    st' ← connect_all s.1 s.0 0 r.in_entries
    ok (record { out_space = r.out_space; in_spaces = s.0 }, st')

  -- `Event::disconnect` of each event of a realm's in-space
  abbrev pub disconnect_all : Store W → List (Option ℕ) → Result (Store W)
  disconnect_all st [] = ok st
  disconnect_all st (none ∷ entries) = disconnect_all st entries
  disconnect_all st (some event ∷ entries) = do
    ev ← index st.events event
    disconnect_all (put_event kernel realm_in st event (record ev { target = none })) entries

  unfoldable pub create_realm : EventServer W → ℕ → ℕ → Result (EventServer W)
  unfolding create_client
  create_realm s rid num_nodes = do
    assert (is_none (lookup rid s.realms))
    inactive ← unwrap (lookup rid s.inactive_realms)
    c ← create_client s.store inactive num_nodes
    ok (record s { realms = insert rid c.0 s.realms; store = c.1 })

  unfoldable pub destroy_realm : EventServer W → ℕ → Result (EventServer W)
  destroy_realm s rid = do
    assert (not (is_none (lookup rid s.realms)))
    inactive ← unwrap (lookup rid s.inactive_realms)
    st ← disconnect_all s.store inactive.in_entries
    ok (record s { realms = remove rid s.realms; store = st })

  -- A subscriber is put in the slot of an in-space, and the slot in the entry of the subscriptions; both
  -- have to be empty.
  abbrev pub subscribe :
      Store W → List SubscriptionEntry → ℕ → ℕ → Result (List SubscriptionEntry × Store W)
  subscribe st subscriptions nid i = do
    space ← index st.spaces i
    entry ← index subscriptions nid
    let st' =
        put_space kernel realm_in st i (record space { subscription_slot = some entry.subscriber })
    assert (is_none space.subscription_slot)
    assert (is_none entry.slot)
    ok (set subscriptions nid (record entry { slot = some i }), st')

  unfoldable pub host_subscribe : EventServer W → ℕ → ℕ → ℕ → Result (EventServer W)
  host_subscribe s nid rid realm_nid = do
    realm ← unwrap (lookup rid s.realms)
    i ← index realm.in_spaces realm_nid
    r ← subscribe s.store s.host_subscriptions nid i
    ok (record s { host_subscriptions = r.0; store = r.1 })

  unfoldable pub resource_server_subscribe : EventServer W → ℕ → ℕ → Result (EventServer W)
  resource_server_subscribe s nid host_nid = do
    i ← index s.host.in_spaces host_nid
    r ← subscribe s.store s.resource_server_subscriptions nid i
    ok (record s { resource_server_subscriptions = r.0; store = r.1 })

  unfoldable pub resource_server_unsubscribe : EventServer W → ℕ → ℕ → Result (EventServer W)
  resource_server_unsubscribe s nid host_nid = do
    i ← index s.host.in_spaces host_nid
    space ← index s.store.spaces i
    entry ← index s.resource_server_subscriptions nid
    ok (record s {
      resource_server_subscriptions =
          set s.resource_server_subscriptions nid (record entry { slot = none });
      store = put_space kernel realm_in s.store i (record space { subscription_slot = none });
    })
