-- ===== src/EventServer/Once.antt =====
-- impls.rs: the host's subscriptions over all calls and interrupts.
use icecap.Base.{
  ℕ, ◌==◌, ◌≡◌, ◌≢◌, refl, sym, ap, ◌∙◌, if◌then◌else◌, not, true, false, Bool-cases, inl, inr,
  List, [], ◌∷◌, get_elem?, get_elem?-set, set, Option, some, ok, assert, unwrap, index, lookup,
  Ensures, returns, Ensures-bind, Ensures-then, Ensures-ok, index-Ensures, assert-Ensures, ==_refl,
}
use icecap.EventServer.{EventServer, SubscriptionEntry, Store, Kernel, is_none}
use icecap.EventServer.Realms.{
  create_client, create_realm, destroy_realm, disconnect_all, host_subscribe,
  resource_server_subscribe, resource_server_unsubscribe, subscribe,
}
use icecap.EventServer.Calls.{
  Call, client_call, subscribe_call, unsubscribe_call, create_realm_call, destroy_realm_call,
  host_subscribe_call, irq_call, client_of, serve_client, serve, serve_all,
}
use icecap.EventServer.{signal_event}

-- The entry of a node holds a slot.
abbrev Holds : ℕ → List SubscriptionEntry → Type 0
Holds nid subscriptions =
    (e : SubscriptionEntry) × (get_elem? subscriptions nid ≡ some e) × (is_none e.slot ≡ false)

module _ {E W : Type 0} (kernel : Kernel E W) (realm_in : ℕ) where
  subscribe-Holds :
      (st : Store W) (subscriptions : List SubscriptionEntry) (nid i : ℕ)
      → Ensures
          (λ r. Holds nid r.0 × ((m : ℕ) → Holds m subscriptions → Holds m r.0))
          (subscribe kernel realm_in st subscriptions nid i)
  subscribe-Holds st subscriptions nid i = Ensures-then (index st.spaces i) (λ space.
      Ensures-bind (index-Ensures subscriptions nid) (λ entry found.
        Ensures-then (assert (is_none space.subscription_slot)) (λ _.
          Ensures-then (assert (is_none entry.slot)) (λ _.
            let e' : SubscriptionEntry = record entry { slot = some i } in
            let own : get_elem? (set subscriptions nid e') nid ≡ some e' =
              get_elem?-set subscriptions nid nid entry e' found ∙ here e' nid in
            returns ((e', own, refl), λ m h. other entry found m h)))))
    where
      here :
          (e' : SubscriptionEntry) (k : ℕ)
          → (if k == k then some e' else get_elem? subscriptions k) ≡ some e'
      here e' k = rw (==_refl k) refl

      other :
          (entry : SubscriptionEntry)
          → get_elem? subscriptions nid ≡ some entry
          → (m : ℕ) → Holds m subscriptions
          → Holds m (set subscriptions nid (record entry { slot = some i }))
      other entry found m h =
          let e' : SubscriptionEntry = record entry { slot = some i } in
          let now : get_elem? (set subscriptions nid e') m
              ≡ (if nid == m then some e' else get_elem? subscriptions m) =
            get_elem?-set subscriptions nid m entry e' found in
          elim (Bool-cases (nid == m)) [
            | inl same ↦ (e', now ∙ rw same refl, refl)
            | inr apart ↦ (h.0, now ∙ rw apart h.1, h.2)
          ]

  -- The entry is full, so `subscribe` does not return.
  subscribe-full :
      (st : Store W) (subscriptions : List SubscriptionEntry) (nid i : ℕ)
      → Holds nid subscriptions
      → Ensures (λ _. ⊥) (subscribe kernel realm_in st subscriptions nid i)
  subscribe-full st subscriptions nid i h = Ensures-then (index st.spaces i) (λ space.
      Ensures-bind (index-Ensures subscriptions nid) (λ entry found.
        Ensures-then (assert (is_none space.subscription_slot)) (λ _.
          Ensures-bind (assert-Ensures (is_none entry.slot)) (λ _ empty.
            let both : ◌≡◌ {A = Option SubscriptionEntry} (some entry) (some h.0) =
              sym found ∙ h.1 in
            let same : entry ≡ h.0 = cc in
            let full : is_none entry.slot ≡ false = ap (λ e. is_none e.slot) same ∙ h.2 in
            let clash : true ≡ false = sym empty ∙ full in absurd (no_clash clash)))))
    where
      no_clash : true ≡ false → ⊥
      no_clash e = cc

  -- What a call keeps of the host's subscriptions.
  abbrev Keeps : ℕ → EventServer W → Type 0
  Keeps nid s = Holds nid s.host_subscriptions

  serve-Keeps :
      (nid : ℕ) (s : EventServer W) (call : Call)
      → Keeps nid s
      → Ensures (Keeps nid) (serve kernel realm_in s call)
  unfolding serve create_realm destroy_realm host_subscribe resource_server_subscribe
      resource_server_unsubscribe
  serve-Keeps nid s (client_call who call) h =
      Ensures-then (client_of kernel realm_in s who) (λ client.
        Ensures-then (serve_client kernel realm_in s.store client call) (λ st. returns h))
  serve-Keeps nid s (subscribe_call m host_nid) h =
      Ensures-then (index s.host.in_spaces host_nid) (λ i.
        Ensures-then (subscribe kernel realm_in s.store s.resource_server_subscriptions m i)
          (λ r. returns h))
  serve-Keeps nid s (unsubscribe_call m host_nid) h =
      Ensures-then (index s.host.in_spaces host_nid) (λ i.
        Ensures-then (index s.store.spaces i)
          (λ space. Ensures-then (index s.resource_server_subscriptions m) (λ entry. returns h)))
  serve-Keeps nid s (create_realm_call rid num_nodes) h =
      Ensures-then (assert (is_none (lookup rid s.realms))) (λ _.
        Ensures-then (unwrap (lookup rid s.inactive_realms)) (λ inactive.
          Ensures-then (create_client kernel realm_in s.store inactive num_nodes) (λ c. returns h)))
  serve-Keeps nid s (destroy_realm_call rid) h =
      Ensures-then (assert (not (is_none (lookup rid s.realms)))) (λ _.
        Ensures-then (unwrap (lookup rid s.inactive_realms)) (λ inactive.
          Ensures-then (disconnect_all kernel realm_in s.store inactive.in_entries)
            (λ st. returns h)))
  serve-Keeps nid s (host_subscribe_call m rid realm_nid) h =
      Ensures-then (unwrap (lookup rid s.realms)) (λ realm.
        Ensures-then (index realm.in_spaces realm_nid) (λ i.
          Ensures-bind (subscribe-Holds s.store s.host_subscriptions m i)
            (λ r k. returns (k.1 nid h))))
  serve-Keeps nid s (irq_call irq) h =
      Ensures-then (unwrap (lookup irq s.irq_events))
        (λ event. Ensures-then (signal_event kernel realm_in s.store event) (λ st. returns h))

  serve_all-Keeps :
      (nid : ℕ) (s : EventServer W) (calls : List Call)
      → Keeps nid s
      → Ensures (Keeps nid) (serve_all kernel realm_in s calls)
  unfolding serve_all
  serve_all-Keeps nid s [] h = returns h
  serve_all-Keeps nid s (call ∷ calls) h =
      Ensures-bind (serve-Keeps nid s call h) (λ s' h'. serve_all-Keeps nid s' calls h')

  -- Once `host_subscribe` has returned `ok` for a node, it never does so again for that node, whatever
  -- calls and interrupts are handled in between: nothing empties the host's entry.
  pub host_subscribe-once :
      (s s1 s2 s3 : EventServer W) (nid rid realm_nid rid' realm_nid' : ℕ) (calls : List Call)
      → host_subscribe kernel realm_in s nid rid realm_nid ≡ ok s1
      → serve_all kernel realm_in s1 calls ≡ ok s2
      → host_subscribe kernel realm_in s2 nid rid' realm_nid' ≢ ok s3
  unfolding host_subscribe
  host_subscribe-once s s1 s2 s3 nid rid realm_nid rid' realm_nid' calls first between =
      let held : Keeps nid s1 =
        Ensures-ok (Keeps nid)
          (Ensures-then (unwrap (lookup rid s.realms)) (λ realm.
            Ensures-then (index realm.in_spaces realm_nid) (λ i.
              Ensures-bind (subscribe-Holds s.store s.host_subscriptions nid i)
                (λ r k. returns k.0))))
          first in
      let still : Keeps nid s2 =
        Ensures-ok (Keeps nid) (serve_all-Keeps nid s1 calls held) between in
      Ensures-ok (λ _. ⊥)
        (Ensures-then (unwrap (lookup rid' s2.realms)) (λ realm.
          Ensures-then (index realm.in_spaces realm_nid') (λ i.
            Ensures-bind (subscribe-full s2.store s2.host_subscriptions nid i still)
              (λ r no_entry. absurd no_entry))))
