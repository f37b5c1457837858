-- ===== src/ResourceServer/Serve/Exclusive.antt =====
-- resource-server/src/main.rs: the records of the assignment over all messages from the start. `hack_run`
-- schedules the nodes of a realm without a record, so these say nothing of the cores that it uses.
use icecap.Base.{
  ℕ, zero, suc, ◌≡◌, refl, sym, ap, ◌∙◌, List, [], ◌∷◌, Option, some, Outcome, ok, err, panic,
  Ensures, returns, fails, panics, Ensures-bind, Ensures-then, Ensures-ok, unwrap, assert, leb,
  length, take, drop,
}
use icecap.ResourceServer.{Services, ResourceServer, new}
use icecap.ResourceServer.Assignment.{home}
use icecap.ResourceServer.Safety.{
  IsConsistent, some-injective, yield_to-Ensures, host_event-Ensures, timeout-Ensures,
}
use icecap.ResourceServer.Serve.{
  TakeHeader, Request, declare_realm, spec_chunk, fill_chunks, realize_start_of, realize_finish_of,
  destroy_of, hack_run_of, Message, host_control, host_yield, host_event_at, host_timeout,
  fill_chunk, fill_loop, fill_all, bulk_data, after, finished, request, handle, serve,
}
use icecap.ResourceServer.Serve.Invariant.{
  declare-Ensures, incorporate_spec_chunk-Ensures, realize_start-Ensures, realize_continue-Ensures,
  realize_finish-Ensures, destroy-Ensures, hack_run-Ensures,
}

module _ {E W P S : Type 0} (ops : Services E W P S) (cores : ℕ) (take_header : TakeHeader) where
  fill_chunk-Ensures :
      (s : ResourceServer W P S) (realm_id : ℕ) (content : List ℕ)
      → IsConsistent s
      → Ensures (λ w. IsConsistent w.0) (fill_chunk ops cores take_header s realm_id content)
  unfolding fill_chunk
  fill_chunk-Ensures s realm_id content v = Ensures-then (unwrap (take_header content)) (λ h.
      Ensures-then (assert (leb h.0.size (length h.1))) (λ _.
        Ensures-bind {f = λ s'. ok (s', drop h.0.size h.1)}
          (realize_continue-Ensures ops cores s realm_id h.0.object_index h.0.fill_entry_index
            (take h.0.size h.1) v)
          (λ s' v'. returns v')))

  finished-Ensures :
      (m : Outcome E (ResourceServer W P S × List ℕ))
      (k : ResourceServer W P S × List ℕ → Option (Outcome E (ResourceServer W P S)))
      → Ensures (λ w. IsConsistent w.0) m
      → ((next : ResourceServer W P S × List ℕ)
          → IsConsistent next.0
          → Ensures IsConsistent (finished ops cores take_header (k next)))
      → Ensures IsConsistent (finished ops cores take_header (after ops cores take_header m k))
  finished-Ensures (ok next) k h g = g next (Ensures-ok (λ w. IsConsistent w.0) h refl)
  finished-Ensures (err e) k h g = fails
  finished-Ensures panic k h g = panics

  fill_loop-Ensures :
      (fuel : ℕ) (s : ResourceServer W P S) (realm_id : ℕ) (content : List ℕ)
      → IsConsistent s
      → Ensures IsConsistent
          (finished ops cores take_header (fill_loop ops cores take_header fuel s realm_id content))
  unfolding fill_loop
  fill_loop-Ensures zero s realm_id content v = panics
  fill_loop-Ensures (suc fuel) s realm_id [] v = returns v
  fill_loop-Ensures (suc fuel) s realm_id (byte ∷ content) v =
      finished-Ensures (fill_chunk ops cores take_header s realm_id (byte ∷ content)) _
        (fill_chunk-Ensures s realm_id (byte ∷ content) v)
        (λ next v'. fill_loop-Ensures fuel next.0 realm_id next.1 v')

  request-Ensures :
      (s : ResourceServer W P S) (node_index : ℕ) (region : List ℕ) (r : Request)
      → IsConsistent s
      → Ensures IsConsistent (request ops cores take_header s node_index region r)
  unfolding request fill_all
  request-Ensures s n region (declare_realm realm_id size) v =
      declare-Ensures ops cores s realm_id size v
  request-Ensures s n region (spec_chunk realm_id at_byte size offset) v =
      Ensures-then (bulk_data ops cores take_header region at_byte size)
        (λ content. incorporate_spec_chunk-Ensures ops cores s realm_id offset content v)
  request-Ensures s n region (fill_chunks realm_id at_byte size) v =
      Ensures-then (bulk_data ops cores take_header region at_byte size)
        (λ content. fill_loop-Ensures _ s realm_id content v)
  request-Ensures s n region (realize_start_of realm_id) v =
      realize_start-Ensures ops cores s realm_id v
  request-Ensures s n region (realize_finish_of realm_id) v =
      realize_finish-Ensures ops cores s n realm_id v
  request-Ensures s n region (destroy_of realm_id) v = destroy-Ensures ops cores s n realm_id v
  request-Ensures s n region (hack_run_of realm_id) v = hack_run-Ensures ops cores s realm_id v

  handle-Ensures :
      (s : ResourceServer W P S) (node_index : ℕ) (region : List ℕ) (m : Message)
      → IsConsistent s
      → Ensures IsConsistent (handle ops cores take_header s node_index region m)
  unfolding handle
  handle-Ensures s n region (host_control r) v = request-Ensures s n region r v
  handle-Ensures s n region (host_yield p r i limit) v = yield_to-Ensures ops cores s p r i limit v
  handle-Ensures s n region host_event_at v = host_event-Ensures ops cores s n v
  handle-Ensures s n region host_timeout v = timeout-Ensures ops cores s n v

  serve-Ensures :
      (s : ResourceServer W P S) (messages : List (ℕ × List ℕ × Message))
      → IsConsistent s
      → Ensures IsConsistent (serve ops cores take_header s messages)
  unfolding serve
  serve-Ensures s [] v = returns v
  serve-Ensures s ((n, region, m) ∷ messages) v =
      Ensures-bind (handle-Ensures s n region m v) (λ s' v'. serve-Ensures s' messages v')

  new-IsConsistent : (w : W) → IsConsistent (new {W = W} {P = P} {S = S} cores w)
  new-IsConsistent w r i p e = cc

  -- When the server, started over any kernel, has handled a list of messages without an error or a
  -- panic, a virtual node that is placed on a physical node is the one that this physical node was given
  -- to, so two virtual nodes that are placed on the same physical node are the same.
  pub serve-exclusive :
      (w : W) (messages : List (ℕ × List ℕ × Message)) (s : ResourceServer W P S)
      → serve ops cores take_header (new {W = W} {P = P} {S = S} cores w) messages ≡ ok s
      → IsConsistent s
        × ((r i r' i' p : ℕ) → home s r i ≡ some p → home s r' i' ≡ some p → (r ≡ r') × (i ≡ i'))
  serve-exclusive w messages s e =
      let v : IsConsistent s =
        Ensures-ok IsConsistent
          (serve-Ensures (new {W = W} {P = P} {S = S} cores w) messages (new-IsConsistent w)) e in
      (
        v,
        λ r i r' i' p h h'.
            let same : ◌≡◌ {A = Option (ℕ × ℕ)} (some (r, i)) (some (r', i')) =
              sym (v r i p h) ∙ v r' i' p h' in
            let pairs : ◌≡◌ {A = ℕ × ℕ} (r, i) (r', i') = some-injective same in
            (ap (λ x. x.0) pairs, ap (λ x. x.1) pairs),
      )
