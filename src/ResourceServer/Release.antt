-- ===== src/ResourceServer/Release.antt =====
-- host_event, timeout and yield_back of core/src/lib.rs: what they leave of the assignment.
use icecap.Base.{
  Ensures-self, ◌>>=◌, ℕ, ◌==◌, ◌≡◌, ◌≢◌, sym, ap, ◌∙◌, if◌then◌else◌, ◌&&◌, get_elem?, Option,
  some, none, lookup, Outcome, ok, Ensures, returns, panics, Ensures-bind, Ensures-then, Ensures-ok,
  index-Ensures, unwrap-Ensures, unwrap, index, subst,
}
use icecap.ResourceServer.{
  Services, ResourceServer, YieldBackCondition, yield_back, host_event, timeout, schedule_all,
  evict_if, VirtualNode, resume_host, host_event_came, timed_out,
}
use icecap.ResourceServer.Assignment.{home, guest, home-place, guest-set, joined, node_in}
use icecap.ResourceServer.Safety.{some-injective}

-- The two messages that free a physical node.
pub data Ending : Type 0 where
  by_host_event by_timeout : Ending

module _ {E W P S : Type 0} (ops : Services E W P S) (cores : ℕ) where
  -- `yield_back` never returns `ok`: what it tells the host has no encoding, and `send` panics.
  pub yield_back-panics :
      (s s' : ResourceServer W P S) (r i : ℕ) (condition : YieldBackCondition)
      → yield_back ops cores s r i condition ≢ ok s'
  unfolding yield_back
  yield_back-panics s s' r i condition =
      Ensures-ok (λ _. ⊥)
        (Ensures-then (unwrap (lookup r s.realms)) (λ realm.
          Ensures-then (index realm.virtual_nodes i) (λ n.
            Ensures-then (unwrap n.physical_node) (λ p.
              Ensures-then (schedule_all ops cores s.world n.tcbs none) (λ w1.
                Ensures-then (ops.unsubscribe w1 p)
                  (λ w2. Ensures-then (ops.stop w2 p) (λ w3. panics)))))))

  -- An eviction by a host event or by a timeout, and the calls that end it.
  abbrev evicted : Ending → ResourceServer W P S → ℕ → Outcome E (ResourceServer W P S)
  evicted by_host_event s p = host_event ops cores s p
  evicted by_timeout s p = timeout ops cores s p

  abbrev pub finish_by : Ending → ℕ → W → Outcome E W
  finish_by by_host_event p w =
      ops.unsubscribe w p >>= λ w. ops.stop w p >>= λ w. resume_host ops cores w p host_event_came
  finish_by by_timeout p w = ops.unsubscribe w p >>= λ w. resume_host ops cores w p timed_out

  -- How the world comes to `w'`: every TCB of the virtual node is scheduled on no active core, then
  -- `finish` ends the eviction.
  abbrev TakenOff : ResourceServer W P S → ℕ → ℕ → (W → Outcome E W) → W → Type 0
  TakenOff s r i finish w' =
      (n : VirtualNode) × (node_in (lookup r s.realms) i ≡ some n)
      × ((schedule_all ops cores s.world n.tcbs none >>= finish) ≡ ok w')

  -- What `evict` leaves: the threads of the virtual node are off the active cores, neither it nor the
  -- physical node is recorded as given to the other, all other records are as they were.
  abbrev pub Released :
      (W → Outcome E W) → ResourceServer W P S → ℕ → ℕ → ℕ → ResourceServer W P S → Type 0
  Released finish s p r i s' =
      TakenOff s r i finish s'.world
      × ((r' j : ℕ) → home s' r' j ≡ (if r == r' && i == j then none else home s r' j))
      × ((q : ℕ) → guest s' q ≡ (if p == q then none else guest s q))

  evict_if-Released :
      (s : ResourceServer W P S) (p r i : ℕ) (current : Option (ℕ × ℕ)) (finish : W → Outcome E W)
      → get_elem? s.physical_nodes p ≡ some current
      → current ≡ some (r, i)
      → Ensures (Released finish s p r i) (evict_if ops cores s p current finish)
  evict_if-Released s p r i none finish found e =
      let no : ◌≡◌ {A = Option (ℕ × ℕ)} none (some (r, i)) = e in cc
  evict_if-Released s p r i (some (r', i')) finish found e =
      let pairs : ◌≡◌ {A = ℕ × ℕ} (r', i') (r, i) = some-injective e in
      subst
        (λ who.
          Ensures (Released finish s p who.0 who.1) (evict_if ops cores s p (some (r', i')) finish))
        pairs
        (Ensures-bind (unwrap-Ensures (lookup r' s.realms)) (λ realm at_realm.
          Ensures-bind (index-Ensures realm.virtual_nodes i') (λ n at_node.
            Ensures-bind (Ensures-self (schedule_all ops cores s.world n.tcbs none)) (λ w1 off.
              Ensures-bind (Ensures-self (finish w1)) (λ w2 told. returns (
                (n, rw at_realm at_node, rw off told),
                (λ r'' j. home-place s.realms r' i' r'' j realm n none at_realm at_node),
                (λ q. guest-set s.physical_nodes p q (some (r', i')) none found),
              ))))))

  given_to :
      (s : ResourceServer W P S) (p r i : ℕ) (current : Option (ℕ × ℕ))
      → get_elem? s.physical_nodes p ≡ some current
      → guest s p ≡ some (r, i)
      → current ≡ some (r, i)
  given_to s p r i current found e = sym (ap joined found) ∙ e

  -- When a host event, or a timeout, is handled without an error or a panic on a physical node that was
  -- given to a virtual node, every TCB of that virtual node has been scheduled on no active core, then
  -- the subscription is ended, after a host event the timer is stopped, and the host is resumed with the
  -- reason. Afterwards the physical node is recorded as free, that virtual node as placed
  -- nowhere, and every other node where it was.
  pub host_event-Released :
      (ending : Ending) (s s' : ResourceServer W P S) (p r i : ℕ)
      → guest s p ≡ some (r, i)
      → evicted ending s p ≡ ok s'
      → Released (finish_by ending p) s p r i s'
  unfolding host_event timeout
  host_event-Released by_host_event s s' p r i e =
      Ensures-ok (Released (finish_by by_host_event p) s p r i) (
        Ensures-bind (index-Ensures s.physical_nodes p) (λ current found.
          evict_if-Released s p r i current _ found (given_to s p r i current found e)))
  host_event-Released by_timeout s s' p r i e =
      Ensures-ok (Released (finish_by by_timeout p) s p r i) (
        Ensures-bind (index-Ensures s.physical_nodes p) (λ current found.
          evict_if-Released s p r i current _ found (given_to s p r i current found e)))
