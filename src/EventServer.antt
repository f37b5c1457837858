-- ===== src/EventServer.antt =====
-- rust/crates/hypervisor/components/event-server/src/server: events that clients signal to one another.
-- Each `Arc<RefCell<Event>>` and each `Arc<RefCell<InSpace>>` is a number, its place in the store; the
-- subscription slot of an in-space has that in-space's number. The kernel's calls and the bitfields, in
-- memory shared with the clients, are a parameter. A notification is its capability.
pub mod Realms
pub mod Calls
pub mod Once
pub mod Ends
pub mod Targets
mod Examples
use icecap.Base.{
  ℕ, zero, suc, ◌+◌, ◌/◌, leb, ◌==◌, if◌then◌else◌, not, ◌&&◌, ◌||◌, Bool, true, false, List, [],
  ◌∷◌, ◌++◌, length, replicate, set, Option, some, none, Outcome, ok, err, panic, ◌>>=◌, ◌>>◌,
  assert, unwrap, index, Map, lookup, insert, remove,
}

pub record ClientNode : Type 0 where
  pub nfn : List ℕ
  pub bitfield : ℕ

pub record InSpaceEntry : Type 0 where
  pub event : ℕ
  pub enabled : Bool

pub data Subscriber : Type 0 where
  event_subscriber notification_subscriber : ℕ → Subscriber

pub record InSpace : Type 0 where
  pub entries : List (Option InSpaceEntry)
  pub notification : ClientNode
  pub subscription_slot : Option Subscriber

pub record EventTarget : Type 0 where
  pub in_space : ℕ
  pub target_index : ℕ

pub record EventIrq : Type 0 where
  pub handler : ℕ
  pub notifications : List ℕ

pub record Event : Type 0 where
  pub target : Option EventTarget
  pub irq : Option EventIrq

pub record Client : Type 0 where
  pub out_space : List ℕ
  pub in_spaces : List ℕ

pub record SubscriptionEntry : Type 0 where
  pub subscriber : Subscriber
  pub slot : Option ℕ

pub record InactiveRealm : Type 0 where
  pub out_space : List ℕ
  pub in_notifications : List ClientNode
  pub in_entries : List (Option ℕ)

-- The events and the in-spaces, and the state `world` of the kernel and the bitfields.
pub record Store (W : Type 0) : Type 0 where
  pub events : List Event
  pub spaces : List InSpace
  pub world : W

pub record EventServer (W : Type 0) : Type 0 where
  pub resource_server : Client
  pub serial_server : Client
  pub host : Client
  pub realms : Map Client
  pub inactive_realms : Map InactiveRealm
  pub resource_server_subscriptions : List SubscriptionEntry
  pub host_subscriptions : List SubscriptionEntry
  pub irq_events : Map ℕ
  pub store : Store W

-- `set` of a bitfield says whether a signal is needed.
pub record Kernel (E W : Type 0) : Type 0 where
  pub set_bit : W → ℕ → ℕ → Bool × W
  pub signal : W → ℕ → W
  pub ack : W → ℕ → Outcome E W
  pub set_notification : W → ℕ → ℕ → Outcome E W

pub data ConfigureAction : Type 0 where
  set_priority : ℕ → ConfigureAction
  set_enabled : Bool → ConfigureAction

-- An error of the kernel, or the fuel of `signal_space` used up.
pub data Error (E : Type 0) : Type 0 where
  kernel_error : E → Error E
  out_of_fuel : Error E

abbrev pub lifted : {E A : Type 0} → Outcome E A → Outcome (Error E) A
lifted (ok a) = ok a
lifted (err e) = err (kernel_error e)
lifted panic = panic

abbrev pub is_none : {A : Type 0} → Option A → Bool
is_none none = true
is_none (some a) = false

abbrev contains : ℕ → List ℕ → Bool
contains i [] = false
contains i (j ∷ js) = i == j || contains i js

-- `RealmIn::CARDINALITY` is `realm_in`.
module _ {E W : Type 0} (kernel : Kernel E W) (realm_in : ℕ) where
  abbrev Result : Type 0 → Type 0
  Result A = Outcome (Error E) A

  abbrev pub put_space : Store W → ℕ → InSpace → Store W
  put_space st i space = record st { spaces = set st.spaces i space }

  abbrev pub put_event : Store W → ℕ → Event → Store W
  put_event st i event = record st { events = set st.events i event }

  -- What follows the call of a subscriber or an event, if there is one.
  abbrev signal_target :
      Store W → Option EventTarget → (ℕ → ℕ → Result (Store W)) → Result (Store W)
  signal_target st none signal_at = ok st
  signal_target st (some t) signal_at = signal_at t.in_space t.target_index

  -- `Subscriber::signal`, with `Event::signal`
  abbrev signal_subscriber :
      Store W → Option Subscriber → (ℕ → ℕ → Result (Store W)) → Result (Store W)
  signal_subscriber st none signal_at = ok st
  signal_subscriber st (some (notification_subscriber nfn)) signal_at =
      ok (record st { world = kernel.signal st.world nfn })
  signal_subscriber st (some (event_subscriber event)) signal_at = do
    ev ← index st.events event
    signal_target st ev.target signal_at

  -- `if self.notification.bitfield.set(index) { … }`, after the bit is set; the slot is emptied before
  -- its subscriber is called.
  abbrev notify_if :
      Bool
      → Store W
      → ℕ
      → ℕ
      → InSpace
      → (Store W → Option Subscriber → Result (Store W))
      → Result (Store W)
  notify_if false st i in_index space notify = ok st
  notify_if true st i in_index space notify = do
    nfn ← index space.notification.nfn (in_index / 64)
    let st' = record st { world = kernel.signal st.world nfn }
    notify (put_space st' i (record space { subscription_slot = none })) space.subscription_slot

  -- `InSpace::signal` of an in-space, while those of `borrowed` are borrowed: to borrow one again is a
  -- panic.
  unfoldable pub signal_space : ℕ → List ℕ → Store W → ℕ → ℕ → Result (Store W)
  signal_space zero borrowed st i in_index = err out_of_fuel
  signal_space (suc fuel) borrowed st i in_index = do
    assert (not (contains i borrowed))
    space ← index st.spaces i
    entry ← index space.entries in_index
    assert (not (is_none entry))
    let b = kernel.set_bit st.world space.notification.bitfield in_index
    notify_if b.0 (record st { world = b.1 }) i in_index space
        (λ st' subscriber.
          signal_subscriber st' subscriber
            (λ j j_index. signal_space fuel (i ∷ borrowed) st' j j_index))

  -- One in-space more than there are.
  unfoldable pub signal_event : Store W → ℕ → Result (Store W)
  unfolding signal_space
  signal_event st event = do
    ev ← index st.events event
    signal_target st ev.target
        (λ i in_index. signal_space (suc (length st.spaces)) [] st i in_index)

  -- `Client::signal`
  unfoldable pub signal : Store W → Client → ℕ → Result (Store W)
  unfolding signal_event
  signal st client out_index = do event ← index client.out_space out_index; signal_event st event

  -- The entry of an in-space of a client, which has to be there.
  abbrev entry_of : Store W → ℕ → ℕ → Result (InSpace × InSpaceEntry)
  entry_of st i in_index = do
    space ← index st.spaces i
    slot ← index space.entries in_index
    entry ← unwrap slot
    ok (space, entry)

  pub end : Store W → Client → ℕ → ℕ → Result (Store W)
  end st client nid in_index = do
    i ← index client.in_spaces nid
    e ← entry_of st i in_index
    ev ← index st.events e.1.event
    irq ← unwrap ev.irq
    w ← lifted (kernel.ack st.world irq.handler)
    ok (record st { world = w })

  pub configure : Store W → Client → ℕ → ℕ → ConfigureAction → Result (Store W)
  configure st client nid in_index action = do
    i ← index client.in_spaces nid
    e ← entry_of st i in_index
    elim action as (λ _. Result (Store W)) [
      | set_priority priority ↦ panic
      | set_enabled enabled ↦
          let entries = set e.0.entries in_index (some (record e.1 { enabled = enabled })) in
          ok (put_space st i (record e.0 { entries = entries }))
    ]

  -- `if let Some(irq) = entry.event.borrow().irq.as_ref() { … }`
  abbrev pub retarget_irq : Store W → Option EventIrq → ℕ → Result (Store W)
  retarget_irq st none dst_index = ok st
  retarget_irq st (some irq) dst_index = do
    nfn ← index irq.notifications dst_index
    w ← lifted (kernel.set_notification st.world irq.handler nfn)
    ok (record st { world = w })

  -- `if let Some(entry) = … { entry.event.borrow_mut().target = …; … }`
  abbrev pub retarget : Store W → Option InSpaceEntry → ℕ → ℕ → Result (Store W)
  retarget st none dst dst_index = ok st
  retarget st (some entry) dst dst_index = do
    ev ← index st.events entry.event
    let target : EventTarget = record { in_space = dst; target_index = dst_index }
    retarget_irq (put_event st entry.event (record ev { target = some target })) ev.irq dst_index

  -- The three swaps: each reads and writes an entry under a borrow of its own.
  abbrev pub swapped :
      Store W → ℕ → ℕ → Option InSpaceEntry → Result (Option InSpaceEntry × Store W)
  swapped st i in_index tmp = do
    space ← index st.spaces i
    entry ← index space.entries in_index
    ok (entry, put_space st i (record space { entries = set space.entries in_index tmp }))

  unfoldable pub move_ : Store W → Client → ℕ → ℕ → ℕ → ℕ → Result (Store W)
  move_ st client src_nid src_index dst_nid dst_index =
      let moved = do
        src ← index client.in_spaces src_nid
        a ← swapped st src src_index none
        dst ← index client.in_spaces dst_nid
        b ← swapped a.1 dst dst_index a.0
        c ← swapped b.1 src src_index b.0
        space ← index c.1.spaces dst
        entry ← index space.entries dst_index
        retarget c.1 entry dst dst_index
      in if src_nid == dst_nid && src_index == dst_index then ok st else moved
