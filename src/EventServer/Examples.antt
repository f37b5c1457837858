-- ===== src/EventServer/Examples.antt =====
-- An event server with one host node and one realm of one node, over a world that counts its calls.
use icecap.Base.{ℕ, suc, ◌≡◌, ◌≢◌, refl, true, List, [], ◌∷◌, Option, some, none, ok, err}
use icecap.EventServer.{
  out_of_fuel, Client, InSpace, InSpaceEntry, Subscriber, event_subscriber, Event, Store,
  EventServer, Kernel, signal_event, signal_space, signal, move_,
}
use icecap.EventServer.Realms.{host_subscribe}
use icecap.EventServer.Calls.{client_call, host_client, signal_call, serve, serve_client, serve_all}
use icecap.EventServer.Once.{host_subscribe-once}
use icecap.EventServer.Ends.{signal_event-ends}
use icecap.EventServer.Targets.{IsMoved, move_-IsMoved}

-- Every bit that is set asks for a signal.
abbrev kernel : Kernel ℕ ℕ
kernel = record {
  set_bit = λ w bitfield in_index. (true, suc w);
  signal = λ w nfn. suc w;
  ack = λ w handler. ok (suc w);
  set_notification = λ w handler nfn. ok (suc w);
}

abbrev entry : ℕ → Option InSpaceEntry
entry event = some (record { event = event; enabled = true })

abbrev event_to : ℕ → ℕ → Event
event_to in_space target_index = record {
  target = some (record { in_space = in_space; target_index = target_index });
  irq = none;
}

abbrev space : List (Option InSpaceEntry) → Option Subscriber → InSpace
space entries slot = record {
  entries = entries;
  notification = record { nfn = 30 ∷ []; bitfield = 64 };
  subscription_slot = slot;
}

-- In-space 0 is the host's, and in-space 1 the realm's. Event 0 goes from the host to the realm, event 1
-- tells the host of the realm, and event 2 is another one for the host.
abbrev stored : Option Subscriber → ℕ → Store ℕ
stored slot world = record {
  events = event_to 1 0 ∷ event_to 0 0 ∷ event_to 0 1 ∷ [];
  spaces = space (entry 1 ∷ entry 2 ∷ none ∷ []) none ∷ space (entry 0 ∷ none ∷ []) slot ∷ [];
  world = world;
}

abbrev host : Client
host = record { out_space = 0 ∷ []; in_spaces = 0 ∷ [] }

abbrev server : Option ℕ → Option Subscriber → ℕ → EventServer ℕ
server slot subscriber world = record {
  resource_server = record { out_space = []; in_spaces = [] };
  serial_server = record { out_space = []; in_spaces = [] };
  host = host;
  realms = (5, record { out_space = []; in_spaces = 1 ∷ [] }) ∷ [];
  inactive_realms = [];
  resource_server_subscriptions = [];
  host_subscriptions = record { subscriber = event_subscriber 1; slot = slot } ∷ [];
  irq_events = [];
  store = stored subscriber world;
}

subscribed :
    host_subscribe kernel 2 (server none none 0) 0 5 0
    ≡ ok (server (some 1) (some (event_subscriber 1)) 0)
unfolding host_subscribe
subscribed = refl

-- The host signals the realm, and so is told itself, by four calls of the kernel.
delivered :
    serve_all kernel 2
      (server (some 1) (some (event_subscriber 1)) 0)
      (client_call host_client (signal_call 0) ∷ [])
    ≡ ok (server (some 1) none 4)
unfolding serve_all serve serve_client signal signal_event signal_space
delivered = refl

host_subscribe-once_example :
    host_subscribe kernel 2 (server (some 1) none 4) 0 5 0
    ≢ ok (server (some 1) (some (event_subscriber 1)) 4)
host_subscribe-once_example =
    host_subscribe-once kernel 2 (server none none 0)
      (server (some 1) (some (event_subscriber 1)) 0) (server (some 1) none 4)
      (server (some 1) (some (event_subscriber 1)) 4) 0 5 0 5 0
      (client_call host_client (signal_call 0) ∷ []) subscribed delivered

-- The same signal, which is passed on once.
signal_event-ends_example :
    signal_event kernel 2 (stored (some (event_subscriber 1)) 0) 0 ≢ err out_of_fuel
signal_event-ends_example = signal_event-ends kernel 2 (stored (some (event_subscriber 1)) 0) 0

-- Entries 0 and 1 of the host change places: both events now go to entry 1.
abbrev store_moved : Store ℕ
store_moved = record {
  events = event_to 1 0 ∷ event_to 0 1 ∷ event_to 0 1 ∷ [];
  spaces = space (entry 2 ∷ entry 1 ∷ none ∷ []) none ∷ space (entry 0 ∷ none ∷ []) none ∷ [];
  world = 0;
}

moved : move_ kernel 2 (stored none 0) host 0 0 0 1 ≡ ok store_moved
unfolding move_
moved = refl

move_-IsMoved_example : IsMoved kernel 2 (stored none 0) 0 0 0 1 store_moved
move_-IsMoved_example =
    move_-IsMoved kernel 2 (stored none 0) store_moved host 0 0 0 1 0 0 refl refl refl moved
