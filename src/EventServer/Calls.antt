-- ===== src/EventServer/Calls.antt =====
-- main.rs: the requests of the clients, of the host and of the resource server, and the interrupts, one
-- after the other under the lock. The badge of a message says who sent it.
use icecap.Base.{ℕ, List, [], ◌∷◌, Outcome, ok, panic, ◌>>=◌, unwrap, lookup}
use icecap.EventServer.{
  Client, ConfigureAction, Store, EventServer, Kernel, Error, signal, signal_event, end, configure,
  move_,
}
use icecap.EventServer.Realms.{
  create_realm, destroy_realm, host_subscribe, resource_server_subscribe,
  resource_server_unsubscribe,
}

pub data ClientId : Type 0 where
  resource_server_client serial_server_client host_client : ClientId
  realm_client : ℕ → ClientId

pub data ClientCall : Type 0 where
  signal_call sev_call poll_call : ℕ → ClientCall
  end_call : ℕ → ℕ → ClientCall
  configure_call : ℕ → ℕ → ConfigureAction → ClientCall
  move_call : ℕ → ℕ → ℕ → ℕ → ClientCall

pub data Call : Type 0 where
  client_call : ClientId → ClientCall → Call
  subscribe_call unsubscribe_call create_realm_call : ℕ → ℕ → Call
  destroy_realm_call : ℕ → Call
  host_subscribe_call : ℕ → ℕ → ℕ → Call
  irq_call : ℕ → Call

module _ {E W : Type 0} (kernel : Kernel E W) (realm_in : ℕ) where
  abbrev Result : Type 0 → Type 0
  Result A = Outcome (Error E) A

  abbrev pub client_of : EventServer W → ClientId → Result Client
  client_of s resource_server_client = ok s.resource_server
  client_of s serial_server_client = ok s.serial_server
  client_of s host_client = ok s.host
  client_of s (realm_client rid) = unwrap (lookup rid s.realms)

  unfoldable pub serve_client : Store W → Client → ClientCall → Result (Store W)
  serve_client st client (signal_call out_index) = signal kernel realm_in st client out_index
  serve_client st client (sev_call nid) = panic
  serve_client st client (poll_call nid) = panic
  serve_client st client (end_call nid in_index) = end kernel realm_in st client nid in_index
  serve_client st client (configure_call nid in_index action) =
      configure kernel realm_in st client nid in_index action
  serve_client st client (move_call src_nid src_index dst_nid dst_index) =
      move_ kernel realm_in st client src_nid src_index dst_nid dst_index

  unfoldable pub serve : EventServer W → Call → Result (EventServer W)
  unfolding serve_client
  serve s (client_call who call) = do
    client ← client_of s who
    st ← serve_client s.store client call
    ok (record s { store = st })
  serve s (subscribe_call nid host_nid) = resource_server_subscribe kernel realm_in s nid host_nid
  serve s (unsubscribe_call nid host_nid) =
      resource_server_unsubscribe kernel realm_in s nid host_nid
  serve s (create_realm_call rid num_nodes) = create_realm kernel realm_in s rid num_nodes
  serve s (destroy_realm_call rid) = destroy_realm kernel realm_in s rid
  serve s (host_subscribe_call nid rid realm_nid) =
      host_subscribe kernel realm_in s nid rid realm_nid
  -- One interrupt of `IRQThread::run`
  serve s (irq_call irq) = do
    event ← unwrap (lookup irq s.irq_events)
    st ← signal_event kernel realm_in s.store event
    ok (record s { store = st })

  unfoldable pub serve_all : EventServer W → List Call → Result (EventServer W)
  unfolding serve
  serve_all s [] = ok s
  serve_all s (call ∷ calls) = do s' ← serve s call; serve_all s' calls
