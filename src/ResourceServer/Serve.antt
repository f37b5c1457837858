-- ===== src/ResourceServer/Serve.antt =====
-- rust/crates/hypervisor/components/resource-server/src/main.rs: the messages that the server takes
-- under its lock, one at a time. The host's bulk region is memory that the host writes: a message comes
-- with what the region holds when it is read. `postcard::take_from_bytes` is a parameter.
pub mod Invariant
pub mod Exclusive
pub mod Chunks
use icecap.Base.{
  wrapping_add, ℕ, zero, suc, ◌+◌, leb, List, [], ◌∷◌, length, take, drop, Option, none, some,
  Outcome, ok, err, panic, ◌>>=◌, ◌>>◌, assert, unwrap,
}
use icecap.ResourceServer.{
  Services, ResourceServer, declare, incorporate_spec_chunk, realize_start, realize_continue,
  realize_finish, destroy, yield_to, host_event, timeout, hack_run,
}

pub record FillChunkHeader : Type 0 where
  pub object_index : ℕ
  pub fill_entry_index : ℕ
  pub size : ℕ

pub data Request : Type 0 where
  declare_realm : ℕ → ℕ → Request
  spec_chunk : ℕ → ℕ → ℕ → ℕ → Request
  fill_chunks : ℕ → ℕ → ℕ → Request
  realize_start_of realize_finish_of destroy_of hack_run_of : ℕ → Request

-- What the badge of a message says, with the message. A yield is its node, realm, virtual node and limit.
pub data Message : Type 0 where
  host_control : Request → Message
  host_yield : ℕ → ℕ → ℕ → Option ℕ → Message
  host_event_at host_timeout : Message

abbrev pub TakeHeader : Type 0
TakeHeader = List ℕ → Option (FillChunkHeader × List ℕ)

module _ {E W P S : Type 0} (ops : Services E W P S) (cores : ℕ) (take_header : TakeHeader) where
  abbrev Server : Type 0
  Server = ResourceServer W P S

  -- `from_raw_parts(bulk_region.offset(…), bulk_data_size)` behind its assertion, whose sum wraps around;
  -- of a slice past the region the model has only what is in it.
  abbrev pub bulk_data : List ℕ → ℕ → ℕ → Outcome E (List ℕ)
  bulk_data region offset size = do
    assert (leb (wrapping_add offset size) (length region))
    ok (take size (drop offset region))

  -- One turn of the loop of `FillChunks`: the server and the content that is left.
  unfoldable pub fill_chunk : Server → ℕ → List ℕ → Outcome E (Server × List ℕ)
  fill_chunk s realm_id content = do
    h ← unwrap (take_header content)
    assert (leb h.0.size (length h.1))
    s' ←
        realize_continue ops cores s realm_id h.0.object_index h.0.fill_entry_index
          (take h.0.size h.1)
    ok (s', drop h.0.size h.1)

  -- An error or a panic leaves the loop.
  abbrev pub after :
      Outcome E (Server × List ℕ)
      → (Server × List ℕ → Option (Outcome E Server))
      → Option (Outcome E Server)
  after (ok next) k = k next
  after (err e) k = some (err e)
  after panic k = some panic

  -- `while aggregate_content.len() > 0`: `none` when the fuel is used up.
  unfoldable pub fill_loop : ℕ → Server → ℕ → List ℕ → Option (Outcome E Server)
  fill_loop zero s realm_id content = none
  fill_loop (suc fuel) s realm_id [] = some (ok s)
  fill_loop (suc fuel) s realm_id (byte ∷ content) =
      after (fill_chunk s realm_id (byte ∷ content)) (λ next. fill_loop fuel next.0 realm_id next.1)

  abbrev pub finished : Option (Outcome E Server) → Outcome E Server
  finished none = panic
  finished (some m) = m

  unfoldable pub fill_all : Server → ℕ → List ℕ → Outcome E Server
  fill_all s realm_id content = finished (fill_loop (suc (length content)) s realm_id content)

  unfoldable pub request : Server → ℕ → List ℕ → Request → Outcome E Server
  unfolding fill_all
  request s node_index region (declare_realm realm_id spec_size) =
      declare ops cores s realm_id spec_size
  request s node_index region (spec_chunk realm_id bulk_data_offset bulk_data_size offset) = do
    content ← bulk_data region bulk_data_offset bulk_data_size
    incorporate_spec_chunk ops cores s realm_id offset content
  request s node_index region (fill_chunks realm_id bulk_data_offset bulk_data_size) = do
    content ← bulk_data region bulk_data_offset bulk_data_size
    fill_all s realm_id content
  request s node_index region (realize_start_of realm_id) = realize_start ops cores s realm_id
  request s node_index region (realize_finish_of realm_id) =
      realize_finish ops cores s node_index realm_id
  request s node_index region (destroy_of realm_id) = destroy ops cores s node_index realm_id
  request s node_index region (hack_run_of realm_id) = hack_run ops cores s realm_id

  unfoldable pub handle : Server → ℕ → List ℕ → Message → Outcome E Server
  handle s node_index region (host_control r) = request s node_index region r
  handle s node_index region (host_yield physical_node realm_id virtual_node limit) =
      yield_to ops cores s physical_node realm_id virtual_node limit
  handle s node_index region host_event_at = host_event ops cores s node_index
  handle s node_index region host_timeout = timeout ops cores s node_index

  -- The messages in the order in which the lock is taken, each with its node and the bulk region.
  unfoldable pub serve : Server → List (ℕ × List ℕ × Message) → Outcome E Server
  serve s [] = ok s
  serve s ((node_index, region, m) ∷ messages) = do
    s' ← handle s node_index region m
    serve s' messages
