-- ===== src/TimerServer.antt =====
-- rust/crates/framework/generic-components/timer-server/src: server.rs and the messages of main.rs. The
-- trait `TimerDevice` and the notifications are a parameter, whose state is threaded through; so is the
-- index that `binary_search` finds. A loop runs on fuel, and `out_of_fuel` is the error of its model.
pub mod Sorted
pub mod Expiry
pub mod Armed
pub mod Kept
pub mod Ends
mod Examples
pub mod Hangs
pub mod Serve
use icecap.Base.{
  ℕ, zero, suc, ◌+◌, ◌-◌, ◌*◌, ◌%◌, ◌^◌, ltb, leb, ◌==◌, bit_or, if◌then◌else◌, ◌&&◌, not, Bool,
  true, false, List, [], ◌∷◌, ◌++◌, length, take, drop, Option, some, none, Outcome, ok, err, panic,
  ◌>>=◌, ◌>>◌, assert, unwrap, Map, lookup, insert, remove, ℤ, pos, negsuc, leℤ, ◌==ℤ◌, ◌+ℤ◌, times,
  div_by, add_i64, as_i64, as_u64,
}

-- `period` is the field of the struct `Period`.
pub record Timer : Type 0 where
  pub client : ℕ
  pub timer : ℤ
  pub compare : ℤ
  pub period : Option ℤ

pub data OutOfFuel : Type 0 where
  out_of_fuel : OutOfFuel

abbrev pub Loop : Type 0 → Type 0
Loop A = Outcome OutOfFuel A

-- A call that reads a clock returns the state after it.
pub record TimerDevice (W : Type 0) : Type 0 where
  pub get_freq : W → ℕ
  pub set_enable : W → Bool → W
  pub get_count : W → ℕ × W
  pub set_compare : W → ℕ → Bool × W
  pub clear_interrupt : W → W
  pub signal : W → ℕ → W

-- `world` is the state of the device and the notifications, and `clients` the number of these.
pub record Server (W : Type 0) : Type 0 where
  pub clients : ℕ
  pub timers_per_client : ℤ
  pub completed : Map (List ℤ)
  pub outstanding : List Timer
  pub world : W
  pub freq : ℕ

-- `BTreeSet`, in order
abbrev insert_id : ℤ → List ℤ → List ℤ
insert_id i [] = i ∷ []
insert_id i (j ∷ ids) =
    if i ==ℤ j then j ∷ ids else if leℤ i j then i ∷ j ∷ ids else j ∷ insert_id i ids

abbrev remove_id : ℤ → List ℤ → List ℤ
remove_id i [] = []
remove_id i (j ∷ ids) = if i ==ℤ j then ids else j ∷ remove_id i ids

abbrev ns_in_s : ℕ
ns_in_s = 1000000000

-- `for client in 0..clients.len() { completed.insert(client, BTreeSet::new()) }`
abbrev empty_completed : ℕ → Map (List ℤ)
empty_completed zero = []
empty_completed (suc n) = insert n [] (empty_completed n)

abbrev pub is_timer : ℕ → ℤ → Timer → Bool
is_timer cid tid t = t.client == cid && t.timer ==ℤ tid

-- What `drain_filter` leaves, and what it takes.
abbrev pub kept : (Timer → Bool) → List Timer → List Timer
kept p [] = []
kept p (t ∷ ts) = if p t then kept p ts else t ∷ kept p ts

abbrev pub drained : (Timer → Bool) → List Timer → List Timer
drained p [] = []
drained p (t ∷ ts) = if p t then t ∷ drained p ts else drained p ts

-- `(ns * freq / NS_IN_S) as Tick`, in `i128`
abbrev pub ns_to_tick : {W : Type 0} → Server W → ℤ → ℤ
ns_to_tick s ns = as_i64 (as_u64 (div_by (times ns s.freq) ns_in_s))

-- `Timers::insert`, with the index that `binary_search` returns, found or not.
abbrev pub insert_timer : (List Timer → Timer → ℕ) → List Timer → Timer → List Timer
insert_timer search ts t = take (search ts t) ts ++ (t ∷ drop (search ts t) ts)

module _ {W : Type 0} (device : TimerDevice W) (search : List Timer → Timer → ℕ) where
  unfoldable pub new : ℕ → ℤ → W → Loop (Server W)
  new clients timers_per_client world = do
    assert (leb clients 64)
    assert (leℤ timers_per_client (pos 64))
    ok (record {
      clients = clients;
      timers_per_client = timers_per_client;
      completed = empty_completed clients;
      outstanding = [];
      world = world;
      freq = device.get_freq world;
    })

  abbrev pub tick_to_ns : Server W → ℤ → Loop ℤ
  tick_to_ns s tick = do
    assert (not (s.freq == 0))
    ok (as_i64 (as_u64 (div_by (times tick ns_in_s) s.freq)))

  abbrev signal : Server W → ℕ → Loop (Server W)
  signal s client = do
    assert (ltb client s.clients)
    ok (record s { world = device.signal s.world client })

  abbrev pub now_tick : Server W → ℤ × Server W
  now_tick s = let c = device.get_count s.world in (as_i64 c.0, record s { world = c.1 })

  -- `if let Some(period) = &timer.period { … }`
  abbrev pub restart : Server W → Timer → Option ℤ → Loop (Server W)
  restart s t none = ok s
  restart s t (some period) = do
    let compare = add_i64 t.compare period
    ok (record s {
      outstanding = insert_timer search s.outstanding (record t { compare = compare });
    })

  -- The body of the loop of `update_timers`, for the timer at the front.
  unfoldable pub expire : Server W → Timer → List Timer → Loop (Server W)
  expire s t ts = do
    ids ← unwrap (lookup t.client s.completed)
    let s1 = record s {
      outstanding = ts;
      completed = insert t.client (insert_id t.timer ids) s.completed;
    }
    s2 ← restart s1 t t.period
    signal s2 t.client

  -- One turn of the loop: whether it goes on, and the server.
  abbrev pub turn : Server W → ℤ → List Timer → Loop (Bool × Server W)
  turn s count [] = ok (false, s)
  turn s count (t ∷ ts) =
      let due = expire s t ts >>= λ s'. ok (true, s') in
      if leℤ t.compare count then due else ok (false, s)

  abbrev pub again : Bool × Server W → (Server W → Loop (Server W)) → Loop (Server W)
  again (true, s) next = next s
  again (false, s) next = ok s

  unfoldable pub update_timers : ℕ → Server W → ℤ → Loop (Server W)
  update_timers zero s count = err out_of_fuel
  update_timers (suc fuel) s count =
      turn s count s.outstanding >>= λ w. again w (λ s'. update_timers fuel s' count)

  -- `if self.device.set_compare(t as u64) { … } else { self.update(self.now_tick()) }`
  abbrev pub compared : Server W → Bool × W → (ℤ × Server W → Loop (Server W)) → Loop (Server W)
  compared s (true, w) update = ok (record s { world = device.set_enable w true })
  compared s (false, w) update = update (now_tick (record s { world = w }))

  -- `update_device`, which goes back to `update` when the device says that the time has passed.
  abbrev pub update_device :
      Server W → List Timer → (ℤ × Server W → Loop (Server W)) → Loop (Server W)
  update_device s [] update = ok (record s { world = device.set_enable s.world false })
  update_device s (t ∷ ts) update =
      compared s (device.set_compare s.world (as_u64 t.compare)) update

  -- `turns` is the fuel of each loop, `fuel` that of the recursion.
  unfoldable pub update : ℕ → ℕ → Server W → ℤ → Loop (Server W)
  unfolding update_timers
  update turns zero s count = err out_of_fuel
  update turns (suc fuel) s count = do
    s' ← update_timers turns s count
    update_device s' s'.outstanding (λ now. update turns fuel now.1 now.0)

  unfoldable pub handle_interrupt : ℕ → ℕ → Server W → Loop (Server W)
  unfolding update
  handle_interrupt turns fuel s =
      let now = now_tick (record s { world = device.clear_interrupt s.world }) in
      update turns fuel now.1 now.0

  abbrev pub guard_tid : Server W → ℤ → Bool
  guard_tid s tid = leℤ tid s.timers_per_client

  -- The body of the loop over what was drained.
  abbrev pub forget : ℕ → ℤ → List Timer → Map (List ℤ) → Loop (Map (List ℤ))
  forget cid tid [] completed = ok completed
  forget cid tid (t ∷ ts) completed = do
    ids ← unwrap (lookup cid completed)
    forget cid tid ts (insert cid (remove_id tid ids) completed)

  unfoldable pub remove_timer : Server W → ℕ → ℤ → Loop (Server W)
  remove_timer s cid tid = do
    completed ← forget cid tid (drained (is_timer cid tid) s.outstanding) s.completed
    ok (record s { outstanding = kept (is_timer cid tid) s.outstanding; completed = completed })

  unfoldable pub set_timer : Server W → Timer → Loop (Server W)
  unfolding remove_timer
  set_timer s t = do
    s' ← remove_timer s t.client t.timer
    ok (record s' { outstanding = insert_timer search s'.outstanding t })

  -- `self.guard_tid(tid)?`: `none` is `Err(())`.
  abbrev pub guarded : Server W → ℤ → Loop (Server W) → Loop (Option (Server W))
  guarded s tid rest = if guard_tid s tid then (rest >>= λ s'. ok (some s')) else ok none

  -- What the three requests have in common: a timer is set, and all are updated.
  abbrev pub start : ℕ → ℕ → Server W → ℤ → Timer → Loop (Server W)
  start turns fuel s now t = do s' ← set_timer s t; update turns fuel s' now

  unfoldable pub oneshot_relative : ℕ → ℕ → Server W → ℕ → ℤ → ℤ → Loop (Option (Server W))
  unfolding set_timer update
  oneshot_relative turns fuel s cid tid ns =
      let now = now_tick s in
      guarded s tid (
        start turns fuel now.1 now.0 (record {
          client = cid;
          timer = tid;
          compare = add_i64 now.0 (ns_to_tick s ns);
          period = none;
        }))

  unfoldable pub oneshot_absolute : ℕ → ℕ → Server W → ℕ → ℤ → ℤ → Loop (Option (Server W))
  unfolding set_timer update
  oneshot_absolute turns fuel s cid tid ns =
      let now = now_tick s in
      guarded s tid (
        start turns fuel now.1 now.0
          (record { client = cid; timer = tid; compare = ns_to_tick s ns; period = none }))

  unfoldable pub periodic : ℕ → ℕ → Server W → ℕ → ℤ → ℤ → Loop (Option (Server W))
  unfolding set_timer update
  periodic turns fuel s cid tid ns =
      let now = now_tick s in
      let period = ns_to_tick s ns in
      guarded s tid (
        start turns fuel now.1 now.0 (record {
          client = cid;
          timer = tid;
          compare = add_i64 now.0 period;
          period = some period;
        }))

  unfoldable pub stop : Server W → ℕ → ℤ → Loop (Option (Server W))
  unfolding remove_timer
  stop s cid tid = guarded s tid (remove_timer s cid tid)

  -- `mask |= 1 << tid` for each; the shift takes `tid` modulo 64.
  abbrev mask_of : ℕ → List ℤ → ℕ
  mask_of mask [] = mask
  mask_of mask (tid ∷ ids) = mask_of (bit_or mask (2 ^ (as_u64 tid % 64))) ids

  -- `Server::completed`
  completed_of : Server W → ℕ → Loop (ℕ × Server W)
  completed_of s cid = do
    ids ← unwrap (lookup cid s.completed)
    ok (mask_of 0 ids, record s { completed = insert cid [] s.completed })

  unfoldable pub time : Server W → ℕ → Loop (ℤ × Server W)
  time s cid = do let now = now_tick s; ns ← tick_to_ns now.1 now.0; ok (ns, now.1)
