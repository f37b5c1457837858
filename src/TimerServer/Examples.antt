-- ===== src/TimerServer/Examples.antt =====
-- The timer server over a small device: a clock, and the time that it waits for.
use icecap.Base.{
  ℕ, suc, ltb, ◌≡◌, ◌≢◌, refl, if◌then◌else◌, true, false, Bool-cases, List, [], ◌∷◌, none, ok, err,
  ◌>>=◌, arith, ℤ, pos, negsuc, leℤ, inl, inr,
}
use icecap.TimerServer.{
  Timer, Server, TimerDevice, out_of_fuel, new, update_timers, update, expire, set_timer,
  remove_timer, handle_interrupt, periodic, oneshot_absolute, oneshot_relative, stop,
}
use icecap.TimerServer.Sorted.{IsSearch, NoSooner-trans}
use icecap.TimerServer.Expiry.{IsServer}
use icecap.TimerServer.Armed.{IsArmed, handle_interrupt-IsArmed}
use icecap.TimerServer.Ends.{update_timers-ends}
use icecap.TimerServer.Hangs.{periodic-hangs}
use icecap.TimerServer.Kept.{serve-IsServer}
use icecap.TimerServer.Serve.{
  Request, oneshot_absolute_request, oneshot_relative_request, stop_request, request, handle, serve,
}

-- The state is the clock and the last compare value.
abbrev device : TimerDevice (ℕ × ℕ)
device = record {
  get_freq = λ w. 1000000000;
  set_enable = λ w on. w;
  get_count = λ w. (w.0, w);
  set_compare = λ w c. (ltb w.0 c, (w.0, c));
  clear_interrupt = λ w. w;
  signal = λ w client. w;
}

abbrev search : List Timer → Timer → ℕ
search [] t = 0
search (u ∷ ts) t = if leℤ t.compare u.compare then 0 else suc (search ts t)

search-IsSearch : IsSearch search
search-IsSearch [] t s = (tt, tt)
search-IsSearch (u ∷ ts) t s = elim (Bool-cases (leℤ t.compare u.compare)) [
  | inl sooner ↦ rw sooner (tt, (sooner, NoSooner-trans t.compare u.compare ts sooner s.0))
  | inr later ↦
      let rest = search-IsSearch ts t s.1 in
      rw later ((total t.compare u.compare later, rest.0), rest.1)
]
  where
    total : (a b : ℤ) → leℤ a b ≡ false → leℤ b a ≡ true
    total (pos a) (pos b) h = ground arith
    total (pos a) (negsuc b) h = refl
    total (negsuc a) (pos b) h = cc
    total (negsuc a) (negsuc b) h = ground arith

abbrev messages : List (ℕ × Request)
messages =
    (2, oneshot_absolute_request (pos 0) 90)
    ∷ (3, oneshot_relative_request (pos 1) 20)
    ∷ (2, oneshot_absolute_request (pos 0) 70)
    ∷ (3, stop_request (pos 0))
    ∷ []

abbrev shot : ℕ → ℤ → ℕ → Timer
shot client timer compare = record {
  client = client;
  timer = timer;
  compare = pos compare;
  period = none;
}

abbrev served : Server (ℕ × ℕ)
served = record {
  clients = 2;
  timers_per_client = pos 1;
  completed = (0, []) ∷ (1, []) ∷ [];
  outstanding = shot 1 (pos 1) 60 ∷ shot 0 (pos 0) 70 ∷ [];
  world = (40, 60);
  freq = 1000000000;
}

serve-served :
    (new device search 2 (pos 1) (40, 0) >>= λ s0. serve device search 3 2 s0 messages) ≡ ok served
unfolding new serve handle request oneshot_absolute oneshot_relative stop set_timer remove_timer
    update update_timers expire
serve-served = refl

served-IsServer : IsServer served
served-IsServer =
    serve-IsServer device search search-IsSearch 3 2 2 (pos 1) (40, 0) messages served serve-served

-- An interrupt at time 65, at which the first timer is due.
abbrev interrupted : Server (ℕ × ℕ)
interrupted = record served {
  completed = (0, []) ∷ (1, pos 1 ∷ []) ∷ [];
  outstanding = shot 0 (pos 0) 70 ∷ [];
  world = (65, 70);
}

handle_interrupt-interrupted :
    handle_interrupt device search 3 2 (record served { world = (65, 60) }) ≡ ok interrupted
unfolding handle_interrupt update update_timers expire
handle_interrupt-interrupted = refl

handle_interrupt-IsArmed_example : IsArmed device interrupted
handle_interrupt-IsArmed_example =
    handle_interrupt-IsArmed device search search-IsSearch 3 2 (record served { world = (65, 60) })
      interrupted served-IsServer handle_interrupt-interrupted

update_timers-ends_example : update_timers device search 3 served (pos 65) ≢ err out_of_fuel
update_timers-ends_example =
    update_timers-ends device search 3 served (pos 65) (refl, (refl, tt)) (omega arith)

periodic-hangs_example : periodic device search 1000 1000 served 1 (pos 1) (pos 0) ≢ ok none
periodic-hangs_example =
    periodic-hangs device search search-IsSearch 1000 1000 1 (pos 1) (pos 0) served none
      served-IsServer.0 refl refl
