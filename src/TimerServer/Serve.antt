-- ===== src/TimerServer/Serve.antt =====
-- main.rs: one message of the timer server after the other, under its lock. The kernel's
-- acknowledgement of an interrupt is not part of the state.
use icecap.Base.{
  ℕ, ◌-◌, leb, ◌==◌, if◌then◌else◌, Bool, true, false, List, [], ◌∷◌, Option, some, none, ok, panic,
  ◌>>=◌, ◌>>◌, assert, ℤ, as_i64, as_u64,
}
use icecap.TimerServer.{
  Timer, Server, TimerDevice, Loop, handle_interrupt, oneshot_relative, oneshot_absolute, periodic,
  stop, time,
}

pub data Request : Type 0 where
  completed_request time_request : Request
  periodic_request oneshot_absolute_request oneshot_relative_request : ℤ → ℕ → Request
  stop_request : ℤ → Request

-- `Result<(), Error>` with whether it is `Ok`, or a time in `u64`.
pub data Reply : Type 0 where
  result : Bool → Reply
  nanoseconds : ℕ → Reply

module _ {W : Type 0} (device : TimerDevice W) (search : List Timer → Timer → ℕ)
    (turns fuel : ℕ) where
  -- `Err(())` leaves the server as it is.
  abbrev pub replied : Server W → Loop (Option (Server W)) → Loop (Reply × Server W)
  replied s m = m >>= λ r. elim r as (λ _. Loop (Reply × Server W)) [
    | none ↦ ok (result false, s)
    | some s' ↦ ok (result true, s')
  ]

  unfoldable pub request : Server W → ℕ → Request → Loop (Reply × Server W)
  request s cid completed_request = panic
  request s cid (periodic_request tid ns) =
      replied s (periodic device search turns fuel s cid tid (as_i64 ns))
  request s cid (oneshot_absolute_request tid ns) =
      replied s (oneshot_absolute device search turns fuel s cid tid (as_i64 ns))
  request s cid (oneshot_relative_request tid ns) =
      replied s (oneshot_relative device search turns fuel s cid tid (as_i64 ns))
  request s cid (stop_request tid) = replied s (stop device search s cid tid)
  request s cid time_request = time device search s cid >>= λ r. ok (nanoseconds (as_u64 r.0), r.1)

  abbrev interrupt_badge : ℕ
  interrupt_badge = 1

  abbrev client_badge_start : ℕ
  client_badge_start = 2

  -- A message is its badge, with the request in it; the reply is dropped.
  unfoldable pub handle : Server W → ℕ → Request → Loop (Server W)
  unfolding request
  handle s badge r =
      if badge == interrupt_badge
      then handle_interrupt device search turns fuel s
      else (assert (leb client_badge_start badge)
          >> (request s (badge - client_badge_start) r >>= λ w. ok w.1))

  unfoldable pub serve : Server W → List (ℕ × Request) → Loop (Server W)
  unfolding handle
  serve s [] = ok s
  serve s ((badge, r) ∷ messages) = handle s badge r >>= λ s'. serve s' messages
