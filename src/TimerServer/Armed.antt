-- ===== src/TimerServer/Armed.antt =====
-- server.rs, `update` and `update_device`: the device and the first timer.
use icecap.Base.{
  ℕ, zero, suc, ◌≡◌, refl, sym, ap, Bool, true, false, List, [], ◌∷◌, ok, subst, ℤ, as_u64, Ensures,
  returns, fails, Ensures-bind, Ensures-ok,
}
use icecap.TimerServer.{
  Timer, Server, TimerDevice, Loop, update_device, compared, update, now_tick, handle_interrupt,
}
use icecap.TimerServer.Sorted.{IsSearch}
use icecap.TimerServer.Expiry.{IsServer, update_timers-Ensures}

-- The device is off if no timer is outstanding, and else on and waiting for the first one: its last
-- `set_compare` was for that timer's time, which it took.
abbrev Armed : {W : Type 0} → TimerDevice W → W → List Timer → Type 0
Armed {W} device world [] = (w : W) × (world ≡ device.set_enable w false)
Armed {W} device world (t ∷ ts) =
    (w : W) × ((device.set_compare w (as_u64 t.compare)).0 ≡ true)
    × (world ≡ device.set_enable (device.set_compare w (as_u64 t.compare)).1 true)

abbrev pub IsArmed : {W : Type 0} → TimerDevice W → Server W → Type 0
IsArmed device s = IsServer s × Armed device s.world s.outstanding

module _ {W : Type 0} (device : TimerDevice W) (search : List Timer → Timer → ℕ)
    (f : IsSearch search) where
  compared-Ensures :
      (s : Server W) (t : Timer) (ts : List Timer) (next : ℤ × Server W → Loop (Server W))
      (r : Bool × W)
      → s.outstanding ≡ t ∷ ts
      → device.set_compare s.world (as_u64 t.compare) ≡ r
      → IsServer s
      → ((now : ℤ × Server W) → IsServer now.1 → Ensures (IsArmed device) (next now))
      → Ensures (IsArmed device) (compared device search s r next)
  compared-Ensures s t ts next (true, w) e h v k = returns (
    v,
    subst (Armed device (device.set_enable w true)) (sym e)
        (s.world, ap (λ r. r.0) h, ap (λ r. device.set_enable r.1 true) (sym h)),
  )
  compared-Ensures s t ts next (false, w) e h v k =
      k (now_tick device search (record s { world = w })) v

  update_device-Ensures :
      (s : Server W) (ts : List Timer) (next : ℤ × Server W → Loop (Server W))
      → s.outstanding ≡ ts
      → IsServer s
      → ((now : ℤ × Server W) → IsServer now.1 → Ensures (IsArmed device) (next now))
      → Ensures (IsArmed device) (update_device device search s ts next)
  update_device-Ensures s [] next e v k =
      returns (v, subst (Armed device (device.set_enable s.world false)) (sym e) (s.world, refl))
  update_device-Ensures s (t ∷ ts) next e v k =
      compared-Ensures s t ts next (device.set_compare s.world (as_u64 t.compare)) e refl v k

  pub update-Ensures :
      (turns fuel : ℕ) (s : Server W) (count : ℤ)
      → IsServer s
      → Ensures (IsArmed device) (update device search turns fuel s count)
  unfolding update
  update-Ensures turns zero s count v = fails
  update-Ensures turns (suc fuel) s count v =
      Ensures-bind (update_timers-Ensures device search f turns s count v) (λ s' h.
        update_device-Ensures s' s'.outstanding _ refl h.0
          (λ now v'. update-Ensures turns fuel now.1 now.0 v'))

  -- When a timer interrupt has been handled without a panic, in a server whose timers are in order and
  -- unique, they still are, and the device is off if none is outstanding, and else on and waiting for
  -- the time of the first of them, which the device has taken as one that is still to come.
  pub handle_interrupt-IsArmed :
      (turns fuel : ℕ) (s s' : Server W)
      → IsServer s
      → handle_interrupt device search turns fuel s ≡ ok s'
      → IsArmed device s'
  unfolding handle_interrupt
  handle_interrupt-IsArmed turns fuel s s' v e =
      Ensures-ok (IsArmed device)
        (update-Ensures turns fuel
          (record s { world = (device.get_count (device.clear_interrupt s.world)).1 }) _ v)
        e
