-- ===== src/TimerServer/Hangs.antt =====
-- server.rs, `periodic` and `update_timers`: a timer that is due and is inserted again at its own time.
use icecap.Base.{
  add_i64-zero, in_i64-as_i64, ℕ, zero, suc, ltb, ◌≡◌, ◌≢◌, refl, sym, ap, ◌∙◌, ◌⊎◌, Bool, true,
  false, List, [], ◌∷◌, ◌++◌, take, drop, take-drop_join, Option, some, none, ok, subst, ℤ, pos,
  leℤ, leℤ-refl, add_i64, leℤ-trans, inl, inr, Ensures, returns, fails, Ensures-bind, Ensures-then,
  Ensures-ok, lookup, unwrap, assert, in_i64,
}
use icecap.TimerServer.{
  Timer, Server, TimerDevice, Loop, insert_timer, restart, expire, turn, again, update_timers,
  update, set_timer, periodic, guard_tid, ns_to_tick, now_tick, remove_timer, forget, drained, kept,
  is_timer,
}
use icecap.TimerServer.Sorted.{IsSorted, IsSearch, NoSooner, insert_timer-IsSorted, kept-IsSorted}

-- Some element is `P`.
abbrev Any : {A : Type 0} → (A → Type 0) → List A → Type 0
Any P [] = ⊥
Any P (x ∷ xs) = P x ⊎ Any P xs

Any-middle :
    {A : Type 0} (P : A → Type 0) (xs ys : List A) (x : A)
    → P x ⊎ Any P (xs ++ ys)
    → Any P (xs ++ (x ∷ ys))
Any-middle P [] ys x h = h
Any-middle P (y ∷ xs) ys x (inl h) = inr (Any-middle P xs ys x (inl h))
Any-middle P (y ∷ xs) ys x (inr (inl h)) = inl h
Any-middle P (y ∷ xs) ys x (inr (inr h)) = inr (Any-middle P xs ys x (inr h))

-- A timer that is due and comes back at the same time.
abbrev Stuck : ℤ → Timer → Type 0
Stuck count t = (leℤ t.compare count ≡ true) × (t.period ≡ some (pos 0)) × (in_i64 t.compare ≡ true)

module _ {W : Type 0} (device : TimerDevice W) (search : List Timer → Timer → ℕ)
    (f : IsSearch search) where
  abbrev Hangs : ℤ → List Timer → Type 0
  Hangs count ts = IsSorted ts × Any (Stuck count) ts

  insert_timer-Hangs :
      (count : ℤ) (ts : List Timer) (t : Timer)
      → IsSorted ts
      → Stuck count t ⊎ Any (Stuck count) ts
      → Hangs count (insert_timer search ts t)
  insert_timer-Hangs count ts t s h = (
    insert_timer-IsSorted search ts t f s,
    Any-middle (Stuck count) (take (search ts t) ts) (drop (search ts t) ts) t (
        subst (λ l. Stuck count t ⊎ Any (Stuck count) l) (sym (take-drop_join (search ts t) ts)) h),
  )

  due_before :
      (count c : ℤ) (ts : List Timer) → NoSooner c ts → Any (Stuck count) ts → leℤ c count ≡ true
  due_before count c [] h k = absurd k
  due_before count c (t ∷ ts) h (inl k) = leℤ-trans c t.compare count h.0 k.0
  due_before count c (t ∷ ts) h (inr k) = due_before count c ts h.1 k

  head_due :
      (count : ℤ) (t : Timer) (ts : List Timer)
      → NoSooner t.compare ts
      → Any (Stuck count) (t ∷ ts)
      → leℤ t.compare count ≡ true
  head_due count t ts h (inl k) = k.0
  head_due count t ts h (inr k) = due_before count t.compare ts h k

  restart-Hangs :
      (count : ℤ) (s : Server W) (t : Timer) (period : Option ℤ)
      → t.period ≡ period
      → IsSorted s.outstanding
      → Stuck count t ⊎ Any (Stuck count) s.outstanding
      → Ensures (λ s'. Hangs count s'.outstanding) (restart device search s t period)
  restart-Hangs count s t none e h (inl k) = let no_period : none ≡ some (pos 0) = sym e ∙ k.1 in cc
  restart-Hangs count s t none e h (inr k) = returns (h, k)
  restart-Hangs count s t (some p) e h (inr k) =
      returns (insert_timer-Hangs count s.outstanding _ h (inr k))
  restart-Hangs count s t (some p) e h (inl k) =
      let zero_period : ◌≡◌ {A = Option ℤ} (some p) (some (pos 0)) = sym e ∙ k.1 in
      let p0 : p ≡ pos 0 = cc in
      let at_once : add_i64 t.compare p ≡ t.compare =
        ap (λ q. add_i64 t.compare q) p0 ∙ add_i64-zero t.compare k.2 in
      returns (
        insert_timer-Hangs count s.outstanding (record t { compare = add_i64 t.compare p }) h
          (inl (ap (λ d. leℤ d count) at_once ∙ k.0, k.1, ap in_i64 at_once ∙ k.2)))

  expire-Hangs :
      (count : ℤ) (s : Server W) (t : Timer) (ts : List Timer)
      → Hangs count (t ∷ ts)
      → Ensures (λ s'. Hangs count s'.outstanding) (expire device search s t ts)
  unfolding expire
  expire-Hangs count s t ts h = Ensures-then (unwrap (lookup t.client s.completed)) (λ ids.
      Ensures-bind (restart-Hangs count _ t t.period refl h.0.1 h.1)
        (λ s2 v. Ensures-then (assert (ltb t.client s2.clients)) (λ _. returns v)))

  turn-Hangs :
      (count : ℤ) (s : Server W) (ts : List Timer)
      → Hangs count ts
      → Ensures (λ w. (w.0 ≡ true) × Hangs count w.1.outstanding) (turn device search s count ts)
  turn-Hangs count s [] h = absurd h.1
  turn-Hangs count s (t ∷ ts) h =
      rw (head_due count t ts h.0.0 h.1)
        (Ensures-bind (expire-Hangs count s t ts h) (λ s' v. returns (refl, v)))

  again-Hangs :
      (w : Bool × Server W) (next : Server W → Loop (Server W))
      → w.0 ≡ true
      → Ensures (λ _. ⊥) (next w.1)
      → Ensures (λ _. ⊥) (again device search w next)
  again-Hangs (true, s) next e k = k
  again-Hangs (false, s) next e k = cc

  update_timers-Hangs :
      (fuel : ℕ) (count : ℤ) (s : Server W)
      → Hangs count s.outstanding
      → Ensures (λ _. ⊥) (update_timers device search fuel s count)
  unfolding update_timers
  update_timers-Hangs zero count s h = fails
  update_timers-Hangs (suc fuel) count s h =
      Ensures-bind (turn-Hangs count s s.outstanding h)
        (λ w v. again-Hangs w _ v.0 (update_timers-Hangs fuel count w.1 v.1))

  set_timer-Hangs :
      (count : ℤ) (s : Server W) (t : Timer)
      → IsSorted s.outstanding
      → Stuck count t
      → Ensures (λ s'. Hangs count s'.outstanding) (set_timer device search s t)
  unfolding set_timer remove_timer
  set_timer-Hangs count s t h k =
      Ensures-bind
        (Ensures-then
          (forget device search t.client t.timer (drained (is_timer t.client t.timer) s.outstanding)
            s.completed)
          (λ c.
            returns {a = record s { outstanding = left; completed = c }}
              (kept-IsSorted (is_timer t.client t.timer) s.outstanding h)))
        (λ s' v. returns (insert_timer-Hangs count s'.outstanding t v (inl k)))
    where
      left : List Timer
      left = kept (is_timer t.client t.timer) s.outstanding

  update-Hangs :
      (turns fuel : ℕ) (count : ℤ) (s : Server W)
      → Hangs count s.outstanding
      → Ensures (λ _. ⊥) (update device search turns fuel s count)
  unfolding update
  update-Hangs turns zero count s h = fails
  update-Hangs turns (suc fuel) count s h =
      Ensures-bind (update_timers-Hangs turns count s h) (λ s' no_server. absurd no_server)

  -- A request for a periodic timer whose period is less than a tick of the device never returns `ok`, in
  -- a server whose timers are in order and which admits the number of the timer, however many turns and
  -- calls it is given.
  pub periodic-hangs :
      (turns fuel cid : ℕ) (tid ns : ℤ) (s : Server W) (r : Option (Server W))
      → IsSorted s.outstanding
      → guard_tid device search s tid ≡ true
      → ns_to_tick s ns ≡ pos 0
      → periodic device search turns fuel s cid tid ns ≢ ok r
  unfolding periodic
  periodic-hangs turns fuel cid tid ns s r h g z =
      Ensures-ok (λ _. ⊥)
        (rw (g, z)
          (Ensures-bind
            (Ensures-bind
              (set_timer-Hangs now.0 now.1
                (record {
                  client = cid;
                  timer = tid;
                  compare = add_i64 now.0 (pos 0);
                  period = some (pos 0);
                })
                h (ap (λ d. leℤ d now.0) at_once ∙ leℤ-refl now.0, refl, ap in_i64 at_once ∙ small))
              (λ s' v. update-Hangs turns fuel now.0 s' v))
            (λ s' no_server. absurd no_server)))
    where
      now : ℤ × Server W
      now = now_tick device search s

      small : in_i64 now.0 ≡ true
      small = in_i64-as_i64 (device.get_count s.world).0

      at_once : add_i64 now.0 (pos 0) ≡ now.0
      at_once = add_i64-zero now.0 small
