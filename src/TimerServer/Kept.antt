-- ===== src/TimerServer/Kept.antt =====
-- server.rs and main.rs: the order and the uniqueness of the timers over all messages.
use icecap.Base.{
  ℕ, ◌-◌, ◌≤◌, leb, ◌==◌, ◌≡◌, refl, sym, ap, ◌∙◌, true, false, Bool-cases, ==_iff, ==_refl,
  ==ℤ-refl, and-true, List, [], ◌∷◌, Option, some, none, ok, ◌>>=◌, arith, subst, ℤ, pos, negsuc,
  leℤ, ◌==ℤ◌, inl, inr, Ensures, returns, panics, Ensures-bind, Ensures-then, Ensures-map,
  Ensures-if, Ensures-ok, assert,
}
use icecap.TimerServer.{
  Timer, Server, TimerDevice, Loop, now_tick, handle_interrupt, remove_timer, set_timer, forget,
  drained, is_timer, guarded, guard_tid, start, oneshot_relative, oneshot_absolute, periodic, stop,
  time, tick_to_ns, new,
}
use icecap.TimerServer.Sorted.{
  IsSearch, count_of, insert_timer-IsSorted, count_of-insert_timer, kept-IsSorted, count_of-kept_le,
  count_of-kept,
}
use icecap.TimerServer.Expiry.{IsServer}
use icecap.TimerServer.Armed.{update-Ensures}
use icecap.TimerServer.Serve.{
  Request, completed_request, time_request, periodic_request, oneshot_absolute_request,
  oneshot_relative_request, stop_request, Reply, result, replied, request, handle, serve,
}

is_timer-same :
    (cid cid' : ℕ) (tid tid' : ℤ) (t : Timer)
    → is_timer cid tid t ≡ true
    → is_timer cid' tid' t ≡ true
    → (ts : List Timer) → count_of cid tid ts ≡ count_of cid' tid' ts
is_timer-same cid cid' tid tid' t h k ts =
    let a = and-true (t.client == cid) (t.timer ==ℤ tid) h in
    let b = and-true (t.client == cid') (t.timer ==ℤ tid') k in
    let e : cid ≡ cid' = sym ((==_iff t.client cid).0 a.0) ∙ (==_iff t.client cid').0 b.0 in
    let e' : tid ≡ tid' = sym (equal t.timer tid a.1) ∙ equal t.timer tid' b.1 in rw (e, e') refl
  where
    equal : (a b : ℤ) → (a ==ℤ b) ≡ true → a ≡ b
    equal (pos a) (pos b) h = ap pos ((==_iff a b).0 h)
    equal (pos a) (negsuc b) h = cc
    equal (negsuc a) (pos b) h = cc
    equal (negsuc a) (negsuc b) h = ap negsuc ((==_iff a b).0 h)

module _ {W : Type 0} (device : TimerDevice W) (search : List Timer → Timer → ℕ)
    (f : IsSearch search) where
  -- The timers without one, and that client's timer not among them.
  abbrev IsWithout : ℕ → ℤ → Server W → Type 0
  IsWithout cid tid s = IsServer s × (count_of cid tid s.outstanding ≡ 0)

  remove_timer-Ensures :
      (s : Server W) (cid : ℕ) (tid : ℤ)
      → IsServer s
      → Ensures (IsWithout cid tid) (remove_timer device search s cid tid)
  unfolding remove_timer
  remove_timer-Ensures s cid tid v =
      Ensures-then
        (forget device search cid tid (drained (is_timer cid tid) s.outstanding) s.completed)
        (λ completed. returns (
          (
            kept-IsSorted (is_timer cid tid) s.outstanding v.0,
            λ c i.
                let a = count_of-kept_le (is_timer cid tid) c i s.outstanding in
                let b = v.1 c i in omega arith,
          ),
          count_of-kept cid tid s.outstanding,
        ))

  set_timer-Ensures :
      (s : Server W) (t : Timer) → IsServer s → Ensures IsServer (set_timer device search s t)
  unfolding set_timer
  set_timer-Ensures s t v = Ensures-bind (remove_timer-Ensures s t.client t.timer v) (λ s' h.
      returns (
        insert_timer-IsSorted search s'.outstanding t f h.0.0,
        λ cid tid.
            subst (λ n. n ≤ 1) (sym (count_of-insert_timer search s'.outstanding t cid tid))
              (elim (Bool-cases (is_timer cid tid t)) [
                | inl it ↦
                    let none_of_it : count_of cid tid s'.outstanding ≡ 0 =
                      is_timer-same cid t.client tid t.timer t it (own t) s'.outstanding ∙ h.1 in
                    rw (it, none_of_it) (omega arith)
                | inr other ↦ let a = h.0.1 cid tid in rw other (omega arith)
              ]),
      ))
    where
      own : (t : Timer) → is_timer t.client t.timer t ≡ true
      own t = let a = ==_refl t.client in let b = ==ℤ-refl t.timer in rw (a, b) refl

  -- A reply and the server with it.
  abbrev Guarded : Option (Server W) → Type 0
  Guarded none = Unit
  Guarded (some s) = IsServer s

  start-Ensures :
      (turns fuel : ℕ) (s : Server W) (now : ℤ) (t : Timer)
      → IsServer s
      → Ensures IsServer (start device search turns fuel s now t)
  start-Ensures turns fuel s now t v =
      Ensures-bind (set_timer-Ensures s t v)
        (λ s' v'. Ensures-map (λ a h. h.0) (update-Ensures device search f turns fuel s' now v'))

  guarded-Ensures :
      (s : Server W) (tid : ℤ) (m : Loop (Server W))
      → Ensures IsServer m
      → Ensures Guarded (guarded device search s tid m)
  guarded-Ensures s tid m h = elim (Bool-cases (guard_tid device search s tid)) [
    | inl in_range ↦ rw in_range (Ensures-bind h (λ s' v'. returns v'))
    | inr outside ↦ rw outside (returns tt)
  ]

  replied-Ensures :
      (turns fuel : ℕ) (s : Server W) {m : Loop (Option (Server W))}
      → IsServer s
      → Ensures Guarded m
      → Ensures (λ w. IsServer w.1) (replied device search turns fuel s m)
  replied-Ensures turns fuel s v h = Ensures-bind h go
    where
      go :
          (o : Option (Server W))
          → Guarded o
          → Ensures
              (λ w. IsServer w.1)
              (elim o as (λ _. Loop (Reply × Server W)) [
                | none ↦ ok (result false, s)
                | some s' ↦ ok (result true, s')
              ])
      go none h = returns v
      go (some s') h = returns h

  request-Ensures :
      (turns fuel : ℕ) (s : Server W) (cid : ℕ) (r : Request)
      → IsServer s
      → Ensures (λ w. IsServer w.1) (request device search turns fuel s cid r)
  unfolding request periodic oneshot_absolute oneshot_relative stop time
  request-Ensures turns fuel s cid completed_request v = panics
  request-Ensures turns fuel s cid (periodic_request tid ns) v = replied-Ensures turns fuel s v (
      guarded-Ensures s tid _
        (start-Ensures turns fuel (now_tick device search s).1 (now_tick device search s).0 _ v))
  request-Ensures turns fuel s cid (oneshot_absolute_request tid ns) v =
      replied-Ensures turns fuel s v (
        guarded-Ensures s tid _
          (start-Ensures turns fuel (now_tick device search s).1 (now_tick device search s).0 _ v))
  request-Ensures turns fuel s cid (oneshot_relative_request tid ns) v =
      replied-Ensures turns fuel s v (
        guarded-Ensures s tid _
          (start-Ensures turns fuel (now_tick device search s).1 (now_tick device search s).0 _ v))
  request-Ensures turns fuel s cid (stop_request tid) v = replied-Ensures turns fuel s v (
      guarded-Ensures s tid (remove_timer device search s cid tid)
        (Ensures-map (λ a h. h.0) (remove_timer-Ensures s cid tid v)))
  request-Ensures turns fuel s cid time_request v =
      Ensures-bind {P = λ r. IsServer r.1}
        (Ensures-then
          (tick_to_ns device search (now_tick device search s).1 (now_tick device search s).0)
          (λ ns. returns v))
        (λ r h. returns h)

  serve-Ensures :
      (turns fuel : ℕ) (s : Server W) (messages : List (ℕ × Request))
      → IsServer s
      → Ensures IsServer (serve device search turns fuel s messages)
  unfolding serve handle handle_interrupt
  serve-Ensures turns fuel s [] v = returns v
  serve-Ensures turns fuel s ((badge, r) ∷ messages) v =
      Ensures-bind
        (Ensures-if (badge == 1)
          (Ensures-map (λ a h. h.0) (update-Ensures device search f turns fuel _ _ v))
          (Ensures-then (assert (leb 2 badge))
            (λ _. Ensures-bind (request-Ensures turns fuel s (badge - 2) r v) (λ w h. returns h))))
        (λ s' v'. serve-Ensures turns fuel s' messages v')

  pub serve-IsServer :
      (turns fuel clients : ℕ) (timers : ℤ) (w : W) (messages : List (ℕ × Request)) (s : Server W)
      → (new device search clients timers w >>= λ s0. serve device search turns fuel s0 messages)
        ≡ ok s
      → IsServer s
  unfolding new
  serve-IsServer turns fuel clients timers w messages s = Ensures-ok IsServer (
      Ensures-bind {P = IsServer}
        (Ensures-then (assert (leb clients 64)) (λ _.
          Ensures-then (assert (leℤ timers (pos 64))) (λ _. returns (tt, λ cid tid. omega arith))))
        (λ s0 v. serve-Ensures turns fuel s0 messages v))
