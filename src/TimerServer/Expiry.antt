-- ===== src/TimerServer/Expiry.antt =====
-- server.rs, `update_timers`: one timer after the other at the front of the list.
use icecap.Base.{
  ℕ, zero, suc, ◌≤◌, ltb, ◌≡◌, refl, sym, ◌∙◌, Bool, true, false, Bool-cases, List, [], ◌∷◌, All,
  Option, some, none, arith, subst, ℤ, leℤ, add_i64, leℤ-trans, inl, inr, Ensures, returns, fails,
  Ensures-bind, Ensures-then, lookup, unwrap, assert,
}
use icecap.TimerServer.{
  Timer, Server, TimerDevice, Loop, restart, expire, turn, again, update_timers,
}
use icecap.TimerServer.Sorted.{
  IsSorted, IsUnique, IsSearch, NoSooner, insert_timer-IsSorted, count_of-insert_timer,
}

-- The timers are in the order of their times, and no client has a timer twice.
abbrev pub IsServer : {W : Type 0} → Server W → Type 0
IsServer s = IsSorted s.outstanding × IsUnique s.outstanding

-- No timer is due.
abbrev Settled : ℤ → List Timer → Type 0
Settled count ts = All (λ t. leℤ t.compare count ≡ false) ts

Settled-head :
    (count : ℤ) (t : Timer) (ts : List Timer)
    → leℤ t.compare count ≡ false
    → NoSooner t.compare ts
    → Settled count ts
Settled-head count t [] h k = tt
Settled-head count t (u ∷ ts) h k = (
  elim (Bool-cases (leℤ u.compare count)) [
    | inl due ↦ let no : true ≡ false = sym (leℤ-trans t.compare u.compare count k.0 due) ∙ h in cc
    | inr later ↦ later
  ],
  Settled-head count t ts h k.1,
)

module _ {W : Type 0} (device : TimerDevice W) (search : List Timer → Timer → ℕ)
    (f : IsSearch search) where
  restart-Ensures :
      (s : Server W) (t : Timer) (period : Option ℤ)
      → IsSorted s.outstanding
      → IsUnique (t ∷ s.outstanding)
      → Ensures IsServer (restart device search s t period)
  restart-Ensures s t none h u = returns (h, λ cid tid. let a = u cid tid in omega arith)
  restart-Ensures s t (some period) h u =
      let t' : Timer = record t { compare = add_i64 t.compare period } in
      returns (
        insert_timer-IsSorted search s.outstanding t' f h,
        λ cid tid.
            subst (λ n. n ≤ 1) (sym (count_of-insert_timer search s.outstanding t' cid tid))
              (u cid tid),
      )

  expire-Ensures :
      (s : Server W) (t : Timer) (ts : List Timer)
      → IsSorted (t ∷ ts)
      → IsUnique (t ∷ ts)
      → Ensures IsServer (expire device search s t ts)
  unfolding expire
  expire-Ensures s t ts h u = Ensures-then (unwrap (lookup t.client s.completed)) (λ ids.
      Ensures-bind (restart-Ensures _ t t.period h.1 u)
        (λ s2 v. Ensures-then (assert (ltb t.client s2.clients)) (λ _. returns v)))

  turn-Ensures :
      (s : Server W) (count : ℤ) (ts : List Timer)
      → s.outstanding ≡ ts
      → IsServer s
      → Ensures
          (λ w. IsServer w.1 × (w.0 ≡ false → Settled count w.1.outstanding))
          (turn device search s count ts)
  turn-Ensures s count [] e v = returns (v, λ _. subst (Settled count) (sym e) tt)
  turn-Ensures s count (t ∷ ts) e v = elim (Bool-cases (leℤ t.compare count)) [
    | inl due ↦ rw due (
        Ensures-bind (expire-Ensures s t ts (subst IsSorted e v.0) (subst IsUnique e v.1))
          (λ s' v'. returns (v', λ x. absurd (true_not x))))
    | inr later ↦ rw later (
        returns (
          v,
          λ _.
              subst (Settled count) (sym e)
                (later, Settled-head count t ts later (subst IsSorted e v.0).0),
        ))
  ]
    where
      true_not : true ≡ false → ⊥
      true_not e = cc

  again-Ensures :
      (Q R : Server W → Type 0) (w : Bool × Server W) (next : Server W → Loop (Server W))
      → Q w.1 × (w.0 ≡ false → R w.1)
      → ((s : Server W) → Q s → Ensures R (next s))
      → Ensures R (again device search w next)
  again-Ensures Q R (true, s) next h k = k s h.0
  again-Ensures Q R (false, s) next h k = returns (h.1 refl)

  pub update_timers-Ensures :
      (fuel : ℕ) (s : Server W) (count : ℤ)
      → IsServer s
      → Ensures
          (λ s'. IsServer s' × Settled count s'.outstanding)
          (update_timers device search fuel s count)
  unfolding update_timers
  update_timers-Ensures zero s count v = fails
  update_timers-Ensures (suc fuel) s count v =
      Ensures-bind (turn-Ensures s count s.outstanding refl v) (λ w h.
        again-Ensures IsServer (λ s'. IsServer s' × Settled count s'.outstanding) w _
          (h.0, λ e. (h.0, h.1 e)) (λ s' v'. update_timers-Ensures fuel s' count v'))
