-- ===== src/TimerServer/Ends.antt =====
-- server.rs, `update_timers`: the number of its turns while no timer is periodic.
use icecap.Base.{
  ℕ, zero, suc, ◌<◌, ltb, ◌≡◌, ◌≢◌, refl, Bool, true, false, Bool-cases, List, [], ◌∷◌, length, All,
  Option, some, none, ok, err, panic, ◌>>=◌, arith, ℤ, leℤ, inl, inr, lookup, unwrap, assert,
}
use icecap.TimerServer.{
  Timer, Server, TimerDevice, out_of_fuel, Loop, expire, turn, again, update_timers,
}

-- A loop that does not run out of fuel, and what holds of what it returns.
data Completes {A : Type 0} (P : A → Type 0) : Loop A → Type 0 where
  completes : {a : A} → P a → Completes P (ok a)
  stops : Completes P panic

Completes-bind :
    {A B : Type 0} {P : A → Type 0} {Q : B → Type 0} {m : Loop A} {k : A → Loop B}
    → Completes P m
    → ((a : A) → P a → Completes Q (k a))
    → Completes Q (m >>= k)
Completes-bind (completes {a} h) k = k a h
Completes-bind stops k = stops

Completes-some :
    {A B : Type 0} {Q : B → Type 0} (o : Option A) {k : A → Loop B}
    → ((a : A) → Completes Q (k a))
    → Completes Q (unwrap o >>= k)
Completes-some none k = stops
Completes-some (some a) k = k a

Completes-assert :
    {B : Type 0} {Q : B → Type 0} (b : Bool) {m : Loop B}
    → Completes Q m
    → Completes Q (assert b >>= λ done. m)
Completes-assert true h = h
Completes-assert false h = stops

Completes-ne : {A : Type 0} {P : A → Type 0} {m : Loop A} → Completes P m → m ≢ err out_of_fuel
Completes-ne (completes h) = λ e. cc
Completes-ne stops = λ e. cc

-- No timer is periodic, and there are fewer than `n`.
abbrev IsOneshot : Timer → Type 0
IsOneshot t = t.period ≡ none

abbrev Few : ℕ → List Timer → Type 0
Few n ts = All IsOneshot ts × (length ts < n)

module _ {W : Type 0} (device : TimerDevice W) (search : List Timer → Timer → ℕ) where
  expire-Few :
      (n : ℕ) (s : Server W) (t : Timer) (ts : List Timer)
      → Few (suc n) (t ∷ ts)
      → Completes (λ s'. Few n s'.outstanding) (expire device search s t ts)
  unfolding expire
  expire-Few n s t ts h = Completes-some (lookup t.client s.completed) (λ ids.
      rw h.0.0 (Completes-assert (ltb t.client s.clients) (completes (h.0.1, omega (arith, h.1)))))

  turn-Few :
      (n : ℕ) (s : Server W) (count : ℤ) (ts : List Timer)
      → Few (suc n) ts
      → Completes (λ w. w.0 ≡ true → Few n w.1.outstanding) (turn device search s count ts)
  turn-Few n s count [] h = completes (λ e. absurd (false_not e))
    where
      false_not : false ≡ true → ⊥
      false_not e = cc
  turn-Few n s count (t ∷ ts) h = elim (Bool-cases (leℤ t.compare count)) [
    | inl due ↦ rw due (Completes-bind (expire-Few n s t ts h) (λ s' v. completes (λ e. v)))
    | inr later ↦ rw later (completes (λ e. let x : false ≡ true = e in cc))
  ]

  again-Few :
      (n : ℕ) (w : Bool × Server W) (next : Server W → Loop (Server W))
      → (w.0 ≡ true → Few n w.1.outstanding)
      → ((s : Server W) → Few n s.outstanding → Completes (λ _. Unit {0}) (next s))
      → Completes (λ _. Unit {0}) (again device search w next)
  again-Few n (true, s) next h k = k s (h refl)
  again-Few n (false, s) next h k = completes tt

  update_timers-Few :
      (fuel : ℕ) (s : Server W) (count : ℤ)
      → Few fuel s.outstanding
      → Completes (λ _. Unit {0}) (update_timers device search fuel s count)
  unfolding update_timers
  update_timers-Few zero s count h = absurd (omega (arith, h.1))
  update_timers-Few (suc fuel) s count h =
      Completes-bind (turn-Few fuel s count s.outstanding h)
        (λ w v. again-Few fuel w _ v (λ s' v'. update_timers-Few fuel s' count v'))

  -- If no outstanding timer is periodic, the loop of `update_timers` ends within one turn more than there
  -- are timers: with more fuel than timers it does not run out of fuel.
  pub update_timers-ends :
      (fuel : ℕ) (s : Server W) (count : ℤ)
      → All IsOneshot s.outstanding
      → length s.outstanding < fuel
      → update_timers device search fuel s count ≢ err out_of_fuel
  update_timers-ends fuel s count h few = Completes-ne (update_timers-Few fuel s count (h, few))
