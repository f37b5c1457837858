-- ===== src/EventServer/Ends.antt =====
-- impls.rs, `signal`: the in-spaces that a signal can still be passed on from, as a measure of its calls.
use icecap.Base.{
  ℕ, zero, suc, ◌+◌, ◌/◌, ◌≤◌, ◌<◌, ◌≡◌, ◌≢◌, refl, ap, ◌∙◌, if◌then◌else◌, not, Bool, true, false,
  List, [], ◌∷◌, length, get_elem?, set, Option, some, none, Outcome, ok, err, panic, ◌>>=◌, assert,
  unwrap, index, arith,
}
use icecap.EventServer.{
  InSpace, EventTarget, Subscriber, event_subscriber, notification_subscriber, Store, Kernel, Error,
  out_of_fuel, is_none, contains, put_space, signal_target, signal_subscriber, notify_if,
  signal_space, signal_event,
}

-- The in-spaces whose slot is taken.
abbrev filled : List InSpace → ℕ
filled [] = 0
filled (space ∷ spaces) = (if is_none space.subscription_slot then 0 else 1) + filled spaces

filled-le : (spaces : List InSpace) → filled spaces ≤ length spaces
filled-le [] = omega arith
filled-le (space ∷ spaces) =
    let rest = filled-le spaces in by_slot (is_none space.subscription_slot) rest
  where
    by_slot :
        (b : Bool)
        → filled spaces ≤ length spaces
        → (if b then 0 else 1) + filled spaces ≤ suc (length spaces)
    by_slot true h = omega arith
    by_slot false h = omega arith

filled-set :
    (spaces : List InSpace) (i : ℕ) (space : InSpace)
    → get_elem? spaces i ≡ some space
    → is_none space.subscription_slot ≡ false
    → suc (filled (set spaces i (record space { subscription_slot = none }))) ≡ filled spaces
filled-set [] i space e h = let no_entry : ◌≡◌ {A = Option InSpace} none (some space) = e in cc
filled-set (x ∷ spaces) zero space e h =
    let same : x ≡ space = cc in
    let taken : is_none x.subscription_slot ≡ false =
      ap (λ y. is_none y.subscription_slot) same ∙ h in
    rw taken (omega arith)
filled-set (x ∷ spaces) (suc i) space e h = let rest = filled-set spaces i space e h in omega arith

module _ {E : Type 0} where
  -- A call after one that does not run out of fuel.
  ends-bind :
      {A B : Type 0} (m : Outcome (Error E) A) {k : A → Outcome (Error E) B}
      → m ≢ err out_of_fuel
      → ((a : A) → m ≡ ok a → k a ≢ err out_of_fuel)
      → (m >>= k) ≢ err out_of_fuel
  ends-bind (ok a) h g = g a refl
  ends-bind (err e) h g = λ x. h (err-err e x)
    where
      err-err :
          {A B : Type 0} (e : Error E)
          → ◌≡◌ {A = Outcome (Error E) B} (err e) (err out_of_fuel)
          → ◌≡◌ {A = Outcome (Error E) A} (err e) (err out_of_fuel)
      err-err e x = let same : e ≡ out_of_fuel = cc in ap err same
  ends-bind panic h g = λ x. cc

  unwrap-ends : {A : Type 0} (o : Option A) → unwrap {E = Error E} o ≢ err out_of_fuel
  unwrap-ends none = λ x. cc
  unwrap-ends (some a) = λ x. cc

  assert-ends : (b : Bool) → assert {E = Error E} b ≢ err out_of_fuel
  assert-ends true = λ x. cc
  assert-ends false = λ x. cc

  unwrap-some :
      {A : Type 0} (o : Option A) (a : A)
      → ◌≡◌ {A = Outcome (Error E) A} (unwrap o) (ok a)
      → o ≡ some a
  unwrap-some none a e = cc
  unwrap-some (some b) a e = let same : b ≡ a = cc in ap some same

module _ {E W : Type 0} (kernel : Kernel E W) (realm_in : ℕ) where
  abbrev Next : Type 0
  Next = ℕ → ℕ → Outcome (Error E) (Store W)

  signal_target-ends :
      (st : Store W) (t : Option EventTarget) (next : Next)
      → ((j k : ℕ) → next j k ≢ err out_of_fuel)
      → signal_target kernel realm_in st t next ≢ err out_of_fuel
  signal_target-ends st none next h = λ x. cc
  signal_target-ends st (some t) next h = h t.in_space t.target_index

  -- Only an event passes a signal on.
  signal_subscriber-ends :
      (st : Store W) (subscriber : Option Subscriber) (next : Next)
      → (is_none subscriber ≡ false → (j k : ℕ) → next j k ≢ err out_of_fuel)
      → signal_subscriber kernel realm_in st subscriber next ≢ err out_of_fuel
  signal_subscriber-ends st none next h = λ x. cc
  signal_subscriber-ends st (some (notification_subscriber nfn)) next h = λ x. cc
  signal_subscriber-ends st (some (event_subscriber event)) next h =
      ends-bind (index st.events event) (unwrap-ends (get_elem? st.events event))
        (λ ev e. signal_target-ends st ev.target next (h refl))

  notify_if-ends :
      (b : Bool) (st : Store W) (i k : ℕ) (space : InSpace)
      (notify : Store W → Option Subscriber → Outcome (Error E) (Store W))
      → ((w : W)
          → notify
              (put_space kernel realm_in
                (record st { world = w })
                i
                (record space { subscription_slot = none }))
              space.subscription_slot
            ≢ err out_of_fuel)
      → notify_if kernel realm_in b st i k space notify ≢ err out_of_fuel
  notify_if-ends false st i k space notify h = λ x. cc
  notify_if-ends true st i k space notify h =
      ends-bind (index space.notification.nfn (k / 64))
        (unwrap-ends (get_elem? space.notification.nfn (k / 64)))
        (λ nfn e. h (kernel.signal st.world nfn))

  signal_space-ends :
      (fuel : ℕ) (borrowed : List ℕ) (st : Store W) (i k : ℕ)
      → filled st.spaces < fuel
      → signal_space kernel realm_in fuel borrowed st i k ≢ err out_of_fuel
  unfolding signal_space
  signal_space-ends zero borrowed st i k h = absurd (omega arith)
  signal_space-ends (suc fuel) borrowed st i k h =
      ends-bind (assert (not (contains i borrowed))) (assert-ends (not (contains i borrowed)))
        (λ _ _. ends-bind (index st.spaces i) (unwrap-ends (get_elem? st.spaces i)) (λ space e.
          ends-bind (index space.entries k) (unwrap-ends (get_elem? space.entries k)) (λ entry _.
            ends-bind (assert (not (is_none entry))) (assert-ends (not (is_none entry))) (λ _ _.
              notify_if-ends (kernel.set_bit st.world space.notification.bitfield k).0 _ i k space _
                (λ w. signal_subscriber-ends _ space.subscription_slot _ (λ taken j m.
                  let found : get_elem? st.spaces i ≡ some space =
                    unwrap-some (get_elem? st.spaces i) space e in
                  let fewer = filled-set st.spaces i space found taken in
                  signal_space-ends fuel (i ∷ borrowed) _ j m (omega arith)))))))

  -- The fuel of `signal_event`, one more than the in-spaces there are, is enough: a signal never uses it
  -- up, through however many subscriptions it is passed on.
  pub signal_event-ends :
      (st : Store W) (event : ℕ) → signal_event kernel realm_in st event ≢ err out_of_fuel
  unfolding signal_event
  signal_event-ends st event =
      ends-bind (index st.events event) (unwrap-ends (get_elem? st.events event)) (λ ev e.
        signal_target-ends st ev.target _ (λ i k.
          let few = filled-le st.spaces in
          signal_space-ends (suc (length st.spaces)) [] st i k (omega arith)))
