-- ===== src/EventServer/Targets.antt =====
-- What `move_` does to the entries of in-spaces and to the targets of events.
use icecap.Base.{
  ℕ, ◌==◌, ==_iff, ==_refl, ◌≡◌, refl, sym, ap, ◌∙◌, if◌then◌else◌, ◌&&◌, Bool, true, false,
  Bool-cases, inl, inr, List, get_elem?, get_elem?-set, set, Option, some, none, ok, index, Ensures,
  returns, Ensures-bind, Ensures-then, Ensures-map, Ensures-ok, index-Ensures, and-true, ◌⊎◌,
}
use icecap.EventServer.{
  Client, InSpace, InSpaceEntry, Event, EventIrq, EventTarget, Store, Kernel, put_event, swapped,
  retarget, retarget_irq, move_, lifted,
}

abbrev joined : {A : Type 0} → Option (Option A) → Option A
joined none = none
joined (some a) = a

abbrev entry_in : Option InSpace → ℕ → Option InSpaceEntry
entry_in none k = none
entry_in (some space) k = joined (get_elem? space.entries k)

-- The entry of an in-space, if it has one.
abbrev entry_at : List InSpace → ℕ → ℕ → Option InSpaceEntry
entry_at spaces i k = entry_in (get_elem? spaces i) k

abbrev target_in : Option Event → Option EventTarget
target_in none = none
target_in (some event) = event.target

-- Where the signals of an event go.
abbrev target_at : List Event → ℕ → Option EventTarget
target_at events event = target_in (get_elem? events event)

-- One entry of an in-space is replaced.
abbrev Replaced : List InSpace → ℕ → ℕ → Option InSpaceEntry → List InSpace → Type 0
Replaced spaces i k x spaces' =
    (j m : ℕ) → entry_at spaces' j m ≡ (if i == j && k == m then x else entry_at spaces j m)

joined-if :
    {A : Type 0} (b : Bool) (x : Option A) (o : Option (Option A))
    → joined (if b then some x else o) ≡ (if b then x else joined o)
joined-if true x o = refl
joined-if false x o = refl

Replaced-set :
    (spaces : List InSpace) (i k : ℕ) (space : InSpace) (old x : Option InSpaceEntry)
    → get_elem? spaces i ≡ some space
    → get_elem? space.entries k ≡ some old
    → Replaced spaces i k x (set spaces i (record space { entries = set space.entries k x }))
Replaced-set spaces i k space old x e e' j m = elim (Bool-cases (i == j)) [
  | inl same ↦
      let there : get_elem? spaces j ≡ some space =
        ap (get_elem? spaces) (sym ((==_iff i j).0 same)) ∙ e in
      let found : get_elem? (set spaces i space') j ≡ some space' =
        get_elem?-set spaces i j space space' e ∙ rw same refl in
      rw (found, same, there)
        (ap joined (get_elem?-set space.entries k m old x e')
          ∙ joined-if (k == m) x (get_elem? space.entries m))
  | inr other ↦
      let kept : get_elem? (set spaces i space') j ≡ get_elem? spaces j =
        get_elem?-set spaces i j space space' e ∙ rw other refl in
      rw (kept, other) refl
]
  where
    space' : InSpace
    space' = record space { entries = set space.entries k x }

target_at-set :
    (events : List Event) (i j : ℕ) (ev : Event) (target : Option EventTarget)
    → get_elem? events i ≡ some ev
    → target_at (set events i (record ev { target = target })) j
      ≡ (if i == j then target else target_at events j)
target_at-set events i j ev target e =
    ap target_in (get_elem?-set events i j ev (record ev { target = target }) e) ∙ by_test (i == j)
  where
    by_test :
        (b : Bool)
        → target_in (if b then some (record ev { target = target }) else get_elem? events j)
          ≡ (if b then target else target_at events j)
    by_test true = refl
    by_test false = refl

module _ {E W : Type 0} (kernel : Kernel E W) (realm_in : ℕ) where
  abbrev Swapped : Store W → ℕ → ℕ → Option InSpaceEntry → Option InSpaceEntry × Store W → Type 0
  Swapped st i k tmp r =
      (r.0 ≡ entry_at st.spaces i k)
      × Replaced st.spaces i k tmp r.1.spaces
      × (r.1.events ≡ st.events)

  swapped-Ensures :
      (st : Store W) (i k : ℕ) (tmp : Option InSpaceEntry)
      → Ensures (Swapped st i k tmp) (swapped kernel realm_in st i k tmp)
  swapped-Ensures st i k tmp = Ensures-bind (index-Ensures st.spaces i) (λ space e.
      Ensures-bind (index-Ensures space.entries k) (λ old e'.
        returns (sym (rw e (ap joined e')), Replaced-set st.spaces i k space old tmp e e', refl)))

  -- The event of the entry goes to the destination, and no other changes.
  abbrev Retargeted : Store W → Option InSpaceEntry → ℕ → ℕ → Store W → Type 0
  Retargeted st none dst dst_index st' =
      (st'.spaces ≡ st.spaces) × ((ev : ℕ) → target_at st'.events ev ≡ target_at st.events ev)
  Retargeted st (some entry) dst dst_index st' =
      (st'.spaces ≡ st.spaces)
      × ((ev : ℕ)
          → target_at st'.events ev ≡ (
              if entry.event == ev
              then some (record { in_space = dst; target_index = dst_index })
              else target_at st.events ev))

  retarget-Ensures :
      (st : Store W) (entry : Option InSpaceEntry) (dst dst_index : ℕ)
      → Ensures
          (Retargeted st entry dst dst_index)
          (retarget kernel realm_in st entry dst dst_index)
  retarget-Ensures st none dst dst_index = returns (refl, λ ev. refl)
  retarget-Ensures st (some entry) dst dst_index =
      Ensures-bind (index-Ensures st.events entry.event)
        (λ ev e. irq_lem ev (λ j. target_at-set st.events entry.event j ev (some t) e) ev.irq)
    where
      t : EventTarget
      t = record { in_space = dst; target_index = dst_index }

      irq_lem :
          (ev : Event)
          → ((j : ℕ)
              → target_at (set st.events entry.event (record ev { target = some t })) j
                ≡ (if entry.event == j then some t else target_at st.events j))
          → (irq : Option EventIrq)
          → Ensures (Retargeted st (some entry) dst dst_index) (
              retarget_irq kernel realm_in
                (put_event kernel realm_in st entry.event (record ev { target = some t }))
                irq
                dst_index)
      irq_lem ev h none = returns (refl, h)
      irq_lem ev h (some irq) = Ensures-then (index irq.notifications dst_index) (λ nfn.
          Ensures-then (lifted (kernel.set_notification st.world irq.handler nfn))
            (λ w. returns (refl, h)))

  -- The two entries are exchanged, and the event that has come to the destination goes there; the target
  -- of no other event changes.
  abbrev pub IsMoved : Store W → ℕ → ℕ → ℕ → ℕ → Store W → Type 0
  IsMoved st src k dst m st' =
      ((j n : ℕ)
        → entry_at st'.spaces j n ≡ (
            if src == j && k == n
            then entry_at st.spaces dst m
            else if dst == j && m == n
            then entry_at st.spaces src k
            else entry_at st.spaces j n))
      × ((e : InSpaceEntry)
          → entry_at st.spaces src k ≡ some e
          → (ev : ℕ)
          → target_at st'.events ev ≡ (
              if e.event == ev
              then some (record { in_space = dst; target_index = m })
              else target_at st.events ev))
      × (entry_at st.spaces src k ≡ none
          → (ev : ℕ) → target_at st'.events ev ≡ target_at st.events ev)

  module _ (st : Store W) (src k dst m : ℕ) (apart : (src == dst && k == m) ≡ false) where
    exchanged :
        (a b c : Option InSpaceEntry × Store W)
        → Swapped st src k none a
        → Swapped a.1 dst m a.0 b
        → Swapped b.1 src k b.0 c
        → ((j n : ℕ)
            → entry_at c.1.spaces j n ≡ (
                if src == j && k == n
                then entry_at st.spaces dst m
                else if dst == j && m == n
                then entry_at st.spaces src k
                else entry_at st.spaces j n))
          × (c.1.events ≡ st.events)
    exchanged a b c ha hb hc = (λ j n. hc.1 j n ∙ at j n, hc.2 ∙ (hb.2 ∙ ha.2))
      where
        displaced : b.0 ≡ entry_at st.spaces dst m
        displaced = hb.0 ∙ (ha.1 dst m ∙ rw apart refl)

        at :
            (j n : ℕ)
            → (if src == j && k == n then b.0 else entry_at b.1.spaces j n) ≡ (
                if src == j && k == n
                then entry_at st.spaces dst m
                else if dst == j && m == n
                then entry_at st.spaces src k
                else entry_at st.spaces j n)
        at j n = elim (Bool-cases (src == j && k == n)) [
          | inl source ↦ rw source displaced
          | inr other ↦
              let before : entry_at a.1.spaces j n ≡ entry_at st.spaces j n =
                ha.1 j n ∙ rw other refl in
              rw other (hb.1 j n ∙ rw (before, ha.0) refl)
        ]

    arrived :
        (a b c : Option InSpaceEntry × Store W)
        → Swapped st src k none a
        → Swapped a.1 dst m a.0 b
        → Swapped b.1 src k b.0 c
        → entry_at c.1.spaces dst m ≡ entry_at st.spaces src k
    arrived a b c ha hb hc =
        let own : (dst == dst && m == m) ≡ true = rw (==_refl dst, ==_refl m) refl in
        (exchanged a b c ha hb hc).0 dst m ∙ rw (apart, own) refl

    Retargeted-IsMoved :
        (c : Store W) (entry : Option InSpaceEntry) (st' : Store W)
        → ((j n : ℕ)
            → entry_at c.spaces j n ≡ (
                if src == j && k == n
                then entry_at st.spaces dst m
                else if dst == j && m == n
                then entry_at st.spaces src k
                else entry_at st.spaces j n))
        → c.events ≡ st.events
        → entry ≡ entry_at st.spaces src k
        → Retargeted c entry dst m st'
        → IsMoved st src k dst m st'
    Retargeted-IsMoved c none st' h e x r = (
      (λ j n. ap (λ spaces. entry_at spaces j n) r.0 ∙ h j n),
      (λ en some_en.
          let clash : ◌≡◌ {A = Option InSpaceEntry} none (some en) = x ∙ some_en in
          absurd (no_clash en clash)),
      λ empty ev. r.1 ev ∙ ap (λ events. target_at events ev) e,
    )
      where
        no_clash : (en : InSpaceEntry) → ◌≡◌ {A = Option InSpaceEntry} none (some en) → ⊥
        no_clash en q = cc
    Retargeted-IsMoved c (some entry) st' h e x r = (
      (λ j n. ap (λ spaces. entry_at spaces j n) r.0 ∙ h j n),
      (λ en some_en ev.
          let both : ◌≡◌ {A = Option InSpaceEntry} (some entry) (some en) = x ∙ some_en in
          let same : entry ≡ en = cc in
          r.1 ev ∙ rw (ap (λ z. z.event) same, ap (λ events. target_at events ev) e) refl),
      λ empty.
          let clash : ◌≡◌ {A = Option InSpaceEntry} (some entry) none = x ∙ empty in
          absurd (no_clash clash),
    )
      where
        no_clash : ◌≡◌ {A = Option InSpaceEntry} (some entry) none → ⊥
        no_clash q = cc

  -- When `move_` returns `ok` for two different entries of a client, each is where the other was, and the
  -- event of the one that has come to the destination signals there. No other event is changed: not that
  -- of the entry that was at the destination, which goes on to signal the destination.
  pub move_-IsMoved :
      (st st' : Store W) (client : Client) (src_nid k dst_nid m src dst : ℕ)
      → get_elem? client.in_spaces src_nid ≡ some src
      → get_elem? client.in_spaces dst_nid ≡ some dst
      → (src == dst && k == m) ≡ false
      → move_ kernel realm_in st client src_nid k dst_nid m ≡ ok st'
      → IsMoved st src k dst m st'
  unfolding move_
  move_-IsMoved st st' client src_nid k dst_nid m src dst e e' apart =
      Ensures-ok (IsMoved st src k dst m) (
        rw (nodes_apart (Bool-cases (src_nid == dst_nid && k == m)), e, e')
          (Ensures-bind (swapped-Ensures st src k none) (λ a ha.
            Ensures-bind (swapped-Ensures a.1 dst m a.0) (λ b hb.
              Ensures-bind (swapped-Ensures b.1 src k b.0) (λ c hc.
                Ensures-bind (index-Ensures c.1.spaces dst) (λ space found.
                  Ensures-bind (index-Ensures space.entries m) (λ entry found'.
                    let here : entry_at c.1.spaces dst m ≡ entry = rw found (ap joined found') in
                    let both = exchanged st src k dst m apart a b c ha hb hc in
                    Ensures-map
                      (λ s.
                        Retargeted-IsMoved st src k dst m apart c.1 entry s both.0 both.1
                          (sym here ∙ arrived st src k dst m apart a b c ha hb hc))
                      (retarget-Ensures c.1 entry dst m))))))))
    where
      nodes_apart :
          ((src_nid == dst_nid && k == m) ≡ true) ⊎ ((src_nid == dst_nid && k == m) ≡ false)
          → (src_nid == dst_nid && k == m) ≡ false
      nodes_apart (inr h) = h
      nodes_apart (inl h) =
          let parts = and-true (src_nid == dst_nid) (k == m) h in
          let nid : src_nid ≡ dst_nid = (==_iff src_nid dst_nid).0 parts.0 in
          let space : ◌≡◌ {A = Option ℕ} (some src) (some dst) =
            sym e ∙ (ap (get_elem? client.in_spaces) nid ∙ e') in
          let same : src ≡ dst = cc in
          let test : (src == dst && k == m) ≡ true = rw ((==_iff src dst).1 same, parts.1) refl in
          let clash : true ≡ false = sym test ∙ apart in cc
