-- ===== src/Gic/Distributor/Lines/Ack.antt =====
-- Acknowledging an interrupt.
use icecap.Base.{
  ℕ, ◌+◌, ◌*◌, ◌/◌, ◌%◌, ◌<◌, ◌≤◌, ◌≡◌, refl, inl, inr, ◌==◌, if◌then◌else◌, not, ◌&&◌, Bool, true,
  false, Bool-cases, lt→leb, lt→ltb, le→ltb, length, arith, Outcome, ok, [], bit_and, get_or, set,
  index-eq-get_or, rows-length, length-row, Ensures-ok,
}
use icecap.Base.Bits.{not32}
use icecap.Gic.Register32.{fetch_and, shl32}
use icecap.Gic.Error.{IrqError}
use icecap.Gic.Distributor.{Distributor}
use icecap.Gic.Distributor.WellFormed.{IsWellFormed}
use icecap.Gic.Distributor.WellFormed.Banks.{modify_sgi-IsWellFormed}
use icecap.Gic.Distributor.Lines.{ack, clear_sgi_pending, modify_sgi}
use icecap.Gic.Distributor.Lines.Banks.{same_line}
use icecap.Gic.Distributor.Lines.Effects.{
  pending_line, active_line, clear_pending_lem, clear_active_lem, pending_line-clear,
  active_line-clear, pending_after-IsWellFormed, clear_bit, pending_after, active_after,
}

-- What is left of `d` once `irq` has ended for `cpu`: its pending and active bits are clear, all other
-- pending and active bits are as they were, and so is the rest of the distributor.
abbrev pub HasEnded : Distributor → ℕ → ℕ → Distributor → Type 0
HasEnded d irq cpu d' =
    (d' ≡ record d {
      pending0 = d'.pending0;
      pending = d'.pending;
      active0 = d'.active0;
      active = d'.active;
    })
    × ((irq' cpu' : ℕ)
        → (pending_line d' irq' cpu'
            ≡ (pending_line d irq' cpu' && not (same_line irq cpu irq' cpu')))
          × (active_line d' irq' cpu'
              ≡ (active_line d irq' cpu' && not (same_line irq cpu irq' cpu'))))

-- Acknowledging a private peripheral interrupt or a shared one for a CPU that the controller has
-- succeeds: it clears the pending and the active bit of that interrupt, and changes nothing else of
-- the distributor.
pub ack_exact :
    {d : Distributor} (irq cpu : ℕ)
    → IsWellFormed d
    → 16 ≤ irq
    → irq < 1024
    → cpu < d.num_nodes
    → (d' : Distributor) × (ack d irq cpu ≡ ok d') × HasEnded d irq cpu d'
unfolding ack
ack_exact {d} irq cpu v hl hi hc =
    let v1 = pending_after-IsWellFormed v irq cpu hi hc (clear_bit irq) in
    (
      active_after (pending_after d (clear_bit irq) irq cpu) (clear_bit irq) irq cpu,
      rw (lt→leb d.num_nodes cpu hc, le→ltb irq 16 hl, clear_pending_lem v irq cpu hi hc)
          (clear_active_lem v1 irq cpu hi hc),
      (
        refl,
        λ irq' cpu'. (
          pending_line-clear v irq cpu hi hc irq' cpu',
          active_line-clear v1 irq cpu hi hc irq' cpu',
        ),
      ),
    )

-- The word of an SGI's sources, for its CPU, and whether a source but the first is left in it.
abbrev sgi_word : Distributor → ℕ → ℕ → ℕ
sgi_word d irq cpu = get_or (get_or d.sgi_pending cpu []) (irq / 4) 0

abbrev first_source : ℕ → ℕ
first_source irq = shl32 1 (0 + irq % 4 * 8)

abbrev others_pending : Distributor → ℕ → ℕ → Bool
others_pending d irq cpu = not (
    bit_and (bit_and (sgi_word d irq cpu) (not32 (first_source irq))) (shl32 0xFF (irq % 4 * 8))
    == 0)

-- The distributor with the first source of an SGI taken out.
abbrev without_source : Distributor → ℕ → ℕ → Distributor
without_source d irq cpu = record d {
  sgi_pending = set d.sgi_pending cpu (
      set (get_or d.sgi_pending cpu []) (irq / 4)
        (bit_and (sgi_word d irq cpu) (not32 (first_source irq))));
}

-- What is left of `d` once the software-generated interrupt `irq` has ended for `cpu`: CPU 0 is taken out
-- of its sources, its active bit is clear, and its pending bit too if no other source is left; all else
-- is as it was.
abbrev pub HasEndedSgi : Distributor → ℕ → ℕ → Distributor → Type 0
HasEndedSgi d irq cpu d' =
    (d' ≡ record (without_source d irq cpu) {
      pending0 = d'.pending0;
      pending = d'.pending;
      active0 = d'.active0;
      active = d'.active;
    })
    × ((irq' cpu' : ℕ)
        → (pending_line d' irq' cpu' ≡ (
            pending_line d irq' cpu'
            && not (same_line irq cpu irq' cpu' && not (others_pending d irq cpu))))
          × (active_line d' irq' cpu'
              ≡ (active_line d irq' cpu' && not (same_line irq cpu irq' cpu'))))

abbrev after_source : Distributor → ℕ → ℕ → Distributor
after_source d irq cpu =
    if others_pending d irq cpu
    then without_source d irq cpu
    else pending_after (without_source d irq cpu) (clear_bit irq) irq cpu

if-ok :
    (b : Bool) (x y : Distributor)
    → ◌≡◌ {A = Outcome IrqError Distributor}
        (if b then ok x else ok y)
        (ok (if not b then y else x))
if-ok true x y = refl
if-ok false x y = refl

module _ {d : Distributor} (irq cpu : ℕ) (v : IsWellFormed d) (hi : irq < 16)
    (hc : cpu < d.num_nodes) where
  modify_sgi_lem :
      (f : ℕ → ℕ × ℕ)
      → modify_sgi d cpu (irq / 4) f
        ≡ ok (
          (f (sgi_word d irq cpu)).0,
          record d {
            sgi_pending =
                set d.sgi_pending cpu
                  (set (get_or d.sgi_pending cpu []) (irq / 4) (f (sgi_word d irq cpu)).1);
          },
        )
  modify_sgi_lem f =
      let rows : length d.sgi_pending ≡ d.num_nodes =
        rows-length d.sgi_pending d.num_nodes 4 v.rows_sgi_pending in
      let row : length (get_or d.sgi_pending cpu []) ≡ 4 =
        length-row d.sgi_pending d.num_nodes 4 cpu v.rows_sgi_pending hc in
      rw
        (
          index-eq-get_or {E = IrqError} d.sgi_pending cpu [] (omega arith),
          index-eq-get_or {E = IrqError} (get_or d.sgi_pending cpu []) (irq / 4) 0 (omega arith),
        )
        refl

  without_source-IsWellFormed : IsWellFormed (without_source d irq cpu)
  without_source-IsWellFormed =
      Ensures-ok (λ w. IsWellFormed w.1)
        (modify_sgi-IsWellFormed v cpu (irq / 4) (fetch_and (not32 (first_source irq))))
        (modify_sgi_lem (fetch_and (not32 (first_source irq))))

  clear_sgi_pending_lem : clear_sgi_pending d irq 0 cpu ≡ ok (after_source d irq cpu)
  unfolding clear_sgi_pending
  clear_sgi_pending_lem =
      rw
        (
          lt→leb d.num_nodes 0 (omega arith),
          lt→leb d.num_nodes cpu hc,
          le→ltb 16 irq (omega arith),
          modify_sgi_lem (fetch_and (not32 (first_source irq))),
          clear_pending_lem without_source-IsWellFormed irq cpu (omega arith) hc,
        )
        (if-ok _ (pending_after (without_source d irq cpu) (clear_bit irq) irq cpu)
          (without_source d irq cpu))

  after_source-IsWellFormed : IsWellFormed (after_source d irq cpu)
  after_source-IsWellFormed =
      elim (others_pending d irq cpu)
        as (λ b. IsWellFormed (
          if b
          then without_source d irq cpu
          else pending_after (without_source d irq cpu) (clear_bit irq) irq cpu)) [
            | true ↦ without_source-IsWellFormed
            | false ↦
                pending_after-IsWellFormed without_source-IsWellFormed irq cpu (omega arith) hc
                  (clear_bit irq)
          ]

  after_source-nodes : cpu < (after_source d irq cpu).num_nodes
  after_source-nodes = elim (Bool-cases (others_pending d irq cpu)) [
    | inl left ↦ rw left hc
    | inr none_left ↦ rw none_left hc
  ]

  pending_line-after_source :
      (irq' cpu' : ℕ)
      → pending_line (after_source d irq cpu) irq' cpu' ≡ (
          pending_line d irq' cpu'
          && not (same_line irq cpu irq' cpu' && not (others_pending d irq cpu)))
  pending_line-after_source irq' cpu' = elim (Bool-cases (others_pending d irq cpu)) [
    | inl left ↦ rw left (keep (pending_line d irq' cpu') (same_line irq cpu irq' cpu'))
    | inr none_left ↦
        rw
          (
            none_left,
            pending_line-clear without_source-IsWellFormed irq cpu (omega arith) hc irq' cpu',
          )
          (drop_it (pending_line d irq' cpu') (same_line irq cpu irq' cpu'))
  ]
    where
      keep : (p s : Bool) → p ≡ (p && not (s && not true))
      keep p s = ground arith

      drop_it : (p s : Bool) → (p && not s) ≡ (p && not (s && not false))
      drop_it p s = ground arith

  active_line-after_source :
      (irq' cpu' : ℕ) → active_line (after_source d irq cpu) irq' cpu' ≡ active_line d irq' cpu'
  active_line-after_source irq' cpu' = elim (Bool-cases (others_pending d irq cpu)) [
    | inl left ↦ rw left refl
    | inr none_left ↦ rw none_left refl
  ]

  -- Of the pending bits the source's end may clear one, and of all else only the sources change.
  rest-after_source :
      let d' = active_after (after_source d irq cpu) (clear_bit irq) irq cpu in
      d' ≡ record (without_source d irq cpu) {
        pending0 = d'.pending0;
        pending = d'.pending;
        active0 = d'.active0;
        active = d'.active;
      }
  rest-after_source = elim (Bool-cases (others_pending d irq cpu)) [
    | inl left ↦ rw left refl
    | inr none_left ↦ rw none_left refl
  ]

  -- Acknowledging a software-generated interrupt for a CPU that the controller has succeeds, and
  -- clears its active bit and no other. It clears the bit of CPU 0 among its sources, whoever sent the
  -- interrupt; the pending bit of the interrupt is cleared if no other source is left, and every other
  -- pending bit, and all else of the distributor, stays.
  pub ack_sgi : (d' : Distributor) × (ack d irq cpu ≡ ok d') × HasEndedSgi d irq cpu d'
  unfolding ack
  ack_sgi = (
    active_after (after_source d irq cpu) (clear_bit irq) irq cpu,
    rw (lt→leb d.num_nodes cpu hc, lt→ltb irq 16 hi, clear_sgi_pending_lem)
        (clear_active_lem after_source-IsWellFormed irq cpu (omega arith) after_source-nodes),
    (
      rest-after_source,
      λ irq' cpu'. (
        pending_line-after_source irq' cpu',
        rw
            (
              active_line-clear after_source-IsWellFormed irq cpu (omega arith) after_source-nodes
                  irq' cpu',
              active_line-after_source irq' cpu',
            )
            refl,
      ),
    ),
  )
