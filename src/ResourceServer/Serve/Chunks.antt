-- ===== src/ResourceServer/Serve/Chunks.antt =====
-- resource-server/src/main.rs, `FillChunks`: the loop over the chunks of a bulk transfer.
use icecap.Base.{
  ℕ, zero, suc, ◌<◌, ◌≤◌, leb, ◌≡◌, refl, List, [], ◌∷◌, length, drop, Option, none, some, Outcome,
  ok, err, panic, arith, Ensures, returns, Ensures-bind, Ensures-then, unwrap-Ensures, Ensures-ok,
  assert,
}
use icecap.ResourceServer.{Services, ResourceServer, realize_continue}
use icecap.ResourceServer.Serve.{FillChunkHeader, TakeHeader, fill_chunk, fill_loop, after}

-- A header takes bytes: what is left is shorter.
abbrev pub TakesBytes : TakeHeader → Type 0
TakesBytes take_header =
    (content rest : List ℕ) (h : FillChunkHeader)
    → take_header content ≡ some (h, rest)
    → length rest < length content

drop_shorter : {A : Type 0} (n : ℕ) (xs : List A) → length (drop n xs) ≤ length xs
drop_shorter zero xs = omega arith
drop_shorter (suc n) [] = omega arith
drop_shorter (suc n) (x ∷ xs) = let h = drop_shorter n xs in omega arith

module _ {E W P S : Type 0} (ops : Services E W P S) (cores : ℕ) (take_header : TakeHeader)
    (t : TakesBytes take_header) where
  fill_chunk-shorter :
      (s : ResourceServer W P S) (realm_id : ℕ) (content : List ℕ)
      → Ensures
          (λ w. length w.1 < length content)
          (fill_chunk ops cores take_header s realm_id content)
  unfolding fill_chunk
  fill_chunk-shorter s realm_id content =
      Ensures-bind (unwrap-Ensures (take_header content)) (λ h e.
        Ensures-then (assert (leb h.0.size (length h.1))) (λ _.
          Ensures-then
            (realize_continue ops cores s realm_id h.0.object_index h.0.fill_entry_index _)
            (λ s'.
              let shorter : length h.1 < length content = t content h.1 h.0 e in
              let left : length (drop h.0.size h.1) ≤ length h.1 = drop_shorter h.0.size h.1 in
              returns (omega arith))))

  after-some :
      {Q : ResourceServer W P S × List ℕ → Type 0} (m : Outcome E (ResourceServer W P S × List ℕ))
      (k : ResourceServer W P S × List ℕ → Option (Outcome E (ResourceServer W P S)))
      → Ensures Q m
      → ((next : ResourceServer W P S × List ℕ) → Q next → ¬ (k next ≡ none))
      → ¬ (after ops cores take_header m k ≡ none)
  after-some (ok next) k h g = g next (Ensures-ok _ h refl)
  after-some (err e) k h g = λ x. cc
  after-some panic k h g = λ x. cc

  -- The loop over the chunks in a bulk transfer ends, with any result, before fuel that is more than the
  -- bytes of the transfer is used up, when a header takes at least one byte.
  pub fill_loop-ends :
      (fuel : ℕ) (s : ResourceServer W P S) (realm_id : ℕ) (content : List ℕ)
      → length content < fuel
      → ¬ (fill_loop ops cores take_header fuel s realm_id content ≡ none)
  unfolding fill_loop
  fill_loop-ends zero s realm_id content h = λ e. absurd (omega arith)
  fill_loop-ends (suc fuel) s realm_id [] h = λ e. cc
  fill_loop-ends (suc fuel) s realm_id (byte ∷ content) h =
      after-some (fill_chunk ops cores take_header s realm_id (byte ∷ content)) _
        (fill_chunk-shorter s realm_id (byte ∷ content))
        (λ next shorter. fill_loop-ends fuel next.0 realm_id next.1 (omega arith))
