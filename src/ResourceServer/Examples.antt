-- ===== src/ResourceServer/Examples.antt =====
-- The resource server over a small world: a list of the calls it got.
use icecap.Base.{
  ℕ, suc, ◌≡◌, ◌≢◌, refl, ap, true, false, List, [], ◌∷◌, length, none, some, Outcome, ok, err,
  panic, arith,
}
use icecap.ResourceServer.{
  Services, ResourceServer, wfe, new, yield_to, yield_back, timeout, realize_start,
  realize_continue, realize_finish, declare, incorporate_spec_chunk, start_cores, start_tcbs,
  schedule_all,
}
use icecap.ResourceServer.Assignment.{home}
use icecap.ResourceServer.Safety.{IsConsistent}
use icecap.ResourceServer.Release.{
  Released, by_timeout, finish_by, yield_back-panics, host_event-Released,
}
use icecap.ResourceServer.Serve.{
  Message, host_control, host_yield, declare_realm, spec_chunk, fill_chunks, realize_start_of,
  realize_finish_of, serve, handle, request, fill_all, fill_loop, fill_chunk, TakeHeader,
}
use icecap.ResourceServer.Serve.Exclusive.{serve-exclusive}
use icecap.ResourceServer.Serve.Chunks.{fill_loop-ends, TakesBytes}

-- The world counts its calls. A realm's subsystem is its description, and has one core with two TCBs.
abbrev log : ℕ → Outcome ℕ ℕ
log w = ok (suc w)

abbrev ops : Services ℕ ℕ (List ℕ) (List ℕ)
ops = record {
  set_affinity = λ w tcb core. log w;
  resume = λ w tcb. log w;
  save_caller = λ w n. log w;
  oneshot_relative = λ w n ns. log w;
  stop = λ w n. log w;
  subscribe = λ w n. log w;
  unsubscribe = λ w n. log w;
  send = λ w n c. log w;
  create_realm = λ w n r. log w;
  destroy_realm = λ w n r. log w;
  realize_start = λ w raw. ok (raw, w);
  realize_continue = λ w partial o f content. ok (partial, suc w);
  realize_finish = λ w partial. ok (partial, w);
  destroy = λ w subsystem. log w;
  virtual_cores = λ subsystem. ((10, true) ∷ (11, false) ∷ []) ∷ ((12, true) ∷ []) ∷ [];
}

-- Three bytes for a header.
abbrev take_header : TakeHeader
take_header (a ∷ b ∷ c ∷ rest) =
    some (record { object_index = a; fill_entry_index = b; size = c }, rest)
take_header content = none

abbrev region : List ℕ
region = 1 ∷ 0 ∷ 2 ∷ 77 ∷ 78 ∷ 2 ∷ 0 ∷ 1 ∷ 79 ∷ []

abbrev control : List (ℕ × List ℕ × Message)
control =
    (0, region, host_control (declare_realm 7 2))
    ∷ (0, region, host_control (spec_chunk 7 3 2 0))
    ∷ (0, region, host_control (realize_start_of 7))
    ∷ (0, region, host_control (fill_chunks 7 0 9))
    ∷ (0, region, host_control (realize_finish_of 7))
    ∷ (1, region, host_yield 1 7 0 (some 500))
    ∷ []

abbrev server : Outcome ℕ (ResourceServer ℕ (List ℕ) (List ℕ)) → ResourceServer ℕ (List ℕ) (List ℕ)
server (ok s) = s
server (err e) = new 3 0
server panic = new 3 0

abbrev running : ResourceServer ℕ (List ℕ) (List ℕ)
running = record {
  world = 13;
  realms =
      (
        7,
        record {
          virtual_nodes =
              record { tcbs = 10 ∷ 11 ∷ []; physical_node = some 1 }
              ∷ record { tcbs = 12 ∷ []; physical_node = none }
              ∷ [];
          subsystem = 77 ∷ 78 ∷ [];
        },
      )
      ∷ [];
  partial_specs = [];
  partial_realms = [];
  physical_nodes = none ∷ some (7, 0) ∷ none ∷ [];
}

serve-running : serve ops 3 take_header (new 3 0) control ≡ ok running
unfolding serve handle request fill_all fill_loop fill_chunk declare incorporate_spec_chunk
    realize_start realize_continue realize_finish start_cores start_tcbs yield_to schedule_all
serve-running = refl

serve-exclusive_example :
    IsConsistent running
    × ((r i r' i' p : ℕ)
        → home running r i ≡ some p
        → home running r' i' ≡ some p
        → (r ≡ r') × (i ≡ i'))
serve-exclusive_example = serve-exclusive ops 3 take_header 0 control running serve-running

take_header-TakesBytes : TakesBytes take_header
take_header-TakesBytes [] rest h e = cc
take_header-TakesBytes (a ∷ []) rest h e = cc
take_header-TakesBytes (a ∷ b ∷ []) rest h e = cc
take_header-TakesBytes (a ∷ b ∷ c ∷ content) rest h e =
    let tail : content ≡ rest = cc in
    let same : length content ≡ length rest = ap length tail in omega arith

fill_loop-ends_example : ¬ (fill_loop ops 3 take_header 10 running 7 region ≡ none)
fill_loop-ends_example =
    fill_loop-ends ops 3 take_header take_header-TakesBytes 10 running 7 region (omega arith)

yield_back-panics_example : yield_back ops 3 running 7 0 (wfe 40) ≢ ok running
yield_back-panics_example = yield_back-panics ops 3 running running 7 0 (wfe 40)

abbrev stopped : ResourceServer ℕ (List ℕ) (List ℕ)
stopped = record running {
  realms =
      (
        7,
        record {
          virtual_nodes =
              record { tcbs = 10 ∷ 11 ∷ []; physical_node = none }
              ∷ record { tcbs = 12 ∷ []; physical_node = none }
              ∷ [];
          subsystem = 77 ∷ 78 ∷ [];
        },
      )
      ∷ [];
  physical_nodes = none ∷ none ∷ none ∷ [];
}

timeout-stopped : timeout ops 3 running 1 ≡ ok (record stopped { world = 17 })
unfolding timeout schedule_all
timeout-stopped = refl

host_event-Released_example :
    Released ops 3 (finish_by ops 3 by_timeout 1) running 1 7 0 (record stopped { world = 17 })
host_event-Released_example =
    host_event-Released ops 3 by_timeout running (record stopped { world = 17 }) 1 7 0 refl
      timeout-stopped
