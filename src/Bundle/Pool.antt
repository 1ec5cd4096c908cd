-- ===== src/Bundle/Pool.antt =====
-- container/bundle.go, `startAllContainers`: at most four goroutines take the registrations from a
-- channel, start them, and put the outcomes into another. An event says which goroutine moves next,
-- so a list of events is one interleaving of them.
pub mod Moves
pub mod Progress
pub mod Liveness
pub mod Accounting
pub mod Complete
use testcontainerd.Prelude.{
  ℕ, suc, ◌≡◌, Bool, true, false, ◌&&◌, ◌||◌, List, [], ◌∷◌, ◌++◌, Option, none, some, Text, is_nil,
  length, get_elem?, set, replicate, ltb, if◌then◌else◌,
}
use testcontainerd.Prelude.Results.{Result, ok, err}
use testcontainerd.Errors.{Error, start_failed}
use testcontainerd.Registration.{Registration, Container}

abbrev pub max_create_concurrency : ℕ
max_create_concurrency = 4

pub data StartResult : Type 0 where
  started : Text → Option Container → StartResult
  failed : Text → Error → StartResult

-- A goroutine is about to receive, is in `reg.Start`, or has sent an error and is about to cancel.
pub data Worker (W : Type 0) : Type 0 where
  idle : Worker W
  starting : Registration W → Worker W
  failing : Worker W

-- `cancelled`: one of the goroutines has called `cancel`. `parent_done`: the caller's context ended.
pub record State (W : Type 0) : Type 0 where
  pub world : W
  pub jobs : List (Registration W)
  pub workers : List (Worker W)
  pub cancelled : Bool
  pub parent_done : Bool
  pub results : List StartResult

pub data Event : Type 0 where
  takes finishes cancels : ℕ → Event
  parent_ends : Event

module _ {W : Type 0} where
  -- `createCtx.Err() != nil`.
  abbrev pub is_done : State W → Bool
  is_done p = p.cancelled || p.parent_done

  unfoldable pub worker_count : List (Registration W) → ℕ
  worker_count regs =
      if ltb (length regs) max_create_concurrency then length regs else max_create_concurrency

  unfoldable pub init : List (Registration W) → W → State W
  unfolding worker_count
  init regs w = record {
    world = w;
    jobs = regs;
    workers = replicate (worker_count regs) idle;
    cancelled = false;
    parent_done = false;
    results = [];
  }

  -- A receive from `jobs`, and the test of the context that follows it.
  take_job : ℕ → List (Registration W) → State W → Option (State W)
  take_job i [] p = none
  take_job i (reg ∷ jobs) p = some (
      if is_done p
      then record p { jobs = jobs }
      else record p { jobs = jobs; workers = set p.workers i (starting reg) })

  -- The send of an outcome.
  send : ℕ → Text → Result Error (Option Container) × W → State W → State W
  send i name (ok ctr, w) p = record p {
    world = w;
    workers = set p.workers i idle;
    results = p.results ++ started name ctr ∷ [];
  }
  send i name (err e, w) p = record p {
    world = w;
    workers = set p.workers i failing;
    results = p.results ++ failed name (start_failed name e) ∷ [];
  }

  -- The next move of goroutine i, which is in the given state. A nil `Start` would panic:
  -- `NewBundle` refuses it.
  move : Event → Worker W → State W → Option (State W)
  unfolding take_job send
  move (takes i) idle p = take_job i p.jobs p
  move (finishes i) (starting reg) p = elim reg.start [
    | none ↦ none
    | some start ↦ some (send i reg.name (start (is_done p) p.world) p)
  ]
  move (cancels i) failing p = some (record p { workers = set p.workers i idle; cancelled = true })
  move _ _ p = none

  -- `none`: the event cannot happen in this state.
  unfoldable pub step : Event → State W → Option (State W)
  unfolding move
  step (takes i) p = elim (get_elem? p.workers i) [ none ↦ none | some x ↦ move (takes i) x p ]
  step (finishes i) p = elim (get_elem? p.workers i) [
    | none ↦ none
    | some x ↦ move (finishes i) x p
  ]
  step (cancels i) p = elim (get_elem? p.workers i) [ none ↦ none | some x ↦ move (cancels i) x p ]
  step parent_ends p = some (record p { parent_done = true })

  unfoldable pub run : List Event → State W → Option (State W)
  unfolding step
  run [] p = some p
  run (e ∷ es) p = elim (step e p) [ none ↦ none | some q ↦ run es q ]

  abbrev pub is_idle : Worker W → Bool
  is_idle idle = true
  is_idle _ = false

  unfoldable pub all_idle : List (Worker W) → Bool
  all_idle [] = true
  all_idle (x ∷ xs) = is_idle x && all_idle xs

  -- Every goroutine has found `jobs` closed and empty, so `wg.Wait` returns.
  abbrev pub is_finished : State W → Bool
  is_finished p = is_nil p.jobs && all_idle p.workers

  unfoldable pub run_all : List (Registration W) → List Event → W → Option (List StartResult × W)
  unfolding run init all_idle
  run_all regs events w = elim (run events (init regs w)) [
    | none ↦ none
    | some p ↦ if is_finished p then some (p.results, p.world) else none
  ]
