-- ===== src/Bundle.antt =====
-- container/bundle.go: the life of the test containers. `W` is the world that the containers live
-- in; `terminate` is the `Terminate` of testcontainers-go. `Bundle.Pool` has the goroutines that
-- start the containers; a method here runs under the bundle's mutex.
pub mod Pool
pub mod Stopping
pub mod Collected
pub mod Enrolled
pub mod Starting
pub mod Stale
pub mod Names
pub mod Sorted
use testcontainerd.Prelude.{
  ℕ, Bool, true, false, List, [], ◌∷◌, ◌++◌, map, reverse, Option, none, some, Text, is_nil,
  if◌then◌else◌,
}
use testcontainerd.Prelude.Results.{Result, ok, err, first_error}
use testcontainerd.Prelude.Dict.{lookup, insert}
use testcontainerd.Errors.{
  Error, registrations_empty, not_found_after_start, init_failed, rollback_failed,
}
use testcontainerd.Registration.{Registration, Container, check_registrations}
use Pool.{Event, StartResult, run_all}

pub record Bundle (W : Type 0) : Type 0 where
  pub started : Bool
  pub regs : List (Registration W)
  pub start_order : List Text
  pub cleanup : List (Option Container)
  pub container_by : List (Text × Option Container)

-- The results channel, read to its end: the first error, and the container of each name.
unfoldable pub collect :
    List StartResult
    → Option Error
    → List (Text × Option Container)
    → Option Error × List (Text × Option Container)
collect [] e m = (e, m)
collect (StartResult.started name ctr ∷ rs) e m = collect rs e (insert name ctr m)
collect (StartResult.failed name e' ∷ rs) e m = collect rs (first_error e (some e')) m

-- The handle under a name, if there is one and it is not nil.
abbrev pub handle : List (Text × Option Container) → Text → Option Container
handle m name = elim (lookup name m) [ none ↦ none | some ctr ↦ ctr ]

module _ {W : Type 0} where
  unfoldable pub new_bundle : List (Registration W) → Result Error (Bundle W)
  new_bundle regs =
      if is_nil regs then err registrations_empty else elim (check_registrations [] regs) [
        | some e ↦ err e
        | none ↦ ok (record {
          started = false;
          regs = regs;
          start_order = [];
          cleanup = [];
          container_by = [];
        })
      ]

  unfoldable pub reset_state : Bundle W → Bundle W
  reset_state b = record b { started = false; start_order = []; cleanup = []; container_by = [] }

  -- The loop that enters each container into the bundle; a name with no container ends it.
  unfoldable pub enroll :
      List (Registration W) → List (Text × Option Container) → Bundle W → Bundle W × Option Text
  enroll [] m b = (b, none)
  enroll (reg ∷ regs) m b = elim (lookup reg.name m) [
    | none ↦ (b, some reg.name)
    | some ctr ↦ enroll regs m (record b {
      start_order = b.start_order ++ reg.name ∷ [];
      cleanup = b.cleanup ++ ctr ∷ [];
      container_by = insert reg.name ctr b.container_by;
    })
  ]

  -- The initialisers in order, up to the first that fails.
  unfoldable pub run_inits : List (Registration W) → W → Option Error × W
  run_inits [] w = (none, w)
  run_inits (reg ∷ regs) w = elim reg.init [
    | none ↦ run_inits regs w
    | some init ↦
        let (e, w') = init w in
        elim e [ some e' ↦ (some (init_failed reg.name e'), w') | none ↦ run_inits regs w' ]
  ]

module _ {W : Type 0} (terminate : Container → W → Option Error × W) where
  -- The body of both termination loops, over the handles in the order of the loop.
  unfoldable pub terminate_each : List (Option Container) → Option Error → W → Option Error × W
  terminate_each [] e w = (e, w)
  terminate_each (none ∷ cs) e w = terminate_each cs e w
  terminate_each (some c ∷ cs) e w =
      let (r, w') = terminate c w in terminate_each cs (first_error e r) w'

  unfoldable pub terminate_created_containers :
      List (Registration W) → List (Text × Option Container) → W → Option Error × W
  unfolding terminate_each
  terminate_created_containers regs m w =
      terminate_each (map (λ r. handle m r.name) (reverse regs)) none w

  unfoldable pub stop_all_containers : Bundle W → W → Option Error × W
  unfolding terminate_each
  stop_all_containers b w = terminate_each (reverse b.cleanup) none w

  unfoldable pub rollback : Bundle W → W → Option Error × Bundle W × W
  unfolding stop_all_containers reset_state
  rollback b w = let (e, w') = stop_all_containers b w in (e, reset_state b, w')

  unfoldable pub stop_all : Bundle W → W → Option Error × Bundle W × W
  unfolding stop_all_containers reset_state
  stop_all b w =
      let (e, w') = stop_all_containers b w in
      elim e [ some e' ↦ (some e', b, w') | none ↦ (none, reset_state b, w') ]

  -- What follows once the results are read.
  unfoldable pub settle :
      List (Registration W)
      → Option Error × List (Text × Option Container)
      → W
      → Result Error (List (Text × Option Container)) × W
  unfolding terminate_created_containers
  settle regs (none, m) w = (ok m, w)
  settle regs (some e, m) w =
      let (r, w') = terminate_created_containers regs m w in
      elim r [ none ↦ (err e, w') | some f ↦ (err (rollback_failed e f), w') ]

  -- `none` if the events are no complete run of the goroutines.
  unfoldable pub start_all_containers :
      List (Registration W)
      → List Event
      → W
      → Option (Result Error (List (Text × Option Container)) × W)
  unfolding settle collect
  start_all_containers regs events w =
      if is_nil regs then some (ok [], w) else elim (run_all regs events w) [
        | none ↦ none
        | some (results, w') ↦ some (settle regs (collect results none []) w')
      ]

  -- `StartAll` from the initialisers on.
  unfoldable pub initialise : Bundle W → W → Option Error × Bundle W × W
  unfolding run_inits rollback
  initialise b w =
      let (e, w') = run_inits b.regs w in
      elim e [
        | none ↦ (none, record b { started = true }, w')
        | some e' ↦ let (_, b', w'') = rollback b w' in (some e', b', w'')
      ]

  unfoldable pub enter : Bundle W → List (Text × Option Container) → W → Option Error × Bundle W × W
  unfolding enroll initialise terminate_created_containers
  enter b m w =
      let (b', missing) = enroll b.regs m b in
      elim missing [
        | none ↦ initialise b' w
        | some name ↦
            let (_, w') = terminate_created_containers b.regs m w in
            (some (not_found_after_start name), b', w')
      ]

  unfoldable pub start_all : Bundle W → List Event → W → Option (Option Error × Bundle W × W)
  unfolding start_all_containers enter
  start_all b events w =
      if b.started then some (none, b, w) else elim (start_all_containers b.regs events w) [
        | none ↦ none
        | some (err e, w') ↦ some (some e, b, w')
        | some (ok m, w') ↦ some (enter b m w')
      ]
