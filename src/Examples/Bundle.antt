-- ===== src/Examples/Bundle.antt =====
-- Bundles of one, two and five containers at work. The world counts the calls made on it.
use testcontainerd.Prelude.{
  ℕ, ◌+◌, ◌≡◌, ◌≢◌, refl, true, false, List, [], ◌∷◌, Option, none, some, Text, lit, All, text_eq,
  trim_space, replicate, if◌then◌else◌, ◌==◌,
}
use testcontainerd.Prelude.Results.{ok, err}
use testcontainerd.Prelude.Dict.{lookup, insert}
use testcontainerd.Errors.{Error, external, start_failed}
use testcontainerd.Registration.{Registration, Container, check_registrations}
use testcontainerd.Bundle.Pool.{
  Event, takes, finishes, cancels, parent_ends, StartResult, State, idle, init, run, run_all,
}
use testcontainerd.Bundle.Pool.Liveness.{Finishes, run-Finishes}
use testcontainerd.Bundle.Pool.Accounting.{named, registered}
use testcontainerd.Bundle.Pool.Complete.{run_all-named}
use testcontainerd.Bundle.Starting.{Leaves, start_all-Leaves}
use mathlib.Core.List.{Permᴰ}
use testcontainerd.Bundle.Names.{containers}
use testcontainerd.Bundle.Sorted.{IsSorted, containers-IsSorted}
use testcontainerd.Bundle.{Bundle, new_bundle, start_all}

abbrev pub starts : Text → Registration ℕ
starts name = record { name = name; start = some (λ d w. (ok (some w), w + 1)); init = none }

abbrev breaks : Text → Registration ℕ
breaks name = record {
  name = name;
  start = some (λ d w. (err (external (lit "no image")), w));
  init = none;
}

abbrev pub terminate : Container → ℕ → Option Error × ℕ
terminate c w = (none, w + 100)

abbrev pub two : List (Registration ℕ)
two = starts (lit "mysql") ∷ starts (lit "redis") ∷ []

abbrev pub fresh : List (Registration ℕ) → Bundle ℕ
fresh regs = record {
  started = false;
  regs = regs;
  start_order = [];
  cleanup = [];
  container_by = [];
}

abbrev pub both : List Event
both = takes 0 ∷ takes 1 ∷ finishes 1 ∷ finishes 0 ∷ []

abbrev two_started : Bundle ℕ
two_started = record {
  started = true;
  regs = two;
  start_order = lit "mysql" ∷ lit "redis" ∷ [];
  cleanup = some 1 ∷ some 0 ∷ [];
  container_by = (lit "mysql", some 1) ∷ (lit "redis", some 0) ∷ [];
}

start_two : start_all terminate (fresh two) both 0 ≡ some (none, two_started, 2)
unfolding start_all run_all lookup insert text_eq
start_two = refl

new_two : new_bundle two ≡ ok (fresh two)
unfolding new_bundle check_registrations trim_space text_eq
new_two = refl

-- The second start fails: the first container is terminated, and the error is the second's.
fail_second :
    start_all terminate
      (fresh (starts (lit "mysql") ∷ breaks (lit "redis") ∷ []))
      (takes 0 ∷ takes 1 ∷ finishes 0 ∷ finishes 1 ∷ cancels 1 ∷ [])
      0
    ≡ some (
      some (start_failed (lit "redis") (external (lit "no image"))),
      fresh (starts (lit "mysql") ∷ breaks (lit "redis") ∷ []),
      101,
    )
unfolding start_all run_all lookup insert text_eq
fail_second = refl

-- The caller gives up while the second registration is waiting.
abbrev abandoned : List Event
abandoned = takes 0 ∷ finishes 0 ∷ parent_ends ∷ takes 1 ∷ []

abbrev two_final : State ℕ
two_final = record {
  world = 2;
  jobs = [];
  workers = replicate 2 idle;
  cancelled = false;
  parent_done = false;
  results =
      StartResult.started (lit "redis") (some 0) ∷ StartResult.started (lit "mysql") (some 1) ∷ [];
}

both_arrive : run both (init two 0) ≡ some two_final
unfolding run init
both_arrive = refl

run-Finishes_example : Finishes (init two 0)
unfolding run
run-Finishes_example =
    run-Finishes (starts (lit "mysql")) (starts (lit "redis") ∷ []) 0 [] (refl, (refl, tt)) refl

both_undisturbed : All (λ v. v ≢ parent_ends) both
both_undisturbed = ((λ e. cc), ((λ e. cc), ((λ e. cc), ((λ e. cc), tt))))

both_complete : run_all two both 0 ≡ some (two_final.results, 2)
unfolding run_all
both_complete = refl

run_all-named_example : named (lit "redis") two_final.results ≡ registered (lit "redis") two
run_all-named_example =
    run_all-named two both 0 2 two_final.results both_complete both_undisturbed
      (unfold text_eq in refl) (lit "redis")

abbrev two_map : List (Text × Option Container)
two_map = (lit "redis", some 0) ∷ (lit "mysql", some 1) ∷ []

start_all-Leaves_example : Leaves (fresh two) none two_started
start_all-Leaves_example =
    start_all-Leaves terminate (fresh two) both 0 2 start_two both_undisturbed (refl, refl, refl)

abbrev counted : Container → ℕ → Option Error × ℕ
counted c w = (if c == 1 then some (external (lit "busy")) else none, w + 1)

abbrev two_logged : Bundle (List Container × ℕ)
two_logged = record {
  started = true;
  regs = [];
  start_order = [];
  cleanup = some 1 ∷ none ∷ some 0 ∷ [];
  container_by = [];
}

abbrev two_backwards : Bundle ℕ
two_backwards = record two_started { start_order = lit "redis" ∷ lit "mysql" ∷ [] }

containers-IsSorted_example :
    IsSorted (containers two_backwards)
    × Permᴰ (containers two_backwards) (lit "redis" ∷ lit "mysql" ∷ [])
    × (containers two_backwards ≡ containers two_started)
containers-IsSorted_example = containers-IsSorted two_backwards two_started (Permᴰ.swap refl refl)
