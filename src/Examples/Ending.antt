-- ===== src/Examples/Ending.antt =====
-- A service that does not heed the interrupt. The world is the list of the processes that run; the
-- group of the process 13 cannot be signalled.
use testcontainerd.Prelude.{
  ℕ, ◌≡◌, refl, Bool, true, false, List, [], ◌∷◌, ◌==◌, ◌||◌, Option, none, some, lit,
  if◌then◌else◌, arith,
}
use testcontainerd.Prelude.Int.{pos}
use testcontainerd.Prelude.Results.{ok}
use testcontainerd.Errors.{Error, external}
use testcontainerd.SutManager.{SutManager, SutBootPlan, waiting, grace_over, is_enabled}
use testcontainerd.SutManager.Halting.{stop}
use testcontainerd.SutManager.Process.{System}
use testcontainerd.SutManager.Coherent.{IsCoherent, IsCleared}
use testcontainerd.SutManager.Ending.{IsKilling, stop_ends}

runs : ℕ → List ℕ → Bool
runs pid [] = false
runs pid (p ∷ w) = p == pid || runs pid w

unfoldable without : ℕ → List ℕ → List ℕ
without pid [] = []
without pid (p ∷ w) = let rest = without pid w in if p == pid then rest else p ∷ rest

without-runs : (pid : ℕ) (w : List ℕ) → runs pid (without pid w) ≡ false
unfolding runs without
without-runs pid [] = refl
without-runs pid (p ∷ w) = ground (arith, without-runs pid w)

abbrev signalled : Bool → ℕ → List ℕ → Option Error × List ℕ
signalled true pid w = (some (external (lit "not permitted")), w)
signalled false pid w = (none, without pid w)

abbrev deaf : System (List ℕ)
deaf = record {
  stat = λ dir w. ok true;
  environ = λ w. [];
  start = λ cmd w. (ok 42, 42 ∷ w);
  getpgid = λ pid w. ok pid;
  kill_group = λ pgid w. signalled (pgid == 13) pgid w;
  kill = λ pid w. (none, without pid w);
  interrupt = λ pid w. w;
  close = λ file w. w;
}

signalled-runs :
    (b : Bool) (pid : ℕ) (w : List ℕ)
    → (signalled b pid w).0 ≡ none
    → runs pid (signalled b pid w).1 ≡ false
signalled-runs true pid w h = cc
signalled-runs false pid w h = without-runs pid w

deaf-IsKilling : IsKilling deaf runs
deaf-IsKilling = record {
  kill_ends = without-runs;
  group_ends =
      λ pid pgid w e h. let q : pid ≡ pgid = cc in rw (q) (signalled-runs (pgid == 13) pgid w h);
}

abbrev plan : SutBootPlan (List ℕ)
plan = record {
  is_enable = true;
  get_idle_ttl = pos 0;
  get_ready_timeout = pos 0;
  get_grace_period = pos 0;
  get_command = λ input w. (ok none, w);
  get_probe_addrs = [];
}

abbrev serving : SutManager (List ℕ)
serving = record {
  boot = some plan;
  cmd = some record {
    path = lit "/bin/server";
    dir = lit "/srv";
    env = [];
    output = none;
    setpgid = true;
    process = some 42;
  };
  wait_ch = some waiting;
  started_at = 1;
  restart_count = 0;
  last_err = [];
}

stop_ends_example :
    (runs 42 (stop deaf grace_over serving (7 ∷ 42 ∷ [])).2 ≡ false)
    × IsCleared serving (stop deaf grace_over serving (7 ∷ 42 ∷ [])).1
unfolding IsCoherent is_enabled
stop_ends_example =
    stop_ends deaf runs deaf-IsKilling grace_over serving 42 (7 ∷ 42 ∷ []) refl refl refl
      (λ n. elim (n refl) [ ]) (λ e. cc)

-- The other process goes on.
stop_spares : (stop deaf grace_over serving (7 ∷ 42 ∷ [])).2 ≡ 7 ∷ []
unfolding stop without
stop_spares = refl
