-- ===== src/Examples/SutManager.antt =====
-- A service that answers from the second round of the probe on. The world counts the calls made on
-- it.
use testcontainerd.Prelude.{
  ℕ, ◌+◌, ◌*◌, ◌≡◌, ◌↔◌, refl, true, false, List, [], ◌∷◌, none, some, lit, ltb, is_some, text_eq,
  trim_space, arith,
}
use testcontainerd.Prelude.Int.{pos, millisecond}
use testcontainerd.Prelude.Results.{ok}
use testcontainerd.Runtime.{Files}
use testcontainerd.SutManager.{
  SutManager, SutBootPlan, StartSutInput, Startup, new_sut_manager, waiting, grace_over,
}
use testcontainerd.SutManager.Boot.{ensure_started}
use testcontainerd.SutManager.Halting.{stop}
use testcontainerd.SutManager.Process.{Command, System}
use testcontainerd.SutManager.Address.{normalize_probe_addrs}
use testcontainerd.SutManager.Ready.{quiet, Round, probe_loop, wait_sut_ready}
use testcontainerd.SutManager.Readiness.{Reaches, probe_loop-Reaches, IsTimed, wait_sut_ready_ends}
use testcontainerd.SutManager.Coherent.{IsCoherent}
use testcontainerd.SutManager.Outcome.{Ensured, ensure_started-Ensured}
use testcontainerd.SutManager.Starts.{ensure_started_twice}
use testcontainerd.SutManager.Runs.{
  Op, ensures, stops, reads, reaps, run, StaysCoherent, run-new-StaysCoherent,
}

abbrev pub counting : System ℕ
counting = record {
  stat = λ dir w. ok true;
  environ = λ w. lit "HOME=/root" ∷ [];
  start = λ cmd w. (ok (w + 1), w + 1);
  getpgid = λ pid w. ok pid;
  kill_group = λ pgid w. (none, w + 10);
  kill = λ pid w. (none, w + 10);
  interrupt = λ pid w. w + 100;
  close = λ file w. w + 1000;
}

abbrev pub disk : Files ℕ
disk = record {
  temp = lit "/tmp";
  mkdir_all = λ path w. (none, w);
  open_append = λ path w. (ok 3, w);
}

abbrev pub server : Command
server = record {
  path = lit "/bin/server";
  dir = lit "/srv";
  env = [];
  output = none;
  setpgid = false;
  process = none;
}

abbrev pub plan : SutBootPlan ℕ
plan = record {
  is_enable = true;
  get_idle_ttl = pos 0;
  get_ready_timeout = pos 0;
  get_grace_period = pos 0;
  get_command = λ input w. (ok (some server), w);
  get_probe_addrs = lit ":8080" ∷ lit "nonsense" ∷ [];
}

abbrev pub input : StartSutInput
input = record { project = lit "demo"; runtime_path = lit "/tmp/tcd/demo/runtime.json" }

abbrev second_round : ℕ → Round
second_round k = record {
  answers = λ addr. ltb 0 k;
  poll = quiet;
  now = 1000 + k * (150 * millisecond);
}

abbrev pub startup : Startup
startup = record {
  observed = record { startup = quiet; begun = 1000; rounds = second_round };
  left = waiting;
  ended = 2000;
}

abbrev pub managed : SutManager ℕ
managed = new_sut_manager (some plan)

abbrev started : Command
started = record server {
  env = lit "HOME=/root" ∷ [];
  output = some 3;
  setpgid = true;
  process = some 1;
}

abbrev pub up : SutManager ℕ
up = record managed { cmd = some started; wait_ch = some waiting; started_at = 2000 }

addrs_kept :
    normalize_probe_addrs (lit ":8080" ∷ lit "nonsense" ∷ lit " [::1]:90 " ∷ lit "host:http" ∷ [])
    ≡ lit "127.0.0.1:8080" ∷ lit "[::1]:90" ∷ []
unfolding normalize_probe_addrs trim_space text_eq
addrs_kept = refl

first_start : ensure_started counting disk 55 startup managed input 0 ≡ some (none, up, 1)
unfolding ensure_started trim_space
first_start = refl

second_round-IsTimed : IsTimed second_round
unfolding IsTimed
second_round-IsTimed k = omega arith

probe_loop-Reaches_example :
    ((fuel : ℕ) × (probe_loop fuel (lit "a" ∷ []) 5000 second_round 0 ≡ some none))
    ↔ Reaches (lit "a" ∷ []) 5000 second_round 0
probe_loop-Reaches_example = probe_loop-Reaches (lit "a" ∷ []) 5000 second_round

wait_sut_ready_ends_example :
    is_some (wait_sut_ready 55 startup.observed (lit "a" ∷ []) (pos 0)) ≡ true
wait_sut_ready_ends_example =
    wait_sut_ready_ends 54 startup.observed (lit "a" ∷ []) (pos 0) second_round-IsTimed
      (omega arith) (omega arith)

ensure_started-Ensured_example :
    Ensured 55 startup managed 0 (ensure_started counting disk 55 startup managed input 0)
unfolding IsCoherent
ensure_started-Ensured_example = ensure_started-Ensured counting disk 55 startup managed input 0 tt

ensure_started_twice_example :
    ensure_started counting disk 0 startup up input 9 ≡ some (none, up, 9)
unfolding IsCoherent
ensure_started_twice_example =
    ensure_started_twice counting disk 55 0 startup startup managed up input input 0 1 9 tt refl
      first_start

abbrev events : List Op
events =
    ensures startup input
    ∷ reads
    ∷ reaps none started
    ∷ ensures startup input
    ∷ stops grace_over
    ∷ []

run-new-StaysCoherent_example : StaysCoherent (run counting disk 55 events (managed, 0))
run-new-StaysCoherent_example = run-new-StaysCoherent counting disk 55 events (some plan) 0

-- The process is interrupted, and killed after the grace period.
stop_kills : stop counting grace_over up 1 ≡ (none, record up { cmd = none; wait_ch = none }, 111)
unfolding stop
stop_kills = refl
