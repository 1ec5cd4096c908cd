-- ===== src/Entry/Modes.antt =====
-- testcontainerd.go: `Run` and its two modes. What the process of a test meets is a parameter; a log
-- line is not modelled.
use testcontainerd.Prelude.{
  ℕ, Bool, List, [], ◌∷◌, Option, none, some, Text, text_eq, trim_space, is_nil, if◌then◌else◌,
}
use testcontainerd.Prelude.Int.{ℤ, pos}
use testcontainerd.Prelude.Results.{Result, ok, err}
use testcontainerd.Errors.{Error}
use testcontainerd.Daemon
use testcontainerd.Daemon.{Daemon, new_daemon}
use testcontainerd.Daemon.Protocol.{Wire}
use testcontainerd.Client
use testcontainerd.Client.{Client, LeaseInfo, acquire, heartbeat, release}
use testcontainerd.Client.Machine.{Machine, tcd_mode, tcd_runtime, mode_daemon}
use testcontainerd.Client.Connect.{new_client}
use testcontainerd.Entry.{TestContainerd, RegisterContainers}

-- `os.Getenv`, by the environment of the process: a name that is not there has the empty value.
abbrev pub value : Option Text → Text
value none = []
value (some v) = v

abbrev pub is_daemon_mode : (Text → Option Text) → Bool
is_daemon_mode env = text_eq (value (env tcd_mode)) mode_daemon

module _ {W : Type 0} where
  -- The configuration of the daemon in `runDaemonMode`.
  unfoldable pub daemon_config : TestContainerd W → (Text → Option Text) → Daemon.Config W
  unfolding trim_space
  daemon_config t env =
      let v = trim_space (value (env tcd_runtime)) in
      record {
        addr = t.cfg.daemon.addr;
        token = t.cfg.daemon.token;
        project = t.cfg.global.project;
        runtime_path = if is_nil v then t.cfg.global.runtime_path else v;
        idle_ttl = t.cfg.daemon.idle_ttl;
        sut = t.cfg.sut;
      }

  -- The registrations, loaded if there are none.
  unfoldable pub loaded :
      TestContainerd W → RegisterContainers W → W → Result Error (TestContainerd W) × W
  loaded t register w =
      let (r, w') = register w in
      if is_nil t.registrations
      then elim r [ err e ↦ (err e, w') | ok regs ↦ (ok (record t { registrations = regs }), w') ]
      else (ok t, w)

-- What `runDaemonMode` meets: the temporary directory, the clock for the token and for the start, and
-- the start of the daemon to its end.
pub record Booting (W : Type 0) : Type 0 where
  pub temp : Text
  pub unix_nano : ℕ
  pub now : ℕ
  pub start : Daemon W → W → Option (Option Error × W)

module _ {W : Type 0} (boot : Booting W) where
  abbrev pub exit_code : Option Error → ℤ
  exit_code none = pos 0
  exit_code (some e) = pos 1

  abbrev pub exit_of : Option (Option Error × W) → Option (ℤ × W)
  exit_of none = none
  exit_of (some (e, w)) = some (exit_code e, w)

  -- From `daemon.New` on.
  unfoldable pub boot_daemon : TestContainerd W → (Text → Option Text) → W → Option (ℤ × W)
  unfolding daemon_config new_daemon
  boot_daemon t env w =
      elim (new_daemon boot.temp boot.unix_nano boot.now (daemon_config t env) t.registrations) [
        | err e ↦ some (pos 1, w)
        | ok d ↦ exit_of (boot.start d w)
      ]

  -- Once the registrations are loaded.
  unfoldable pub boot_loaded :
      (Text → Option Text) → Result Error (TestContainerd W) × W → Option (ℤ × W)
  unfolding boot_daemon
  boot_loaded env (err e, w) = some (pos 1, w)
  boot_loaded env (ok t, w) = boot_daemon t env w

  -- `runDaemonMode`; `none` is a start without an end.
  unfoldable pub run_daemon_mode : TestContainerd W → (Text → Option Text) → W → Option (ℤ × W)
  unfolding loaded boot_loaded
  run_daemon_mode t env w = elim t.register_containers [
    | none ↦ some (pos 1, w)
    | some register ↦ boot_loaded env (loaded t register w)
  ]

-- A run of the tests: what they do between the heartbeats, and their code. A nil runnable is `none`.
pub record Runnable (W : Type 0) : Type 0 where
  pub turns : List (W → W)
  pub last_turn : W → W
  pub code : ℤ

module _ {W : Type 0} (m : Machine W) (wire : Wire) (fuel patience : ℕ) (pid : ℤ) where
  -- The goroutine of `StartHeartbeat`, a heartbeat after each turn of the tests, until it is stopped;
  -- its errors are ignored.
  unfoldable pub beat_on : Client → Text → List (W → W) → W → W
  unfolding heartbeat
  beat_on c id [] w = w
  beat_on c id (turn ∷ turns) w = beat_on c id turns (heartbeat m.http wire c id (turn w)).1

  -- From `StartHeartbeat` on.
  unfoldable pub run_leased : Client → Text → Runnable W → W → ℤ × W
  unfolding beat_on release
  run_leased c id tests w =
      let w' = tests.last_turn (beat_on c id tests.turns w) in
      (tests.code, (release m.http wire c id tests.code w').1)

  -- From `Acquire` on.
  unfoldable pub run_connected : Client → Runnable W → W → ℤ × W
  unfolding acquire run_leased
  run_connected c tests w =
      let (r, w') = acquire m.http wire pid c w in
      elim r [ err e ↦ (pos 1, w') | ok lease ↦ run_leased c lease.lease_id tests w' ]

  abbrev pub client_config : TestContainerd W → Client.Config
  client_config t = record {
    project = t.cfg.global.project;
    runtime_path = t.cfg.global.runtime_path;
    http_timeout = t.cfg.client.http_timeout;
  }

  -- `runClientMode`; `none` is fuel run out.
  unfoldable pub run_client_mode : TestContainerd W → Option (Runnable W) → W → Option (ℤ × W)
  unfolding new_client run_connected
  run_client_mode t none w = some (pos 1, w)
  run_client_mode t (some tests) w = elim (new_client m fuel patience (client_config t) w) [
    | none ↦ none
    | some s ↦
        let (r, w') = s in
        elim r [ err e ↦ some (pos 1, w') | ok c ↦ some (run_connected c tests w') ]
  ]

  unfoldable pub run :
      Booting W → TestContainerd W → (Text → Option Text) → Option (Runnable W) → W → Option (ℤ × W)
  unfolding run_daemon_mode run_client_mode
  run boot t env tests w =
      if is_daemon_mode env then run_daemon_mode boot t env w else run_client_mode t tests w
