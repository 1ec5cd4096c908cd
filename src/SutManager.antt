-- ===== src/SutManager.antt =====
-- daemon/sut_manager.go: the manager of the process of the service under test. `W` is the world: the
-- operating system and the file system are parameters, and so is what a call meets while it waits.
pub mod Process
pub mod Windows
pub mod Address
pub mod Ready
pub mod Boot
pub mod Halting
pub mod Readiness
pub mod Coherent
pub mod Clearing
pub mod Ending
pub mod Outcome
pub mod Runs
pub mod Starts
pub mod Up
use testcontainerd.Prelude.{
  ℕ, suc, ◌*◌, Bool, true, false, List, [], ◌∷◌, Option, none, some, Text, ◌==◌, is_nil, is_some,
  ◌&&◌, if◌then◌else◌,
}
use testcontainerd.Prelude.Results.{Result, ok, err}
use testcontainerd.Prelude.Int.{ℤ, pos, is_pos}
use testcontainerd.Errors.{Error, message, plan_nil}
use testcontainerd.LeaseStore.{second}
use testcontainerd.Runtime.{File, Files, open_app_log_file}
use Process.{
  Command, System, validate_command, prepare_sut_command, after_sut_start, attach_cmd_output,
  terminate_process,
}
use Address.{normalize_probe_addrs}
use Ready.{Observed, wait_sut_ready}

pub record StartSutInput : Type 0 where
  pub project : Text
  pub runtime_path : Text

-- The user's plan. `get_command` acts on the world; a nil command is `none`.
pub record SutBootPlan (W : Type 0) : Type 0 where
  pub is_enable : Bool
  pub get_idle_ttl : ℤ
  pub get_ready_timeout : ℤ
  pub get_grace_period : ℤ
  pub get_command : StartSutInput → W → Result Error (Option Command) × W
  pub get_probe_addrs : List Text

-- `waitCh`, for who reads it: nothing yet, the result of `Wait`, or closed after it was read.
pub data Channel : Type 0 where
  waiting : Channel
  finished : Option Error → Channel
  closed : Channel

pub record SutManager (W : Type 0) : Type 0 where
  pub boot : Option (SutBootPlan W)
  pub cmd : Option Command
  pub wait_ch : Option Channel
  pub started_at : ℕ
  pub restart_count : ℕ
  pub last_err : Text

pub record SutState : Type 0 where
  pub ready : Bool
  pub pid : ℕ
  pub started_at : ℕ
  pub restart_count : ℕ
  pub last_error : Text

-- What a call of `ensureStarted` meets while it waits: the rounds of the probe, the state that it
-- leaves `waitCh` in, and the clock after it.
pub record Startup : Type 0 where
  pub observed : Observed
  pub left : Channel
  pub ended : ℕ

-- Which case of the `select` in `stop` comes first.
pub data StopSelect : Type 0 where
  ctx_ended : Error → StopSelect
  grace_over : StopSelect
  exits : StopSelect

-- The process of a command, if it has one.
abbrev pub pid_of : Option Command → Option ℕ
pid_of none = none
pid_of (some cmd) = cmd.process

-- A duration of the plan, or the default if that is not positive.
unfoldable pub or_default : ℕ → ℤ → ℤ
or_default default d = if is_pos d then d else pos default

module _ {W : Type 0} where
  abbrev pub new_sut_manager : Option (SutBootPlan W) → SutManager W
  new_sut_manager boot = record {
    boot = boot;
    cmd = none;
    wait_ch = none;
    started_at = 0;
    restart_count = 0;
    last_err = [];
  }

  unfoldable pub is_enabled : SutManager W → Bool
  is_enabled m = elim m.boot [ none ↦ false | some plan ↦ plan.is_enable ]

  unfoldable pub idle_ttl : SutManager W → ℤ
  unfolding or_default
  idle_ttl m = elim m.boot [
    | none ↦ pos (2 * second)
    | some plan ↦ or_default (2 * second) plan.get_idle_ttl
  ]

  unfoldable pub grace_period : SutManager W → ℤ
  unfolding or_default
  grace_period m = elim m.boot [
    | none ↦ pos (4 * second)
    | some plan ↦ or_default (4 * second) plan.get_grace_period
  ]

  unfoldable pub ready_timeout : SutManager W → ℤ
  unfolding or_default
  ready_timeout m = elim m.boot [
    | none ↦ pos (8 * second)
    | some plan ↦ or_default (8 * second) plan.get_ready_timeout
  ]

  -- `m.cmd = nil` and `m.waitCh = nil`.
  abbrev pub forget : SutManager W → SutManager W
  forget m = record m { cmd = none; wait_ch = none }

  -- The `select` of `isRunningLocked`, on a channel that is there.
  unfoldable pub poll_wait_ch : SutManager W → Channel → Bool × SutManager W
  poll_wait_ch m waiting = (true, m)
  poll_wait_ch m (finished none) = (false, forget m)
  poll_wait_ch m (finished (some e)) = (false, record (forget m) { last_err = message e })
  poll_wait_ch m closed = (false, forget m)

  unfoldable pub is_running_locked : SutManager W → Bool × SutManager W
  unfolding poll_wait_ch
  is_running_locked m =
      if is_some (pid_of m.cmd)
      then elim m.wait_ch [ none ↦ (false, m) | some ch ↦ poll_wait_ch m ch ]
      else (false, m)

  -- The state is read after the test for running has had its effect.
  unfoldable pub snapshot : SutManager W → SutState × SutManager W
  unfolding is_running_locked
  snapshot m =
      let (running, m') = is_running_locked m in
      (
        record {
          ready = running;
          pid = elim (pid_of m'.cmd) [ none ↦ 0 | some p ↦ p ];
          started_at = m'.started_at;
          restart_count = m'.restart_count;
          last_error = m'.last_err;
        },
        m',
      )

  -- `m.lastErr = err.Error()` and `return err`.
  abbrev pub fail : Error → SutManager W → W → Option Error × SutManager W × W
  fail e m w = (some e, record m { last_err = message e }, w)

  -- `ensureStarted`, its last lines.
  unfoldable pub become_ready : SutManager W → Command → Startup → SutManager W
  become_ready m cmd seen = record m {
    cmd = some cmd;
    wait_ch = some seen.left;
    started_at = seen.ended;
    restart_count = if m.started_at == 0 then m.restart_count else suc m.restart_count;
    last_err = [];
  }
