-- ===== src/Client/Machine.antt =====
-- client/autostart.go: the lock of a start, the wait for a daemon that listens, and the command that
-- starts one. The machine is a parameter.
use testcontainerd.Prelude.{
  ℕ, zero, suc, ◌+◌, ◌-◌, ◌*◌, ◌++◌, Bool, true, false, List, [], ◌∷◌, Option, none, some, Text,
  lit, ltb, if◌then◌else◌,
}
use testcontainerd.Prelude.Int.{millisecond}
use testcontainerd.Prelude.Results.{Result, ok, err}
use testcontainerd.Errors.{Error, lock_dir_failed, resolve_failed}
use testcontainerd.Runtime.{File, open_daemon_log_file}
use testcontainerd.Runtime.Paths.{dir}
use testcontainerd.Runtime.Info.{Disk, Clock, discard, read}
use testcontainerd.Daemon.Protocol.{RuntimeInfo, Codec}
use testcontainerd.Client.{Http, runtime_alive}
use testcontainerd.Client.Environ.{merge_env}
use testcontainerd.Client.Runner.{CopyApi, prepare_daemon_executable}

-- `exec.Cmd`: what the program sets of it. `output` is both Stdout and Stderr.
pub record DaemonCommand : Type 0 where
  pub path : Text
  pub args : List Text
  pub env : List Text
  pub output : Option File

-- The end of `os.OpenFile` with `O_CREATE|O_EXCL`.
pub data Opened : Type 0 where
  opened : Opened
  exists_already : Opened
  not_opened : Error → Opened

-- What the client calls of the operating system: beside the files, the clock, the network and JSON,
-- `os.OpenFile` of the lock, the note in it, `Close` of it, `os.Stat` with `ModTime`,
-- `os.Executable`, what the copy of the executable needs, `os.Environ`, `cmd.Start`, and `Close` of the log.
pub record Machine (W : Type 0) : Type 0 where
  pub disk : Disk W
  pub clock : Clock W
  pub http : Http W
  pub json : Codec RuntimeInfo
  pub open_excl : Text → W → Opened × W
  pub note_owner : Text → W → W
  pub close_lock : Text → W → W
  pub mod_time : Text → W → Result Error ℕ
  pub executable : W → Result Error Text
  pub copier : CopyApi W
  pub environ : W → List Text
  pub start : DaemonCommand → W → Option Error × W
  pub close_log : File → W → W

abbrev pub start_lock_path : Text → Text
start_lock_path runtime_path = runtime_path ++ lit ".start.lock"

abbrev pub tcd_mode : Text
tcd_mode = lit "TCD_MODE"

abbrev pub tcd_runtime : Text
tcd_runtime = lit "TCD_RUNTIME"

abbrev pub mode_daemon : Text
mode_daemon = lit "daemon"

module _ {W : Type 0} (m : Machine W) where
  -- Is the lock the caller's?
  unfoldable pub try_acquire_start_lock : Text → W → Result Error Bool × W
  unfolding dir
  try_acquire_start_lock lock_path w =
      let (e, w1) = m.disk.files.mkdir_all (dir lock_path) w in
      let (o, w2) = m.open_excl lock_path w1 in
      elim e [
        | some x ↦ (err (lock_dir_failed x), w1)
        | none ↦ elim o [
          | opened ↦ (ok true, m.note_owner lock_path w2)
          | exists_already ↦ (ok false, w2)
          | not_opened x ↦ (err x, w2)
        ]
      ]

  unfoldable pub release_start_lock : Text → W → W
  release_start_lock lock_path w = discard m.disk lock_path (m.close_lock lock_path w)

  unfoldable pub is_stale_start_lock : Text → Text → ℕ → W → Bool
  unfolding read
  is_stale_start_lock lock_path runtime_path stale_after w = elim (m.mod_time lock_path w) [
    | err e ↦ false
    | ok t ↦
        if ltb (m.clock.now w - t) stale_after
        then false
        else elim (read m.disk m.json runtime_path w) [ ok info ↦ false | err e ↦ true ]
  ]

  -- The loop of `waitRuntimeAlive`; `none` is fuel run out.
  unfoldable pub alive_loop : ℕ → RuntimeInfo → ℕ → W → Option (Bool × W)
  unfolding runtime_alive
  alive_loop zero info deadline w = none
  alive_loop (suc fuel) info deadline w =
      let (alive, w') = runtime_alive m.http info w in
      let rest = alive_loop fuel info deadline (m.clock.sleep (200 * millisecond) w') in
      if alive
      then some (true, w')
      else if ltb deadline (m.clock.now w')
      then some (false, w')
      else rest

  unfoldable pub wait_runtime_alive : ℕ → RuntimeInfo → ℕ → W → Option (Bool × W)
  unfolding alive_loop
  wait_runtime_alive fuel info timeout w = alive_loop fuel info (m.clock.now w + timeout) w

  unfoldable pub build_daemon_command : Text → W → Result Error DaemonCommand × W
  unfolding prepare_daemon_executable merge_env
  build_daemon_command runtime_path w = elim (m.executable w) [
    | err e ↦ (err (resolve_failed e), w)
    | ok exe ↦
        let (r, w') = prepare_daemon_executable m.copier exe runtime_path w in
        elim r [
          | err e ↦ (err e, w')
          | ok runner ↦ (
            ok record {
              path = runner;
              args = lit "-test.run=^$" ∷ [];
              env =
                  merge_env (m.environ w')
                    ((tcd_mode, mode_daemon) ∷ (tcd_runtime, runtime_path) ∷ []);
              output = none;
            },
            w',
          )
        ]
  ]

  unfoldable pub attach_daemon_output :
      DaemonCommand → Text → W → Result Error (DaemonCommand × File) × W
  unfolding open_daemon_log_file
  attach_daemon_output cmd runtime_path w =
      let (r, w') = open_daemon_log_file m.disk.files runtime_path w in
      elim r [ err e ↦ (err e, w') | ok f ↦ (ok (record cmd { output = some f }, f), w') ]
