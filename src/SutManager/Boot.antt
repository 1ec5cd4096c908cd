-- ===== src/SutManager/Boot.antt =====
-- daemon/sut_manager.go, `ensureStarted`.
use testcontainerd.Prelude.{ℕ, Option, none, some, is_nil, if◌then◌else◌}
use testcontainerd.Prelude.Results.{ok, err}
use testcontainerd.Errors.{Error, plan_nil}
use testcontainerd.Runtime.{File, Files, open_app_log_file}
use testcontainerd.SutManager.Process.{
  Command, System, validate_command, prepare_sut_command, after_sut_start, attach_cmd_output,
  terminate_process,
}
use testcontainerd.SutManager.Address.{normalize_probe_addrs}
use testcontainerd.SutManager.Ready.{wait_sut_ready}
use testcontainerd.SutManager.{
  StartSutInput, SutBootPlan, SutManager, Startup, is_enabled, ready_timeout, is_running_locked,
  fail, become_ready,
}

-- `none` in what follows: the fuel of the probe ran out.
module _ {W : Type 0} (os : System W) (fs : Files W) (fuel : ℕ) (seen : Startup) where
  -- From `waitSUTReady` on.
  unfoldable pub await_ready :
      SutBootPlan W → SutManager W → Command → W → Option (Option Error × SutManager W × W)
  unfolding wait_sut_ready become_ready ready_timeout normalize_probe_addrs
  await_ready plan m cmd w =
      let addrs = normalize_probe_addrs plan.get_probe_addrs in
      elim (wait_sut_ready fuel seen.observed addrs (ready_timeout m)) [
        | none ↦ none
        | some none ↦ some (none, become_ready m cmd seen, w)
        | some (some e) ↦ some (fail e m (terminate_process os cmd w))
      ]

  -- From `cmd.Start` on.
  unfoldable pub start_command :
      SutBootPlan W → SutManager W → Command → File → W → Option (Option Error × SutManager W × W)
  unfolding await_ready after_sut_start
  start_command plan m cmd file w =
      let (r, w') = os.start cmd w in
      elim r [
        | err e ↦ some (fail e m (os.close file w'))
        | ok pid ↦
            let run = record cmd { process = some pid } in
            elim (after_sut_start run) [
              | some e ↦ some (fail e m (os.close file (terminate_process os run w')))
              | none ↦ await_ready plan m run w'
            ]
      ]

  -- From `prepareSUTCommand` on, which does not fail on Unix.
  unfoldable pub launch :
      SutBootPlan W
      → SutManager W
      → StartSutInput
      → Command
      → W
      → Option (Option Error × SutManager W × W)
  unfolding start_command open_app_log_file prepare_sut_command attach_cmd_output
  launch plan m input cmd w =
      let prepared = prepare_sut_command cmd in
      let env = if is_nil prepared.env then os.environ w else prepared.env in
      let (r, w') = open_app_log_file fs input.runtime_path w in
      elim r [
        | err e ↦ some (fail e m w')
        | ok file ↦
            start_command plan m (attach_cmd_output (record prepared { env = env }) file) file w'
      ]

  -- From `GetCommand` on.
  unfoldable pub boot_up :
      SutBootPlan W → SutManager W → StartSutInput → W → Option (Option Error × SutManager W × W)
  unfolding launch validate_command
  boot_up plan m input w =
      let (r, w') = plan.get_command input w in
      elim r [
        | err e ↦ some (fail e m w')
        | ok cmd ↦ elim (validate_command os cmd w') [
          | err e ↦ some (fail e m w')
          | ok valid ↦ launch plan m input valid w'
        ]
      ]

  unfoldable pub ensure_started :
      SutManager W → StartSutInput → W → Option (Option Error × SutManager W × W)
  unfolding boot_up is_enabled is_running_locked
  ensure_started m input w =
      let (running, m') = is_running_locked m in
      if is_enabled m
      then (if running then some (none, m', w) else elim m'.boot [
        | none ↦ some (fail plan_nil m' w)
        | some plan ↦ boot_up plan m' input w
      ])
      else some (none, m, w)
