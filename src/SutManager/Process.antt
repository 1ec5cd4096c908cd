-- ===== src/SutManager/Process.antt =====
-- daemon/process_control_unix.go and the commands that daemon/sut_manager.go starts: the process
-- calls of the operating system are a parameter.
use testcontainerd.Prelude.{
  ℕ, Bool, true, false, List, Option, none, some, Text, ltb, is_nil, trim_space, if◌then◌else◌,
}
use testcontainerd.Prelude.Results.{Result, ok, err}
use testcontainerd.Errors.{
  Error, command_nil, path_required, workdir_required, workdir_stat_failed, workdir_not_directory,
}
use testcontainerd.Runtime.{File}

-- `exec.Cmd`: what the program reads and writes of it. `output` is both Stdout and Stderr, `process`
-- the pid once it is started.
pub record Command : Type 0 where
  pub path : Text
  pub dir : Text
  pub env : List Text
  pub output : Option File
  pub setpgid : Bool
  pub process : Option ℕ

-- The operating system: `os.Stat` with `IsDir`, `os.Environ`, `cmd.Start`, `syscall.Getpgid`,
-- `syscall.Kill` of a process group, `Process.Kill`, and `Process.Signal(os.Interrupt)`.
pub record System (W : Type 0) : Type 0 where
  pub stat : Text → W → Result Error Bool
  pub environ : W → List Text
  pub start : Command → W → Result Error ℕ × W
  pub getpgid : ℕ → W → Result Error ℕ
  pub kill_group : ℕ → W → Option Error × W
  pub kill : ℕ → W → Option Error × W
  pub interrupt : ℕ → W → W
  pub close : File → W → W

-- `prepareSUTCommand`; it never fails on Unix.
unfoldable pub prepare_sut_command : Command → Command
prepare_sut_command cmd = record cmd { setpgid = true }

-- `afterSUTStart`: nothing to do on Unix.
unfoldable pub after_sut_start : Command → Option Error
after_sut_start cmd = none

-- `tcdruntime.AttachCmdOutput`.
unfoldable pub attach_cmd_output : Command → File → Command
attach_cmd_output cmd file = record cmd { output = some file }

module _ {W : Type 0} (os : System W) where
  -- The process group first, and the process alone if that fails.
  unfoldable pub kill_tree : ℕ → W → Option Error × W
  kill_tree pid w = elim (os.getpgid pid w) [
    | err e ↦ os.kill pid w
    | ok pgid ↦
        let (e, w') = os.kill_group pgid w in
        if ltb 0 pgid then elim e [ none ↦ (none, w') | some x ↦ os.kill pid w' ] else os.kill pid w
  ]

  unfoldable pub terminate_sut_process : Command → W → Option Error × W
  unfolding kill_tree
  terminate_sut_process cmd w = elim cmd.process [ none ↦ (none, w) | some pid ↦ kill_tree pid w ]

  -- `terminateProcess`: an error of the kill is only logged, and the wait for the exit leaves
  -- nothing behind.
  unfoldable pub terminate_process : Command → W → W
  unfolding terminate_sut_process
  terminate_process cmd w = elim cmd.process [
    | none ↦ w
    | some pid ↦ let (e, w') = terminate_sut_process cmd w in w'
  ]

  -- A nil command is `none`.
  unfoldable pub validate_command : Option Command → W → Result Error Command
  unfolding trim_space
  validate_command none w = err command_nil
  validate_command (some cmd) w =
      if is_nil (trim_space cmd.path)
      then err path_required
      else if is_nil (trim_space cmd.dir)
      then err workdir_required
      else elim (os.stat cmd.dir w) [
        | err e ↦ err (workdir_stat_failed e)
        | ok true ↦ ok cmd
        | ok false ↦ err (workdir_not_directory cmd.dir)
      ]
