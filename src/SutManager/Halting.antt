-- ===== src/SutManager/Halting.antt =====
-- daemon/sut_manager.go, `stop`, and the goroutine that waits for the process.
use testcontainerd.Prelude.{ℕ, Bool, false, ◌==◌, Option, none, some, if◌then◌else◌}
use testcontainerd.Errors.{Error}
use testcontainerd.SutManager.Process.{Command, System, terminate_process}
use testcontainerd.SutManager.{
  SutManager, StopSelect, is_enabled, forget, is_running_locked, fail, pid_of, finished, ctx_ended,
  grace_over, exits,
}

-- Processes that run have different ids.
abbrev pub same_process : Option ℕ → Option ℕ → Bool
same_process none q = false
same_process (some p) none = false
same_process (some p) (some q) = p == q

module _ {W : Type 0} (os : System W) where
  -- The `select` of `stop`, once the process was interrupted.
  unfoldable pub stop_wait :
      StopSelect → SutManager W → Command → W → Option Error × SutManager W × W
  unfolding terminate_process
  stop_wait (ctx_ended e) m cmd w = fail e m (terminate_process os cmd w)
  stop_wait grace_over m cmd w = (none, m, terminate_process os cmd w)
  stop_wait exits m cmd w = (none, m, w)

  -- `stop` of a running process, from the copy of `m.cmd` on.
  unfoldable pub halt : StopSelect → SutManager W → W → Option Error × SutManager W × W
  unfolding stop_wait
  halt chosen m w = elim m.cmd [
    | none ↦ (none, forget m, w)
    | some cmd ↦
        stop_wait chosen (forget m) cmd
          (elim cmd.process [ none ↦ w | some pid ↦ os.interrupt pid w ])
  ]

  unfoldable pub stop : StopSelect → SutManager W → W → Option Error × SutManager W × W
  unfolding halt is_enabled is_running_locked
  stop chosen m w =
      let (running, m') = is_running_locked m in
      if is_enabled m
      then (if running then halt chosen m' w else (none, forget m', w))
      else (none, m, w)

  -- The goroutine that waits for the process of a command: it sends the result of `Wait` and closes
  -- `waitCh`, which the manager may still hold, and closes the log file.
  unfoldable pub reap : Option Error → Command → SutManager W → W → SutManager W × W
  reap e cmd m w = (
    if same_process (pid_of m.cmd) cmd.process then record m { wait_ch = some (finished e) } else m,
    elim cmd.output [ none ↦ w | some file ↦ os.close file w ],
  )
