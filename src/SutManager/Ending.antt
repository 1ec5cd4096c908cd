-- ===== src/SutManager/Ending.antt =====
-- daemon/sut_manager.go, `stop`, and daemon/process_control_unix.go: that the process ends.
use testcontainerd.Prelude.{
  ℕ, ◌≡◌, ◌≢◌, refl, Bool, true, false, ltb, none, some, Option-cases, Bool-cases, inl, inr,
}
use testcontainerd.Prelude.Results.{ok, Result-cases}
use testcontainerd.SutManager.{
  SutManager, Channel, waiting, finished, closed, StopSelect, ctx_ended, grace_over, exits,
  is_enabled, pid_of, poll_wait_ch, is_running_locked, forget,
}
use testcontainerd.SutManager.Halting.{stop, stop_wait, halt}
use testcontainerd.SutManager.Process.{
  Command, System, kill_tree, terminate_sut_process, terminate_process,
}
use testcontainerd.SutManager.Coherent.{IsCoherent, IsIdle, IsCleared, Coherent-cases, running_some}
use testcontainerd.SutManager.Clearing.{stop-IsCleared}

-- `alive pid w` is whether the process runs. `Process.Kill` of a child leaves it dead, since its
-- signal cannot be caught and it fails only where the process has ended; a signal sent to the group of
-- a process without an error ends the process.
pub record IsKilling {W : Type 0} (os : System W) (alive : ℕ → W → Bool) : Type 0 where
  pub kill_ends : (pid : ℕ) (w : W) → alive pid (os.kill pid w).1 ≡ false
  pub group_ends :
      (pid pgid : ℕ) (w : W)
      → os.getpgid pid w ≡ ok pgid
      → (os.kill_group pgid w).0 ≡ none
      → alive pid (os.kill_group pgid w).1 ≡ false

module _ {W : Type 0} (os : System W) (alive : ℕ → W → Bool) (laws : IsKilling os alive) where
  kill_tree_ends : (pid : ℕ) (w : W) → alive pid (kill_tree os pid w).1 ≡ false
  unfolding kill_tree
  kill_tree_ends pid w = elim (Result-cases (os.getpgid pid w)) [
    | inl (x, e) ↦ rw (kill_tree, e) (laws.kill_ends pid w)
    | inr (pgid, e) ↦ elim (Bool-cases (ltb 0 pgid)) [
      | inr h ↦ rw (kill_tree, e, h) (laws.kill_ends pid w)
      | inl h ↦ elim (Option-cases (os.kill_group pgid w).0) [
        | inl f ↦ rw (kill_tree, e, h, f) (laws.group_ends pid pgid w e f)
        | inr (x, f) ↦ rw (kill_tree, e, h, f) (laws.kill_ends pid (os.kill_group pgid w).1)
      ]
    ]
  ]

  terminate_process_ends :
      (cmd : Command) (pid : ℕ) (w : W)
      → cmd.process ≡ some pid
      → alive pid (terminate_process os cmd w) ≡ false
  unfolding terminate_process terminate_sut_process
  terminate_process_ends cmd pid w p =
      simp (terminate_process, terminate_sut_process, p) (kill_tree_ends pid w)

  stop_wait_ends :
      (chosen : StopSelect) (m : SutManager W) (cmd : Command) (pid : ℕ) (w : W)
      → cmd.process ≡ some pid
      → (chosen ≡ exits → alive pid w ≡ false)
      → alive pid (stop_wait os chosen m cmd w).2 ≡ false
  unfolding stop_wait
  stop_wait_ends (ctx_ended e) m cmd pid w p h = terminate_process_ends cmd pid w p
  stop_wait_ends grace_over m cmd pid w p h = terminate_process_ends cmd pid w p
  stop_wait_ends exits m cmd pid w p h = h refl

  halt_ends :
      (chosen : StopSelect) (m : SutManager W) (cmd : Command) (pid : ℕ) (w : W)
      → m.cmd ≡ some cmd
      → cmd.process ≡ some pid
      → (chosen ≡ exits → alive pid (os.interrupt pid w) ≡ false)
      → alive pid (halt os chosen m w).2 ≡ false
  unfolding halt
  halt_ends chosen m cmd pid w e p h =
      simp (halt, e, p) (stop_wait_ends chosen (forget m) cmd pid (os.interrupt pid w) p h)

  stop_polled :
      (chosen : StopSelect) (m : SutManager W) (cmd : Command) (pid : ℕ) (w : W) (ch : Channel)
      → is_enabled m ≡ true
      → is_running_locked m ≡ poll_wait_ch m ch
      → m.cmd ≡ some cmd
      → cmd.process ≡ some pid
      → (ch ≢ waiting → alive pid w ≡ false)
      → (chosen ≡ exits → alive pid (os.interrupt pid w) ≡ false)
      → alive pid (stop os chosen m w).2 ≡ false
  unfolding stop poll_wait_ch
  stop_polled chosen m cmd pid w waiting b r e p t h =
      rw (stop, b, r) (halt_ends chosen m cmd pid w e p h)
  stop_polled chosen m cmd pid w (finished none) b r e p t h = rw (stop, b, r) (t (λ q. cc))
  stop_polled chosen m cmd pid w (finished (some x)) b r e p t h = rw (stop, b, r) (t (λ q. cc))
  stop_polled chosen m cmd pid w closed b r e p t h = rw (stop, b, r) (t (λ q. cc))

  -- `stop` under an enabled plan, of a manager that has a process: whatever the `select` of `stop`
  -- finds, the process does not run at the end, and the manager has forgotten it and keeps its plan,
  -- its start time and its count of restarts. What `Wait` reports must be true: a channel that is not
  -- waiting, and the `select` that finds the exit after the interrupt, stand for a process that has
  -- ended.
  pub stop_ends :
      (chosen : StopSelect) (m : SutManager W) (pid : ℕ) (w : W)
      → IsCoherent m
      → is_enabled m ≡ true
      → pid_of m.cmd ≡ some pid
      → (m.wait_ch ≢ some waiting → alive pid w ≡ false)
      → (chosen ≡ exits → alive pid (os.interrupt pid w) ≡ false)
      → (alive pid (stop os chosen m w).2 ≡ false) × IsCleared m (stop os chosen m w).1
  unfolding IsIdle
  stop_ends chosen m pid w c b i t h = (
    elim (Coherent-cases m c) [
      | inl idle ↦ let q : pid_of none ≡ some pid = rw (idle.0) at i in cc
      | inr (cmd, (ch, (e, (p, f)))) ↦
          stop_polled chosen m cmd pid w ch b (running_some m e p f) e (rw (e) at i)
            (λ n. t (λ q. n cc)) h
    ],
    stop-IsCleared os chosen m w c b,
  )
