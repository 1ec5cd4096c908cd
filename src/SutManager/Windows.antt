-- ===== src/SutManager/Windows.antt =====
-- daemon/process_control_windows.go: the process of the service in a job object, which ends all
-- processes in it. The calls of Windows are a parameter.
pub mod Handles
pub mod Runs
use testcontainerd.Prelude.{ℕ, Bool, List, [], ◌∷◌, Option, none, some, ◌==◌, if◌then◌else◌}
use testcontainerd.Prelude.Results.{Result, ok, err}
use testcontainerd.Errors.{Error, sut_process_nil}
use testcontainerd.SutManager.Process.{Command}

-- `CreateJobObject`, `SetInformationJobObject` with the limit that kills on close, `OpenProcess`,
-- `AssignProcessToJobObject`, `TerminateJobObject`, `CloseHandle`, the command taskkill, and
-- `Process.Kill`. A job and a process are handles.
pub record WindowsApi (W : Type 0) : Type 0 where
  pub create_job : W → Result Error ℕ × W
  pub limit_job : ℕ → W → Option Error × W
  pub open_process : ℕ → W → Result Error ℕ × W
  pub assign : ℕ → ℕ → W → Option Error × W
  pub terminate_job : ℕ → W → W
  pub close_handle : ℕ → W → W
  pub taskkill : ℕ → W → W
  pub kill : ℕ → W → W

-- `sutJobStore`: the job of a pid.
abbrev pub JobStore : Type 0
JobStore = List (ℕ × ℕ)

unfoldable pub stored : ℕ → JobStore → Option ℕ
stored pid [] = none
stored pid ((p, job) ∷ jobs) = if p == pid then some job else stored pid jobs

-- `Delete`.
unfoldable pub dropped : ℕ → JobStore → JobStore
dropped pid [] = []
dropped pid ((p, job) ∷ jobs) =
    let rest = dropped pid jobs in if p == pid then rest else (p, job) ∷ rest

-- `Store`.
unfoldable pub store_job : ℕ → ℕ → JobStore → JobStore
unfolding dropped
store_job pid job jobs = (pid, job) ∷ dropped pid jobs

module _ {W : Type 0} (api : WindowsApi W) where
  -- `afterSUTStart`, from `OpenProcess` on.
  unfoldable pub join_job : ℕ → ℕ → JobStore → W → Option Error × JobStore × W
  unfolding store_job
  join_job pid job jobs w =
      let (p, w1) = api.open_process pid w in
      elim p [
        | err e ↦ (some e, jobs, api.close_handle job w1)
        | ok process ↦
            let (e, w2) = api.assign job process w1 in
            elim e [
              | some x ↦ (some x, jobs, api.close_handle process (api.close_handle job w2))
              | none ↦ (none, store_job pid job jobs, api.close_handle process w2)
            ]
      ]

  -- From `CreateJobObject` on.
  unfoldable pub make_job : ℕ → JobStore → W → Option Error × JobStore × W
  unfolding join_job
  make_job pid jobs w =
      let (j, w1) = api.create_job w in
      elim j [
        | err e ↦ (some e, jobs, w1)
        | ok job ↦
            let (e, w2) = api.limit_job job w1 in
            elim e [
              | some x ↦ (some x, jobs, api.close_handle job w2)
              | none ↦ join_job pid job jobs w2
            ]
      ]

  unfoldable pub after_start : Command → JobStore → W → Option Error × JobStore × W
  unfolding make_job
  after_start cmd jobs w = elim cmd.process [
    | none ↦ (some sut_process_nil, jobs, w)
    | some pid ↦ make_job pid jobs w
  ]

  -- `LoadAndDelete`, and what is done with the job that it finds.
  unfoldable pub take_job : (ℕ → W → W) → ℕ → JobStore → W → JobStore × W
  unfolding stored dropped
  take_job spend pid jobs w = elim (stored pid jobs) [
    | none ↦ (jobs, w)
    | some job ↦ (dropped pid jobs, spend job w)
  ]

  abbrev pub end_job : ℕ → W → W
  end_job job w = api.close_handle job (api.terminate_job job w)

  -- `terminateSUTProcess`; the errors of its calls are ignored.
  unfoldable pub terminate : Command → JobStore → W → Option Error × JobStore × W
  unfolding take_job
  terminate cmd jobs w = elim cmd.process [
    | none ↦ (none, jobs, w)
    | some pid ↦
        let (jobs', w') = take_job end_job pid jobs w in
        (none, jobs', api.kill pid (api.taskkill pid w'))
  ]

  -- `releaseSUTProcess`.
  unfoldable pub release_process : Command → JobStore → W → JobStore × W
  unfolding take_job
  release_process cmd jobs w = elim cmd.process [
    | none ↦ (jobs, w)
    | some pid ↦ take_job api.close_handle pid jobs w
  ]
