-- ===== src/SutManager/Windows/Runs.antt =====
-- daemon/process_control_windows.go: that no handle is lost in a run of calls.
use testcontainerd.Prelude.{List, [], ◌∷◌}
use testcontainerd.SutManager.Process.{Command}
use testcontainerd.SutManager.Windows.{
  WindowsApi, JobStore, after_start, terminate, release_process,
}
use testcontainerd.SutManager.Windows.Handles.{IsNew}

-- A call of the manager of the service.
pub data Call : Type 0 where
  starts terminates releases : Command → Call

module _ {W : Type 0} (api : WindowsApi W) where
  unfoldable pub call : Call → JobStore → W → JobStore × W
  unfolding after_start terminate release_process
  call (starts cmd) jobs w = let (e, jobs', w') = after_start api cmd jobs w in (jobs', w')
  call (terminates cmd) jobs w = let (e, jobs', w') = terminate api cmd jobs w in (jobs', w')
  call (releases cmd) jobs w = release_process api cmd jobs w

  unfoldable pub run_calls : List Call → JobStore → W → JobStore × W
  unfolding call
  run_calls [] jobs w = (jobs, w)
  run_calls (c ∷ calls) jobs w = let (jobs', w') = call c jobs w in run_calls calls jobs' w'

  -- Each process that is started is new.
  abbrev pub AllNew : List Call → JobStore → W → Type 0
  AllNew [] jobs w = Unit {0}
  AllNew (starts cmd ∷ calls) jobs w =
      IsNew cmd.process jobs
      × AllNew calls (call (starts cmd) jobs w).0 (call (starts cmd) jobs w).1
  AllNew (c ∷ calls) jobs w = AllNew calls (call c jobs w).0 (call c jobs w).1
