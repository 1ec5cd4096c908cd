-- ===== src/Examples/Windows.antt =====
-- Two processes in job objects. The world counts the open handles; the process 13 cannot be opened.
use testcontainerd.Prelude.{
  ℕ, suc, ◌-◌, ◌≡◌, refl, Bool, true, false, [], ◌∷◌, List, none, some, lit, ◌==◌,
}
use testcontainerd.Prelude.Results.{Result, ok, err}
use testcontainerd.Errors.{Error, external}
use testcontainerd.SutManager.Process.{Command}
use testcontainerd.SutManager.Windows.{WindowsApi}
use testcontainerd.SutManager.Windows.Runs.{Call, starts, terminates, releases, run_calls}

abbrev opens_process : Bool → ℕ → Result Error ℕ × ℕ
opens_process true w = (err (external (lit "access denied")), w)
opens_process false w = (ok w, suc w)

abbrev api : WindowsApi ℕ
api = record {
  create_job = λ w. (ok w, suc w);
  limit_job = λ j w. (none, w);
  open_process = λ pid w. opens_process (pid == 13) w;
  assign = λ j p w. (none, w);
  terminate_job = λ j w. w;
  close_handle = λ h w. w - 1;
  taskkill = λ pid w. w;
  kill = λ pid w. w;
}

abbrev process : ℕ → Command
process pid = record {
  path = lit "app.exe";
  dir = lit "C:";
  env = [];
  output = none;
  setpgid = false;
  process = some pid;
}

abbrev calls : List Call
calls =
    starts (process 7)
    ∷ starts (process 13)
    ∷ starts (process 8)
    ∷ terminates (process 7)
    ∷ releases (process 7)
    ∷ []

-- One job is left.
one_job_left : run_calls api calls [] 3 ≡ ((8, 4) ∷ [], 4)
unfolding run_calls
one_job_left = refl
