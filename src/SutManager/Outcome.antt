-- ===== src/SutManager/Outcome.antt =====
-- daemon/sut_manager.go, `ensureStarted`: what each outcome means.
use testcontainerd.Prelude.{
  ℕ, suc, ◌≡◌, refl, ◌∙◌, Bool, true, false, [], Option, none, some, is_some, Option-cases,
  Bool-cases, inl, inr, arith, if◌then◌else◌, ◌==◌,
}
use testcontainerd.Prelude.Results.{Result-cases}
use testcontainerd.Errors.{Error, message}
use testcontainerd.Runtime.{File, Files, open_app_log_file}
use testcontainerd.SutManager.{
  SutManager, SutBootPlan, StartSutInput, Startup, become_ready, ready_timeout, is_enabled,
  is_running_locked,
}
use testcontainerd.SutManager.Boot.{await_ready, start_command, launch, boot_up, ensure_started}
use testcontainerd.SutManager.Address.{normalize_probe_addrs}
use testcontainerd.SutManager.Process.{Command, System, validate_command, after_sut_start}
use testcontainerd.SutManager.Ready.{wait_sut_ready}
use testcontainerd.SutManager.Coherent.{IsCoherent, IsCleared, Polled, is_running_locked-Polled}

-- `m'` has a new process, that passed the probe of the plan, and one restart more if it is not the
-- first.
pub record IsFresh {W : Type 0} (fuel : ℕ) (seen : Startup) (plan : SutBootPlan W)
    (m m' : SutManager W) : Type 0 where
  pub cmd : Command
  pub is_started : is_some cmd.process ≡ true
  pub is_probed :
      wait_sut_ready fuel seen.observed
        (normalize_probe_addrs plan.get_probe_addrs)
        (ready_timeout m)
      ≡ some none
  pub holds_cmd : m'.cmd ≡ some cmd
  pub holds_channel : m'.wait_ch ≡ some seen.left
  pub is_clean : m'.last_err ≡ []
  pub is_dated : m'.started_at ≡ seen.ended
  pub is_counted :
      m'.restart_count ≡ (if m.started_at == 0 then m.restart_count else suc m.restart_count)

-- The outcome of a start from a manager without a process: `none` is the fuel of the probe run out,
-- success is a process that passed the probe, and an error is remembered and changes nothing else.
unfoldable pub Launched :
    {W : Type 0}
    → ℕ
    → Startup
    → SutBootPlan W
    → SutManager W
    → Option (Option Error × SutManager W × W)
    → Type 0
Launched fuel seen plan m none =
    wait_sut_ready fuel seen.observed (normalize_probe_addrs plan.get_probe_addrs) (ready_timeout m)
    ≡ none
Launched fuel seen plan m (some (none, m', w')) = IsFresh fuel seen plan m m'
Launched fuel seen plan m (some (some e, m', w')) = m' ≡ record m { last_err = message e }

module _ {W : Type 0} (os : System W) (fs : Files W) (fuel : ℕ) (seen : Startup) where
  await_ready-Launched :
      (plan : SutBootPlan W) (m : SutManager W) (cmd : Command) (w : W)
      → is_some cmd.process ≡ true
      → Launched fuel seen plan m (await_ready os fs fuel seen plan m cmd w)
  unfolding Launched await_ready become_ready
  await_ready-Launched plan m cmd w h =
      let addrs = normalize_probe_addrs plan.get_probe_addrs in
      elim (Option-cases (wait_sut_ready fuel seen.observed addrs (ready_timeout m))) [
        | inl e ↦ rw (await_ready, e) e
        | inr (none, e) ↦
            rw (await_ready, e)
              record {
                cmd = cmd;
                is_started = h;
                is_probed = e;
                holds_cmd = refl;
                holds_channel = refl;
                is_clean = refl;
                is_dated = refl;
                is_counted = refl;
              }
        | inr (some x, e) ↦ rw (await_ready, e) refl
      ]

  start_command-Launched :
      (plan : SutBootPlan W) (m : SutManager W) (cmd : Command) (file : File) (w : W)
      → Launched fuel seen plan m (start_command os fs fuel seen plan m cmd file w)
  unfolding Launched start_command
  start_command-Launched plan m cmd file w = elim (Result-cases (os.start cmd w).0) [
    | inl (x, e) ↦ rw (start_command, e) refl
    | inr (pid, e) ↦
        rw (start_command, e, after_sut_start)
          (await_ready-Launched plan m (record cmd { process = some pid }) (os.start cmd w).1 refl)
  ]

  launch-Launched :
      (plan : SutBootPlan W) (m : SutManager W) (input : StartSutInput) (cmd : Command) (w : W)
      → Launched fuel seen plan m (launch os fs fuel seen plan m input cmd w)
  unfolding Launched launch
  launch-Launched plan m input cmd w =
      elim (Result-cases (open_app_log_file fs input.runtime_path w).0) [
        | inl (x, e) ↦ rw (launch, e) refl
        | inr (file, e) ↦ rw (launch, e) (start_command-Launched plan m _ file _)
      ]

  boot_up-Launched :
      (plan : SutBootPlan W) (m : SutManager W) (input : StartSutInput) (w : W)
      → Launched fuel seen plan m (boot_up os fs fuel seen plan m input w)
  unfolding Launched boot_up
  boot_up-Launched plan m input w = elim (Result-cases (plan.get_command input w).0) [
    | inl (x, e) ↦ rw (boot_up, e) refl
    | inr (cmd, e) ↦ elim (Result-cases (validate_command os cmd (plan.get_command input w).1)) [
      | inl (x, f) ↦ rw (boot_up, e, f) refl
      | inr (valid, f) ↦ rw (boot_up, e, f) (launch-Launched plan m input valid _)
    ]
  ]

-- The three outcomes of `ensureStarted`: nothing to do without an enabled plan, or with a process
-- that runs, and a launch otherwise.
pub data Ensured {W : Type 0} (fuel : ℕ) (seen : Startup) (m : SutManager W) (w : W)
    : Option (Option Error × SutManager W × W) → Type 0 where
  disabled : is_enabled m ≡ false → Ensured fuel seen m w (some (none, m, w))
  running : is_running_locked m ≡ (true, m) → Ensured fuel seen m w (some (none, m, w))
  launched :
      {r : Option (Option Error × SutManager W × W)} (plan : SutBootPlan W) (idle : SutManager W)
      → m.boot ≡ some plan
      → is_running_locked m ≡ (false, idle)
      → IsCleared m idle
      → Launched fuel seen plan idle r
      → Ensured fuel seen m w r

enabled_some :
    {W : Type 0} (m : SutManager W)
    → is_enabled m ≡ true
    → (plan : SutBootPlan W) × (m.boot ≡ some plan)
unfolding is_enabled
enabled_some m e = elim (Option-cases m.boot) [ inl b ↦ ground arith | inr b ↦ b ]

module _ {W : Type 0} (os : System W) (fs : Files W) (fuel : ℕ) (seen : Startup) where
  ensure_enabled :
      (m : SutManager W) (input : StartSutInput) (w : W) (r : Bool × SutManager W)
      → is_enabled m ≡ true
      → is_running_locked m ≡ r
      → Polled m r
      → Ensured fuel seen m w (ensure_started os fs fuel seen m input w)
  unfolding ensure_started
  ensure_enabled m input w r e p (Polled.runs) = rw (ensure_started, e, p) (running p)
  ensure_enabled m input w r e p (Polled.cleared {m' = idle} c) =
      let (plan, b) = enabled_some m e in
      simp (ensure_started, e, p, c.same_boot ∙ b)
        (launched plan idle b p c (boot_up-Launched os fs fuel seen plan idle input w))

  -- `ensureStarted` of a manager whose command and channel are set together: without an enabled
  -- plan, and with a process that runs, it changes nothing and succeeds; otherwise it launches a
  -- process from the manager that the test for running has cleared. A launch that succeeds leaves
  -- a process that passed the probe of the plan, counts a restart if one was started before, and
  -- clears the last error; one that fails changes the last error only; one has no result only if
  -- the fuel of the probe runs out.
  pub ensure_started-Ensured :
      (m : SutManager W) (input : StartSutInput) (w : W)
      → IsCoherent m
      → Ensured fuel seen m w (ensure_started os fs fuel seen m input w)
  unfolding ensure_started
  ensure_started-Ensured m input w h = elim (Bool-cases (is_enabled m)) [
    | inl e ↦ ensure_enabled m input w (is_running_locked m) e refl (is_running_locked-Polled m h)
    | inr e ↦ rw (ensure_started, e) (disabled e)
  ]
