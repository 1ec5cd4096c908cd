-- ===== src/SutManager/Windows/Handles.antt =====
-- daemon/process_control_windows.go: that no handle is lost.
use testcontainerd.Prelude.{
  ℕ, suc, ◌+◌, ◌-◌, ◌≡◌, refl, sym, ◌∙◌, ap, [], ◌∷◌, Option, none, some, length, ◌==◌, ==_iff,
  Option-cases, Bool-cases, inl, inr, arith,
}
use testcontainerd.Prelude.Results.{ok, err, Result-cases}
use testcontainerd.Errors.{Error}
use testcontainerd.SutManager.Windows.{
  WindowsApi, JobStore, stored, dropped, store_job, join_job, make_job, take_job,
}

-- How many handles are open: what creates one opens it, and `CloseHandle` closes one.
pub record IsCounted {W : Type 0} (api : WindowsApi W) (opened : W → ℕ) : Type 0 where
  pub job_opens :
      (w : W) (j : ℕ) → (api.create_job w).0 ≡ ok j → opened (api.create_job w).1 ≡ suc (opened w)
  pub job_fails :
      (w : W) (e : Error) → (api.create_job w).0 ≡ err e → opened (api.create_job w).1 ≡ opened w
  pub limit_same : (j : ℕ) (w : W) → opened (api.limit_job j w).1 ≡ opened w
  pub process_opens :
      (pid : ℕ) (w : W) (p : ℕ)
      → (api.open_process pid w).0 ≡ ok p
      → opened (api.open_process pid w).1 ≡ suc (opened w)
  pub process_fails :
      (pid : ℕ) (w : W) (e : Error)
      → (api.open_process pid w).0 ≡ err e
      → opened (api.open_process pid w).1 ≡ opened w
  pub assign_same : (j p : ℕ) (w : W) → opened (api.assign j p w).1 ≡ opened w
  pub terminate_same : (j : ℕ) (w : W) → opened (api.terminate_job j w) ≡ opened w
  pub close_closes : (h : ℕ) (w : W) → opened (api.close_handle h w) ≡ opened w - 1
  pub taskkill_same : (pid : ℕ) (w : W) → opened (api.taskkill pid w) ≡ opened w
  pub kill_same : (pid : ℕ) (w : W) → opened (api.kill pid w) ≡ opened w

-- No pid stands twice.
abbrev pub Unrepeated : JobStore → Type 0
Unrepeated [] = Unit {0}
Unrepeated ((p, job) ∷ jobs) = (stored p jobs ≡ none) × Unrepeated jobs

dropped-stored-none : (pid : ℕ) (jobs : JobStore) → stored pid jobs ≡ none → dropped pid jobs ≡ jobs
unfolding stored dropped
dropped-stored-none pid [] h = refl
dropped-stored-none pid ((p, job) ∷ jobs) h = ground (arith, dropped-stored-none pid jobs)

length-dropped :
    (pid : ℕ) (jobs : JobStore) (job : ℕ)
    → Unrepeated jobs
    → stored pid jobs ≡ some job
    → suc (length (dropped pid jobs)) ≡ length jobs
unfolding stored dropped
length-dropped pid [] job u h = ground (arith, h)
length-dropped pid ((p, j) ∷ jobs) job u h = elim (Bool-cases (p == pid)) [
  | inl e ↦
      let same : p ≡ pid = (==_iff p pid).0 e in
      rw (e) (ap (λ l. suc (length l)) (dropped-stored-none pid jobs (rw (sym same) u.0)))
  | inr e ↦ rw (e) (ap suc (length-dropped pid jobs job u.1 (rw (e) at h)))
]

stored-dropped :
    (pid q : ℕ) (jobs : JobStore) → stored q jobs ≡ none → stored q (dropped pid jobs) ≡ none
unfolding stored dropped
stored-dropped pid q [] h = refl
stored-dropped pid q ((p, j) ∷ jobs) h = ground (arith, stored-dropped pid q jobs)

dropped-Unrepeated : (pid : ℕ) (jobs : JobStore) → Unrepeated jobs → Unrepeated (dropped pid jobs)
unfolding dropped
dropped-Unrepeated pid [] u = tt
dropped-Unrepeated pid ((p, j) ∷ jobs) u =
    ground (arith, stored-dropped pid p jobs u.0, dropped-Unrepeated pid jobs u.1)

-- The pid of a process that has just been started has no job yet.
abbrev pub IsNew : Option ℕ → JobStore → Type 0
IsNew none jobs = Unit {0}
IsNew (some pid) jobs = stored pid jobs ≡ none

module _ {W : Type 0} (api : WindowsApi W) (opened : W → ℕ) (laws : IsCounted api opened)
    (kept : ℕ) where
  -- The open handles are those kept elsewhere and one for each job of the store.
  pub record IsBalanced (jobs : JobStore) (w : W) : Type 0 where
    pub counts : opened w ≡ kept + length jobs
    pub unrepeated : Unrepeated jobs

  join_job-IsBalanced :
      (pid job : ℕ) (jobs : JobStore) (w : W)
      → stored pid jobs ≡ none
      → opened w ≡ suc (kept + length jobs)
      → Unrepeated jobs
      → IsBalanced (join_job api pid job jobs w).1 (join_job api pid job jobs w).2
  unfolding join_job store_job
  join_job-IsBalanced pid job jobs w new n u = elim (Result-cases (api.open_process pid w).0) [
    | inl (x, e) ↦
        let w1 = (api.open_process pid w).1 in
        let f = laws.process_fails pid w x e in
        let c = laws.close_closes job w1 in
        rw (join_job, e) record { counts = omega arith; unrepeated = u }
    | inr (p, e) ↦
        let w1 = (api.open_process pid w).1 in
        let w2 = (api.assign job p w1).1 in
        let f = laws.process_opens pid w p e in
        let s = laws.assign_same job p w1 in
        elim (Option-cases (api.assign job p w1).0) [
          | inr (x, g) ↦
              let c = laws.close_closes job w2 in
              let c' = laws.close_closes p (api.close_handle job w2) in
              rw (join_job, e, g) record { counts = omega arith; unrepeated = u }
          | inl g ↦
              let c = laws.close_closes p w2 in
              rw (join_job, e, g, store_job, dropped-stored-none pid jobs new)
                record { counts = omega arith; unrepeated = (new, u) }
        ]
  ]

  pub make_job-IsBalanced :
      (pid : ℕ) (jobs : JobStore) (w : W)
      → stored pid jobs ≡ none
      → IsBalanced jobs w
      → IsBalanced (make_job api pid jobs w).1 (make_job api pid jobs w).2
  unfolding make_job
  make_job-IsBalanced pid jobs w new b = elim (Result-cases (api.create_job w).0) [
    | inl (x, e) ↦
        rw (make_job, e)
          record { counts = laws.job_fails w x e ∙ b.counts; unrepeated = b.unrepeated }
    | inr (job, e) ↦
        let w1 = (api.create_job w).1 in
        let f = laws.job_opens w job e in
        let s = laws.limit_same job w1 in
        let n = b.counts in
        elim (Option-cases (api.limit_job job w1).0) [
          | inr (x, g) ↦
              let c = laws.close_closes job (api.limit_job job w1).1 in
              rw (make_job, e, g) record { counts = omega arith; unrepeated = b.unrepeated }
          | inl g ↦
              rw (make_job, e, g)
                (join_job-IsBalanced pid job jobs (api.limit_job job w1).1 new (omega arith)
                  b.unrepeated)
        ]
  ]

  pub take_job-IsBalanced :
      (spend : ℕ → W → W) (pid : ℕ) (jobs : JobStore) (w : W)
      → ((job : ℕ) (v : W) → opened (spend job v) ≡ opened v - 1)
      → IsBalanced jobs w
      → IsBalanced (take_job api spend pid jobs w).0 (take_job api spend pid jobs w).1
  unfolding take_job
  take_job-IsBalanced spend pid jobs w closes b = elim (Option-cases (stored pid jobs)) [
    | inl e ↦ rw (take_job, e) b
    | inr (job, e) ↦
        let c = closes job w in
        let n = b.counts in
        let l = length-dropped pid jobs job b.unrepeated e in
        rw (take_job, e)
          record { counts = omega arith; unrepeated = dropped-Unrepeated pid jobs b.unrepeated }
  ]
