-- ===== src/Bundle/Pool/Liveness.antt =====
-- Progress of the goroutines of container/bundle.go's `startAllContainers`: none gets stuck.
use testcontainerd.Prelude.{
  ℕ, zero, suc, ◌≤◌, ◌<◌, ◌≡◌, refl, true, false, List, [], ◌∷◌, some, inl, inr, All, get_elem?,
  length, length-set, All-set, All-get_elem?, All-replicate, length-replicate, subst, sym, ap, ◌∙◌,
  arith, Option-cases, Bool-cases, is_nil, is_some,
}
use mathlib.Core.Bool.{false≢true}
use testcontainerd.Registration.{Registration}
use testcontainerd.Bundle.Pool.{
  Worker, idle, starting, failing, State, Event, takes, finishes, cancels, step, run, init,
  worker_count, all_idle, is_idle, is_finished, move, take_job,
}
use testcontainerd.Bundle.Pool.Moves.{
  Moved, skips, begins, succeeds, fails, cancelled, parent_ended, step-Moved,
}
use testcontainerd.Bundle.Pool.Progress.{cost, weight, step-weight}

module _ {W : Type 0} where
  -- Every registration has a `Start`, those at work too, and there is a goroutine.
  abbrev pub CanStart : Registration W → Type 0
  CanStart reg = is_some reg.start ≡ true

  abbrev pub WorkerCanStart : Worker W → Type 0
  WorkerCanStart idle = Unit {0}
  WorkerCanStart (starting reg) = CanStart reg
  WorkerCanStart failing = Unit {0}

  pub record IsReady (p : State W) : Type 0 where
    pub jobs_start : All CanStart p.jobs
    pub workers_start : All WorkerCanStart p.workers
    pub staffed : 0 < length p.workers

  Moved-IsReady : (v : Event) (p q : State W) → Moved v p q → IsReady p → IsReady q
  Moved-IsReady v p q (skips reg jobs j d e) r =
      let js : All CanStart (reg ∷ jobs) = subst (All CanStart) j r.jobs_start in
      rw e (record { jobs_start = js.1; workers_start = r.workers_start; staffed = r.staffed })
  Moved-IsReady v p q (begins i reg jobs g j d e) r =
      let js : All CanStart (reg ∷ jobs) = subst (All CanStart) j r.jobs_start in
      rw e (record {
        jobs_start = js.1;
        workers_start = All-set WorkerCanStart p.workers i js.0 r.workers_start;
        staffed = omega (arith, length-set p.workers i (starting reg), r.staffed);
      })
  Moved-IsReady v p q (succeeds i reg ctr w g e) r = rw e (record {
    jobs_start = r.jobs_start;
    workers_start = All-set WorkerCanStart p.workers i tt r.workers_start;
    staffed = omega (arith, length-set p.workers i idle, r.staffed);
  })
  Moved-IsReady v p q (fails i reg x w g e) r = rw e (record {
    jobs_start = r.jobs_start;
    workers_start = All-set WorkerCanStart p.workers i tt r.workers_start;
    staffed = omega (arith, length-set p.workers i failing, r.staffed);
  })
  Moved-IsReady v p q (cancelled i g e) r = rw e (record {
    jobs_start = r.jobs_start;
    workers_start = All-set WorkerCanStart p.workers i tt r.workers_start;
    staffed = omega (arith, length-set p.workers i idle, r.staffed);
  })
  Moved-IsReady v p q (parent_ended c e) r =
      rw e
        (record { jobs_start = r.jobs_start; workers_start = r.workers_start; staffed = r.staffed })

  busy_worker :
      (xs : List (Worker W))
      → all_idle xs ≡ false
      → (i : ℕ) × (x : Worker W) × (get_elem? xs i ≡ some x) × (is_idle x ≡ false)
  unfolding all_idle
  busy_worker [] h = cc
  busy_worker (idle ∷ xs) h = let (i, x, g, b) = busy_worker xs h in (suc i, x, g, b)
  busy_worker (starting reg ∷ xs) h = (0, starting reg, refl, refl)
  busy_worker (failing ∷ xs) h = (0, failing, refl, refl)

  -- An event that the state allows and that is a goroutine's.
  abbrev Enabled : State W → Type 0
  Enabled p = (v : Event) × (is_some (step v p) ≡ true) × (cost v ≡ 1)

  busy-Enabled :
      (p : State W) (i : ℕ) (x : Worker W)
      → get_elem? p.workers i ≡ some x
      → is_idle x ≡ false
      → WorkerCanStart x
      → Enabled p
  unfolding step move
  busy-Enabled p i idle g b c = cc
  busy-Enabled p i (starting reg) g b c = elim (Option-cases reg.start) [
    | inl n ↦ ground arith
    | inr (start, n) ↦ (finishes i, rw (g, step, n, move), refl)
  ]
  busy-Enabled p i failing g b c = (cancels i, rw (g, step), refl)

  idle-Enabled :
      (p : State W) (reg : Registration W) (jobs : List (Registration W)) (x : Worker W)
      (xs : List (Worker W))
      → p.jobs ≡ reg ∷ jobs
      → p.workers ≡ x ∷ xs
      → is_idle x ≡ true
      → Enabled p
  unfolding step move take_job
  idle-Enabled p reg jobs idle xs j k h = (takes 0, rw (k, step, j, take_job), refl)
  idle-Enabled p reg jobs (starting r) xs j k h = cc
  idle-Enabled p reg jobs failing xs j k h = cc

  rested-Enabled :
      (p : State W) (jobs : List (Registration W)) (xs : List (Worker W))
      → p.jobs ≡ jobs
      → p.workers ≡ xs
      → all_idle xs ≡ true
      → 0 < length xs
      → is_nil jobs ≡ false
      → Enabled p
  unfolding all_idle
  rested-Enabled p [] xs j k h n l = cc
  rested-Enabled p (reg ∷ jobs) [] j k h n l = absurd (omega arith)
  rested-Enabled p (reg ∷ jobs) (x ∷ xs) j k h n l = idle-Enabled p reg jobs x xs j k (ground arith)

  unfinished-Enabled : (p : State W) → IsReady p → is_finished p ≡ false → Enabled p
  unfinished-Enabled p r h = elim (Bool-cases (all_idle p.workers)) [
    | inl rest ↦ rested-Enabled p p.jobs p.workers refl refl rest r.staffed (ground arith)
    | inr busy ↦
        let (i, x, g, b) = busy_worker p.workers busy in
        busy-Enabled p i x g b (All-get_elem? WorkerCanStart p.workers i r.workers_start g)
  ]

  step-IsReady : (v : Event) (p : State W) {q : State W} → step v p ≡ some q → IsReady p → IsReady q
  step-IsReady v p {q} h = Moved-IsReady v p q (step-Moved v p h)

  -- The state can be run to its end.
  abbrev pub Finishes : State W → Type 0
  Finishes p = (es : List Event) × (q : State W) × (run es p ≡ some q) × (is_finished q ≡ true)

  step-Finishes :
      (v : Event) (p : State W) {r : State W} → step v p ≡ some r → Finishes r → Finishes p
  unfolding run
  step-Finishes v p h (es, q, e, f) = (v ∷ es, q, rw (h, run) e, f)

  Enabled-step :
      (p : State W)
      → Enabled p
      → (v : Event) × (q : State W) × (step v p ≡ some q) × (weight q < weight p)
  Enabled-step p (v, s, c) = elim (Option-cases (step v p)) [
    | inl n ↦ absurd (false≢true (sym (ap is_some n) ∙ s))
    | inr (q, n) ↦ (v, q, n, omega (arith, step-weight v p {q = q} n))
  ]

  Finishes-within : (n : ℕ) (p : State W) → weight p ≤ n → IsReady p → Finishes p
  unfolding run
  Finishes-within zero p l r = elim (Bool-cases (is_finished p)) [
    | inl f ↦ ([], p, refl, f)
    | inr f ↦
        let (v, q, e, less) = Enabled-step p (unfinished-Enabled p r f) in absurd (omega arith)
  ]
  Finishes-within (suc n) p l r = elim (Bool-cases (is_finished p)) [
    | inl f ↦ ([], p, refl, f)
    | inr f ↦
        let (v, q, e, less) = Enabled-step p (unfinished-Enabled p r f) in
        step-Finishes v p e (Finishes-within n q (omega arith) (step-IsReady v p e r))
  ]

  run-IsReady :
      (es : List Event) (p : State W) {q : State W} → run es p ≡ some q → IsReady p → IsReady q
  unfolding run
  run-IsReady [] p h r = subst IsReady (cc) r
  run-IsReady (v ∷ es) p {q} h r = elim (Option-cases (step v p)) [
    | inl s ↦ ground arith
    | inr (p', s) ↦ run-IsReady es p' {q = q} (rw (s, run) at h) (step-IsReady v p s r)
  ]

  init-IsReady :
      (reg : Registration W) (regs : List (Registration W)) (w : W)
      → All CanStart (reg ∷ regs)
      → IsReady (init (reg ∷ regs) w)
  unfolding init worker_count
  init-IsReady reg regs w h = record {
    jobs_start = h;
    workers_start = All-replicate WorkerCanStart (worker_count (reg ∷ regs)) tt;
    staffed = ground (arith, length-replicate {A = Worker W} (worker_count (reg ∷ regs)) idle);
  }

  -- No deadlock: however the goroutines have run so far, with at least one registration and a
  -- `Start` in each, they can run on until every one of them returns.
  pub run-Finishes :
      (reg : Registration W) (regs : List (Registration W)) (w : W) (es : List Event) {p : State W}
      → All CanStart (reg ∷ regs)
      → run es (init (reg ∷ regs) w) ≡ some p
      → Finishes p
  run-Finishes reg regs w es {p} h e =
      Finishes-within (weight p) p (omega arith) (run-IsReady es _ e (init-IsReady reg regs w h))
