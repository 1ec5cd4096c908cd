-- ===== src/Bundle/Pool/Moves.antt =====
-- The moves that `step` of Bundle.Pool makes, as a relation with one constructor for each branch of
-- the goroutine's code, and sums over the goroutines.
use testcontainerd.Prelude.{
  ℕ, zero, suc, ◌+◌, ◌≡◌, refl, Bool, true, false, List, [], ◌∷◌, ◌++◌, Option, some, inl, inr,
  get_elem?, set, replicate, subst, arith, Option-cases, Bool-cases,
}
use testcontainerd.Prelude.Results.{Result, ok, err}
use testcontainerd.Errors.{Error, start_failed}
use testcontainerd.Registration.{Registration, Container}
use testcontainerd.Bundle.Pool.{
  StartResult, Worker, idle, starting, failing, State, Event, takes, finishes, cancels, parent_ends,
  is_done, send, take_job, move, step,
}

-- The sum over the goroutines of a number that their states give.
abbrev pub total {ℓ} : {A : Type ℓ} → (A → ℕ) → List A → ℕ
total f [] = 0
total f (x ∷ xs) = f x + total f xs

pub total-set {ℓ} :
    {A : Type ℓ} (f : A → ℕ) (xs : List A) (i : ℕ) (x y : A)
    → get_elem? xs i ≡ some x
    → total f (set xs i y) + f x ≡ total f xs + f y
total-set f [] i x y e = cc
total-set f (a ∷ xs) zero x y e = ground arith
total-set f (a ∷ xs) (suc i) x y e = omega (arith, total-set f xs i x y e)

pub total-replicate {ℓ} :
    {A : Type ℓ} (f : A → ℕ) (n : ℕ) (x : A) → f x ≡ 0 → total f (replicate n x) ≡ 0
total-replicate f zero x h = refl
total-replicate f (suc n) x h = omega (arith, total-replicate f n x h)

module _ {W : Type 0} where
  pub data Moved (v : Event) (p q : State W) : Type 0 where
    skips :
        (reg : Registration W) (jobs : List (Registration W))
        → p.jobs ≡ reg ∷ jobs
        → is_done p ≡ true
        → q ≡ record p { jobs = jobs }
        → Moved v p q
    begins :
        (i : ℕ) (reg : Registration W) (jobs : List (Registration W))
        → get_elem? p.workers i ≡ some idle
        → p.jobs ≡ reg ∷ jobs
        → is_done p ≡ false
        → q ≡ record p { jobs = jobs; workers = set p.workers i (starting reg) }
        → Moved v p q
    succeeds :
        (i : ℕ) (reg : Registration W) (ctr : Option Container) (w : W)
        → get_elem? p.workers i ≡ some (starting reg)
        → q ≡ record p {
          world = w;
          workers = set p.workers i idle;
          results = p.results ++ StartResult.started reg.name ctr ∷ [];
        }
        → Moved v p q
    fails :
        (i : ℕ) (reg : Registration W) (e : Error) (w : W)
        → get_elem? p.workers i ≡ some (starting reg)
        → q ≡ record p {
          world = w;
          workers = set p.workers i failing;
          results = p.results ++ StartResult.failed reg.name (start_failed reg.name e) ∷ [];
        }
        → Moved v p q
    cancelled :
        (i : ℕ)
        → get_elem? p.workers i ≡ some failing
        → q ≡ record p { workers = set p.workers i idle; cancelled = true }
        → Moved v p q
    parent_ended : v ≡ parent_ends → q ≡ record p { parent_done = true } → Moved v p q

  take_job-Moved :
      (v : Event) (i : ℕ) (jobs : List (Registration W)) (p : State W) {q : State W}
      → get_elem? p.workers i ≡ some idle
      → p.jobs ≡ jobs
      → take_job i jobs p ≡ some q
      → Moved v p q
  unfolding take_job
  take_job-Moved v i [] p g j e = cc
  take_job-Moved v i (reg ∷ jobs) p {q} g j e = elim (Bool-cases (is_done p)) [
    | inl d ↦ skips reg jobs j d (ground arith)
    | inr d ↦ begins i reg jobs g j d (ground arith)
  ]

  send-Moved :
      (v : Event) (i : ℕ) (reg : Registration W) (r : Result Error (Option Container) × W)
      (p : State W)
      → get_elem? p.workers i ≡ some (starting reg)
      → Moved v p (send i reg.name r p)
  unfolding send
  send-Moved v i reg (ok ctr, w) p g = succeeds i reg ctr w g refl
  send-Moved v i reg (err e, w) p g = fails i reg e w g refl

  takes-Moved :
      (i : ℕ) (x : Worker W) (p : State W) {q : State W}
      → get_elem? p.workers i ≡ some x
      → move (takes i) x p ≡ some q
      → Moved (takes i) p q
  unfolding move
  takes-Moved i idle p g e = take_job-Moved (takes i) i p.jobs p g refl e
  takes-Moved i (starting reg) p g e = cc
  takes-Moved i failing p g e = cc

  finishes-Moved :
      (i : ℕ) (x : Worker W) (p : State W) {q : State W}
      → get_elem? p.workers i ≡ some x
      → move (finishes i) x p ≡ some q
      → Moved (finishes i) p q
  unfolding move
  finishes-Moved i idle p g e = cc
  finishes-Moved i failing p g e = cc
  finishes-Moved i (starting reg) p {q} g e = elim (Option-cases reg.start) [
    | inl n ↦ ground arith
    | inr (start, n) ↦
        subst (Moved (finishes i) p) (start_sends start n)
          (send-Moved (finishes i) i reg (start (is_done p) p.world) p g)
  ]
    where
      start_sends :
          (start : Bool → W → Result Error (Option Container) × W)
          → reg.start ≡ some start
          → send i reg.name (start (is_done p) p.world) p ≡ q
      start_sends start n = let h = rw (n, move) at e in cc h

  cancels-Moved :
      (i : ℕ) (x : Worker W) (p : State W) {q : State W}
      → get_elem? p.workers i ≡ some x
      → move (cancels i) x p ≡ some q
      → Moved (cancels i) p q
  unfolding move
  cancels-Moved i idle p g e = cc
  cancels-Moved i (starting reg) p g e = cc
  cancels-Moved i failing p g e = cancelled i g (ground arith)

  -- Every step is one of the moves.
  pub step-Moved : (e : Event) (p : State W) {q : State W} → step e p ≡ some q → Moved e p q
  unfolding step
  step-Moved (takes i) p h = elim (Option-cases (get_elem? p.workers i)) [
    | inl g ↦ ground arith
    | inr (x, g) ↦ takes-Moved i x p g (rw (g, step) at h)
  ]
  step-Moved (finishes i) p h = elim (Option-cases (get_elem? p.workers i)) [
    | inl g ↦ ground arith
    | inr (x, g) ↦ finishes-Moved i x p g (rw (g, step) at h)
  ]
  step-Moved (cancels i) p h = elim (Option-cases (get_elem? p.workers i)) [
    | inl g ↦ ground arith
    | inr (x, g) ↦ cancels-Moved i x p g (rw (g, step) at h)
  ]
  step-Moved parent_ends p h = parent_ended refl (ground arith)
