-- ===== src/Bundle/Pool/Progress.antt =====
-- Termination of the goroutines of container/bundle.go's `startAllContainers`: no interleaving runs
-- on for ever.
use testcontainerd.Prelude.{
  ℕ, ◌+◌, ◌*◌, ◌≤◌, ◌≡◌, refl, List, [], ◌∷◌, some, inl, inr, length, arith, Option-cases,
}
use testcontainerd.Registration.{Registration}
use testcontainerd.Bundle.Pool.{
  Worker, idle, starting, failing, State, Event, takes, finishes, cancels, parent_ends, step, run,
  init, worker_count,
}
use testcontainerd.Bundle.Pool.Moves.{
  Moved, skips, begins, succeeds, fails, cancelled, parent_ended, step-Moved, total, total-set,
  total-replicate,
}

-- 1 for a move of a goroutine, 0 for the end of the caller's context.
abbrev pub cost : Event → ℕ
cost (takes i) = 1
cost (finishes i) = 1
cost (cancels i) = 1
cost parent_ends = 0

abbrev pub moves : List Event → ℕ
moves [] = 0
moves (v ∷ es) = cost v + moves es

module _ {W : Type 0} where
  -- How many moves a goroutine has before it at most, and how many the whole pool has.
  abbrev pub remaining : Worker W → ℕ
  remaining idle = 0
  remaining (starting reg) = 2
  remaining failing = 1

  abbrev pub weight : State W → ℕ
  weight p = 3 * length p.jobs + total remaining p.workers

  Moved-weight : (v : Event) (p q : State W) → Moved v p q → cost v + weight q ≤ weight p
  Moved-weight v p q (skips reg jobs j d e) = ground arith
  Moved-weight v p q (begins i reg jobs g j d e) =
      ground (arith, total-set remaining p.workers i idle (starting reg) g)
  Moved-weight v p q (succeeds i reg ctr w g e) =
      ground (arith, total-set remaining p.workers i (starting reg) idle g)
  Moved-weight v p q (fails i reg x w g e) =
      ground (arith, total-set remaining p.workers i (starting reg) failing g)
  Moved-weight v p q (cancelled i g e) =
      ground (arith, total-set remaining p.workers i failing idle g)
  Moved-weight v p q (parent_ended c e) = ground arith

  pub step-weight :
      (v : Event) (p : State W) {q : State W} → step v p ≡ some q → cost v + weight q ≤ weight p
  step-weight v p {q} h = Moved-weight v p q (step-Moved v p h)

  run-weight :
      (es : List Event) (p : State W) {q : State W}
      → run es p ≡ some q
      → moves es + weight q ≤ weight p
  unfolding run
  run-weight [] p h = ground arith
  run-weight (v ∷ es) p {q} h = elim (Option-cases (step v p)) [
    | inl s ↦ ground arith
    | inr (r, s) ↦ omega (arith, step-weight v p s, run-weight es r {q = q} (rw (s, run) at h))
  ]

  -- No interleaving of the goroutines is longer than three moves for each registration (a receive,
  -- a start, and after a failure a cancellation).
  pub moves-le :
      (regs : List (Registration W)) (w : W) (es : List Event) {q : State W}
      → run es (init regs w) ≡ some q
      → moves es ≤ 3 * length regs
  unfolding init
  moves-le regs w es h =
      omega (arith, run-weight es _ h, total-replicate remaining (worker_count regs) idle refl)
