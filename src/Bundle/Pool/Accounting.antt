-- ===== src/Bundle/Pool/Accounting.antt =====
-- What becomes of each registration in container/bundle.go's `startAllContainers`.
use testcontainerd.Prelude.{
  ℕ, ◌+◌, ◌≤◌, ◌<◌, ◌≡◌, refl, Bool, true, false, List, [], ◌∷◌, ◌++◌, some, inl, inr, ◌⊎◌, length,
  length-append, length-set, length-replicate, subst, arith, Option-cases, Bool-cases,
  if◌then◌else◌, Text, text_eq, sym, ap, ◌∙◌,
}
use mathlib.Core.Bool.{false≢true}
use testcontainerd.Errors.{start_failed}
use testcontainerd.Registration.{Registration}
use testcontainerd.Bundle.Pool.{
  StartResult, Worker, idle, starting, failing, State, Event, is_done, step, run, init,
  worker_count, max_create_concurrency,
}
use testcontainerd.Bundle.Pool.Moves.{
  Moved, skips, begins, succeeds, fails, cancelled, parent_ended, step-Moved, total, total-set,
  total-replicate,
}

abbrev pub result_name : StartResult → Text
result_name (StartResult.started name ctr) = name
result_name (StartResult.failed name e) = name

abbrev pub is_failure : StartResult → Bool
is_failure (StartResult.started name ctr) = false
is_failure (StartResult.failed name e) = true

abbrev pub is : Text → Text → ℕ
is k name = if text_eq name k then 1 else 0

-- How many of the results bear a name, and how many are failures.
abbrev pub named : Text → List StartResult → ℕ
named k = total (λ r. is k (result_name r))

abbrev pub failures : List StartResult → ℕ
failures = total (λ r. if is_failure r then 1 else 0)

pub total-append {ℓ} :
    {A : Type ℓ} (f : A → ℕ) (xs ys : List A) → total f (xs ++ ys) ≡ total f xs + total f ys
total-append f [] ys = omega arith
total-append f (x ∷ xs) ys = omega (arith, total-append f xs ys)

module _ {W : Type 0} where
  abbrev pub registered : Text → List (Registration W) → ℕ
  registered k = total (λ reg. is k reg.name)

  abbrev pub at_work : Text → Worker W → ℕ
  at_work k idle = 0
  at_work k (starting reg) = is k reg.name
  at_work k failing = 0

  abbrev pub busy : Worker W → ℕ
  busy idle = 0
  busy (starting reg) = 1
  busy failing = 0

  abbrev pub broken : Worker W → ℕ
  broken idle = 0
  broken (starting reg) = 0
  broken failing = 1

  -- `jobs` and `results` never hold more than the buffers of their channels; no registration is
  -- taken twice or lost while the context lasts; the context is cancelled only after a failure.
  pub record IsAccounted (regs : List (Registration W)) (p : State W) : Type 0 where
    pub buffered : length p.jobs + total busy p.workers + length p.results ≤ length regs
    pub at_most :
        (k : Text)
        → registered k p.jobs + total (at_work k) p.workers + named k p.results ≤ registered k regs
    pub exactly :
        (is_done p ≡ true)
        ⊎ ((k : Text)
            → registered k p.jobs + total (at_work k) p.workers + named k p.results
              ≡ registered k regs)
    pub blamed : total broken p.workers ≤ failures p.results
    pub blamed_cancel : (p.cancelled ≡ false) ⊎ (0 < failures p.results)
    pub crew : length p.workers ≤ max_create_concurrency

  Moved-buffered :
      (v : Event) (regs : List (Registration W)) (p q : State W)
      → Moved v p q
      → length p.jobs + total busy p.workers + length p.results ≤ length regs
      → length q.jobs + total busy q.workers + length q.results ≤ length regs
  Moved-buffered v regs p q (skips reg jobs j d e) h = ground arith
  Moved-buffered v regs p q (begins i reg jobs g j d e) h =
      ground (arith, total-set busy p.workers i idle (starting reg) g)
  Moved-buffered v regs p q (succeeds i reg ctr w g e) h = ground (
    arith,
    total-set busy p.workers i (starting reg) idle g,
    length-append p.results (StartResult.started reg.name ctr ∷ []),
  )
  Moved-buffered v regs p q (fails i reg x w g e) h = ground (
    arith,
    total-set busy p.workers i (starting reg) failing g,
    ap (λ r. length r.results) e,
    length-append p.results (StartResult.failed reg.name (start_failed reg.name x) ∷ []),
  )
  Moved-buffered v regs p q (cancelled i g e) h =
      ground (arith, total-set busy p.workers i failing idle g)
  Moved-buffered v regs p q (parent_ended c e) h = ground arith

  -- The same sum for a name.
  abbrev places : Text → State W → ℕ
  places k p = registered k p.jobs + total (at_work k) p.workers + named k p.results

  Moved-places :
      (v : Event) (p q : State W) (k : Text)
      → Moved v p q
      → (places k q ≤ places k p)
        × (is_done q ≡ false → (is_done p ≡ false) × (places k q ≡ places k p))
  Moved-places v p q k (skips reg jobs j d e) = ground (arith, ap (registered k) j)
  Moved-places v p q k (begins i reg jobs g j d e) =
      ground (arith, ap (registered k) j, total-set (at_work k) p.workers i idle (starting reg) g)
  Moved-places v p q k (succeeds i reg ctr w g e) = ground (
    arith,
    total-set (at_work k) p.workers i (starting reg) idle g,
    total-append (λ r. is k (result_name r)) p.results (StartResult.started reg.name ctr ∷ []),
  )
  Moved-places v p q k (fails i reg x w g e) = ground (
    arith,
    total-set (at_work k) p.workers i (starting reg) failing g,
    total-append (λ r. is k (result_name r)) p.results
        (StartResult.failed reg.name (start_failed reg.name x) ∷ []),
  )
  Moved-places v p q k (cancelled i g e) =
      ground (arith, total-set (at_work k) p.workers i failing idle g)
  Moved-places v p q k (parent_ended c e) = ground arith

  abbrev IsBlamed : State W → Type 0
  IsBlamed p =
      (total broken p.workers ≤ failures p.results)
      × ((p.cancelled ≡ false) ⊎ (0 < failures p.results))

  Moved-IsBlamed : (v : Event) (p q : State W) → Moved v p q → IsBlamed p → IsBlamed q
  Moved-IsBlamed v p q (skips reg jobs j d e) h = ground arith
  Moved-IsBlamed v p q (begins i reg jobs g j d e) h =
      ground (arith, total-set broken p.workers i idle (starting reg) g)
  Moved-IsBlamed v p q (succeeds i reg ctr w g e) h = ground (
    arith,
    total-set broken p.workers i (starting reg) idle g,
    total-append (λ r. if is_failure r then 1 else 0) p.results
        (StartResult.started reg.name ctr ∷ []),
  )
  Moved-IsBlamed v p q (fails i reg x w g e) h = ground (
    arith,
    total-set broken p.workers i (starting reg) failing g,
    total-append (λ r. if is_failure r then 1 else 0) p.results
        (StartResult.failed reg.name (start_failed reg.name x) ∷ []),
  )
  Moved-IsBlamed v p q (cancelled i g e) h =
      ground (arith, total-set broken p.workers i failing idle g)
  Moved-IsBlamed v p q (parent_ended c e) h = ground arith

  Moved-crew : (v : Event) (p q : State W) → Moved v p q → length q.workers ≡ length p.workers
  Moved-crew v p q (skips reg jobs j d e) = ground arith
  Moved-crew v p q (begins i reg jobs g j d e) =
      ground (arith, length-set p.workers i (starting reg))
  Moved-crew v p q (succeeds i reg ctr w g e) = ground (arith, length-set p.workers i idle)
  Moved-crew v p q (fails i reg x w g e) = ground (arith, length-set p.workers i failing)
  Moved-crew v p q (cancelled i g e) = ground (arith, length-set p.workers i idle)
  Moved-crew v p q (parent_ended c e) = ground arith

  abbrev IsPlaced : List (Registration W) → State W → Type 0
  IsPlaced regs p = (is_done p ≡ true) ⊎ ((k : Text) → places k p ≡ registered k regs)

  Moved-IsPlaced :
      (v : Event) (regs : List (Registration W)) (p q : State W)
      → Moved v p q
      → IsPlaced regs p
      → IsPlaced regs q
  Moved-IsPlaced v regs p q m a = elim (Bool-cases (is_done q)) [
    | inl d ↦ inl d
    | inr d ↦ inr (λ k. (kept k d).1 ∙ all_placed a (kept k d).0 k)
  ]
    where
      kept : (k : Text) → is_done q ≡ false → (is_done p ≡ false) × (places k q ≡ places k p)
      kept k = (Moved-places v p q k m).1

      all_placed : IsPlaced regs p → is_done p ≡ false → (k : Text) → places k p ≡ registered k regs
      all_placed (inl d) d' = absurd (false≢true (sym d' ∙ d))
      all_placed (inr e) d' = e

  Moved-IsAccounted :
      (v : Event) (regs : List (Registration W)) (p q : State W)
      → Moved v p q
      → IsAccounted regs p
      → IsAccounted regs q
  Moved-IsAccounted v regs p q m a = record {
    buffered = Moved-buffered v regs p q m a.buffered;
    at_most = λ k. omega (arith, Moved-places v p q k m, a.at_most k);
    exactly = Moved-IsPlaced v regs p q m a.exactly;
    blamed = (Moved-IsBlamed v p q m (a.blamed, a.blamed_cancel)).0;
    blamed_cancel = (Moved-IsBlamed v p q m (a.blamed, a.blamed_cancel)).1;
    crew = omega (arith, Moved-crew v p q m, a.crew);
  }

  init-IsAccounted : (regs : List (Registration W)) (w : W) → IsAccounted regs (init regs w)
  unfolding init worker_count
  init-IsAccounted regs w = record {
    buffered = omega (arith, total-replicate busy (worker_count regs) idle refl);
    at_most = λ k. omega (arith, total-replicate (at_work k) (worker_count regs) idle refl);
    exactly = inr (λ k. omega (arith, total-replicate (at_work k) (worker_count regs) idle refl));
    blamed = omega (arith, total-replicate broken (worker_count regs) idle refl);
    blamed_cancel = inl refl;
    crew = ground (arith, length-replicate {A = Worker W} (worker_count regs) idle);
  }

  run-IsAccounted :
      (es : List Event) (regs : List (Registration W)) (p : State W) {q : State W}
      → run es p ≡ some q
      → IsAccounted regs p
      → IsAccounted regs q
  unfolding run
  run-IsAccounted [] regs p h a = subst (IsAccounted regs) (cc) a
  run-IsAccounted (v ∷ es) regs p {q} h a = elim (Option-cases (step v p)) [
    | inl s ↦ ground arith
    | inr (r, s) ↦
        run-IsAccounted es regs r {q = q} (rw (s, run) at h)
          (Moved-IsAccounted v regs p r (step-Moved v p s) a)
  ]

  -- However the goroutines run: there are at most four, the channels' buffers hold what is sent into
  -- them, no registration is started twice, none is lost while the context lasts, and the context is
  -- cancelled from inside only after a failure has been sent.
  pub run-init-IsAccounted :
      (es : List Event) (regs : List (Registration W)) (w : W) {q : State W}
      → run es (init regs w) ≡ some q
      → IsAccounted regs q
  run-init-IsAccounted es regs w h = run-IsAccounted es regs _ h (init-IsAccounted regs w)
