-- ===== src/Bundle/Pool/Complete.antt =====
-- What a complete run of the goroutines of container/bundle.go's `startAllContainers` returns.
use testcontainerd.Prelude.{
  ℕ, ◌+◌, ◌≡◌, ◌≢◌, All, refl, true, false, List, [], ◌∷◌, some, inl, inr, ◌⊎◌, arith, Option-cases,
  is_nil, Text, sym, ap, ◌∙◌,
}
use testcontainerd.Registration.{Registration}
use testcontainerd.Bundle.Pool.{
  StartResult, Worker, idle, starting, failing, State, Event, parent_ends, is_done, step, run, init,
  all_idle, is_finished, run_all,
}
use testcontainerd.Bundle.Pool.Moves.{
  Moved, skips, begins, succeeds, fails, cancelled, parent_ended, step-Moved, total,
}
use testcontainerd.Bundle.Pool.Accounting.{
  IsAccounted, run-init-IsAccounted, registered, at_work, named, failures,
}

module _ {W : Type 0} where
  Moved-parent_done :
      (v : Event) (p q : State W) → Moved v p q → v ≢ parent_ends → q.parent_done ≡ p.parent_done
  Moved-parent_done v p q (skips reg jobs j d e) n = ground arith
  Moved-parent_done v p q (begins i reg jobs g j d e) n = ground arith
  Moved-parent_done v p q (succeeds i reg ctr w g e) n = ground arith
  Moved-parent_done v p q (fails i reg x w g e) n = ground arith
  Moved-parent_done v p q (cancelled i g e) n = ground arith
  Moved-parent_done v p q (parent_ended c e) n = absurd (n c)

  run-parent_done :
      (es : List Event) (p : State W) {q : State W}
      → run es p ≡ some q
      → All (λ v. v ≢ parent_ends) es
      → q.parent_done ≡ p.parent_done
  unfolding run
  run-parent_done [] p h n = ground arith
  run-parent_done (v ∷ es) p {q} h n = elim (Option-cases (step v p)) [
    | inl s ↦ ground arith
    | inr (r, s) ↦
        run-parent_done es r {q = q} (rw (s, run) at h) n.1
        ∙ Moved-parent_done v p r (step-Moved v p s) n.0
  ]

  total-all_idle :
      (f : Worker W → ℕ) (xs : List (Worker W)) → f idle ≡ 0 → all_idle xs ≡ true → total f xs ≡ 0
  unfolding all_idle
  total-all_idle f [] z h = refl
  total-all_idle f (idle ∷ xs) z h = omega (arith, total-all_idle f xs z h)
  total-all_idle f (starting reg ∷ xs) z h = cc
  total-all_idle f (failing ∷ xs) z h = cc

  parent_done-init : (regs : List (Registration W)) (w : W) → (init regs w).parent_done ≡ false
  unfolding init
  parent_done-init regs w = refl

  finished-named :
      (regs : List (Registration W)) (q : State W)
      → IsAccounted regs q
      → is_finished q ≡ true
      → q.parent_done ≡ false
      → failures q.results ≡ 0
      → (k : Text) → named k q.results ≡ registered k regs
  finished-named regs q a f d z k = ground (
    arith,
    at_end a.exactly,
    ap (registered k) (nil_of q.jobs (ground arith)),
    total-all_idle (at_work k) q.workers refl (ground arith),
  )
    where
      at_end :
          (is_done q ≡ true)
            ⊎ ((k : Text)
                → registered k q.jobs + total (at_work k) q.workers + named k q.results
                  ≡ registered k regs)
          → registered k q.jobs + total (at_work k) q.workers + named k q.results
            ≡ registered k regs
      at_end (inl done) = absurd (ground (arith, a.blamed_cancel))
      at_end (inr e) = e k

      nil_of : (xs : List (Registration W)) → is_nil xs ≡ true → xs ≡ []
      nil_of [] h = refl
      nil_of (x ∷ xs) h = cc

  -- What a complete run returns.
  pub run_all-run :
      (regs : List (Registration W)) (es : List Event) (w w' : W) (results : List StartResult)
      → run_all regs es w ≡ some (results, w')
      → (q : State W) × (run es (init regs w) ≡ some q)
        × (is_finished q ≡ true)
        × (q.results ≡ results)
        × (q.world ≡ w')
  unfolding run_all
  run_all-run regs es w w' results h = elim (Option-cases (run es (init regs w))) [
    | inl s ↦ ground arith
    | inr (q, s) ↦ let h' = rw (s, run_all) at h in (q, s, ground arith, ground arith, ground arith)
  ]

  -- If no start failed and the caller's context lasted, the results hold each registered name as
  -- often as it was registered: none is missing, and none is there twice.
  pub run_all-named :
      (regs : List (Registration W)) (es : List Event) (w w' : W) (results : List StartResult)
      → run_all regs es w ≡ some (results, w')
      → All (λ v. v ≢ parent_ends) es
      → failures results ≡ 0
      → (k : Text) → named k results ≡ registered k regs
  run_all-named regs es w w' results h n z k =
      let (q, s, f, e, _) = run_all-run regs es w w' results h in
      ap (named k) (sym e)
      ∙ finished-named regs q (run-init-IsAccounted es regs w s) f (init_done q s)
          (ap failures e ∙ z) k
    where
      init_done : (q : State W) → run es (init regs w) ≡ some q → q.parent_done ≡ false
      init_done q s = run-parent_done es (init regs w) s n ∙ parent_done-init regs w
