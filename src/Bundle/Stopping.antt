-- ===== src/Bundle/Stopping.antt =====
-- How container/bundle.go terminates containers: `StopAll`, `rollback`, and the termination of what
-- a failed start has created.
use testcontainerd.Prelude.{
  ◌≡◌, refl, sym, ap, ◌∙◌, List, [], ◌∷◌, ◌++◌, map, reverse, Option, none, some, arith, Text,
}
use mathlib.Core.List.{append_assoc, append-nil}
use testcontainerd.Prelude.Results.{first_error}
use testcontainerd.Errors.{Error}
use testcontainerd.Registration.{Registration, Container}
use testcontainerd.Bundle.{
  Bundle, handle, terminate_each, terminate_created_containers, stop_all_containers, rollback,
  stop_all, reset_state,
}

-- The handles that are not nil.
abbrev pub handles : List (Option Container) → List Container
handles [] = []
handles (none ∷ cs) = handles cs
handles (some c ∷ cs) = c ∷ handles cs

abbrev pub first_some : List (Option Error) → Option Error
first_some [] = none
first_some (e ∷ es) = first_error e (first_some es)

first_error_assoc :
    (a b c : Option Error) → first_error (first_error a b) c ≡ first_error a (first_error b c)
first_error_assoc none b c = refl
first_error_assoc (some e) b c = refl

module _ {W : Type 0} (terminate : Container → W → Option Error × W) where
  -- The same call, with a log of the containers that it was made for.
  abbrev pub logged : Container → List Container × W → Option Error × (List Container × W)
  logged c (log, w) = let (e, w') = terminate c w in (e, (log ++ c ∷ [], w'))

  terminate_each-logged :
      (cs : List (Option Container)) (e : Option Error) (log : List Container) (w : W)
      → (terminate_each logged cs e (log, w)).1.0 ≡ log ++ handles cs
  unfolding terminate_each
  terminate_each-logged [] e log w = sym (append-nil log)
  terminate_each-logged (none ∷ cs) e log w = terminate_each-logged cs e log w
  terminate_each-logged (some c ∷ cs) e log w =
      terminate_each-logged cs (first_error e (terminate c w).0) (log ++ c ∷ []) (terminate c w).1
      ∙ append_assoc log (c ∷ []) (handles cs)

  -- Whatever `Terminate` answers, `StopAll` terminates every container of the bundle once, the one
  -- started last first.
  pub stop_all-logged :
      (b : Bundle (List Container × W)) (log : List Container) (w : W)
      → (stop_all logged b (log, w)).2.0 ≡ log ++ handles (reverse b.cleanup)
  unfolding stop_all stop_all_containers
  stop_all-logged b log w =
      after (terminate_each logged (reverse b.cleanup) none (log, w)).0
      ∙ terminate_each-logged (reverse b.cleanup) none log w
    where
      after :
          (e : Option Error)
          → (stop_all logged b (log, w)).2.0
            ≡ (terminate_each logged (reverse b.cleanup) none (log, w)).1.0
      after e = ground arith

  -- The same of the rollback of a start that failed: each handle that the results gave to a
  -- registration is terminated, the last registration's first.
  pub terminate_created_containers-logged :
      (regs : List (Registration (List Container × W))) (m : List (Text × Option Container))
      (log : List Container) (w : W)
      → (terminate_created_containers logged regs m (log, w)).1.0
        ≡ log ++ handles (map (λ r. handle m r.name) (reverse regs))
  unfolding terminate_created_containers
  terminate_created_containers-logged regs m log w =
      terminate_each-logged (map (λ r. handle m r.name) (reverse regs)) none log w

  -- The reference: each container is terminated, and every answer is kept.
  pub sweep : List Container → W → List (Option Error) × W
  sweep [] w = ([], w)
  sweep (c ∷ cs) w = let (e, w') = terminate c w in let (es, w'') = sweep cs w' in (e ∷ es, w'')

  terminate_each-sweep :
      (cs : List (Option Container)) (e : Option Error) (w : W)
      → terminate_each terminate cs e w
        ≡ (first_error e (first_some (sweep (handles cs) w).0), (sweep (handles cs) w).1)
  unfolding terminate_each sweep
  terminate_each-sweep [] none w = refl
  terminate_each-sweep [] (some e) w = refl
  terminate_each-sweep (none ∷ cs) e w = terminate_each-sweep cs e w
  terminate_each-sweep (some c ∷ cs) e w =
      terminate_each-sweep cs (first_error e (terminate c w).0) (terminate c w).1
      ∙ ap (λ x. (x, (sweep (handles cs) (terminate c w).1).1))
          (first_error_assoc e (terminate c w).0 _)

  -- `StopAll` returns the first error that a container gave and then changes nothing of the bundle;
  -- with no error the bundle is as new. `rollback` makes it as new in either case.
  pub stop_all-sweep :
      (b : Bundle W) (w : W)
      → let (answers, w') = sweep (handles (reverse b.cleanup)) w in
        (stop_all terminate b w ≡ elim (first_some answers) [
          | none ↦ (none, reset_state b, w')
          | some e ↦ (some e, b, w')
        ])
        × (rollback terminate b w ≡ (first_some answers, reset_state b, w'))
  unfolding stop_all rollback stop_all_containers
  stop_all-sweep b w = (
    ap close (terminate_each-sweep (reverse b.cleanup) none w),
    ap (λ r. (r.0, reset_state b, r.1)) (terminate_each-sweep (reverse b.cleanup) none w),
  )
    where
      close : Option Error × W → Option Error × Bundle W × W
      close r = elim r.0 [ none ↦ (none, reset_state b, r.1) | some e ↦ (some e, b, r.1) ]
