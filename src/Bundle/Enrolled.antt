-- ===== src/Bundle/Enrolled.antt =====
-- The consistency of the bundle of container/bundle.go, and how `StartAll` enters containers into it.
use testcontainerd.Prelude.{
  ◌≡◌, refl, sym, ap, ◌∙◌, Bool, true, false, List, [], ◌∷◌, ◌++◌, map, Option, none, inl, inr,
  Option-cases, arith, Text, length, is_some, if◌then◌else◌,
}
use mathlib.Core.List.{append_assoc, append-nil}
use testcontainerd.Prelude.Dict.{lookup, insert}
use testcontainerd.Errors.{Error}
use testcontainerd.Registration.{Registration, Container}
use testcontainerd.Bundle.Collected.{AllFound}
use testcontainerd.Bundle.{Bundle, handle, enroll, run_inits, initialise, rollback, reset_state}

module _ {W : Type 0} where
  abbrev pub names : List (Registration W) → List Text
  names = map (λ reg. reg.name)

  abbrev pub Shape : Bool → Bundle W → Type 0
  Shape false b = (b.start_order ≡ []) × (b.cleanup ≡ []) × (b.container_by ≡ [])
  Shape true b = (b.start_order ≡ names b.regs) × (length b.cleanup ≡ length b.regs)

  -- A bundle that is not started is empty, and one that is has every registration, in order.
  abbrev pub IsConsistent : Bundle W → Type 0
  IsConsistent b = Shape b.started b

  pub record IsEnrolled (regs : List (Registration W)) (m : List (Text × Option Container))
      (b b' : Bundle W) : Type 0 where
    pub ordered : b'.start_order ≡ b.start_order ++ names regs
    pub held : b'.cleanup ≡ b.cleanup ++ map (λ reg. handle m reg.name) regs
    pub same_regs : b'.regs ≡ b.regs
    pub same_started : b'.started ≡ b.started

  pub enroll-AllFound :
      (regs : List (Registration W)) (m : List (Text × Option Container)) (b : Bundle W)
      → AllFound regs m
      → ((enroll regs m b).1 ≡ none) × IsEnrolled regs m b (enroll regs m b).0
  unfolding enroll
  enroll-AllFound [] m b f = (
    refl,
    record {
      ordered = sym (append-nil b.start_order);
      held = sym (append-nil b.cleanup);
      same_regs = refl;
      same_started = refl;
    },
  )
  enroll-AllFound (reg ∷ regs) m b f = elim (Option-cases (lookup reg.name m)) [
    | inl o ↦ absurd (ground arith)
    | inr (ctr, o) ↦
        rw (o, enroll) (after ctr (rw (o, handle)) (enroll-AllFound regs m (entered ctr) f.1))
  ]
    where
      entered : Option Container → Bundle W
      entered ctr = record b {
        start_order = b.start_order ++ reg.name ∷ [];
        cleanup = b.cleanup ++ ctr ∷ [];
        container_by = insert reg.name ctr b.container_by;
      }

      after :
          (ctr : Option Container)
          → handle m reg.name ≡ ctr
          → ((enroll regs m (entered ctr)).1 ≡ none)
            × IsEnrolled regs m (entered ctr) (enroll regs m (entered ctr)).0
          → ((enroll regs m (entered ctr)).1 ≡ none)
            × IsEnrolled (reg ∷ regs) m b (enroll regs m (entered ctr)).0
      after ctr o (n, e) = (
        n,
        record {
          ordered = e.ordered ∙ append_assoc b.start_order (reg.name ∷ []) (names regs);
          held =
              e.held
              ∙ append_assoc b.cleanup (ctr ∷ []) (map (λ reg. handle m reg.name) regs)
              ∙ ap (λ c. b.cleanup ++ c ∷ map (λ reg. handle m reg.name) regs) (sym o);
          same_regs = e.same_regs;
          same_started = e.same_started;
        },
      )

  pub initialise_lem :
      (terminate : Container → W → Option Error × W) (b : Bundle W) (w : W)
      → (initialise terminate b w).1 ≡ (
          if is_some (initialise terminate b w).0
          then reset_state b
          else record b { started = true })
  unfolding initialise rollback
  initialise_lem terminate b w = elim (Option-cases (run_inits b.regs w).0) [
    | inl o ↦ rw (o, initialise)
    | inr (x, o) ↦ rw (o, initialise)
  ]
