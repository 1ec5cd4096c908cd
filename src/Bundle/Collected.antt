-- ===== src/Bundle/Collected.antt =====
-- What container/bundle.go reads out of the results channel, and that every registration is found
-- there when no start failed and the caller's context lasted.
use testcontainerd.Prelude.{
  ◌≤◌, ◌≡◌, ◌≢◌, refl, subst, true, List, [], ◌∷◌, Option, none, some, inl, inr, Option-cases,
  Bool-cases, arith, Text, text_eq, text_eq_iff, All, is_some,
}
use testcontainerd.Prelude.Results.{ok, first_error}
use testcontainerd.Prelude.Dict.{lookup, insert, lookup-insert}
use testcontainerd.Errors.{Error}
use testcontainerd.Registration.{Registration, Container}
use testcontainerd.Bundle.Pool.{StartResult, Event, parent_ends, run_all}
use testcontainerd.Bundle.Pool.Accounting.{named, failures, registered}
use testcontainerd.Bundle.Pool.Complete.{run_all-named}
use testcontainerd.Bundle.{collect, settle, start_all_containers}

-- The results hold an error exactly if a start failed.
pub collect-none :
    (rs : List StartResult) (e : Option Error) (m : List (Text × Option Container))
    → (collect rs e m).0 ≡ none
    → failures rs ≡ 0
unfolding collect
collect-none [] e m h = refl
collect-none (StartResult.started name ctr ∷ rs) e m h =
    omega (arith, collect-none rs e (insert name ctr m) h)
collect-none (StartResult.failed name x ∷ rs) e m h =
    absurd (kept rs (first_error e (some x)) m (first e x) h)
  where
    first : (e : Option Error) (x : Error) → is_some (first_error e (some x)) ≡ true
    first none x = refl
    first (some e) x = refl

    kept :
        (rs : List StartResult) (e : Option Error) (m : List (Text × Option Container))
        → is_some e ≡ true
        → (collect rs e m).0 ≡ none
        → ⊥
    kept [] e m s h = ground arith
    kept (StartResult.started name ctr ∷ rs) e m s h = kept rs e (insert name ctr m) s h
    kept (StartResult.failed name y ∷ rs) none m s h = cc
    kept (StartResult.failed name y ∷ rs) (some e) m s h = kept rs (some e) m s h

abbrev IsFound : Text → List (Text × Option Container) → Type 0
IsFound k m = is_some (lookup k m) ≡ true

collect-keeps :
    (rs : List StartResult) (e : Option Error) (m : List (Text × Option Container)) (k : Text)
    → IsFound k m
    → IsFound k (collect rs e m).1
unfolding collect
collect-keeps [] e m k h = h
collect-keeps (StartResult.started name ctr ∷ rs) e m k h =
    collect-keeps rs e (insert name ctr m) k (ground (arith, lookup-insert name k ctr m))
collect-keeps (StartResult.failed name x ∷ rs) e m k h =
    collect-keeps rs (first_error e (some x)) m k h

collect-finds :
    (rs : List StartResult) (e : Option Error) (m : List (Text × Option Container)) (k : Text)
    → failures rs ≡ 0
    → 1 ≤ named k rs
    → IsFound k (collect rs e m).1
unfolding collect
collect-finds [] e m k z h = absurd (omega arith)
collect-finds (StartResult.started name ctr ∷ rs) e m k z h = elim (Bool-cases (text_eq name k)) [
  | inl same ↦ collect-keeps rs e (insert name ctr m) k (ground (arith, lookup-insert name k ctr m))
  | inr other ↦ collect-finds rs e (insert name ctr m) k (omega arith) (ground arith)
]
collect-finds (StartResult.failed name x ∷ rs) e m k z h = absurd (omega arith)

module _ {W : Type 0} where
  -- Every registration has its container in the map.
  abbrev pub AllFound : List (Registration W) → List (Text × Option Container) → Type 0
  AllFound regs m = All (λ reg. is_some (lookup reg.name m) ≡ true) regs

  registered-AllFound :
      (regs : List (Registration W)) (m : List (Text × Option Container))
      → ((k : Text) → 1 ≤ registered k regs → is_some (lookup k m) ≡ true)
      → AllFound regs m
  registered-AllFound [] m h = tt
  registered-AllFound (reg ∷ regs) m h = (
    h reg.name (ground (arith, text_eq_iff reg.name reg.name)),
    registered-AllFound regs m (λ k p. h k (omega arith)),
  )

  collect-AllFound :
      (regs : List (Registration W)) (es : List Event) (w w' : W) (results : List StartResult)
      → run_all regs es w ≡ some (results, w')
      → All (λ v. v ≢ parent_ends) es
      → (collect results none []).0 ≡ none
      → AllFound regs (collect results none []).1
  collect-AllFound regs es w w' results h n e =
      registered-AllFound regs (collect results none []).1 λ k p.
        collect-finds results none [] k no_failure
          (omega (arith, run_all-named regs es w w' results h n no_failure k))
    where
      no_failure : failures results ≡ 0
      no_failure = collect-none results none [] e

module _ {W : Type 0} (terminate : Container → W → Option Error × W) where
  settle-ok :
      (regs : List (Registration W)) (c : Option Error × List (Text × Option Container)) (w : W)
      {m : List (Text × Option Container)} {w' : W}
      → settle terminate regs c w ≡ (ok m, w')
      → (c.0 ≡ none) × (c.1 ≡ m)
  unfolding settle
  settle-ok regs (none, m) w h = (refl, ground arith)
  settle-ok regs (some e, m) w h = ground arith

  -- A start that succeeds with the caller's context alive gives every registration a container, so
  -- `StartAll` does not meet a name that is not there.
  pub start_all_containers-AllFound :
      (regs : List (Registration W)) (es : List Event) (w w' : W)
      {m : List (Text × Option Container)}
      → start_all_containers terminate regs es w ≡ some (ok m, w')
      → All (λ v. v ≢ parent_ends) es
      → AllFound regs m
  unfolding start_all_containers
  start_all_containers-AllFound [] es w w' h n = tt
  start_all_containers-AllFound (reg ∷ regs) es w w' {m} h n =
      elim (Option-cases (run_all (reg ∷ regs) es w)) [
        | inl o ↦ ground arith
        | inr ((results, w''), o) ↦
            let (z, e) =
              settle-ok (reg ∷ regs) (collect results none []) w'' {m = m} {w' = w'}
                (let h' = rw (o, start_all_containers) at h in cc h') in
            subst (AllFound (reg ∷ regs)) e (collect-AllFound (reg ∷ regs) es w w'' results o n z)
      ]
