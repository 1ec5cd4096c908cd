-- ===== src/Bundle/Starting.antt =====
-- `StartAll` and `StopAll` of container/bundle.go: the bundle before and after.
use testcontainerd.Prelude.{
  ◌≡◌, ◌≢◌, refl, sym, ap, subst, ◌∙◌, true, false, List, ◌++◌, map, Option, none, some, inl, inr,
  Option-cases, Bool-cases, arith, Text, length, length-map, All, is_some, if◌then◌else◌,
}
use testcontainerd.Prelude.Results.{Result, ok, err}
use testcontainerd.Errors.{Error}
use testcontainerd.Registration.{Container}
use testcontainerd.Bundle.Pool.{Event, parent_ends}
use testcontainerd.Bundle.Collected.{AllFound, start_all_containers-AllFound}
use testcontainerd.Bundle.{
  Bundle, handle, enroll, initialise, enter, start_all, start_all_containers, stop_all, reset_state,
  stop_all_containers,
}
use testcontainerd.Bundle.Enrolled.{
  names, Shape, IsConsistent, IsEnrolled, enroll-AllFound, initialise_lem,
}

module _ {W : Type 0} where
  -- What a call of `StartAll` leaves behind: with no error, a bundle that is started with every
  -- registration in it; with an error, the bundle as it was.
  abbrev pub Leaves : Bundle W → Option Error → Bundle W → Type 0
  Leaves b none b' = (b'.started ≡ true) × IsConsistent b' × (b'.regs ≡ b.regs)
  Leaves b (some x) b' = b' ≡ b

  Shape-down : (b : Bundle W) → b.started ≡ false → IsConsistent b → Shape false b
  Shape-down b s c = subst (λ u. Shape u b) s c

  reset_state-unchanged :
      (m : List (Text × Option Container)) (b b' : Bundle W)
      → b.started ≡ false
      → IsConsistent b
      → IsEnrolled b.regs m b b'
      → reset_state b' ≡ b
  unfolding reset_state
  reset_state-unchanged m b b' s c e = ground (arith, Shape-down b s c)

  started-IsConsistent :
      (m : List (Text × Option Container)) (b b' : Bundle W)
      → b.started ≡ false
      → IsConsistent b
      → IsEnrolled b.regs m b b'
      → Shape true b'
  started-IsConsistent m b b' s c e =
      let (order, clean, _) = Shape-down b s c in
      (
        e.ordered ∙ ap (λ o. o ++ names b.regs) order ∙ ap names (sym e.same_regs),
        ap length e.held
            ∙ ap (λ o. length (o ++ map (λ reg. handle m reg.name) b.regs)) clean
            ∙ length-map (λ reg. handle m reg.name) b.regs
            ∙ ap length (sym e.same_regs),
      )

  -- What a call of `StopAll` leaves behind: with no error an empty bundle that is down, with an
  -- error the bundle as it was.
  abbrev pub Stops : Bundle W → Option Error → Bundle W → Type 0
  Stops b none b' = (b'.started ≡ false) × IsConsistent b' × (b'.regs ≡ b.regs)
  Stops b (some x) b' = b' ≡ b

module _ {W : Type 0} (terminate : Container → W → Option Error × W) where
  enter-enrolled :
      (b : Bundle W) (m : List (Text × Option Container)) (w : W)
      → (enroll b.regs m b).1 ≡ none
      → enter terminate b m w ≡ initialise terminate (enroll b.regs m b).0 w
  unfolding enter
  enter-enrolled b m w h = rw (h, enter)

  initialise-Leaves :
      (m : List (Text × Option Container)) (b b' : Bundle W) (w : W)
      → b.started ≡ false
      → IsConsistent b
      → IsEnrolled b.regs m b b'
      → Leaves b (initialise terminate b' w).0 (initialise terminate b' w).1
  initialise-Leaves m b b' w s c e =
      go (initialise terminate b' w).0 (initialise_lem terminate b' w)
    where
      go :
          (x : Option Error)
          → (initialise terminate b' w).1
            ≡ (if is_some x then reset_state b' else record b' { started = true })
          → Leaves b x (initialise terminate b' w).1
      go none q = rw q (refl, started-IsConsistent m b b' s c e, e.same_regs)
      go (some x) q = q ∙ reset_state-unchanged m b b' s c e

  enter-Leaves :
      (b : Bundle W) (m : List (Text × Option Container)) (w : W)
      → b.started ≡ false
      → IsConsistent b
      → AllFound b.regs m
      → Leaves b (enter terminate b m w).0 (enter terminate b m w).1
  enter-Leaves b m w s c f =
      let (none_missing, e) = enroll-AllFound b.regs m b f in
      rw (enter-enrolled b m w none_missing) (initialise-Leaves m b _ w s c e)

  -- What `StartAll` does with each outcome of `startAllContainers`.
  abbrev pub finish :
      Bundle W
      → Option (Result Error (List (Text × Option Container)) × W)
      → Option (Option Error × Bundle W × W)
  finish b none = none
  finish b (some (err x, w)) = some (some x, b, w)
  finish b (some (ok m, w)) = some (enter terminate b m w)

  start_all-none :
      (b : Bundle W) (events : List Event) (w : W)
      → b.started ≡ false
      → start_all_containers terminate b.regs events w ≡ none
      → start_all terminate b events w ≡ none
  unfolding start_all
  start_all-none b events w s o = rw (o, start_all) (simp s)

  start_all-err :
      (b : Bundle W) (events : List Event) (w : W) {x : Error} {w' : W}
      → b.started ≡ false
      → start_all_containers terminate b.regs events w ≡ some (err x, w')
      → start_all terminate b events w ≡ some (some x, b, w')
  unfolding start_all
  start_all-err b events w s o = rw (o, start_all) (simp s)

  pub start_all-ok :
      (b : Bundle W) (events : List Event) (w : W) {m : List (Text × Option Container)} {w' : W}
      → b.started ≡ false
      → start_all_containers terminate b.regs events w ≡ some (ok m, w')
      → start_all terminate b events w ≡ some (enter terminate b m w')
  unfolding start_all
  start_all-ok b events w s o = rw (o, start_all) (simp s)

  pub start_all-finish :
      (b : Bundle W) (events : List Event) (w : W)
      → b.started ≡ false
      → start_all terminate b events w ≡ finish b (start_all_containers terminate b.regs events w)
  start_all-finish b events w s = go (start_all_containers terminate b.regs events w) refl
    where
      go :
          (r : Option (Result Error (List (Text × Option Container)) × W))
          → start_all_containers terminate b.regs events w ≡ r
          → start_all terminate b events w ≡ finish b r
      go none o = start_all-none b events w s o
      go (some (err x, w')) o = start_all-err b events w s o
      go (some (ok m, w')) o = start_all-ok b events w s o

  start_all-started :
      (b : Bundle W) (events : List Event) (w : W)
      → b.started ≡ true
      → start_all terminate b events w ≡ some (none, b, w)
  unfolding start_all
  start_all-started b events w s = rw (s, start_all)

  finish-Leaves :
      (b : Bundle W) (events : List Event) (w w' : W) {e : Option Error} {b' : Bundle W}
      (r : Option (Result Error (List (Text × Option Container)) × W))
      → start_all_containers terminate b.regs events w ≡ r
      → finish b r ≡ some (e, b', w')
      → All (λ v. v ≢ parent_ends) events
      → b.started ≡ false
      → IsConsistent b
      → Leaves b e b'
  finish-Leaves b events w w' none o h n s c = ground arith
  finish-Leaves b events w w' {e} {b'} (some (err x, w'')) o h n s c =
      subst (λ (y : Option Error × Bundle W × W). Leaves b y.0 y.1) (refused h) refl
    where
      refused :
          finish b (some (err x, w'')) ≡ some (e, b', w')
          → ◌≡◌ {A = Option Error × Bundle W × W} (some x, b, w'') (e, b', w')
      refused h = cc h
  finish-Leaves b events w w' {e} {b'} (some (ok m, w'')) o h n s c =
      let l =
        enter-Leaves b m w'' s c
          (start_all_containers-AllFound terminate b.regs events w w'' o n) in
      subst (λ (x : Option Error × Bundle W × W). Leaves b x.0 x.1) (entered h) l
    where
      entered :
          finish b (some (ok m, w'')) ≡ some (e, b', w') → enter terminate b m w'' ≡ (e, b', w')
      entered h = cc h

  -- While the caller's context lasts, `StartAll` keeps the bundle consistent: without an error it is
  -- started with every registration in it, and with one it is as it was.
  pub start_all-Leaves :
      (b : Bundle W) (events : List Event) (w w' : W) {e : Option Error} {b' : Bundle W}
      → start_all terminate b events w ≡ some (e, b', w')
      → All (λ v. v ≢ parent_ends) events
      → IsConsistent b
      → Leaves b e b'
  start_all-Leaves b events w w' {e} {b'} h n c = elim (Bool-cases b.started) [
    | inl up ↦ already (sym (start_all-started b events w up) ∙ h) up
    | inr down ↦
        finish-Leaves b events w w' (start_all_containers terminate b.regs events w) refl
          (sym (start_all-finish b events w down) ∙ h) n down c
  ]
    where
      some_eq :
          ◌≡◌ {A = Option (Option Error × Bundle W × W)} (some (none, b, w)) (some (e, b', w'))
          → ◌≡◌ {A = Option Error × Bundle W × W} (none, b, w) (e, b', w')
      some_eq h = cc h

      already :
          ◌≡◌ {A = Option (Option Error × Bundle W × W)} (some (none, b, w)) (some (e, b', w'))
          → b.started ≡ true
          → Leaves b e b'
      already h up =
          subst (λ (x : Option Error × Bundle W × W). Leaves b x.0 x.1) (some_eq h) (up, c, refl)

  stop_all-Stops :
      (b : Bundle W) (w : W) → Stops b (stop_all terminate b w).0 (stop_all terminate b w).1
  unfolding stop_all reset_state
  stop_all-Stops b w = elim (Option-cases (stop_all_containers terminate b w).0) [
    | inl o ↦ rw (o, stop_all) (refl, (refl, refl, refl), refl)
    | inr (x, o) ↦ rw (o, stop_all) refl
  ]
