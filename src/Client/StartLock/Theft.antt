-- ===== src/Client/StartLock/Theft.antt =====
-- client/autostart.go: two processes that find the same lock stale.
use testcontainerd.Prelude.{
  ℕ, ◌≡◌, refl, ◌∙◌, ap, Bool, true, false, List, [], ◌∷◌, some, Text, get_elem?,
}
use testcontainerd.Prelude.Results.{ok}
use testcontainerd.Runtime.Info.{discard}
use testcontainerd.Client.Machine.{Machine, start_lock_path, try_acquire_start_lock}
use testcontainerd.Client.StartLock.{
  Phase, trying, judging, owning, Step, tries, judges, removes, Contest, move_to, found_stale, act,
  step, run, owners,
}

-- The first process finds the lock stale and so does the second; the first removes it and gets it;
-- the second removes the lock that the first has got, and gets it.
abbrev pub theft : {W : Type 0} → List (Step W)
theft = judges 0 ∷ judges 1 ∷ removes 0 ∷ tries 0 ∷ removes 1 ∷ tries 1 ∷ []

module _ {W : Type 0} (m : Machine W) (path : Text) where
  judges_stale :
      (i : ℕ) (c : Contest W)
      → get_elem? c.phases i ≡ some trying
      → found_stale m path c.world ≡ true
      → step m path (judges i) c ≡ move_to i judging c.world c
  unfolding step act
  judges_stale i c e f = rw (step, e, act, f) refl

  removes_judged :
      (i : ℕ) (c : Contest W)
      → get_elem? c.phases i ≡ some judging
      → step m path (removes i) c
        ≡ move_to i trying (discard m.disk (start_lock_path path) c.world) c
  unfolding step act
  removes_judged i c e = rw (step, e, act) refl

  tries_free :
      (i : ℕ) (c : Contest W)
      → get_elem? c.phases i ≡ some trying
      → (try_acquire_start_lock m (start_lock_path path) c.world).0 ≡ ok true
      → step m path (tries i) c
        ≡ move_to i owning (try_acquire_start_lock m (start_lock_path path) c.world).1 c
  unfolding step act
  tries_free i c e f = rw (step, e, act, f) refl

  abbrev pair : W → Phase → Phase → Contest W
  pair w p q = record { world = w; phases = p ∷ q ∷ [] }

  -- The owners that are left after the rest of the run.
  abbrev count : List (Step W) → Contest W → ℕ
  count steps c = owners (run m path steps c).phases

module _ {W : Type 0} (m : Machine W) (path : Text) (held : W → Bool) where
  -- On a machine where a removal removes the lock file and a lock that is not there can be had, two
  -- processes that find the same lock stale can both come to own the lock.
  pub theft-owners :
      (w : W)
      → ((v : W) → held (discard m.disk (start_lock_path path) v) ≡ false)
      → ((v : W) → held v ≡ false → (try_acquire_start_lock m (start_lock_path path) v).0 ≡ ok true)
      → found_stale m path w ≡ true
      → owners (run m path theft record { world = w; phases = trying ∷ trying ∷ [] }).phases ≡ 2
  unfolding run owners
  theft-owners w clears grants stale =
      let w1 = discard m.disk (start_lock_path path) w in
      let w2 = (try_acquire_start_lock m (start_lock_path path) w1).1 in
      let w3 = discard m.disk (start_lock_path path) w2 in
      ap (count m path (judges 1 ∷ removes 0 ∷ tries 0 ∷ removes 1 ∷ tries 1 ∷ []))
        (judges_stale m path 0 (pair m path w trying trying) refl stale)
      ∙ (ap (count m path (removes 0 ∷ tries 0 ∷ removes 1 ∷ tries 1 ∷ []))
            (judges_stale m path 1 (pair m path w judging trying) refl stale)
          ∙ (ap (count m path (tries 0 ∷ removes 1 ∷ tries 1 ∷ []))
                (removes_judged m path 0 (pair m path w judging judging) refl)
              ∙ (ap (count m path (removes 1 ∷ tries 1 ∷ [])) (
                    tries_free m path 0 (pair m path w1 trying judging) refl (grants w1 (clears w)))
                  ∙ (ap (count m path (tries 1 ∷ []))
                        (removes_judged m path 1 (pair m path w2 owning judging) refl)
                      ∙ ap (count m path []) (
                          tries_free m path 1 (pair m path w3 owning trying) refl
                            (grants w3 (clears w2)))))))
