-- ===== src/Client/StartLock.antt =====
-- client/autostart.go: the lock of a start, among the processes that want it. A process tries to get
-- it, finds it stale and removes it, or gives it back; the steps of the processes come in any order.
pub mod Exclusive
pub mod Theft
use testcontainerd.Prelude.{
  ℕ, zero, suc, ◌+◌, ◌*◌, Bool, true, false, List, [], ◌∷◌, Option, none, some, Text, get_elem?,
  set, if◌then◌else◌,
}
use testcontainerd.Prelude.Results.{Result, ok, err}
use testcontainerd.Errors.{Error}
use testcontainerd.LeaseStore.{second}
use testcontainerd.Runtime.Info.{discard}
use testcontainerd.Client.Machine.{
  Machine, start_lock_path, try_acquire_start_lock, release_start_lock, is_stale_start_lock,
}

-- Where a process is in `autoStartDaemon`: `judging` stands between a lock found stale and its
-- removal.
pub data Phase : Type 0 where
  trying judging owning gone : Phase

-- A step: of a process, or of the rest of the world.
pub data Step (W : Type 0) : Type 0 where
  tries : ℕ → Step W
  judges : ℕ → Step W
  removes : ℕ → Step W
  finishes : ℕ → Step W
  passes : (W → W) → Step W

pub record Contest (W : Type 0) : Type 0 where
  pub world : W
  pub phases : List Phase

abbrev pub after_try : Result Error Bool → Phase
after_try (err e) = gone
after_try (ok true) = owning
after_try (ok false) = trying

abbrev pub move_to : {W : Type 0} → ℕ → Phase → W → Contest W → Contest W
move_to i p w c = record { world = w; phases = set c.phases i p }

module _ {W : Type 0} (m : Machine W) (path : Text) where
  abbrev pub found_stale : W → Bool
  found_stale w = is_stale_start_lock m (start_lock_path path) path (90 * second) w

  -- What a process does in a phase; the step is skipped in another phase.
  unfoldable pub act : Step W → Option Phase → Contest W → Contest W
  unfolding try_acquire_start_lock release_start_lock is_stale_start_lock
  act (tries i) (some trying) c =
      let (r, w) = try_acquire_start_lock m (start_lock_path path) c.world in
      move_to i (after_try r) w c
  act (judges i) (some trying) c = if found_stale c.world then move_to i judging c.world c else c
  act (removes i) (some judging) c =
      move_to i trying (discard m.disk (start_lock_path path) c.world) c
  act (finishes i) (some owning) c =
      move_to i gone (release_start_lock m (start_lock_path path) c.world) c
  act s p c = c

  unfoldable pub step : Step W → Contest W → Contest W
  unfolding act
  step (passes f) c = record c { world = f c.world }
  step (tries i) c = act (tries i) (get_elem? c.phases i) c
  step (judges i) c = act (judges i) (get_elem? c.phases i) c
  step (removes i) c = act (removes i) (get_elem? c.phases i) c
  step (finishes i) c = act (finishes i) (get_elem? c.phases i) c

  unfoldable pub run : List (Step W) → Contest W → Contest W
  unfolding step
  run [] c = c
  run (s ∷ steps) c = run steps (step s c)

unfoldable pub owners : List Phase → ℕ
owners [] = 0
owners (owning ∷ ps) = suc (owners ps)
owners (p ∷ ps) = owners ps
