-- ===== src/Client/Stuck.antt =====
-- client/autostart.go, `autoStartDaemon`: a stale lock that is not removed.
use testcontainerd.Prelude.{ℕ, zero, suc, ◌*◌, ◌+◌, ◌≡◌, refl, true, false, none, some, Text}
use testcontainerd.Prelude.Int.{millisecond}
use testcontainerd.Prelude.Results.{ok, err}
use testcontainerd.Errors.{Error}
use testcontainerd.LeaseStore.{second}
use testcontainerd.Runtime.Info.{discard, wait}
use testcontainerd.Client.Machine.{
  Machine, start_lock_path, try_acquire_start_lock, is_stale_start_lock,
}
use testcontainerd.Client.Autostart.{as_other, auto_start_loop, auto_start_daemon}

-- The worlds with a stale lock file that cannot be removed, and no runtime file: in each, the lock is
-- not got, the wait for the runtime file is in vain, the lock is stale after it, and the removal
-- leaves such a world.
pub record IsStuck {W : Type 0} (m : Machine W) (path : Text) (patience : ℕ) (Stuck : W → Type 0)
    : Type 0 where
  pub refused : (w : W) → Stuck w → (try_acquire_start_lock m (start_lock_path path) w).0 ≡ ok false
  pub in_vain :
      (w : W)
      → Stuck w
      → (e : Error) × (w' : W) × (wait m.disk m.json m.clock patience path
            (1500 * millisecond)
            (try_acquire_start_lock m (start_lock_path path) w).1
          ≡ some (err e, w'))
        × (is_stale_start_lock m (start_lock_path path) path (90 * second) w' ≡ true)
        × Stuck (discard m.disk (start_lock_path path) w')

module _ {W : Type 0} (m : Machine W) (path : Text) (patience : ℕ) (Stuck : W → Type 0)
    (stuck : IsStuck m path patience Stuck) where
  loop_goes_on :
      (fuel deadline : ℕ) (w : W) → Stuck w → auto_start_loop m fuel patience path deadline w ≡ none
  unfolding auto_start_loop as_other
  loop_goes_on zero deadline w s = refl
  loop_goes_on (suc fuel) deadline w s =
      let (e, w', waited, stale, s') = stuck.in_vain w s in
      rw (auto_start_loop, stuck.refused w s, waited, as_other, stale)
        (loop_goes_on fuel deadline (discard m.disk (start_lock_path path) w') s')

  -- With a stale lock file that cannot be removed, and no runtime file, `autoStartDaemon` does not
  -- end, however many rounds it is given: the round that finds a stale lock does not look at the
  -- deadline.
  pub auto_start_daemon_goes_on :
      (fuel : ℕ) (w : W) → Stuck w → auto_start_daemon m fuel patience path w ≡ none
  unfolding auto_start_daemon
  auto_start_daemon_goes_on fuel w s = loop_goes_on fuel (m.clock.now w + 180 * second) w s
