-- ===== src/Client/Autostart.antt =====
-- client/autostart.go, `autoStartDaemon`: how a client starts a daemon, so that of the processes that
-- want one at the same time one starts it.
use testcontainerd.Prelude.{ℕ, zero, suc, ◌+◌, ◌*◌, Option, none, some, Text, ltb, if◌then◌else◌}
use testcontainerd.Prelude.Int.{millisecond}
use testcontainerd.Prelude.Results.{Result, ok, err}
use testcontainerd.Errors.{Error, not_reachable, lock_timeout}
use testcontainerd.LeaseStore.{second}
use testcontainerd.Runtime.{File}
use testcontainerd.Runtime.Info.{discard, read, wait}
use testcontainerd.Daemon.Protocol.{RuntimeInfo}
use testcontainerd.Client.Machine.{
  Machine, start_lock_path, try_acquire_start_lock, release_start_lock, is_stale_start_lock,
  wait_runtime_alive, build_daemon_command, attach_daemon_output,
}

module _ {W : Type 0} (m : Machine W) where
  -- After the start of the daemon's process has failed with an error.
  unfoldable pub start_failed : ℕ → Text → Error → File → W → Option (Option Error × W)
  unfolding wait
  start_failed fuel runtime_path x file w =
      elim (wait m.disk m.json m.clock fuel runtime_path (3 * second) (m.close_log file w)) [
        | none ↦ none
        | some r ↦
            let (found, w') = r in
            elim found [ ok info ↦ some (none, w') | err e ↦ some (some x, w') ]
      ]

  -- After it has succeeded; the goroutine that waits for the process to exit is the world's.
  unfoldable pub await_daemon : ℕ → Text → W → Option (Option Error × W)
  unfolding wait wait_runtime_alive
  await_daemon fuel runtime_path w =
      elim (wait m.disk m.json m.clock fuel runtime_path (10 * second) w) [
        | none ↦ none
        | some r ↦
            let (found, w') = r in
            elim found [
              | err e ↦ some (some e, w')
              | ok info ↦ elim (wait_runtime_alive m fuel info (5 * second) w') [
                | none ↦ none
                | some s ↦
                    let (alive, w'') = s in
                    if alive then some (none, w'') else some (some not_reachable, w'')
              ]
            ]
      ]

  -- From `buildDaemonCommand` on.
  unfoldable pub start_daemon : ℕ → Text → W → Option (Option Error × W)
  unfolding build_daemon_command attach_daemon_output start_failed await_daemon
  start_daemon fuel runtime_path w =
      let (b, w0) = build_daemon_command m runtime_path w in
      elim b [
        | err e ↦ some (some e, w0)
        | ok cmd ↦
            let (r, w1) = attach_daemon_output m cmd runtime_path w0 in
            elim r [
              | err e ↦ some (some e, w1)
              | ok attached ↦
                  let (cmd', file) = attached in
                  let (e, w2) = m.start cmd' w1 in
                  elim e [
                    | some x ↦ start_failed fuel runtime_path x file w2
                    | none ↦ await_daemon fuel runtime_path w2
                  ]
            ]
      ]

  -- What the owner of the lock does.
  unfoldable pub as_owner : ℕ → Text → W → Option (Option Error × W)
  unfolding read wait_runtime_alive start_daemon
  as_owner fuel runtime_path w = elim (read m.disk m.json runtime_path w) [
    | err e ↦ start_daemon fuel runtime_path w
    | ok info ↦ elim (wait_runtime_alive m fuel info (3 * second) w) [
      | none ↦ none
      | some r ↦
          let (alive, w') = r in
          if alive
          then some (none, w')
          else start_daemon fuel runtime_path (discard m.disk runtime_path w')
    ]
  ]

  -- `defer releaseStartLock`.
  unfoldable pub release_after : Text → Option (Option Error × W) → Option (Option Error × W)
  unfolding release_start_lock
  release_after lock_path none = none
  release_after lock_path (some (e, w)) = some (e, release_start_lock m lock_path w)

  -- What a client that has not got the lock does once it has waited, before it goes `again`.
  unfoldable pub as_other :
      Text
      → ℕ
      → (W → Option (Option Error × W))
      → Option (Result Error RuntimeInfo × W)
      → Option (Option Error × W)
  unfolding is_stale_start_lock
  as_other runtime_path deadline again none = none
  as_other runtime_path deadline again (some (ok info, w)) = some (none, w)
  as_other runtime_path deadline again (some (err e, w)) =
      let lock_path = start_lock_path runtime_path in
      let stale = is_stale_start_lock m lock_path runtime_path (90 * second) w in
      let rest =
        again (if stale then discard m.disk lock_path w else m.clock.sleep (150 * millisecond) w) in
      if stale
      then rest
      else if ltb deadline (m.clock.now w)
      then some (some (lock_timeout lock_path), w)
      else rest

  -- The loop of `autoStartDaemon`, for at most the given number of rounds, where each wait in it has
  -- the fuel `patience`; `none` is fuel run out.
  unfoldable pub auto_start_loop : ℕ → ℕ → Text → ℕ → W → Option (Option Error × W)
  unfolding try_acquire_start_lock as_owner release_after as_other wait
  auto_start_loop zero patience runtime_path deadline w = none
  auto_start_loop (suc fuel) patience runtime_path deadline w =
      let lock_path = start_lock_path runtime_path in
      let (r, w') = try_acquire_start_lock m lock_path w in
      elim r [
        | err e ↦ some (some e, w')
        | ok owner ↦
            if owner
            then release_after lock_path (as_owner patience runtime_path w')
            else as_other runtime_path deadline
                (auto_start_loop fuel patience runtime_path deadline)
                (wait m.disk m.json m.clock patience runtime_path (1500 * millisecond) w')
      ]

  unfoldable pub auto_start_daemon : ℕ → ℕ → Text → W → Option (Option Error × W)
  unfolding auto_start_loop
  auto_start_daemon fuel patience runtime_path w =
      auto_start_loop fuel patience runtime_path (m.clock.now w + 180 * second) w
