-- ===== src/Client/Starting.antt =====
-- client/autostart.go, `autoStartDaemon`: that it ends.
use testcontainerd.Prelude.{
  ℕ, zero, suc, ◌+◌, ◌*◌, ◌≤◌, ◌<◌, ◌≡◌, refl, true, false, Option, none, some, Text, ltb, is_some,
  Bool-cases, Option-cases, inl, inr, ◌⊎◌, arith,
}
use testcontainerd.Prelude.Int.{millisecond}
use testcontainerd.Prelude.Results.{Result, ok, err, Result-cases}
use testcontainerd.Errors.{Error}
use testcontainerd.LeaseStore.{second}
use testcontainerd.Runtime.{File}
use testcontainerd.Runtime.Paths.{dir}
use testcontainerd.Runtime.Info.{discard, read, wait}
use testcontainerd.Runtime.Waiting.{IsTicking, Waited, found, gave_up, wait-Waited}
use testcontainerd.Daemon.Protocol.{RuntimeInfo}
use testcontainerd.Client.{runtime_alive}
use testcontainerd.Client.Machine.{
  Machine, start_lock_path, try_acquire_start_lock, is_stale_start_lock, alive_loop,
  wait_runtime_alive, build_daemon_command, attach_daemon_output,
}
use testcontainerd.Client.Autostart.{
  start_failed, await_daemon, start_daemon, as_owner, release_after, as_other, auto_start_loop,
  auto_start_daemon,
}

-- The clock is not set back by a call, and a sleep takes its time.
pub record IsSteady {W : Type 0} (m : Machine W) : Type 0 where
  pub ticking : IsTicking m.clock
  pub mkdir_steady : (d : Text) (w : W) → m.clock.now w ≤ m.clock.now (m.disk.files.mkdir_all d w).1
  pub open_steady : (p : Text) (w : W) → m.clock.now w ≤ m.clock.now (m.open_excl p w).1
  pub dial_steady : (a : Text) (w : W) → m.clock.now w ≤ m.clock.now (m.http.dial a w).1

module _ {W : Type 0} (m : Machine W) (steady : IsSteady m) where
  alive-steady :
      (info : RuntimeInfo) (w : W) → m.clock.now w ≤ m.clock.now (runtime_alive m.http info w).1
  unfolding runtime_alive
  alive-steady info w = ground (arith, steady.dial_steady info.addr w)

  alive_loop_ends :
      (fuel : ℕ) (info : RuntimeInfo) (deadline : ℕ) (w : W)
      → deadline < m.clock.now w + fuel * (200 * millisecond)
      → is_some (alive_loop m (suc fuel) info deadline w) ≡ true
  unfolding alive_loop IsTicking
  alive_loop_ends zero info deadline w h = ground (arith, alive-steady info w)
  alive_loop_ends (suc fuel) info deadline w h =
      let w' = (runtime_alive m.http info w).1 in
      let t = alive-steady info w in
      let s = steady.ticking (200 * millisecond) w' in
      ground (
        arith,
        alive_loop_ends fuel info deadline (m.clock.sleep (200 * millisecond) w') (omega arith),
      )

  Waited-some :
      (path : Text) (deadline : ℕ) (o : Option (Result Error RuntimeInfo × W))
      → Waited m.disk m.json m.clock path deadline o
      → is_some o ≡ true
  Waited-some path deadline o (found e) = refl
  Waited-some path deadline o (gave_up e t) = refl

  -- The fuel of a wait that is enough for every wait of the program.
  module _ (patience : ℕ) (enough : 10 * second < patience * (120 * millisecond)) where
    wait_ends :
        (path : Text) (timeout : ℕ) (w : W)
        → timeout ≤ 10 * second
        → is_some (wait m.disk m.json m.clock (suc patience) path timeout w) ≡ true
    wait_ends path timeout w h =
        Waited-some path _ _
          (wait-Waited m.disk m.json m.clock steady.ticking patience path timeout w (omega arith))

    wait_alive_ends :
        (info : RuntimeInfo) (timeout : ℕ) (w : W)
        → timeout ≤ 10 * second
        → is_some (wait_runtime_alive m (suc patience) info timeout w) ≡ true
    unfolding wait_runtime_alive
    wait_alive_ends info timeout w h =
        alive_loop_ends patience info (m.clock.now w + timeout) w (omega arith)

    start_failed_ends :
        (path : Text) (x : Error) (file : File) (w : W)
        → is_some (start_failed m (suc patience) path x file w) ≡ true
    unfolding start_failed
    start_failed_ends path x file w =
        elim (Option-cases
          (wait m.disk m.json m.clock (suc patience) path (3 * second) (m.close_log file w))) [
            | inl e ↦
                ground (arith, wait_ends path (3 * second) (m.close_log file w) (omega arith), e)
            | inr ((ok info, w'), e) ↦ rw (start_failed, e) refl
            | inr ((err y, w'), e) ↦ rw (start_failed, e) refl
          ]

    await_daemon_ends :
        (path : Text) (w : W) → is_some (await_daemon m (suc patience) path w) ≡ true
    unfolding await_daemon
    await_daemon_ends path w =
        elim (Option-cases (wait m.disk m.json m.clock (suc patience) path (10 * second) w)) [
          | inl e ↦ ground (arith, wait_ends path (10 * second) w (omega arith), e)
          | inr ((err y, w'), e) ↦ rw (await_daemon, e) refl
          | inr ((ok info, w'), e) ↦
              elim (Option-cases (wait_runtime_alive m (suc patience) info (5 * second) w')) [
                | inl f ↦ ground (arith, wait_alive_ends info (5 * second) w' (omega arith), f)
                | inr ((true, w''), f) ↦ rw (await_daemon, e, f) refl
                | inr ((false, w''), f) ↦ rw (await_daemon, e, f) refl
              ]
        ]

    start_daemon_ends :
        (path : Text) (w : W) → is_some (start_daemon m (suc patience) path w) ≡ true
    unfolding start_daemon
    start_daemon_ends path w = elim (Result-cases (build_daemon_command m path w).0) [
      | inl (x, e) ↦ rw (start_daemon, e) refl
      | inr (cmd, e) ↦
          let w0 = (build_daemon_command m path w).1 in
          elim (Result-cases (attach_daemon_output m cmd path w0).0) [
            | inl (x, f) ↦ rw (start_daemon, e, f) refl
            | inr ((cmd', file), f) ↦
                let w1 = (attach_daemon_output m cmd path w0).1 in
                elim (Option-cases (m.start cmd' w1).0) [
                  | inl g ↦ rw (start_daemon, e, f, g) (await_daemon_ends path (m.start cmd' w1).1)
                  | inr (x, g) ↦
                      rw (start_daemon, e, f, g) (start_failed_ends path x file (m.start cmd' w1).1)
                ]
          ]
    ]

    as_owner_ends : (path : Text) (w : W) → is_some (as_owner m (suc patience) path w) ≡ true
    unfolding as_owner
    as_owner_ends path w = elim (Result-cases (read m.disk m.json path w)) [
      | inl (x, e) ↦ rw (as_owner, e) (start_daemon_ends path w)
      | inr (info, e) ↦
          elim (Option-cases (wait_runtime_alive m (suc patience) info (3 * second) w)) [
            | inl f ↦ ground (arith, wait_alive_ends info (3 * second) w (omega arith), f)
            | inr ((true, w'), f) ↦ rw (as_owner, e, f) refl
            | inr ((false, w'), f) ↦
                rw (as_owner, e, f) (start_daemon_ends path (discard m.disk path w'))
          ]
    ]

    release_after-is_some :
        (lock : Text) (o : Option (Option Error × W))
        → is_some o ≡ true
        → is_some (release_after m lock o) ≡ true
    unfolding release_after
    release_after-is_some lock none h = ground arith
    release_after-is_some lock (some (e, w)) h = refl

    acquire-steady :
        (lock : Text) (w : W)
        → m.clock.now w ≤ m.clock.now (try_acquire_start_lock m lock w).1
          ⊎ ((try_acquire_start_lock m lock w).0 ≡ ok true)
    unfolding try_acquire_start_lock
    acquire-steady lock w =
        let w1 = (m.disk.files.mkdir_all (dir lock) w).1 in
        ground (arith, steady.mkdir_steady (dir lock) w, steady.open_steady lock w1)

    -- No lock is stale: each owner gives its lock back within 90 s, or there is a runtime file.
    module _ (path : Text)
        (fresh : (w : W)
          → is_stale_start_lock m (start_lock_path path) path (90 * second) w ≡ false) where
      as_other_ends :
          (deadline start : ℕ) (again : W → Option (Option Error × W))
          (o : Option (Result Error RuntimeInfo × W))
          → Waited m.disk m.json m.clock path start o
          → ((w : W) → start ≤ m.clock.now w → is_some (again w) ≡ true) ⊎ (deadline ≤ start)
          → is_some (as_other m path deadline again o) ≡ true
      unfolding as_other IsTicking
      as_other_ends deadline start again o (found e) h = refl
      as_other_ends deadline start again o (gave_up {e} {w} r t) h =
          let s = steady.ticking (150 * millisecond) w in
          elim (Bool-cases (ltb deadline (m.clock.now w))) [
            | inl late ↦ rw (fresh w, late) refl
            | inr late ↦
                rw (fresh w, late)
                  (elim h [
                    | inl more ↦ more (m.clock.sleep (150 * millisecond) w) (omega arith)
                    | inr over ↦ ground arith
                  ])
          ]

      -- One round, where the next one ends, or comes too late to matter.
      round_ends :
          (fuel deadline : ℕ) (w : W)
          → ((w' : W)
              → m.clock.now w + 1500 * millisecond ≤ m.clock.now w'
              → is_some (auto_start_loop m fuel (suc patience) path deadline w') ≡ true)
            ⊎ (deadline ≤ m.clock.now w)
          → is_some (auto_start_loop m (suc fuel) (suc patience) path deadline w) ≡ true
      unfolding auto_start_loop
      round_ends fuel deadline w h =
          let lock = start_lock_path path in
          let w1 = (try_acquire_start_lock m lock w).1 in
          elim (Result-cases (try_acquire_start_lock m lock w).0) [
            | inl (x, e) ↦ rw (auto_start_loop, e) refl
            | inr (true, e) ↦
                rw (auto_start_loop, e) (release_after-is_some lock _ (as_owner_ends path w1))
            | inr (false, e) ↦
                let t : m.clock.now w ≤ m.clock.now w1 = ground (arith, acquire-steady lock w, e) in
                rw (auto_start_loop, e)
                  (as_other_ends deadline (m.clock.now w1 + 1500 * millisecond)
                    (auto_start_loop m fuel (suc patience) path deadline) _
                    (wait-Waited m.disk m.json m.clock steady.ticking patience path
                      (1500 * millisecond) w1 (omega arith))
                    (elim h [
                      | inl more ↦ inl (λ w' u. more w' (omega arith))
                      | inr over ↦ inr (omega arith)
                    ]))
          ]

      loop_ends :
          (fuel deadline : ℕ) (w : W)
          → deadline ≤ m.clock.now w + fuel * (1500 * millisecond)
          → is_some (auto_start_loop m (suc fuel) (suc patience) path deadline w) ≡ true
      loop_ends zero deadline w h = round_ends zero deadline w (inr (omega arith))
      loop_ends (suc fuel) deadline w h =
          round_ends (suc fuel) deadline w (inl (λ w' t. loop_ends fuel deadline w' (omega arith)))

      -- `autoStartDaemon` ends, if the clock is not set back and a sleep takes its time, and if no
      -- lock is found stale: 121 rounds are enough for its three minutes, where each wait in them has
      -- fuel for 10 s.
      pub auto_start_daemon_ends :
          (w : W) → is_some (auto_start_daemon m 121 (suc patience) path w) ≡ true
      unfolding auto_start_daemon
      auto_start_daemon_ends w = loop_ends 120 (m.clock.now w + 180 * second) w (omega arith)
