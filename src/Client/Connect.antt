-- ===== src/Client/Connect.antt =====
-- client/client.go, `connectOrStart` and `New`, and client/heartbeat.go.
pub mod Reuse
use testcontainerd.Prelude.{
  ℕ, zero, suc, ◌*◌, ◌++◌, Bool, true, false, Option, none, some, Text, lit, ltb, if◌then◌else◌,
}
use testcontainerd.Prelude.Results.{Result, ok, err}
use testcontainerd.Errors.{Error, connect_failed}
use testcontainerd.LeaseStore.{second, heartbeat_interval}
use testcontainerd.Runtime.Info.{discard, read, wait}
use testcontainerd.Daemon.Protocol.{RuntimeInfo}
use testcontainerd.Client.{Config, Client, with_defaults, runtime_alive}
use testcontainerd.Client.Machine.{Machine}
use testcontainerd.Client.Autostart.{auto_start_daemon}

-- The client of the daemon that a runtime file tells of.
abbrev pub attached : Config → RuntimeInfo → Client
attached cfg info = record { cfg = cfg; base_url = lit "http://" ++ info.addr; token = info.token }

module _ {W : Type 0} (m : Machine W) (fuel patience : ℕ) where
  -- A wait for the runtime file; `none` is fuel run out.
  abbrev pub wait_runtime : Config → ℕ → W → Option (Result Error RuntimeInfo × W)
  wait_runtime cfg timeout w = wait m.disk m.json m.clock patience cfg.runtime_path timeout w

  -- The end of an attempt that has failed with an error: `continue`, or `return` in the last one.
  abbrev pub fail_attempt :
      ℕ → Error → W → (W → Option (Result Error Client × W)) → Option (Result Error Client × W)
  fail_attempt zero e w next = some (err e, w)
  fail_attempt (suc n) e w next = next w

  -- From the wait for the runtime file on, where `left` attempts come after this one.
  unfoldable pub settle :
      Config
      → ℕ
      → (W → Option (Result Error Client × W))
      → Option (Result Error RuntimeInfo × W)
      → Option (Result Error Client × W)
  unfolding runtime_alive
  settle cfg left next none = none
  settle cfg left next (some (err e, w)) = fail_attempt left e w next
  settle cfg left next (some (ok info, w)) =
      let (alive, w') = runtime_alive m.http info w in
      let rest = next (discard m.disk cfg.runtime_path w') in
      if alive then some (ok (attached cfg info), w') else rest

  -- After the wait that follows an `autoStartDaemon` that has failed.
  unfoldable pub recover :
      Config
      → ℕ
      → Error
      → (W → Option (Result Error Client × W))
      → Option (Result Error RuntimeInfo × W)
      → Option (Result Error Client × W)
  unfolding settle wait
  recover cfg left x next none = none
  recover cfg left x next (some (err e, w)) = fail_attempt left x w next
  recover cfg left x next (some (ok info, w)) =
      settle cfg left next (wait_runtime cfg (12 * second) w)

  -- After `autoStartDaemon`.
  unfoldable pub started :
      Config
      → ℕ
      → (W → Option (Result Error Client × W))
      → Option (Option Error × W)
      → Option (Result Error Client × W)
  unfolding settle recover wait
  started cfg left next none = none
  started cfg left next (some (none, w)) = settle cfg left next (wait_runtime cfg (12 * second) w)
  started cfg left next (some (some x, w)) =
      recover cfg left x next (wait_runtime cfg (3 * second) w)

  -- The loop over the attempts; the argument counts those that are left.
  unfoldable pub attempts : Config → ℕ → W → Option (Result Error Client × W)
  unfolding read runtime_alive started auto_start_daemon
  attempts cfg zero w = some (err connect_failed, w)
  attempts cfg (suc left) w =
      let next = attempts cfg left in
      elim (read m.disk m.json cfg.runtime_path w) [
        | err e ↦ started cfg left next (auto_start_daemon m fuel patience cfg.runtime_path w)
        | ok info ↦
            let (alive, w1) = runtime_alive m.http info w in
            let w2 = discard m.disk cfg.runtime_path w1 in
            elim alive [
              | true ↦ some (ok (attached cfg info), w1)
              | false ↦
                  started cfg left next (auto_start_daemon m fuel patience cfg.runtime_path w2)
            ]
      ]

  unfoldable pub connect_or_start : Config → W → Option (Result Error Client × W)
  unfolding attempts
  connect_or_start cfg w = attempts cfg 2 w

  -- `New`.
  unfoldable pub new_client : Config → W → Option (Result Error Client × W)
  unfolding with_defaults connect_or_start
  new_client cfg w = connect_or_start (with_defaults m.disk.files.temp cfg) w

-- The interval of `StartHeartbeat`.
abbrev pub beat_interval : ℕ
beat_interval = if ltb heartbeat_interval second then second else heartbeat_interval
