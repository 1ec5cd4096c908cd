-- ===== src/Client/Connect/Reuse.antt =====
-- client/client.go, `New`: that it ends, and to what a client that it gives is connected.
use testcontainerd.Prelude.{
  ℕ, zero, suc, ◌*◌, ◌+◌, ◌<◌, ◌≤◌, ap, ◌≡◌, true, false, Option, none, some, is_some, Bool-cases,
  inl, inr, arith,
}
use testcontainerd.Prelude.Int.{millisecond}
use testcontainerd.Prelude.Results.{Result, ok, err, Result-cases}
use testcontainerd.Errors.{Error}
use testcontainerd.LeaseStore.{second}
use testcontainerd.Runtime.Info.{discard, read, wait}
use testcontainerd.Runtime.Waiting.{Waited, found, gave_up, wait-Waited}
use testcontainerd.Daemon.Protocol.{RuntimeInfo}
use testcontainerd.Client.{Config, Client, with_defaults, runtime_alive}
use testcontainerd.Client.Machine.{Machine, is_stale_start_lock, start_lock_path}
use testcontainerd.Client.Autostart.{auto_start_daemon}
use testcontainerd.Client.Starting.{IsSteady, auto_start_daemon_ends}
use testcontainerd.Client.Connect.{
  attached, fail_attempt, settle, recover, started, attempts, connect_or_start, new_client,
}

module _ {W : Type 0} (m : Machine W) where
  -- The end of `New`: an error, or the client of a daemon that the runtime file told of, and whose
  -- address answered then.
  pub data Connected (cfg : Config) : Option (Result Error Client × W) → Type 0 where
    connects :
        {info : RuntimeInfo} {w' : W} (w : W)
        → read m.disk m.json cfg.runtime_path w ≡ ok info
        → runtime_alive m.http info w ≡ (true, w')
        → Connected cfg (some (ok (attached cfg info), w'))
    fails : {e : Error} {w : W} → Connected cfg (some (err e, w))

  module _ (fuel patience : ℕ) (steady : IsSteady m)
      (enough : 12 * second < patience * (120 * millisecond)) (cfg : Config) where
    fail_attempt-Connected :
        (left : ℕ) (e : Error) (w : W) (next : W → Option (Result Error Client × W))
        → ((w : W) → Connected cfg (next w))
        → Connected cfg (fail_attempt m fuel patience left e w next)
    fail_attempt-Connected zero e w next h = fails
    fail_attempt-Connected (suc n) e w next h = h w

    settle-Connected :
        (left deadline : ℕ) (next : W → Option (Result Error Client × W))
        (o : Option (Result Error RuntimeInfo × W))
        → ((w : W) → Connected cfg (next w))
        → Waited m.disk m.json m.clock cfg.runtime_path deadline o
        → Connected cfg (settle m fuel (suc patience) cfg left next o)
    unfolding settle
    settle-Connected left deadline next o h (gave_up {e} {w} r t) =
        fail_attempt-Connected left e w next h
    settle-Connected left deadline next o h (found {info} {w} r) =
        elim (Bool-cases (runtime_alive m.http info w).0) [
          | inl e ↦ rw (settle, e) (connects w r (ap (λ b. (b, (runtime_alive m.http info w).1)) e))
          | inr e ↦
              rw (settle, e) (h (discard m.disk cfg.runtime_path (runtime_alive m.http info w).1))
        ]

    waits :
        (timeout : ℕ) (w : W)
        → timeout ≤ 12 * second
        → Waited m.disk m.json m.clock cfg.runtime_path
            (m.clock.now w + timeout)
            (wait m.disk m.json m.clock (suc patience) cfg.runtime_path timeout w)
    waits timeout w h =
        wait-Waited m.disk m.json m.clock steady.ticking patience cfg.runtime_path timeout w
          (omega arith)

    recover-Connected :
        (left deadline : ℕ) (x : Error) (next : W → Option (Result Error Client × W))
        (o : Option (Result Error RuntimeInfo × W))
        → ((w : W) → Connected cfg (next w))
        → Waited m.disk m.json m.clock cfg.runtime_path deadline o
        → Connected cfg (recover m fuel (suc patience) cfg left x next o)
    unfolding recover
    recover-Connected left deadline x next o h (gave_up {e} {w} r t) =
        fail_attempt-Connected left x w next h
    recover-Connected left deadline x next o h (found {info} {w} r) =
        settle-Connected left _ next _ h (waits (12 * second) w (omega arith))

    started-Connected :
        (left : ℕ) (next : W → Option (Result Error Client × W)) (o : Option (Option Error × W))
        → ((w : W) → Connected cfg (next w))
        → is_some o ≡ true
        → Connected cfg (started m fuel (suc patience) cfg left next o)
    unfolding started
    started-Connected left next none h s = ground arith
    started-Connected left next (some (none, w)) h s =
        settle-Connected left _ next _ h (waits (12 * second) w (omega arith))
    started-Connected left next (some (some x, w)) h s =
        recover-Connected left _ x next _ h (waits (3 * second) w (omega arith))

    module _
        (ends : (w : W)
          → is_some (auto_start_daemon m fuel (suc patience) cfg.runtime_path w) ≡ true) where
      attempts-Connected :
          (left : ℕ) (w : W) → Connected cfg (attempts m fuel (suc patience) cfg left w)
      unfolding attempts
      attempts-Connected zero w = fails
      attempts-Connected (suc left) w =
          elim (Result-cases (read m.disk m.json cfg.runtime_path w)) [
            | inl (x, e) ↦
                rw (attempts, e)
                  (started-Connected left (attempts m fuel (suc patience) cfg left) _
                    (attempts-Connected left) (ends w))
            | inr (info, e) ↦ elim (Bool-cases (runtime_alive m.http info w).0) [
              | inl f ↦
                  rw (attempts, e, f)
                    (connects w e (ap (λ b. (b, (runtime_alive m.http info w).1)) f))
              | inr f ↦
                  rw (attempts, e, f)
                    (started-Connected left (attempts m fuel (suc patience) cfg left) _
                      (attempts-Connected left) (ends _))
            ]
          ]

  -- `New` ends, if the clock is not set back and a sleep takes its time, and if no lock is found
  -- stale: with an error, or with a client of the daemon that the runtime file told of, and that
  -- answered at that address. 121 rounds are enough where a start is waited for, where each wait has
  -- fuel for 12 s.
  pub new_client-Connected :
      (patience : ℕ) (cfg : Config) (w : W)
      → IsSteady m
      → 12 * second < patience * (120 * millisecond)
      → let cfg' = with_defaults m.disk.files.temp cfg in
        ((w' : W)
          → is_stale_start_lock m
              (start_lock_path cfg'.runtime_path)
              cfg'.runtime_path
              (90 * second)
              w'
            ≡ false)
        → Connected cfg' (new_client m 121 (suc patience) cfg w)
  unfolding new_client connect_or_start
  new_client-Connected patience cfg w steady enough fresh =
      let cfg' = with_defaults m.disk.files.temp cfg in
      attempts-Connected 121 patience steady enough cfg'
        (auto_start_daemon_ends m steady patience (omega arith) cfg'.runtime_path fresh) 2 w
