-- ===== src/Daemon/Race.antt =====
-- daemon/server.go, `loopReaper` and `handleAcquire`: an acquire that ends between the two tests of a
-- tick.
use testcontainerd.Prelude.{◌≤◌, ◌≡◌, ◌≢◌, refl, true, false, some, arith, ltb}
use testcontainerd.Prelude.Int.{leb_ℤ, sub_ℕ}
use testcontainerd.Prelude.Dict.{lookup, lookup-insert_self}
use testcontainerd.LeaseStore.{Lease, lease_ttl, acquire, active_count, is_live}
use testcontainerd.Daemon.{Daemon, Host}
use testcontainerd.Daemon.Protocol.{AcquireReq}
use testcontainerd.Daemon.Handlers.{Meets, grant, leave_flight}
use testcontainerd.Daemon.Reaper.{
  Tick, Timers, collect_leases, reap_sut, reap_daemon, on_tick, resume_tick,
}
use testcontainerd.Daemon.Idle.{reap_sut-IsLike, reap_daemon-due, set_iff}

module _ {W : Type 0} (host : Host W) where
  -- Without a call in between, `resume_tick` is the rest of `on_tick`.
  on_tick-resume_tick :
      (tick : Tick) (t : Timers) (d : Daemon W) (w : W)
      → on_tick host tick t d w
        ≡ resume_tick host tick t
            (active_count (collect_leases tick.now d).store tick.now)
            (collect_leases tick.now d)
            w
  unfolding on_tick resume_tick
  on_tick-resume_tick tick t d w = refl

  resume_idle :
      (tick : Tick) (t : Timers) (d : Daemon W) (w : W)
      → d.acquire_in_flight ≡ 0
      → resume_tick host tick t 0 d w
        ≡ reap_daemon host tick
            (reap_sut host tick t d w).0
            (reap_sut host tick t d w).1
            (reap_sut host tick t d w).2
  unfolding resume_tick
  resume_idle tick t d w f =
      let idle : ltb 0 d.acquire_in_flight ≡ false = ground (arith, f) in
      rw (resume_tick, idle) refl

  resume_due :
      (tick : Tick) (t : Timers) (d : Daemon W) (w : W)
      → d.acquire_in_flight ≡ 0
      → t.idle_since ≢ 0
      → leb_ℤ d.cfg.idle_ttl (sub_ℕ tick.now t.idle_since) ≡ true
      → ((resume_tick host tick t 0 d w).goes_on ≡ false)
        × ((resume_tick host tick t 0 d w).daemon.is_closed ≡ true)
  resume_due tick t d w f z e =
      let r = reap_sut host tick t d w in
      let (a, b) = reap_sut-IsLike host tick t d w in
      rw (resume_idle tick t d w f) (
        reap_daemon-due host tick r.0 r.1 r.2 (rw (a) ((set_iff t.idle_since).1 z))
          (rw (a, b.same_cfg) e))

  -- If the reaper has read that no lease is live, and the one acquire on its way then gives its lease
  -- and leaves before the reaper reads `acquireInFlight`, a tick at which the daemon's TTL has gone
  -- by ends the loop and closes `done`, although the store holds that lease and it is live.
  pub resume_tick-grant :
      (tick : Tick) (t : Timers) (meets : Meets) (req : AcquireReq) (d : Daemon W) (w : W)
      → d.acquire_in_flight ≡ 1
      → t.idle_since ≢ 0
      → leb_ℤ d.cfg.idle_ttl (sub_ℕ tick.now t.idle_since) ≡ true
      → tick.now ≤ meets.now
      → (l : Lease) × ((lookup l.id (leave_flight (grant meets req d).1).store.leases ≡ some l)
          × ((is_live tick.now l ≡ true)
              × (((resume_tick host tick t 0 (leave_flight (grant meets req d).1) w).goes_on
                    ≡ false)
                  × ((resume_tick host tick t 0
                        (leave_flight (grant meets req d).1)
                        w).daemon.is_closed
                      ≡ true))))
  unfolding grant acquire
  resume_tick-grant tick t meets req d w f z e h =
      let l : Lease = (acquire d.store meets.bytes req.pid lease_ttl meets.now).1 in
      (
        l,
        (
          lookup-insert_self l.id l d.store.leases,
          (
            ground arith,
            resume_due tick t (leave_flight (grant meets req d).1) w (rw (f) refl) z e,
          ),
        ),
      )
