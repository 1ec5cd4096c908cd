-- ===== src/Daemon/Idle.antt =====
-- daemon/server.go, `loopReaper` and `shutdownServer`: when the reaper stops what is idle.
use testcontainerd.Prelude.{
  ℕ, ◌≡◌, ◌≢◌, ◌<◌, ◌⊎◌, ◌↔◌, refl, sym, ap, ◌∙◌, true, false, arith, Bool-cases, inl, inr, ◌==◌,
  ==_iff,
}
use testcontainerd.Prelude.Int.{sub_ℕ, leb_ℤ}
use testcontainerd.LeaseStore.{gc, active_count}
use testcontainerd.LeaseStore.Expiry.{active_count-gc}
use testcontainerd.SutManager.{StopSelect, idle_ttl}
use testcontainerd.Daemon.{
  Daemon, Host, stop_sut_only, stop_containers_only, shut_down, shutdown_server,
}
use testcontainerd.Daemon.Reaper.{
  Timers, zero_timers, Tick, Reaper, is_busy, collect_leases, has_elapsed, reap_sut, reap_daemon,
  on_tick,
}

busy-gc : {W : Type 0} (now : ℕ) (d : Daemon W) → is_busy now (collect_leases now d) ≡ is_busy now d
unfolding is_busy
busy-gc now d = simp (is_busy, (active_count-gc d.store now).0) refl

idle_iff :
    {W : Type 0} (now : ℕ) (d : Daemon W)
    → (is_busy now d ≡ false) ↔ ((active_count d.store now ≡ 0) × (d.acquire_in_flight ≡ 0))
unfolding is_busy
idle_iff now d = ground arith

busy_of :
    {W : Type 0} (now : ℕ) (d : Daemon W)
    → (0 < active_count d.store now) ⊎ (0 < d.acquire_in_flight)
    → is_busy now d ≡ true
unfolding is_busy
busy_of now d h = ground arith

pub set_iff : (n : ℕ) → ((n == 0) ≡ false) ↔ (n ≢ 0)
set_iff n = ground arith

module _ {W : Type 0} (host : Host W) where
  tick_busy :
      (tick : Tick) (t : Timers) (d : Daemon W) (w : W)
      → is_busy tick.now d ≡ true
      → on_tick host tick t d w ≡ record {
        goes_on = true;
        timers = zero_timers;
        daemon = record d { store = gc d.store tick.now };
        world = w;
      }
  unfolding on_tick is_busy
  tick_busy tick t d w h = rw (on_tick, busy-gc tick.now d, h) refl

  -- While a lease is live or an acquire is on its way, a tick stops nothing and touches nothing but
  -- the leases that `gc` collects: the loop goes on, both timers start again, and the world is as
  -- it was.
  pub on_tick_busy :
      (tick : Tick) (t : Timers) (d : Daemon W) (w : W)
      → (0 < active_count d.store tick.now) ⊎ (0 < d.acquire_in_flight)
      → on_tick host tick t d w ≡ record {
        goes_on = true;
        timers = zero_timers;
        daemon = record d { store = gc d.store tick.now };
        world = w;
      }
  on_tick_busy tick t d w h = tick_busy tick t d w (busy_of tick.now d h)

-- No lease is live and no acquire is on its way; the daemon's timer is set, and the daemon's TTL has
-- gone by since.
unfoldable pub IsDue : {W : Type 0} → Tick → Timers → Daemon W → Type 0
IsDue tick t d =
    ((active_count d.store tick.now ≡ 0) × (d.acquire_in_flight ≡ 0))
    × ((t.idle_since ≢ 0) × (leb_ℤ d.cfg.idle_ttl (sub_ℕ tick.now t.idle_since) ≡ true))

-- What a tick that stops the service alone leaves of the daemon.
pub record IsLike {W : Type 0} (d d' : Daemon W) : Type 0 where
  pub same_cfg : d'.cfg ≡ d.cfg
  pub same_store : d'.store ≡ d.store
  pub same_flight : d'.acquire_in_flight ≡ d.acquire_in_flight

module _ {W : Type 0} (host : Host W) where
  pub reap_sut-IsLike :
      (tick : Tick) (t : Timers) (d : Daemon W) (w : W)
      → ((reap_sut host tick t d w).0.idle_since ≡ t.idle_since)
        × IsLike d (reap_sut host tick t d w).1
  unfolding reap_sut
  reap_sut-IsLike tick t d w = elim (Bool-cases (t.sut_idle_since == 0)) [
    | inl e ↦
        rw (reap_sut, e) (refl, record { same_cfg = refl; same_store = refl; same_flight = refl })
    | inr e ↦ elim (Bool-cases (has_elapsed tick.now t.sut_idle_since (idle_ttl d.sut))) [
      | inl f ↦
          rw (reap_sut, e, f)
            (refl, record { same_cfg = refl; same_store = refl; same_flight = refl })
      | inr f ↦
          rw (reap_sut, e, f)
            (refl, record { same_cfg = refl; same_store = refl; same_flight = refl })
    ]
  ]

  -- The timer of the daemon after a tick, and whether it stops the daemon.
  pub reap_daemon-first :
      (tick : Tick) (t : Timers) (d : Daemon W) (w : W)
      → t.idle_since ≡ 0
      → reap_daemon host tick t d w ≡ record {
        goes_on = true;
        timers = record t { idle_since = tick.now };
        daemon = d;
        world = w;
      }
  unfolding reap_daemon
  reap_daemon-first tick t d w z = rw (reap_daemon, (==_iff t.idle_since 0).1 z) refl

  pub reap_daemon-early :
      (tick : Tick) (t : Timers) (d : Daemon W) (w : W)
      → (t.idle_since == 0) ≡ false
      → has_elapsed tick.now t.idle_since d.cfg.idle_ttl ≡ false
      → reap_daemon host tick t d w ≡ record { goes_on = true; timers = t; daemon = d; world = w }
  unfolding reap_daemon
  reap_daemon-early tick t d w z e = rw (reap_daemon, z, e) refl

  stop_containers_only-closed :
      (d : Daemon W) (w : W) → (stop_containers_only host d w).1.is_closed ≡ d.is_closed
  unfolding stop_containers_only
  stop_containers_only-closed d w = elim (Bool-cases d.infra_started) [
    | inl e ↦ simp (stop_containers_only, e) refl
    | inr e ↦ simp (stop_containers_only, e) refl
  ]

  shut_down-closed :
      (chosen : StopSelect) (d : Daemon W) (w : W) → (shut_down host chosen d w).0.is_closed ≡ true
  unfolding shut_down
  shut_down-closed chosen d w =
      let r = stop_sut_only host chosen (record d { is_closed = true }) w in
      stop_containers_only-closed r.1 r.2

  pub shutdown_server-closed :
      (chosen : StopSelect) (d : Daemon W) (w : W)
      → (shutdown_server host chosen d w).0.is_closed ≡ true
  unfolding shutdown_server
  shutdown_server-closed chosen d w = elim (Bool-cases d.is_closed) [
    | inl e ↦ rw (shutdown_server, e) refl
    | inr e ↦ rw (shutdown_server, e) (shut_down-closed chosen d w)
  ]

  pub reap_daemon-due :
      (tick : Tick) (t : Timers) (d : Daemon W) (w : W)
      → (t.idle_since == 0) ≡ false
      → has_elapsed tick.now t.idle_since d.cfg.idle_ttl ≡ true
      → ((reap_daemon host tick t d w).goes_on ≡ false)
        × ((reap_daemon host tick t d w).daemon.is_closed ≡ true)
  unfolding reap_daemon
  reap_daemon-due tick t d w z e =
      rw (reap_daemon, z, e) (refl, shutdown_server-closed tick.shutdown_stop d w)

  -- Where a tick of an idle daemon goes: to the timer of the daemon, with what `reap_sut` leaves.
  pub on_tick_idle :
      (tick : Tick) (t : Timers) (d : Daemon W) (w : W)
      → is_busy tick.now d ≡ false
      → (t' : Timers) × ((d' : Daemon W) × ((w' : W) × ((t'.idle_since ≡ t.idle_since)
              × (IsLike (collect_leases tick.now d) d'
                  × (on_tick host tick t d w ≡ reap_daemon host tick t' d' w')))))
  unfolding on_tick
  on_tick_idle tick t d w h =
      let d1 = collect_leases tick.now d in
      let (a, b) = reap_sut-IsLike tick t d1 w in
      (
        (reap_sut host tick t d1 w).0,
        (
          (reap_sut host tick t d1 w).1,
          ((reap_sut host tick t d1 w).2, (a, (b, rw (on_tick, busy-gc tick.now d, h) refl))),
        ),
      )

  pub on_tick_due :
      (tick : Tick) (t : Timers) (d : Daemon W) (w : W)
      → is_busy tick.now d ≡ false
      → (t.idle_since == 0) ≡ false
      → has_elapsed tick.now t.idle_since d.cfg.idle_ttl ≡ true
      → ((on_tick host tick t d w).goes_on ≡ false)
        × ((on_tick host tick t d w).daemon.is_closed ≡ true)
  on_tick_due tick t d w h z e =
      let (t', (d', (w', (a, (b, eq))))) = on_tick_idle tick t d w h in
      rw (eq) (reap_daemon-due tick t' d' w' (rw (a) z) (rw (a, b.same_cfg) e))

  tick_stops :
      (tick : Tick) (t : Timers) (d : Daemon W) (w : W)
      → (on_tick host tick t d w).goes_on ≡ false
      → IsDue tick t d
  unfolding IsDue
  tick_stops tick t d w h = elim (Bool-cases (is_busy tick.now d)) [
    | inl b ↦
        ground (arith, sym (ap (λ (r : Reaper W). r.goes_on) (tick_busy host tick t d w b)) ∙ h)
    | inr b ↦
        let (t', (d', (w', (a, (l, eq))))) = on_tick_idle tick t d w b in
        let h' = sym (ap (λ (r : Reaper W). r.goes_on) eq) ∙ h in
        elim (Bool-cases (t.idle_since == 0)) [
          | inl z ↦
              let first = reap_daemon-first tick t' d' w' (a ∙ (==_iff t.idle_since 0).0 z) in
              ground (arith, sym (ap (λ (r : Reaper W). r.goes_on) first) ∙ h')
          | inr z ↦ elim (Bool-cases (has_elapsed tick.now t.idle_since d.cfg.idle_ttl)) [
            | inl e ↦ ((idle_iff tick.now d).0 b, ((set_iff t.idle_since).0 z, e))
            | inr e ↦
                let early = reap_daemon-early tick t' d' w' (rw (a) z) (rw (a, l.same_cfg) e) in
                ground (arith, sym (ap (λ (r : Reaper W). r.goes_on) early) ∙ h')
          ]
        ]
  ]

  -- A tick ends the loop exactly when no lease is live, no acquire is on its way, the daemon's timer
  -- is set, and the daemon's TTL has gone by since it was.
  pub on_tick_stops :
      (tick : Tick) (t : Timers) (d : Daemon W) (w : W)
      → ((on_tick host tick t d w).goes_on ≡ false) ↔ IsDue tick t d
  unfolding IsDue
  on_tick_stops tick t d w = (
    tick_stops tick t d w,
    (λ h.
        (on_tick_due tick t d w ((idle_iff tick.now d).1 h.0) ((set_iff t.idle_since).1 h.1.0)
          h.1.1).0),
  )
