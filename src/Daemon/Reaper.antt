-- ===== src/Daemon/Reaper.antt =====
-- daemon/server.go, `loopReaper`: the loop that collects leases and stops what is idle.
use testcontainerd.Prelude.{ℕ, Bool, true, false, List, [], ◌∷◌, ltb, ◌==◌, if◌then◌else◌, ◌||◌}
use testcontainerd.Prelude.Int.{ℤ, sub_ℕ, leb_ℤ}
use testcontainerd.LeaseStore.{active_count, gc}
use testcontainerd.SutManager.{StopSelect, idle_ttl}
use testcontainerd.Daemon.{Daemon, Host, stop_sut_only, shutdown_server}

-- `idleSince` and `sutIdleSince`; 0 is the zero time.
pub record Timers : Type 0 where
  pub idle_since : ℕ
  pub sut_idle_since : ℕ

abbrev pub zero_timers : Timers
zero_timers = record { idle_since = 0; sut_idle_since = 0 }

-- A value of the ticker: the clock, and the cases of the two `select`s that `stop` may meet.
pub record Tick : Type 0 where
  pub now : ℕ
  pub sut_stop : StopSelect
  pub shutdown_stop : StopSelect

-- `now.Sub(since) >= ttl`.
abbrev pub has_elapsed : ℕ → ℕ → ℤ → Bool
has_elapsed now since ttl = leb_ℤ ttl (sub_ℕ now since)

pub record Reaper (W : Type 0) : Type 0 where
  pub goes_on : Bool
  pub timers : Timers
  pub daemon : Daemon W
  pub world : W

-- What the `select` finds: `done` closed, or a value of the ticker, after the calls that the daemon
-- had since the one before.
pub data Turn (W : Type 0) : Type 0 where
  closes : Turn W
  ticks : (Daemon W → W → Daemon W × W) → Tick → Turn W

module _ {W : Type 0} where
  -- A live lease, or an acquire on its way.
  unfoldable pub is_busy : ℕ → Daemon W → Bool
  unfolding active_count
  is_busy now d = ltb 0 (active_count d.store now) || ltb 0 d.acquire_in_flight

  abbrev pub collect_leases : ℕ → Daemon W → Daemon W
  collect_leases now d = record d { store = gc d.store now }

module _ {W : Type 0} (host : Host W) where
  -- The timer of the service.
  unfoldable pub reap_sut : Tick → Timers → Daemon W → W → Timers × Daemon W × W
  unfolding stop_sut_only idle_ttl
  reap_sut tick t d w =
      let (_, d', w') = stop_sut_only host tick.sut_stop d w in
      if t.sut_idle_since == 0
      then (record t { sut_idle_since = tick.now }, d, w)
      else if has_elapsed tick.now t.sut_idle_since (idle_ttl d.sut)
      then (t, d', w')
      else (t, d, w)

  -- The timer of the daemon.
  unfoldable pub reap_daemon : Tick → Timers → Daemon W → W → Reaper W
  unfolding shutdown_server
  reap_daemon tick t d w =
      let (d', w') = shutdown_server host tick.shutdown_stop d w in
      if t.idle_since == 0
      then record {
        goes_on = true;
        timers = record t { idle_since = tick.now };
        daemon = d;
        world = w;
      }
      else if has_elapsed tick.now t.idle_since d.cfg.idle_ttl
      then record { goes_on = false; timers = t; daemon = d'; world = w' }
      else record { goes_on = true; timers = t; daemon = d; world = w }

  -- One value of the ticker.
  unfoldable pub on_tick : Tick → Timers → Daemon W → W → Reaper W
  unfolding is_busy gc reap_sut reap_daemon
  on_tick tick t d w =
      let d1 = collect_leases tick.now d in
      let (t', d', w') = reap_sut tick t d1 w in
      if is_busy tick.now d1
      then record { goes_on = true; timers = zero_timers; daemon = d1; world = w }
      else reap_daemon tick t' d' w'

  -- The rest of a tick, once `active` is read: a call may change the daemon before
  -- `acquireInFlight.Load` reads it.
  unfoldable pub resume_tick : Tick → Timers → ℕ → Daemon W → W → Reaper W
  unfolding reap_sut reap_daemon
  resume_tick tick t active d w =
      let (t', d', w') = reap_sut tick t d w in
      if ltb 0 active || ltb 0 d.acquire_in_flight
      then record { goes_on = true; timers = zero_timers; daemon = d; world = w }
      else reap_daemon tick t' d' w'

  -- The loop, over what its `select` finds.
  unfoldable pub loop_reaper : List (Turn W) → Reaper W → Reaper W
  unfolding on_tick
  loop_reaper [] r = r
  loop_reaper (closes ∷ turns) r = record r { goes_on = false }
  loop_reaper (ticks calls tick ∷ turns) r =
      let (d, w) = calls r.daemon r.world in
      let next = loop_reaper turns (on_tick tick r.timers d w) in if r.goes_on then next else r
