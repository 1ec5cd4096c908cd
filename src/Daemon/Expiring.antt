-- ===== src/Daemon/Expiring.antt =====
-- daemon/server.go, `loopReaper`: an idle daemon is stopped.
use testcontainerd.Prelude.{
  ℕ, ◌≤◌, ◌≡◌, ◌≢◌, ◌<◌, refl, sym, ◌∙◌, true, false, List, [], ◌∷◌, arith, Bool-cases, ◌⊎◌, inl,
  inr, ◌==◌,
}
use testcontainerd.Prelude.Int.{ℤ}
use testcontainerd.LeaseStore.{active_count}
use testcontainerd.LeaseStore.Expiry.{active_count-gc, active_count_mono}
use testcontainerd.Daemon.{Daemon, Host}
use testcontainerd.Daemon.Reaper.{
  Timers, Tick, Reaper, Turn, ticks, is_busy, collect_leases, has_elapsed, on_tick, loop_reaper,
}
use testcontainerd.Daemon.Idle.{
  IsLike, on_tick_due, on_tick_idle, reap_daemon-first, reap_daemon-early,
}

-- The clock does not go back, from the given time on.
unfoldable pub Later : ℕ → List Tick → Type 0
Later prev [] = Unit
Later prev (tick ∷ rest) = (prev ≤ tick.now) × Later tick.now rest

-- Some tick comes a TTL or more after the given time.
unfoldable pub HasDue : ℕ → ℤ → List Tick → Type 0
HasDue since ttl [] = ⊥
HasDue since ttl (tick ∷ rest) = (has_elapsed tick.now since ttl ≡ true) ⊎ HasDue since ttl rest

-- Ticks with no calls in between.
unfoldable pub undisturbed : {W : Type 0} → List Tick → List (Turn W)
undisturbed [] = []
undisturbed (tick ∷ rest) = ticks (λ d w. (d, w)) tick ∷ undisturbed rest

idle-is_busy :
    {W : Type 0} (prev now : ℕ) (d : Daemon W)
    → prev ≤ now
    → active_count d.store prev ≡ 0
    → d.acquire_in_flight ≡ 0
    → is_busy now d ≡ false
unfolding is_busy
idle-is_busy prev now d h a f = ground (arith, active_count_mono d.store prev now h)

stopped_stays :
    {W : Type 0} (host : Host W) (rest : List Tick) (r : Reaper W)
    → r.goes_on ≡ false
    → loop_reaper host (undisturbed rest) r ≡ r
unfolding loop_reaper undisturbed
stopped_stays host [] r h = refl
stopped_stays host (tick ∷ rest) r h = simp (loop_reaper, h) refl

-- One turn of a loop that goes on.
pub turn :
    {W : Type 0} (host : Host W) (tick : Tick) (rest : List Tick) (t : Timers) (d : Daemon W)
    (w : W)
    → loop_reaper host
        (undisturbed (tick ∷ rest))
        record { goes_on = true; timers = t; daemon = d; world = w }
      ≡ loop_reaper host (undisturbed rest) (on_tick host tick t d w)
unfolding loop_reaper undisturbed
turn host tick rest t d w = refl

-- What is left stopped, for good.
pub Stops : {W : Type 0} → Reaper W → Type 0
Stops r = (r.goes_on ≡ false) × (r.daemon.is_closed ≡ true)

differ : true ≢ false
differ e = ground arith

still_quiet :
    {W : Type 0} (prev now : ℕ) (d d' : Daemon W)
    → prev ≤ now
    → active_count d.store prev ≡ 0
    → IsLike (collect_leases now d) d'
    → active_count d'.store now ≡ 0
still_quiet prev now d d' h a k =
    rw (k.same_store, (active_count-gc d.store now).0)
      (ground (arith, active_count_mono d.store prev now h))

idle_run :
    {W : Type 0} (host : Host W) (rest : List Tick) (prev : ℕ) (t : Timers) (d : Daemon W) (w : W)
    → Later prev rest
    → active_count d.store prev ≡ 0
    → d.acquire_in_flight ≡ 0
    → (t.idle_since == 0) ≡ false
    → HasDue t.idle_since d.cfg.idle_ttl rest
    → Stops (
        loop_reaper host
          (undisturbed rest)
          record { goes_on = true; timers = t; daemon = d; world = w })
unfolding Later HasDue Stops
idle_run host [] prev t d w l a f z h = elim h [ ]
idle_run host (tick ∷ rest) prev t d w l a f z h =
    let b = idle-is_busy prev tick.now d l.0 a f in
    elim (Bool-cases (has_elapsed tick.now t.idle_since d.cfg.idle_ttl)) [
      | inl e ↦
          let s = on_tick_due host tick t d w b z e in
          rw (turn host tick rest t d w, stopped_stays host rest (on_tick host tick t d w) s.0) s
      | inr e ↦
          let (t', (d', (w', (c, (k, eq))))) = on_tick_idle host tick t d w b in
          let step = eq ∙ reap_daemon-early host tick t' d' w' (rw (c) z) (rw (c, k.same_cfg) e) in
          let later : HasDue t.idle_since d.cfg.idle_ttl rest = elim h [
            | inl x ↦ elim (differ (sym x ∙ e)) [ ]
            | inr r ↦ r
          ] in
          rw (turn host tick rest t d w, step)
            (idle_run host rest tick.now t' d' w' l.1 (still_quiet prev tick.now d d' l.0 a k)
              (k.same_flight ∙ f) (rw (c) z) (rw (c, k.same_cfg) later))
    ]

-- A daemon with no live lease and no acquire on its way, that is not called again, is stopped: the
-- first tick sets its timer, and the loop ends, with `done` closed, if some later tick comes the
-- daemon's idle TTL or more after it. The clock must not go back.
pub loop_reaper-undisturbed :
    {W : Type 0} (host : Host W) (tick : Tick) (rest : List Tick) (prev : ℕ) (t : Timers)
    (d : Daemon W) (w : W)
    → Later prev (tick ∷ rest)
    → active_count d.store prev ≡ 0
    → d.acquire_in_flight ≡ 0
    → t.idle_since ≡ 0
    → 0 < tick.now
    → HasDue tick.now d.cfg.idle_ttl rest
    → Stops (
        loop_reaper host
          (undisturbed (tick ∷ rest))
          record { goes_on = true; timers = t; daemon = d; world = w })
unfolding Later
loop_reaper-undisturbed host tick rest prev t d w l a f z p h =
    let b = idle-is_busy prev tick.now d l.0 a f in
    let (t', (d', (w', (c, (k, eq))))) = on_tick_idle host tick t d w b in
    let step = eq ∙ reap_daemon-first host tick t' d' w' (c ∙ z) in
    rw (turn host tick rest t d w, step)
      (idle_run host rest tick.now (record t' { idle_since = tick.now }) d' w' l.1
        (still_quiet prev tick.now d d' l.0 a k) (k.same_flight ∙ f) (ground arith)
        (rw (k.same_cfg) h))
