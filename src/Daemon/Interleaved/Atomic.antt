-- ===== src/Daemon/Interleaved/Atomic.antt =====
-- daemon/server.go, `handleAcquire` and `loopReaper`: that a call and the ticks do not disturb one
-- another.
use testcontainerd.Prelude.{
  ℕ, ◌<◌, ◌≡◌, refl, ◌∙◌, ap, true, false, Bool-cases, List, [], ◌∷◌, Option, none, some, inl, inr,
  arith,
}
use testcontainerd.Prelude.Results.{ok}
use testcontainerd.Errors.{Error}
use testcontainerd.LeaseStore.{LeaseStore, gc}
use testcontainerd.Bundle.{Bundle, start_all}
use testcontainerd.SutManager.{SutManager}
use testcontainerd.SutManager.Boot.{ensure_started}
use testcontainerd.Daemon.{Daemon, Host, sut_input, ensure_infra_started, ensure_sut_started}
use testcontainerd.Daemon.Protocol.{AcquireReq, Request, Response, is_post}
use testcontainerd.Daemon.Handlers.{
  Meets, internal_error, grant, enter_flight, leave_flight, acquire_sut, acquire_infra,
  acquire_body, handle_acquire,
}
use testcontainerd.Daemon.Reaper.{Timers, zero_timers, Tick, Reaper, collect_leases, loop_reaper}
use testcontainerd.Daemon.Idle.{on_tick_busy}
use testcontainerd.Daemon.Expiring.{undisturbed, turn}
use testcontainerd.Daemon.Interleaved.{reap, leave_among, sut_among, infra_among, acquire_among}

-- What ticks make of the timers of a busy daemon.
abbrev pub timers_after : List Tick → Timers → Timers
timers_after [] t = t
timers_after (tick ∷ ticks) t = zero_timers

-- What they make of the leases, and of the daemon.
abbrev pub gc_all : List Tick → LeaseStore → LeaseStore
gc_all [] store = store
gc_all (tick ∷ ticks) store = gc_all ticks (gc store tick.now)

module _ {W : Type 0} where
  abbrev pub collected : List Tick → Daemon W → Daemon W
  collected ticks d = record d { store = gc_all ticks d.store }

  abbrev pub going : Timers → Daemon W → W → Reaper W
  going t d w = record { goes_on = true; timers = t; daemon = d; world = w }

  -- An answer of `handleAcquire`, with what the ticks leave of the daemon that it leaves.
  abbrev pub reaped :
      List Tick → Timers → Option (Response × Daemon W × W) → Option (Response × Reaper W)
  reaped ticks t none = none
  reaped ticks t (some (response, d, w)) =
      some (response, going (timers_after ticks t) (collected ticks d) w)

module _ {W : Type 0} (host : Host W) (fuel : ℕ) (meets : Meets) where
  zero_timers-after : (ticks : List Tick) → timers_after ticks zero_timers ≡ zero_timers
  zero_timers-after [] = refl
  zero_timers-after (tick ∷ ticks) = refl

  reap-busy :
      (ticks : List Tick) (t : Timers) (d : Daemon W) (w : W)
      → 0 < d.acquire_in_flight
      → reap host ticks (going t d w) ≡ going (timers_after ticks t) (collected ticks d) w
  unfolding loop_reaper undisturbed
  reap-busy [] t d w h = refl
  reap-busy (tick ∷ ticks) t d w h =
      turn host tick ticks t d w
      ∙ (ap (reap host ticks) (on_tick_busy host tick t d w (inr h))
          ∙ (reap-busy ticks zero_timers (collect_leases tick.now d) w h
              ∙ ap (λ (s : Timers). going s (collected (tick ∷ ticks) d) w)
                  (zero_timers-after ticks)))

  leave-busy :
      (ticks : List Tick) (response : Response) (t : Timers) (d : Daemon W) (w : W)
      → 0 < d.acquire_in_flight
      → leave_among host ticks response (going t d w)
        ≡ (response, going (timers_after ticks t) (collected ticks (leave_flight d)) w)
  unfolding leave_among
  leave-busy ticks response t d w h =
      ap (λ (r : Reaper W). (response, record r { daemon = leave_flight r.daemon }))
        (reap-busy ticks t d w h)

  -- An answer of `handleAcquire` before its end, with the reaper after the last ticks.
  abbrev answer :
      List Tick → Timers → Option (Response × Daemon W × W) → Option (Response × Reaper W)
  answer ticks t none = none
  answer ticks t (some (response, d, w)) =
      some (response, going (timers_after ticks t) (collected ticks (leave_flight d)) w)

  sut_among-busy :
      (ticks : List Tick) (req : AcquireReq) (t : Timers) (d : Daemon W) (w : W)
      (o : Option (Option Error × SutManager W × W))
      → 0 < d.acquire_in_flight
      → ensure_started host.os host.fs fuel meets.startup d.sut (sut_input d.cfg) w ≡ o
      → sut_among host fuel meets ticks req (going t d w)
        ≡ answer ticks t (acquire_sut host fuel meets req d w)
  unfolding sut_among acquire_sut ensure_sut_started grant
  sut_among-busy ticks req t d w none h e = rw (sut_among, acquire_sut, ensure_sut_started, e) refl
  sut_among-busy ticks req t d w (some (some x, sut, w')) h e =
      rw (sut_among, acquire_sut, ensure_sut_started, e)
        (ap some (leave-busy ticks (internal_error x) t (record d { sut = sut }) w' h))
  sut_among-busy ticks req t d w (some (none, sut, w')) h e =
      let g = grant meets req (record d { sut = sut }) in
      rw (sut_among, acquire_sut, ensure_sut_started, e) (ap some (leave-busy ticks g.0 t g.1 w' h))

  infra_run-busy :
      (middle last : List Tick) (req : AcquireReq) (t : Timers) (d : Daemon W) (w : W)
      (o : Option (Option Error × Bundle W × W))
      → 0 < d.acquire_in_flight
      → d.infra_started ≡ false
      → start_all host.terminate d.bundle meets.events w ≡ o
      → infra_among host fuel meets middle last req (going t d w)
        ≡ answer last
            (timers_after middle t)
            (acquire_infra host fuel meets req (collected middle d) w)
  unfolding infra_among acquire_infra ensure_infra_started
  infra_run-busy middle last req t d w none h i e =
      simp (infra_among, acquire_infra, ensure_infra_started, i, e) refl
  infra_run-busy middle last req t d w (some (some x, b, w')) h i e =
      let d' : Daemon W = record d { bundle = b; infra_started = false } in
      let t' = timers_after middle t in
      simp (infra_among, acquire_infra, ensure_infra_started, i, e)
        (ap (λ (r : Reaper W). some (leave_among host last (internal_error x) r))
            (reap-busy middle t d' w' h)
          ∙ ap some (leave-busy last (internal_error x) t' (collected middle d') w' h))
  infra_run-busy middle last req t d w (some (none, b, w')) h i e =
      let d' : Daemon W = record d { bundle = b; infra_started = true } in
      simp (infra_among, acquire_infra, ensure_infra_started, i, e)
        (ap (sut_among host fuel meets last req) (reap-busy middle t d' w' h)
          ∙ sut_among-busy last req (timers_after middle t) (collected middle d') w' _ h refl)

  infra_up :
      (d : Daemon W) (w : W)
      → d.infra_started ≡ true
      → ensure_infra_started host meets.events d w ≡ some (none, d, w)
  unfolding ensure_infra_started
  infra_up d w i = rw (ensure_infra_started, i) refl

  infra_among-busy :
      (middle last : List Tick) (req : AcquireReq) (t : Timers) (d : Daemon W) (w : W)
      → 0 < d.acquire_in_flight
      → infra_among host fuel meets middle last req (going t d w)
        ≡ answer last
            (timers_after middle t)
            (acquire_infra host fuel meets req (collected middle d) w)
  unfolding infra_among acquire_infra
  infra_among-busy middle last req t d w h = elim (Bool-cases d.infra_started) [
    | inr i ↦ infra_run-busy middle last req t d w _ h i refl
    | inl i ↦
        let e = infra_up d w i in
        let e' = infra_up (collected middle d) w i in
        rw (infra_among, acquire_infra, e, e')
          (ap (sut_among host fuel meets last req) (reap-busy middle t d w h)
            ∙ sut_among-busy last req (timers_after middle t) (collected middle d) w _ h refl)
  ]

  answer-reaped :
      (ticks : List Tick) (t : Timers) (o : Option (Response × Daemon W × W))
      → answer ticks t o
        ≡ reaped ticks t (elim o [
          | none ↦ none
          | some s ↦ let (response, d, w) = s in some (response, leave_flight d, w)
        ])
  answer-reaped ticks t none = refl
  answer-reaped ticks t (some (response, d, w)) = refl

  -- Ticks of the reaper while `handleAcquire` works on a decoded request (before the containers are
  -- started, between these and the service, and after the lease is given) do nothing but collect
  -- leases and stop its timers: the answer, the daemon and the world are those of a call that nothing
  -- interleaves with, made on a daemon whose leases the first ticks have collected, and the last
  -- ticks then collect leases of the daemon that this call leaves. The reaper goes on.
  pub acquire_among-handle_acquire :
      (first middle last : List Tick) (r : Request AcquireReq) (req : AcquireReq) (t : Timers)
      (d : Daemon W) (w : W)
      → is_post r ≡ true
      → r.decoded ≡ ok req
      → acquire_among host fuel meets first middle last req t d w
        ≡ reaped last
            (timers_after middle (timers_after first t))
            (handle_acquire host fuel meets r (collected middle (collected first d)) w)
  unfolding acquire_among handle_acquire
  acquire_among-handle_acquire first middle last r req t d w p e =
      let d' = enter_flight d in
      let o = acquire_infra host fuel meets req (collected middle (collected first d')) w in
      simp (acquire_among, handle_acquire, acquire_body, p, e)
        (ap (infra_among host fuel meets middle last req) (reap-busy first t d' w (omega arith))
          ∙ (infra_among-busy middle last req (timers_after first t) (collected first d') w
                (omega arith)
              ∙ answer-reaped last (timers_after middle (timers_after first t)) o))
