-- ===== src/Daemon/Interleaved.antt =====
-- daemon/server.go: `handleAcquire` in steps, among the ticks of `loopReaper`.
pub mod Atomic
use testcontainerd.Prelude.{
  ℕ, zero, suc, ◌<◌, ◌≡◌, refl, sym, ◌∙◌, ap, true, false, Bool-cases, List, [], ◌∷◌, Option, none,
  some, Option-cases, inl, inr, arith, if◌then◌else◌,
}
use testcontainerd.Prelude.Results.{ok}
use testcontainerd.Errors.{Error}
use testcontainerd.LeaseStore.{LeaseStore, gc}
use testcontainerd.Bundle.{Bundle, start_all}
use testcontainerd.SutManager.{SutManager}
use testcontainerd.SutManager.Boot.{ensure_started}
use testcontainerd.Daemon.{Daemon, Host, sut_input, ensure_infra_started, ensure_sut_started}
use testcontainerd.Daemon.Protocol.{AcquireReq, Request, Response, is_post}
use testcontainerd.Daemon.Handlers.{
  Meets, internal_error, grant, enter_flight, leave_flight, acquire_sut, acquire_infra,
  acquire_body, handle_acquire,
}
use testcontainerd.Daemon.Reaper.{
  Timers, zero_timers, Tick, Reaper, collect_leases, on_tick, loop_reaper,
}
use testcontainerd.Daemon.Idle.{on_tick_busy}
use testcontainerd.Daemon.Expiring.{undisturbed, turn}

module _ {W : Type 0} (host : Host W) where
  -- Ticks of `loopReaper`.
  abbrev pub reap : List Tick → Reaper W → Reaper W
  reap ticks r = loop_reaper host (undisturbed ticks) r

  -- From the writing of the response on: `ticks`, and `acquireInFlight.Add(-1)`.
  unfoldable pub leave_among : List Tick → Response → Reaper W → Response × Reaper W
  unfolding loop_reaper
  leave_among ticks response r =
      let r' = reap ticks r in (response, record r' { daemon = leave_flight r'.daemon })

module _ {W : Type 0} (host : Host W) (fuel : ℕ) (meets : Meets) where
  -- From `ensureSUTStarted` on, with the ticks that come after it.
  unfoldable pub sut_among : List Tick → AcquireReq → Reaper W → Option (Response × Reaper W)
  unfolding ensure_sut_started grant leave_among
  sut_among ticks req r = elim (ensure_sut_started host fuel meets.startup r.daemon r.world) [
    | none ↦ none
    | some s ↦
        let (e, d, w) = s in
        elim e [
          | some x ↦
              some (leave_among host ticks (internal_error x) (record r { daemon = d; world = w }))
          | none ↦
              let (response, d') = grant meets req d in
              some (leave_among host ticks response (record r { daemon = d'; world = w }))
        ]
  ]

  -- From `ensureInfraStarted` on, with the ticks that come after it and those at the end.
  unfoldable pub infra_among :
      List Tick → List Tick → AcquireReq → Reaper W → Option (Response × Reaper W)
  unfolding ensure_infra_started sut_among loop_reaper
  infra_among middle last req r = elim (ensure_infra_started host meets.events r.daemon r.world) [
    | none ↦ none
    | some s ↦
        let (e, d, w) = s in
        let r' = reap host middle (record r { daemon = d; world = w }) in
        elim e [
          | some x ↦ some (leave_among host last (internal_error x) r')
          | none ↦ sut_among last req r'
        ]
  ]

  -- `handleAcquire` of a decoded request, with ticks at its start too.
  unfoldable pub acquire_among :
      List Tick
      → List Tick
      → List Tick
      → AcquireReq
      → Timers
      → Daemon W
      → W
      → Option (Response × Reaper W)
  unfolding infra_among loop_reaper
  acquire_among first middle last req t d w =
      infra_among middle last req
        (reap host first record { goes_on = true; timers = t; daemon = enter_flight d; world = w })
