-- ===== src/Daemon/Handlers.antt =====
-- daemon/server.go: `withAuth` and the handlers. A handler gives a response and what it leaves.
use testcontainerd.Prelude.{
  ℕ, suc, ◌-◌, Bool, true, ◌||◌, not, List, Option, none, some, lit, is_nil, text_eq, trim_space,
  if◌then◌else◌,
}
use testcontainerd.Prelude.Results.{ok, err}
use testcontainerd.Errors.{Error, message}
use testcontainerd.LeaseStore.{lease_ttl, acquire, heartbeat, release, active_count}
use testcontainerd.Bundle.Pool.{Event}
use testcontainerd.Bundle.Names.{containers}
use testcontainerd.SutManager.{Startup, snapshot}
use testcontainerd.Daemon.{Daemon, Host, ensure_infra_started, ensure_sut_started, whole_seconds}
use testcontainerd.Daemon.Protocol.{
  AcquireReq, HeartbeatReq, ReleaseReq, Response, Request, acquired, done, state, write_error,
  is_post, is_get, bad_request, unauthorized, not_found, internal, status_ok, status_bad_request,
  status_unauthorized, status_not_found, status_method_not_allowed, status_internal_server_error,
}

-- What a call of `handleAcquire` meets: the events of the goroutines that start containers, the
-- start of the service, the random bytes of the id, the clock in `acquire`, and after it.
pub record Meets : Type 0 where
  pub events : List Event
  pub startup : Startup
  pub bytes : List ℕ
  pub now : ℕ
  pub then_now : ℕ

abbrev pub invalid_method : Response
invalid_method = write_error status_method_not_allowed bad_request (lit "invalid method")

abbrev pub lease_not_found : Response
lease_not_found = write_error status_not_found not_found (lit "lease not found")

abbrev pub internal_error : Error → Response
internal_error e = write_error status_internal_server_error internal (message e)

module _ {W : Type 0} where
  -- Is the request let through?
  unfoldable pub is_authorized : {A : Type 0} → Daemon W → Request A → Bool
  is_authorized d r =
      let token = trim_space r.token in not (is_nil token || not (text_eq token d.cfg.token))

  -- `withAuth`: the guard before a handler, whose call has an `R`; `answer` is the call that only
  -- writes a response.
  unfoldable pub with_auth :
      {A R : Type 0} → Daemon W → (Request A → R) → (Response → R) → Request A → R
  unfolding is_authorized
  with_auth d next answer r =
      if is_authorized d r
      then next r
      else answer (write_error status_unauthorized unauthorized (lit "unauthorized"))

  unfoldable pub handle_heartbeat : ℕ → Request HeartbeatReq → Daemon W → Response × Daemon W
  handle_heartbeat now r d =
      if is_post r
      then elim r.decoded [
        | err e ↦ (write_error status_bad_request bad_request (message e), d)
        | ok req ↦
            let (store, found) = heartbeat d.store req.lease_id lease_ttl now in
            if found
            then (record { status = status_ok; body = done true }, record d { store = store })
            else (lease_not_found, record d { store = store })
      ]
      else (invalid_method, d)

  unfoldable pub handle_release : Request ReleaseReq → Daemon W → Response × Daemon W
  handle_release r d =
      if is_post r
      then elim r.decoded [
        | err e ↦ (write_error status_bad_request bad_request (message e), d)
        | ok req ↦
            let (store, found) = release d.store req.lease_id in
            if found
            then (record { status = status_ok; body = done true }, record d { store = store })
            else (lease_not_found, record d { store = store })
      ]
      else (invalid_method, d)

  unfoldable pub handle_state : {A : Type 0} → ℕ → Request A → Daemon W → Response × Daemon W
  unfolding snapshot active_count containers whole_seconds
  handle_state now r d =
      if is_get r
      then (let (sut_state, sut) = snapshot d.sut in
          (
            record {
              status = status_ok;
              body = state record {
                infra_ready = d.bundle.started;
                active_leases = active_count d.store now;
                containers = containers d.bundle;
                started_at = d.started_at;
                idle_ttl_second = whole_seconds d.cfg.idle_ttl;
                app_ready = sut_state.ready;
                app_pid = sut_state.pid;
                app_started_at = sut_state.started_at;
                app_restarts = sut_state.restart_count;
                app_last_error = sut_state.last_error;
              };
            },
            record d { sut = sut },
          ))
      else (invalid_method, d)

  -- `acquireInFlight.Add(1)` and `acquireInFlight.Add(-1)`.
  abbrev pub enter_flight : Daemon W → Daemon W
  enter_flight d = record d { acquire_in_flight = suc d.acquire_in_flight }

  abbrev pub leave_flight : Daemon W → Daemon W
  leave_flight d = record d { acquire_in_flight = d.acquire_in_flight - 1 }

  -- The end of `handleAcquire`: both parts are ready.
  unfoldable pub grant : Meets → AcquireReq → Daemon W → Response × Daemon W
  grant meets req d =
      let (store, l) = acquire d.store meets.bytes req.pid lease_ttl meets.now in
      (
        record {
          status = status_ok;
          body = acquired record { lease_id = l.id; acquired_at = meets.then_now };
        },
        record d { store = store },
      )

module _ {W : Type 0} (host : Host W) (fuel : ℕ) (meets : Meets) where
  -- `handleAcquire` from `ensureSUTStarted` on; `none` is no complete run, or fuel run out.
  unfoldable pub acquire_sut : AcquireReq → Daemon W → W → Option (Response × Daemon W × W)
  unfolding ensure_sut_started grant
  acquire_sut req d w = elim (ensure_sut_started host fuel meets.startup d w) [
    | none ↦ none
    | some r ↦
        let (e, d', w') = r in
        elim e [
          | some x ↦ some (internal_error x, d', w')
          | none ↦ let (response, d'') = grant meets req d' in some (response, d'', w')
        ]
  ]

  -- From `ensureInfraStarted` on.
  unfoldable pub acquire_infra : AcquireReq → Daemon W → W → Option (Response × Daemon W × W)
  unfolding ensure_infra_started acquire_sut
  acquire_infra req d w = elim (ensure_infra_started host meets.events d w) [
    | none ↦ none
    | some r ↦
        let (e, d', w') = r in
        elim e [ some x ↦ some (internal_error x, d', w') | none ↦ acquire_sut req d' w' ]
  ]

  -- From the decoding of the body on.
  unfoldable pub acquire_body : Request AcquireReq → Daemon W → W → Option (Response × Daemon W × W)
  unfolding acquire_infra
  acquire_body r d w = elim r.decoded [
    | err e ↦ some (write_error status_bad_request bad_request (message e), d, w)
    | ok req ↦ acquire_infra req d w
  ]

  unfoldable pub handle_acquire :
      Request AcquireReq → Daemon W → W → Option (Response × Daemon W × W)
  unfolding acquire_body
  handle_acquire r d w =
      if is_post r
      then elim (acquire_body r (enter_flight d) w) [
        | none ↦ none
        | some s ↦ let (response, d', w') = s in some (response, leave_flight d', w')
      ]
      else some (invalid_method, d, w)
