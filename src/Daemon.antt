-- ===== src/Daemon.antt =====
-- daemon/server.go and daemon/lifecycle.go: the daemon. A handler here is one call from its start to
-- its end. What a call meets (the clock, the events of the goroutines that it starts, the rounds of
-- a probe, the case of a `select`) is an argument, and what acts on the world is a parameter.
pub mod Protocol
pub mod Handlers
pub mod Reaper
pub mod Granting
pub mod Idle
pub mod Expiring
pub mod Serving
pub mod Shutdown
pub mod Defaults
pub mod Race
pub mod Interleaved
pub mod Router
pub mod Start
use testcontainerd.Prelude.{
  ℕ, zero, suc, ◌+◌, ◌-◌, ◌*◌, ◌/◌, ◌%◌, Bool, true, false, ◌||◌, not, List, [], ◌∷◌, Option, none,
  some, Text, lit, ltb, ◌==◌, is_nil, text_eq, trim_space, if◌then◌else◌,
}
use testcontainerd.Prelude.Int.{ℤ, pos, negsuc, is_pos, sub_ℕ, leb_ℤ}
use testcontainerd.Prelude.Results.{Result, ok, err}
use testcontainerd.Errors.{Error, message}
use testcontainerd.LeaseStore.{
  LeaseStore, new_lease_store, second, lease_ttl, acquire, heartbeat, release, active_count, gc,
}
use testcontainerd.Registration.{Registration, Container}
use testcontainerd.Bundle.{Bundle, new_bundle, start_all, stop_all}
use testcontainerd.Bundle.Pool.{Event}
use testcontainerd.Bundle.Names.{containers}
use testcontainerd.Runtime.{Files}
use testcontainerd.Runtime.Paths.{default_runtime_path}
use testcontainerd.SutManager.{
  SutManager, SutBootPlan, StartSutInput, Startup, StopSelect, new_sut_manager, snapshot, idle_ttl,
}
use testcontainerd.SutManager.Boot.{ensure_started}
use testcontainerd.SutManager.Halting.{stop}
use testcontainerd.SutManager.Process.{System}
use Protocol.{
  AcquireReq, HeartbeatReq, ReleaseReq, Response, Request, acquired, done, state, write_error,
  is_post, is_get, bad_request, unauthorized, not_found, internal, status_ok, status_bad_request,
  status_unauthorized, status_not_found, status_method_not_allowed, status_internal_server_error,
}

pub record Config (W : Type 0) : Type 0 where
  pub addr : Text
  pub token : Text
  pub project : Text
  pub runtime_path : Text
  pub idle_ttl : ℤ
  pub sut : Option (SutBootPlan W)

-- `is_closed`: `shutdownOnce` has run, so that `done` is closed. `serves`: `httpServer` is set.
pub record Daemon (W : Type 0) : Type 0 where
  pub cfg : Config W
  pub bundle : Bundle W
  pub store : LeaseStore
  pub serves : Bool
  pub started_at : ℕ
  pub runtime_path : Text
  pub sut : SutManager W
  pub infra_started : Bool
  pub is_closed : Bool
  pub acquire_in_flight : ℕ

-- What acts on the world: the operating system, the files, `Terminate` of a container,
-- `os.Remove`, and `httpServer.Shutdown`.
pub record Host (W : Type 0) : Type 0 where
  pub os : System W
  pub fs : Files W
  pub terminate : Container → W → Option Error × W
  pub remove : Text → W → W
  pub shutdown_http : W → W

-- The input of a start of the service.
abbrev pub sut_input : {W : Type 0} → Config W → StartSutInput
sut_input cfg = record { project = cfg.project; runtime_path = cfg.runtime_path }

-- `fmt.Sprintf("%d", n)`, for a number of at most that many digits, before the text that follows.
unfoldable pub format_digits : ℕ → ℕ → Text → Text
format_digits zero n s = s
format_digits (suc fuel) n s =
    let rest = format_digits fuel (n / 10) ((b'0' + n % 10) ∷ s) in
    if n == 0 then (if is_nil s then lit "0" else s) else rest

-- `d.Seconds()`, cut off towards zero to a whole number.
unfoldable pub whole_seconds : ℤ → ℤ
whole_seconds (pos n) = pos (n / second)
whole_seconds (negsuc n) = sub_ℕ 0 (suc n / second)

module _ {W : Type 0} where
  -- The defaults of `New`; a time in nanoseconds of 64 bits has at most 19 digits.
  unfoldable pub with_defaults : Text → ℕ → Config W → Config W
  unfolding default_runtime_path format_digits
  with_defaults temp unix_nano cfg = record {
    addr = if is_nil cfg.addr then lit "127.0.0.1:0" else cfg.addr;
    token = if is_nil cfg.token then format_digits 20 unix_nano [] else cfg.token;
    project = if is_nil (trim_space cfg.project) then lit "default" else cfg.project;
    runtime_path =
        if is_nil cfg.runtime_path
        then default_runtime_path temp (lit "default")
        else cfg.runtime_path;
    idle_ttl = if is_pos cfg.idle_ttl then cfg.idle_ttl else pos (15 * second);
    sut = cfg.sut;
  }

  -- `New`, where the clock reads `unix_nano` for the token and `now` for the start.
  unfoldable pub new_daemon :
      Text → ℕ → ℕ → Config W → List (Registration W) → Result Error (Daemon W)
  unfolding with_defaults new_bundle
  new_daemon temp unix_nano now cfg regs =
      let cfg' = with_defaults temp unix_nano cfg in
      elim (new_bundle regs) [
        | err e ↦ err e
        | ok bundle ↦ ok record {
          cfg = cfg';
          bundle = bundle;
          store = new_lease_store;
          serves = false;
          started_at = now;
          runtime_path = cfg'.runtime_path;
          sut = new_sut_manager cfg'.sut;
          infra_started = false;
          is_closed = false;
          acquire_in_flight = 0;
        }
      ]

module _ {W : Type 0} (host : Host W) where
  -- `none`: the events are no complete run of the goroutines that start the containers.
  unfoldable pub ensure_infra_started :
      List Event → Daemon W → W → Option (Option Error × Daemon W × W)
  unfolding start_all
  ensure_infra_started events d w =
      if d.infra_started
      then some (none, d, w)
      else elim (start_all host.terminate d.bundle events w) [
        | none ↦ none
        | some r ↦
            let (e, bundle, w') = r in
            some (
              e,
              record d { bundle = bundle; infra_started = elim e [ none ↦ true | some x ↦ false ] },
              w',
            )
      ]

  unfoldable pub stop_containers_only : Daemon W → W → Option Error × Daemon W × W
  unfolding stop_all
  stop_containers_only d w =
      let (e, bundle, w') = stop_all host.terminate d.bundle w in
      if d.infra_started
      then (
        e,
        record d { bundle = bundle; infra_started = elim e [ none ↦ false | some x ↦ true ] },
        w',
      )
      else (none, d, w)

  -- `none`: the fuel of the probe ran out.
  unfoldable pub ensure_sut_started :
      ℕ → Startup → Daemon W → W → Option (Option Error × Daemon W × W)
  unfolding ensure_started
  ensure_sut_started fuel seen d w =
      elim (ensure_started host.os host.fs fuel seen d.sut (sut_input d.cfg) w) [
        | none ↦ none
        | some r ↦ let (e, sut, w') = r in some (e, record d { sut = sut }, w')
      ]

  unfoldable pub stop_sut_only : StopSelect → Daemon W → W → Option Error × Daemon W × W
  unfolding stop
  stop_sut_only chosen d w =
      let (e, sut, w') = stop host.os chosen d.sut w in (e, record d { sut = sut }, w')

  -- `tcdruntime.Remove`.
  unfoldable pub remove_runtime : Text → W → W
  unfolding default_runtime_path
  remove_runtime path w =
      host.remove (if is_nil path then default_runtime_path host.fs.temp (lit "default") else path)
        w

  -- The body of `shutdownOnce`.
  unfoldable pub shut_down : StopSelect → Daemon W → W → Daemon W × W
  unfolding stop_sut_only stop_containers_only remove_runtime
  shut_down chosen d w =
      let (_, d1, w1) = stop_sut_only chosen (record d { is_closed = true }) w in
      let (_, d2, w2) = stop_containers_only d1 w1 in
      let w3 = if d2.serves then host.shutdown_http w2 else w2 in
      (d2, remove_runtime d2.runtime_path w3)

  unfoldable pub shutdown_server : StopSelect → Daemon W → W → Daemon W × W
  unfolding shut_down
  shutdown_server chosen d w = if d.is_closed then (d, w) else shut_down chosen d w
