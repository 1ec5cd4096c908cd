-- ===== src/Client.antt =====
-- client/client.go: the client of a test process. HTTP, JSON and the network are parameters; the
-- error that `http.NewRequestWithContext` may give is one of those of the call.
pub mod Calls
pub mod Leasing
pub mod Keeping
pub mod Stranger
pub mod Environ
pub mod Machine
pub mod Runner
pub mod Autostart
pub mod Starting
pub mod Stuck
pub mod StartLock
pub mod Connect
use testcontainerd.Prelude.{
  ℕ, ◌*◌, Bool, true, false, [], ◌++◌, Option, none, some, Text, lit, leb, is_nil, trim_space,
  if◌then◌else◌,
}
use testcontainerd.Prelude.Int.{ℤ, pos, is_pos}
use testcontainerd.Prelude.Results.{Result, ok, err}
use testcontainerd.Errors.{Error, daemon_error}
use testcontainerd.LeaseStore.{second}
use testcontainerd.Runtime.Paths.{default_runtime_path}
use testcontainerd.Daemon.Protocol.{
  AcquireResp, StateResp, ErrorResp, RuntimeInfo, HttpReply, Wire, Codec, path_acquire,
  path_heartbeat, path_release, path_state,
}

pub record Config : Type 0 where
  pub project : Text
  pub runtime_path : Text
  pub http_timeout : ℤ

pub record Client : Type 0 where
  pub cfg : Config
  pub base_url : Text
  pub token : Text

pub record LeaseInfo : Type 0 where
  pub lease_id : Text
  pub acquired_at : ℕ

-- A request as the client sends it, with its `HeaderToken`; a get has the empty body.
pub record HttpCall : Type 0 where
  pub method : Text
  pub url : Text
  pub token : Text
  pub body : Text

-- `http.Client.Do`, and the end of `net.DialTimeout` of an address.
pub record Http (W : Type 0) : Type 0 where
  pub send : HttpCall → W → Result Error HttpReply × W
  pub dial : Text → W → Option Error × W

-- The defaults of `New`.
unfoldable pub with_defaults : Text → Config → Config
unfolding default_runtime_path
with_defaults temp cfg =
    let project = if is_nil cfg.project then lit "default" else cfg.project in
    record {
      project = project;
      runtime_path =
          if is_nil cfg.runtime_path then default_runtime_path temp project else cfg.runtime_path;
      http_timeout = if is_pos cfg.http_timeout then cfg.http_timeout else pos (5 * second);
    }

-- The end of `post` and of `get`: an error status, or the message.
unfoldable pub open_reply : {B : Type 0} → Wire → Codec B → Result Error HttpReply → Result Error B
open_reply wire json (err e) = err e
open_reply wire json (ok r) =
    let e = wire.error_of r.body in
    if leb 400 r.status then err (daemon_error e.code e.message) else json.decode r.body

module _ {W : Type 0} (http : Http W) where
  unfoldable pub runtime_alive : RuntimeInfo → W → Bool × W
  unfolding trim_space
  runtime_alive info w =
      let (e, w') = http.dial info.addr w in
      if is_nil (trim_space info.addr)
      then (false, w)
      else elim e [ none ↦ (true, w') | some x ↦ (false, w') ]

  module _ (wire : Wire) where
    unfoldable pub post :
        {A B : Type 0} → Codec A → Codec B → Client → Text → A → W → Result Error B × W
    unfolding open_reply
    post json json' c path a w = elim (json.encode a) [
      | err e ↦ (err e, w)
      | ok b ↦
          let (r, w') =
            http.send
              record { method = lit "POST"; url = c.base_url ++ path; token = c.token; body = b }
              w in
          (open_reply wire json' r, w')
    ]

    unfoldable pub get : {B : Type 0} → Codec B → Client → Text → W → Result Error B × W
    unfolding open_reply
    get json c path w =
        let (r, w') =
          http.send
            record { method = lit "GET"; url = c.base_url ++ path; token = c.token; body = [] } w in
        (open_reply wire json r, w')

    abbrev pub lease_of : Result Error AcquireResp × W → Result Error LeaseInfo × W
    lease_of (err e, w) = (err e, w)
    lease_of (ok resp, w) =
        (ok record { lease_id = resp.lease_id; acquired_at = resp.acquired_at }, w)

    unfoldable pub acquire : ℤ → Client → W → Result Error LeaseInfo × W
    unfolding post
    acquire pid c w = lease_of (
        post wire.acquire_req wire.acquire_resp c path_acquire
          record { project = c.cfg.project; pid = pid; run_id = [] } w)

    -- An error or nil.
    abbrev pub error_only : {B : Type 0} → Result Error B × W → Option Error × W
    error_only (err e, w) = (some e, w)
    error_only (ok b, w) = (none, w)

    unfoldable pub heartbeat : Client → Text → W → Option Error × W
    unfolding post
    heartbeat c lease_id w =
        error_only
          (post wire.heartbeat_req wire.ok_resp c path_heartbeat record { lease_id = lease_id } w)

    unfoldable pub release : Client → Text → ℤ → W → Option Error × W
    unfolding post
    release c lease_id exit_code w = error_only (
        post wire.release_req wire.ok_resp c path_release
          record { lease_id = lease_id; exit_code = exit_code } w)

    -- On an error, what the decoder may have left in the response is not kept.
    unfoldable pub state : Client → W → Result Error StateResp × W
    unfolding get
    state c w = get wire.state_resp c path_state w
