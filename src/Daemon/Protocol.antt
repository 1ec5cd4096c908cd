-- ===== src/Daemon/Protocol.antt =====
-- protocol/: the requests and the responses of the daemon, as values; a body that is decoded from
-- JSON is the result of the decoder.
use testcontainerd.Prelude.{◌≡◌, ℕ, Bool, List, Text, lit, text_eq}
use testcontainerd.Prelude.Int.{ℤ}
use testcontainerd.Prelude.Results.{Result, ok}
use testcontainerd.Errors.{Error}

pub record AcquireReq : Type 0 where
  pub project : Text
  pub pid : ℤ
  pub run_id : Text

pub record HeartbeatReq : Type 0 where
  pub lease_id : Text

pub record ReleaseReq : Type 0 where
  pub lease_id : Text
  pub exit_code : ℤ

pub record AcquireResp : Type 0 where
  pub lease_id : Text
  pub acquired_at : ℕ

pub record StateResp : Type 0 where
  pub infra_ready : Bool
  pub active_leases : ℕ
  pub containers : List Text
  pub started_at : ℕ
  pub idle_ttl_second : ℤ
  pub app_ready : Bool
  pub app_pid : ℕ
  pub app_started_at : ℕ
  pub app_restarts : ℕ
  pub app_last_error : Text

pub record ErrorResp : Type 0 where
  pub code : Text
  pub message : Text

pub record RuntimeInfo : Type 0 where
  pub addr : Text
  pub token : Text
  pub pid : ℤ
  pub started_at : ℕ

-- What `writeJSON` is given.
pub data Body : Type 0 where
  acquired : AcquireResp → Body
  done : Bool → Body
  state : StateResp → Body
  refused : ErrorResp → Body

pub record Response : Type 0 where
  pub status : ℕ
  pub body : Body

-- A request whose body decodes to an `A`.
pub record Request (A : Type 0) : Type 0 where
  pub method : Text
  pub token : Text
  pub decoded : Result Error A

-- `encoding/json` at one type.
pub record Codec (A : Type 0) : Type 0 where
  pub encode : A → Result Error Text
  pub decode : Text → Result Error A

-- What is decoded is what was encoded.
abbrev pub IsFaithful : {A : Type 0} → Codec A → Type 0
IsFaithful {A} json = (a : A) (b : Text) → json.encode a ≡ ok b → json.decode b ≡ ok a

abbrev pub status_ok : ℕ
status_ok = 200

abbrev pub status_bad_request : ℕ
status_bad_request = 400

abbrev pub status_unauthorized : ℕ
status_unauthorized = 401

abbrev pub status_not_found : ℕ
status_not_found = 404

abbrev pub status_method_not_allowed : ℕ
status_method_not_allowed = 405

abbrev pub status_internal_server_error : ℕ
status_internal_server_error = 500

abbrev pub write_error : ℕ → Text → Text → Response
write_error status code message = record {
  status = status;
  body = refused record { code = code; message = message };
}

abbrev pub is_post : {A : Type 0} → Request A → Bool
is_post r = text_eq r.method (lit "POST")

abbrev pub is_get : {A : Type 0} → Request A → Bool
is_get r = text_eq r.method (lit "GET")

-- The codes.
abbrev pub bad_request : Text
bad_request = lit "bad_request"

abbrev pub unauthorized : Text
unauthorized = lit "unauthorized"

abbrev pub not_found : Text
not_found = lit "not_found"

abbrev pub internal : Text
internal = lit "internal"

abbrev pub path_acquire : Text
path_acquire = lit "/v1/acquire"

abbrev pub path_heartbeat : Text
path_heartbeat = lit "/v1/heartbeat"

abbrev pub path_release : Text
path_release = lit "/v1/release"

abbrev pub path_state : Text
path_state = lit "/v1/state"

-- A request of HTTP, with the value of the header `HeaderToken`, and a reply.
pub record HttpRequest : Type 0 where
  pub method : Text
  pub path : Text
  pub token : Text
  pub body : Text

pub record HttpReply : Type 0 where
  pub status : ℕ
  pub body : Text

-- The JSON of each message. `error_of` is what a decoder leaves in an `ErrorResp`, errors ignored.
pub record Wire : Type 0 where
  pub acquire_req : Codec AcquireReq
  pub acquire_resp : Codec AcquireResp
  pub heartbeat_req : Codec HeartbeatReq
  pub release_req : Codec ReleaseReq
  pub ok_resp : Codec Bool
  pub state_resp : Codec StateResp
  pub error_resp : ErrorResp → Text
  pub error_of : Text → ErrorResp
