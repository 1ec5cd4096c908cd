-- ===== src/Daemon/Router.antt =====
-- daemon/server.go: the routes that `Start` registers, and the JSON of a request and of a response.
use testcontainerd.Prelude.{ℕ, [], Option, none, some, Text, text_eq, if◌then◌else◌}
use testcontainerd.Prelude.Results.{Result, ok, err}
use testcontainerd.Errors.{Error}
use testcontainerd.Daemon.{Daemon, Host}
use testcontainerd.Daemon.Protocol.{
  Request, Response, Body, acquired, done, state, refused, HttpRequest, HttpReply, Wire, Codec,
  path_acquire, path_heartbeat, path_release, path_state,
}
use testcontainerd.Daemon.Handlers.{
  Meets, with_auth, handle_acquire, handle_heartbeat, handle_release, handle_state,
}

-- What `json.NewEncoder(w).Encode` writes, its error ignored.
abbrev pub written : Result Error Text → Text
written (ok b) = b
written (err e) = []

unfoldable pub encode_body : Wire → Body → Text
encode_body wire (acquired resp) = written (wire.acquire_resp.encode resp)
encode_body wire (done b) = written (wire.ok_resp.encode b)
encode_body wire (state resp) = written (wire.state_resp.encode resp)
encode_body wire (refused e) = wire.error_resp e

unfoldable pub write_json : Wire → Response → HttpReply
unfolding encode_body
write_json wire r = record { status = r.status; body = encode_body wire r.body }

-- The request that a handler sees.
abbrev pub receive : {A : Type 0} → Codec A → HttpRequest → Request A
receive json r = record { method = r.method; token = r.token; decoded = json.decode r.body }

-- The body is not read.
abbrev pub receive_bare : HttpRequest → Request (Unit {0})
receive_bare r = record { method = r.method; token = r.token; decoded = ok tt }

module _ {W : Type 0} where
  abbrev pub reply : Wire → W → Response × Daemon W → Option (HttpReply × Daemon W × W)
  reply wire w s = some (write_json wire s.0, s.1, w)

  abbrev pub reply_some :
      Wire → Option (Response × Daemon W × W) → Option (HttpReply × Daemon W × W)
  reply_some wire none = none
  reply_some wire (some (response, d, w)) = some (write_json wire response, d, w)

-- `unrouted` is what `http.ServeMux` answers itself, for a path that is none of the four.
module _ {W : Type 0} (host : Host W) (wire : Wire) (unrouted : HttpRequest → HttpReply) where
  -- One call of the server; `none` is a call of `handleAcquire` that has no answer.
  unfoldable pub serve_http :
      ℕ → Meets → HttpRequest → Daemon W → W → Option (HttpReply × Daemon W × W)
  unfolding with_auth handle_acquire handle_heartbeat handle_release handle_state write_json
  serve_http fuel meets r d w =
      if text_eq r.path path_acquire
      then with_auth d (λ q. reply_some wire (handle_acquire host fuel meets q d w))
          (λ response. reply wire w (response, d)) (receive wire.acquire_req r)
      else if text_eq r.path path_heartbeat
      then with_auth d (λ q. reply wire w (handle_heartbeat meets.now q d))
          (λ response. reply wire w (response, d)) (receive wire.heartbeat_req r)
      else if text_eq r.path path_release
      then with_auth d (λ q. reply wire w (handle_release q d))
          (λ response. reply wire w (response, d)) (receive wire.release_req r)
      else if text_eq r.path path_state
      then with_auth d (λ q. reply wire w (handle_state meets.now q d))
          (λ response. reply wire w (response, d)) (receive_bare r)
      else some (unrouted r, d, w)
