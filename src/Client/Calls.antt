-- ===== src/Client/Calls.antt =====
-- client/client.go and daemon/server.go together: what the calls of a client do to the daemon that
-- it is connected to.
use testcontainerd.Prelude.{ℕ, ◌≤◌, ◌≡◌, refl, true, ◌++◌, some, Text, lit, text_eq, leb, arith}
use testcontainerd.Prelude.Results.{ok, err}
use testcontainerd.Errors.{daemon_error}
use testcontainerd.Daemon.{Daemon, Host}
use testcontainerd.Daemon.Protocol.{
  Codec, Wire, HttpRequest, HttpReply, path_acquire, path_heartbeat, path_release, status_ok,
}
use testcontainerd.Daemon.Handlers.{
  Meets, is_authorized, handle_acquire, handle_heartbeat, handle_release,
}
use testcontainerd.Daemon.Router.{serve_http, receive, reply, reply_some}
use testcontainerd.Client.{Client, Http, open_reply, post}

-- A message arrives as it was sent.
abbrev pub IsLossless : {A : Type 0} → Codec A → Type 0
IsLossless {A} json = (a : A) → (b : Text) × (json.encode a ≡ ok b) × (json.decode b ≡ ok a)

pub record IsLosslessWire (wire : Wire) : Type 0 where
  pub acquire_req : IsLossless wire.acquire_req
  pub acquire_resp : IsLossless wire.acquire_resp
  pub heartbeat_req : IsLossless wire.heartbeat_req
  pub release_req : IsLossless wire.release_req
  pub ok_resp : IsLossless wire.ok_resp
  pub error_resp : (e : _) → wire.error_of (wire.error_resp e) ≡ e

-- `meets` is what a call meets in a world. HTTP takes a call to the daemon that listens at the address, and its reply back, where the call
-- has one.
pub record Delivers {W : Type 0} (host : Host W) (wire : Wire) (unrouted : HttpRequest → HttpReply)
    (fuel : ℕ) (meets : W → Meets) (base_url : Text) (http : Http (Daemon W × W)) : Type 0 where
  pub delivers :
      (method path token body : Text) (d d' : Daemon W) (w w' : W) (reply : HttpReply)
      → serve_http host wire unrouted fuel
          (meets w)
          record { method = method; path = path; token = token; body = body }
          d
          w
        ≡ some (reply, d', w')
      → http.send
          record { method = method; url = base_url ++ path; token = token; body = body }
          (d, w)
        ≡ (ok reply, (d', w'))

pub open_reply-refused :
    {B : Type 0} (wire : Wire) (json : Codec B) (r : HttpReply)
    → 400 ≤ r.status
    → open_reply wire json (ok r)
      ≡ err (daemon_error (wire.error_of r.body).code (wire.error_of r.body).message)
unfolding open_reply
open_reply-refused wire json r h =
    let t : leb 400 r.status ≡ true = ground arith in rw (open_reply, t) refl

pub open_reply-ok :
    {B : Type 0} (wire : Wire) (json : Codec B) (r : HttpReply) (b : B)
    → r.status ≡ status_ok
    → json.decode r.body ≡ ok b
    → open_reply wire json (ok r) ≡ ok b
unfolding open_reply
open_reply-ok wire json r b h e = rw (open_reply, h) e

module _ {W : Type 0} (host : Host W) (wire : Wire) (unrouted : HttpRequest → HttpReply) (fuel : ℕ)
    (meets : Meets) where
  pub serve-acquire :
      (r : HttpRequest) (d : Daemon W) (w : W)
      → r.path ≡ path_acquire
      → is_authorized d (receive wire.acquire_req r) ≡ true
      → serve_http host wire unrouted fuel meets r d w
        ≡ reply_some wire (handle_acquire host fuel meets (receive wire.acquire_req r) d w)
  unfolding serve_http text_eq
  serve-acquire r d w p a = rw (serve_http, p, a) refl

  pub serve-heartbeat :
      (r : HttpRequest) (d : Daemon W) (w : W)
      → r.path ≡ path_heartbeat
      → is_authorized d (receive wire.heartbeat_req r) ≡ true
      → serve_http host wire unrouted fuel meets r d w
        ≡ reply wire w (handle_heartbeat meets.now (receive wire.heartbeat_req r) d)
  unfolding serve_http text_eq
  serve-heartbeat r d w p a = rw (serve_http, p, a) refl

  pub serve-release :
      (r : HttpRequest) (d : Daemon W) (w : W)
      → r.path ≡ path_release
      → is_authorized d (receive wire.release_req r) ≡ true
      → serve_http host wire unrouted fuel meets r d w
        ≡ reply wire w (handle_release (receive wire.release_req r) d)
  unfolding serve_http text_eq
  serve-release r d w p a = rw (serve_http, p, a) refl

module _ {W : Type 0} (host : Host W) (wire : Wire) (unrouted : HttpRequest → HttpReply) (fuel : ℕ)
    (meets : W → Meets) (http : Http (Daemon W × W)) (base_url : Text)
    (net : Delivers host wire unrouted fuel meets base_url http) where
  -- A `post` that the daemon answers.
  pub post-serve :
      {A B : Type 0} (json : Codec A) (json' : Codec B) (c : Client) (path : Text) (a : A)
      (d d' : Daemon W) (w w' : W) (b : Text) (r : HttpReply)
      → c.base_url ≡ base_url
      → json.encode a ≡ ok b
      → serve_http host wire unrouted fuel
          (meets w)
          record { method = lit "POST"; path = path; token = c.token; body = b }
          d
          w
        ≡ some (r, d', w')
      → post http wire json json' c path a (d, w) ≡ (open_reply wire json' (ok r), (d', w'))
  unfolding post
  post-serve json json' c path a d d' w w' b r u e s =
      rw (post, e, u, net.delivers (lit "POST") path c.token b d d' w w' r s) refl
