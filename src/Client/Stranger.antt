-- ===== src/Client/Stranger.antt =====
-- client/client.go and daemon/server.go together: a client without the daemon's token.
use testcontainerd.Prelude.{
  ℕ, ◌≡◌, ◌≢◌, refl, ap, ◌∙◌, false, [], some, Text, lit, text_eq, Bool-cases, arith, inl, inr,
  trim_space,
}
use testcontainerd.Prelude.Int.{ℤ}
use testcontainerd.Prelude.Results.{ok, err}
use testcontainerd.Errors.{Error, daemon_error}
use testcontainerd.Daemon.{Daemon, Host}
use testcontainerd.Daemon.Protocol.{
  Codec, Wire, HttpRequest, HttpReply, Request, path_acquire, path_heartbeat, path_release,
  path_state, status_unauthorized, unauthorized, write_error,
}
use testcontainerd.Daemon.Handlers.{Meets, is_authorized}
use testcontainerd.Daemon.Serving.{is_authorized_iff}
use testcontainerd.Daemon.Router.{serve_http, receive, receive_bare, write_json, encode_body}
use testcontainerd.Client.{
  Client, Http, open_reply, post, get, lease_of, acquire, heartbeat, release, error_only, state,
}
use testcontainerd.Client.Calls.{IsLosslessWire, Delivers, post-serve}
use testcontainerd.Client.Leasing.{asked}
use testcontainerd.Client.Keeping.{beat, leaving}

abbrev pub shut_out : Error
shut_out = daemon_error (lit "unauthorized") (lit "unauthorized")

abbrev turned_away : Wire → HttpReply
turned_away wire =
    write_json wire (write_error status_unauthorized unauthorized (lit "unauthorized"))

module _ {W : Type 0} (host : Host W) (wire : Wire) (unrouted : HttpRequest → HttpReply) (fuel : ℕ)
    (meets : Meets) where
  -- The guard stands before each of the four routes.
  data IsRoute : Text → Type 0 where
    acquires : IsRoute path_acquire
    beats : IsRoute path_heartbeat
    releases : IsRoute path_release
    asks : IsRoute path_state

  stranger_request :
      {A : Type 0} (d : Daemon W) (r : Request A)
      → trim_space r.token ≢ d.cfg.token
      → is_authorized d r ≡ false
  stranger_request d r n = elim (Bool-cases (is_authorized d r)) [
    | inl a ↦ ground (arith, (is_authorized_iff d r).0 a)
    | inr a ↦ a
  ]

  serve_stranger :
      (path : Text) (r : HttpRequest) (d : Daemon W) (w : W)
      → IsRoute path
      → r.path ≡ path
      → trim_space r.token ≢ d.cfg.token
      → serve_http host wire unrouted fuel meets r d w ≡ some (turned_away wire, d, w)
  unfolding serve_http text_eq
  serve_stranger path r d w acquires p n =
      rw (serve_http, p, stranger_request d (receive wire.acquire_req r) n) refl
  serve_stranger path r d w beats p n =
      rw (serve_http, p, stranger_request d (receive wire.heartbeat_req r) n) refl
  serve_stranger path r d w releases p n =
      rw (serve_http, p, stranger_request d (receive wire.release_req r) n) refl
  serve_stranger path r d w asks p n =
      rw (serve_http, p, stranger_request d (receive_bare r) n) refl

module _ {W : Type 0} (host : Host W) (wire : Wire) (unrouted : HttpRequest → HttpReply) (fuel : ℕ)
    (meets : W → Meets) (http : Http (Daemon W × W)) (base_url : Text)
    (net : Delivers host wire unrouted fuel meets base_url http) (laws : IsLosslessWire wire) where
  reply_stranger :
      {B : Type 0} (json : Codec B) → open_reply wire json (ok (turned_away wire)) ≡ err shut_out
  unfolding open_reply write_json encode_body
  reply_stranger json = rw (open_reply, laws.error_resp _) refl

  post_stranger :
      {A B : Type 0} (json : Codec A) (json' : Codec B) (c : Client) (path : Text) (a : A)
      (d : Daemon W) (w : W) {b : Text}
      → IsRoute host wire unrouted fuel (meets w) path
      → c.base_url ≡ base_url
      → json.encode a ≡ ok b
      → trim_space c.token ≢ d.cfg.token
      → post http wire json json' c path a (d, w) ≡ (err shut_out, (d, w))
  post_stranger json json' c path a d w {b} route u e n =
      let r : HttpRequest = record {
        method = lit "POST";
        path = path;
        token = c.token;
        body = b;
      } in
      post-serve host wire unrouted fuel meets http base_url net json json' c path a d d w w b _ u e
        (serve_stranger host wire unrouted fuel (meets w) path r d w route refl n)
      ∙ ap (λ x. (x, (d, w))) (reply_stranger json')

  get_stranger :
      (c : Client) (d : Daemon W) (w : W)
      → c.base_url ≡ base_url
      → trim_space c.token ≢ d.cfg.token
      → state http wire c (d, w) ≡ (err shut_out, (d, w))
  unfolding state get
  get_stranger c d w u n =
      let r : HttpRequest = record {
        method = lit "GET";
        path = path_state;
        token = c.token;
        body = [];
      } in
      rw
        (
          u,
          net.delivers (lit "GET") path_state c.token [] d d w w (turned_away wire)
              (serve_stranger host wire unrouted fuel (meets w) path_state r d w asks refl n),
        )
        (ap (λ x. (x, (d, w))) (reply_stranger wire.state_resp))

  -- A client whose token, without the space around it, is not the daemon's has an error from each
  -- of its four calls, and none of them changes the daemon or the world.
  pub stranger_refused :
      (c : Client) (id : Text) (pid code : ℤ) (d : Daemon W) (w : W)
      → c.base_url ≡ base_url
      → trim_space c.token ≢ d.cfg.token
      → (acquire http wire pid c (d, w) ≡ (err shut_out, (d, w)))
        × (heartbeat http wire c id (d, w) ≡ (some shut_out, (d, w)))
        × (release http wire c id code (d, w) ≡ (some shut_out, (d, w)))
        × (state http wire c (d, w) ≡ (err shut_out, (d, w)))
  unfolding acquire heartbeat release
  stranger_refused c id pid code d w u n =
      let (_, e, _) = laws.acquire_req (asked pid c) in
      let (_, f, _) = laws.heartbeat_req (beat id) in
      let (_, g, _) = laws.release_req (leaving id code) in
      (
        ap (lease_of http wire) (
            post_stranger wire.acquire_req wire.acquire_resp c path_acquire (asked pid c) d w
              acquires u e n),
        ap (error_only http wire) (
            post_stranger wire.heartbeat_req wire.ok_resp c path_heartbeat (beat id) d w beats u f
              n),
        ap (error_only http wire) (
            post_stranger wire.release_req wire.ok_resp c path_release (leaving id code) d w
              releases u g n),
        get_stranger c d w u n,
      )
