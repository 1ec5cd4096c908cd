-- ===== src/Client/Keeping.antt =====
-- client/client.go and daemon/server.go together: what renews a lease and what ends it, from the
-- client's side.
use testcontainerd.Prelude.{
  ℕ, ◌+◌, ◌≡◌, refl, ◌∙◌, ap, true, false, none, some, Text, lit, text_eq, trim_space, is_nil,
}
use testcontainerd.Prelude.Int.{ℤ}
use testcontainerd.Prelude.Dict.{lookup, erase, lookup-erase_self}
use testcontainerd.Prelude.Results.{ok}
use testcontainerd.Errors.{daemon_error}
use testcontainerd.LeaseStore
use testcontainerd.LeaseStore.KeepAlive
use testcontainerd.LeaseStore.{Lease, LeaseStore, lease_ttl}
use testcontainerd.LeaseStore.KeepAlive.{HeldUntil}
use testcontainerd.Daemon.{Daemon, Host}
use testcontainerd.Daemon.Protocol.{
  Wire, HttpRequest, HttpReply, path_heartbeat, path_release, status_ok, HeartbeatReq, ReleaseReq,
  done,
}
use testcontainerd.Daemon.Handlers.{
  Meets, is_authorized, handle_heartbeat, handle_release, lease_not_found,
}
use testcontainerd.Daemon.Serving.{is_authorized_iff, heartbeat_unknown}
use testcontainerd.Daemon.Router.{write_json, encode_body}
use testcontainerd.Client.{Client, Http, open_reply, heartbeat, release, error_only}
use testcontainerd.Client.Calls.{
  IsLosslessWire, Delivers, open_reply-ok, serve-heartbeat, serve-release, post-serve,
}
use testcontainerd.Client.Leasing.{posts}

abbrev pub beat : Text → HeartbeatReq
beat id = record { lease_id = id }

abbrev pub leaving : Text → ℤ → ReleaseReq
leaving id code = record { lease_id = id; exit_code = code }

module _ {W : Type 0} (host : Host W) (wire : Wire) (unrouted : HttpRequest → HttpReply) (fuel : ℕ)
    (meets : W → Meets) (http : Http (Daemon W × W)) (base_url : Text)
    (net : Delivers host wire unrouted fuel meets base_url http) (laws : IsLosslessWire wire) where
  -- `Heartbeat` and `Release`, as what the handlers answer.
  heartbeat-handler :
      (c : Client) (id : Text) (d : Daemon W) (w : W)
      → c.base_url ≡ base_url
      → is_authorized d (posts c (beat id)) ≡ true
      → heartbeat http wire c id (d, w)
        ≡ error_only http wire (
          open_reply wire wire.ok_resp
              (ok (write_json wire (handle_heartbeat (meets w).now (posts c (beat id)) d).0)),
          ((handle_heartbeat (meets w).now (posts c (beat id)) d).1, w),
        )
  unfolding heartbeat
  heartbeat-handler c id d w u a =
      let (b, e, f) = laws.heartbeat_req (beat id) in
      let r : HttpRequest = record {
        method = lit "POST";
        path = path_heartbeat;
        token = c.token;
        body = b;
      } in
      ap (error_only http wire) (
        post-serve host wire unrouted fuel meets http base_url net wire.heartbeat_req wire.ok_resp c
          path_heartbeat (beat id) d _ w w b _ u e
          (serve-heartbeat host wire unrouted fuel (meets w) r d w refl (rw (f) a) ∙ rw (f) refl))

  release-handler :
      (c : Client) (id : Text) (code : ℤ) (d : Daemon W) (w : W)
      → c.base_url ≡ base_url
      → is_authorized d (posts c (leaving id code)) ≡ true
      → release http wire c id code (d, w)
        ≡ error_only http wire (
          open_reply wire wire.ok_resp
              (ok (write_json wire (handle_release (posts c (leaving id code)) d).0)),
          ((handle_release (posts c (leaving id code)) d).1, w),
        )
  unfolding release
  release-handler c id code d w u a =
      let (b, e, f) = laws.release_req (leaving id code) in
      let r : HttpRequest = record {
        method = lit "POST";
        path = path_release;
        token = c.token;
        body = b;
      } in
      ap (error_only http wire) (
        post-serve host wire unrouted fuel meets http base_url net wire.release_req wire.ok_resp c
          path_release (leaving id code) d _ w w b _ u e
          (serve-release host wire unrouted fuel (meets w) r d w refl (rw (f) a) ∙ rw (f) refl))

  -- The replies of the two handlers.
  said_ok :
      (s : Daemon W × W)
      → error_only http wire (
        open_reply wire wire.ok_resp
            (ok (write_json wire record { status = status_ok; body = done true })),
        s,
      )
        ≡ (none, s)
  unfolding write_json encode_body
  said_ok s =
      let (b, e, f) = laws.ok_resp true in
      ap (λ r. error_only http wire (r, s)) (open_reply-ok wire wire.ok_resp _ true refl (rw (e) f))

  said_lost :
      (s : Daemon W × W)
      → error_only http wire
          (open_reply wire wire.ok_resp (ok (write_json wire lease_not_found)), s)
        ≡ (some (daemon_error (lit "not_found") (lit "lease not found")), s)
  unfolding write_json encode_body open_reply
  said_lost s = rw (open_reply, laws.error_resp _) refl

  handle_heartbeat-held :
      (now : ℕ) (c : Client) (id : Text) (d : Daemon W) (e : ℕ)
      → HeldUntil d.store id e
      → handle_heartbeat now (posts c (beat id)) d ≡ (
        record { status = status_ok; body = done true },
        record d { store = (LeaseStore.heartbeat d.store id lease_ttl now).0 },
      )
  unfolding handle_heartbeat text_eq
  handle_heartbeat-held now c id d e held =
      rw (handle_heartbeat, (KeepAlive.heartbeat-HeldUntil d.store id lease_ttl now e held).0) refl

  handle_release-held :
      (c : Client) (id : Text) (code : ℤ) (d : Daemon W) (e : ℕ)
      → HeldUntil d.store id e
      → handle_release (posts c (leaving id code)) d ≡ (
        record { status = status_ok; body = done true },
        record d { store = record d.store { leases = erase id d.store.leases } },
      )
  unfolding handle_release LeaseStore.release text_eq
  handle_release-held c id code d e (l, h, x) = rw (handle_release, LeaseStore.release, h) refl

  -- A heartbeat of a client that has the daemon's token succeeds as long as the daemon holds the
  -- lease, and the daemon holds it from then for the time of a lease; nothing but the leases
  -- changes.
  pub heartbeat_renews :
      (c : Client) (id : Text) (d : Daemon W) (w : W) (e : ℕ)
      → c.base_url ≡ base_url
      → trim_space c.token ≡ d.cfg.token
      → is_nil d.cfg.token ≡ false
      → HeldUntil d.store id e
      → (s : LeaseStore) × (heartbeat http wire c id (d, w) ≡ (none, (record d { store = s }, w)))
        × HeldUntil s id ((meets w).now + lease_ttl)
  heartbeat_renews c id d w e u t n held = (
    (LeaseStore.heartbeat d.store id lease_ttl (meets w).now).0,
    heartbeat-handler c id d w u ((is_authorized_iff d _).1 (t, n))
        ∙ rw (handle_heartbeat-held (meets w).now c id d e held) (said_ok _),
    (KeepAlive.heartbeat-HeldUntil d.store id lease_ttl (meets w).now e held).1,
  )

  -- Such a client's `Release` of a lease that the daemon holds succeeds, and the daemon has no
  -- lease of that id after it; nothing but the leases changes.
  pub release_forgets :
      (c : Client) (id : Text) (code : ℤ) (d : Daemon W) (w : W) (e : ℕ)
      → c.base_url ≡ base_url
      → trim_space c.token ≡ d.cfg.token
      → is_nil d.cfg.token ≡ false
      → HeldUntil d.store id e
      → (s : LeaseStore) × (release http wire c id code (d, w)
          ≡ (none, (record d { store = s }, w)))
        × (lookup id s.leases ≡ none)
  release_forgets c id code d w e u t n held = (
    _,
    release-handler c id code d w u ((is_authorized_iff d _).1 (t, n))
        ∙ rw (handle_release-held c id code d e held) (said_ok _),
    lookup-erase_self id d.store.leases,
  )

  -- A heartbeat of a lease that the daemon does not hold fails, with the error that the daemon
  -- sends, and changes nothing.
  pub heartbeat_lost :
      (c : Client) (id : Text) (d : Daemon W) (w : W)
      → c.base_url ≡ base_url
      → trim_space c.token ≡ d.cfg.token
      → is_nil d.cfg.token ≡ false
      → lookup id d.store.leases ≡ none
      → heartbeat http wire c id (d, w)
        ≡ (some (daemon_error (lit "not_found") (lit "lease not found")), (d, w))
  unfolding text_eq
  heartbeat_lost c id d w u t n h =
      heartbeat-handler c id d w u ((is_authorized_iff d _).1 (t, n))
      ∙ rw (heartbeat_unknown (meets w).now (posts c (beat id)) d (beat id) refl refl h)
          (said_lost _)
