-- ===== src/Client/Leasing.antt =====
-- client/client.go and daemon/server.go together: the life of a lease, from the client's side.
use testcontainerd.Prelude.{
  ℕ, ◌+◌, ◌≡◌, refl, ◌∙◌, ap, true, false, [], Option, some, Text, lit, arith, Option-cases, inl,
  inr, subst, trim_space, is_nil, is_some,
}
use testcontainerd.Prelude.Int.{ℤ}
use testcontainerd.Prelude.Results.{Result, ok, err}
use testcontainerd.Errors.{Error, daemon_error}
use testcontainerd.LeaseStore
use testcontainerd.LeaseStore.{Lease, LeaseStore, lease_ttl}
use testcontainerd.LeaseStore.KeepAlive.{HeldUntil, acquire-HeldUntil}
use testcontainerd.SutManager.Coherent.{IsCoherent}
use testcontainerd.SutManager.Up.{IsUp}
use testcontainerd.Daemon.{Daemon, Host}
use testcontainerd.Daemon.Protocol.{
  Wire, HttpRequest, HttpReply, Request, Response, path_acquire, AcquireReq, AcquireResp,
}
use testcontainerd.Daemon.Handlers.{Meets, is_authorized, handle_acquire}
use testcontainerd.Daemon.Granting.{Answers, Unfinished, handle_acquire-Answers, refuses, grants}
use testcontainerd.Daemon.Serving.{is_authorized_iff}
use testcontainerd.Daemon.Router.{write_json, encode_body}
use testcontainerd.Client.{Client, LeaseInfo, Http, open_reply, post, lease_of, acquire}
use testcontainerd.Client.Calls.{
  IsLosslessWire, Delivers, open_reply-refused, open_reply-ok, serve-acquire, post-serve,
}

-- A post with the client's token and a message that decodes to `a`.
abbrev pub posts : {A : Type 0} → Client → A → Request A
posts c a = record { method = lit "POST"; token = c.token; decoded = ok a }

-- The request of `Acquire`.
abbrev pub asked : ℤ → Client → AcquireReq
asked pid c = record { project = c.cfg.project; pid = pid; run_id = [] }

-- What `Acquire` gives, and what it leaves of a daemon `d`: an error that the daemon sent, with the
-- leases as before; or a lease that the daemon holds for the time of a lease, with the containers
-- started and the service up, or not managed.
pub data Leased {W : Type 0} (meets : Meets) (d : Daemon W)
    : Result Error LeaseInfo × (Daemon W × W) → Type 0 where
  refused :
      {code text : Text} {d' : Daemon W} {w : W}
      → d'.store ≡ d.store
      → Leased meets d (err (daemon_error code text), (d', w))
  leased :
      {lease : LeaseInfo} {d' : Daemon W} {w : W}
      → HeldUntil d'.store lease.lease_id (meets.now + lease_ttl)
      → lease.acquired_at ≡ meets.then_now
      → d'.infra_started ≡ true
      → IsUp d'.sut
      → Leased meets d (ok lease, (d', w))

module _ {W : Type 0} (host : Host W) (wire : Wire) (unrouted : HttpRequest → HttpReply) (fuel : ℕ)
    (meets : W → Meets) (http : Http (Daemon W × W)) (base_url : Text)
    (net : Delivers host wire unrouted fuel meets base_url http) (laws : IsLosslessWire wire) where
  -- `post` of `Acquire`, once the daemon's handler has answered.
  post-acquire :
      (pid : ℤ) (c : Client) (d d' : Daemon W) (w w' : W) (response : Response)
      → c.base_url ≡ base_url
      → is_authorized d (posts c (asked pid c)) ≡ true
      → handle_acquire host fuel (meets w) (posts c (asked pid c)) d w ≡ some (response, d', w')
      → post http wire wire.acquire_req wire.acquire_resp c path_acquire (asked pid c) (d, w)
        ≡ (open_reply wire wire.acquire_resp (ok (write_json wire response)), (d', w'))
  post-acquire pid c d d' w w' response u a h =
      let (b, e, f) = laws.acquire_req (asked pid c) in
      let r : HttpRequest = record {
        method = lit "POST";
        path = path_acquire;
        token = c.token;
        body = b;
      } in
      post-serve host wire unrouted fuel meets http base_url net wire.acquire_req wire.acquire_resp
        c path_acquire (asked pid c) d d' w w' b (write_json wire response) u e
        (serve-acquire host wire unrouted fuel (meets w) r d w refl (rw (f) a) ∙ rw (f, h) refl)

  acquire-lease_of :
      (pid : ℤ) (c : Client) (s : Daemon W × W) (r : Result Error AcquireResp × (Daemon W × W))
      → post http wire wire.acquire_req wire.acquire_resp c path_acquire (asked pid c) s ≡ r
      → acquire http wire pid c s ≡ lease_of http wire r
  unfolding acquire
  acquire-lease_of pid c s r h = ap (lease_of http wire) h

  answered :
      (pid : ℤ) (c : Client) (d d' : Daemon W) (w w' : W) (response : Response) {Why : Type 0}
      → c.base_url ≡ base_url
      → is_authorized d (posts c (asked pid c)) ≡ true
      → handle_acquire host fuel (meets w) (posts c (asked pid c)) d w ≡ some (response, d', w')
      → Answers Why (meets w) d (some (response, d', w'))
      → Leased (meets w) d (acquire http wire pid c (d, w))
  unfolding write_json encode_body
  answered pid c d d' w w' response u a h (refuses s k) =
      let p = post-acquire pid c d d' w w' response u a h in
      rw
        (acquire-lease_of pid c (d, w) (err _, (d', w'))
          (p ∙ ap (λ x. (x, (d', w'))) (open_reply-refused wire wire.acquire_resp _ s)))
        (refused k.same_store)
  answered pid c d d' w w' response u a h (grants req s body store flight i up) =
      let p = post-acquire pid c d d' w w' response u a h in
      let resp : AcquireResp = record {
        lease_id =
            (LeaseStore.acquire d.store (meets w).bytes req.pid lease_ttl (meets w).now).1.id;
        acquired_at = (meets w).then_now;
      } in
      let (b, e, f) = laws.acquire_resp resp in
      rw
        (acquire-lease_of pid c (d, w) (ok resp, (d', w'))
          (p
            ∙ ap (λ x. (x, (d', w')))
                (open_reply-ok wire wire.acquire_resp _ resp s (rw (body, e) f))))
        (leased
          (rw (store) (acquire-HeldUntil d.store (meets w).bytes req.pid lease_ttl (meets w).now))
          refl i up)

  -- A client that has the daemon's token and asks for a lease, of a daemon whose service has its
  -- command and its channel set together, and whose handler answers: it has the error that the
  -- daemon sent, and the leases are as before; or it has a lease, and the daemon holds that lease
  -- for the time of a lease, its containers are started, and its service is up, or not managed.
  pub acquire-Leased :
      (pid : ℤ) (c : Client) (d : Daemon W) (w : W)
      → c.base_url ≡ base_url
      → trim_space c.token ≡ d.cfg.token
      → is_nil d.cfg.token ≡ false
      → IsCoherent d.sut
      → is_some (handle_acquire host fuel (meets w) (posts c (asked pid c)) d w) ≡ true
      → Leased (meets w) d (acquire http wire pid c (d, w))
  acquire-Leased pid c d w u t n coherent h =
      elim (Option-cases (handle_acquire host fuel (meets w) (posts c (asked pid c)) d w)) [
        | inl e ↦ ground (arith, e)
        | inr ((response, d', w'), e) ↦
            answered pid c d d' w w' response u ((is_authorized_iff d _).1 (t, n)) e (
              subst
                (λ (r : Option (Response × Daemon W × W)).
                  Answers (Unfinished host fuel (meets w) d) (meets w) d r)
                e (handle_acquire-Answers host fuel (meets w) (posts c (asked pid c)) d w coherent))
      ]
