-- ===== src/Daemon/Serving.antt =====
-- daemon/server.go: who is let through, and what one handler's answer means for the next call.
use testcontainerd.Prelude.{
  ℕ, ◌≡◌, ◌≢◌, ◌↔◌, refl, sym, ◌∙◌, true, false, not, ◌||◌, [], ◌∷◌, none, some, Text, arith,
  is_nil, text_eq, text_eq_iff, trim_space, Option-cases, Bool-cases, inl, inr,
}
use testcontainerd.Prelude.Results.{ok}
use testcontainerd.Prelude.Dict.{lookup, erase, lookup-erase_self, lookup-insert_self}
use testcontainerd.LeaseStore.{Lease, lease_ttl, acquire, heartbeat, release}
use testcontainerd.Daemon.{Daemon}
use testcontainerd.Daemon.Protocol.{
  AcquireReq, HeartbeatReq, ReleaseReq, Request, status_ok, is_post,
}
use testcontainerd.Daemon.Handlers.{
  Meets, is_authorized, grant, handle_heartbeat, handle_release, lease_not_found,
}

-- A request is let through exactly when its token, without the space around it, is the daemon's, and
-- is not empty.
pub is_authorized_iff :
    {W A : Type 0} (d : Daemon W) (r : Request A)
    → (is_authorized d r ≡ true)
      ↔ ((trim_space r.token ≡ d.cfg.token) × (is_nil d.cfg.token ≡ false))
unfolding is_authorized
is_authorized_iff d r = go (trim_space r.token) d.cfg.token
  where
    go :
        (s t : Text) → (not (is_nil s || not (text_eq s t)) ≡ true) ↔ ((s ≡ t) × (is_nil t ≡ false))
    go [] [] = ground arith
    go [] (c ∷ t) = ground arith
    go (c ∷ s) t = ground (arith, text_eq_iff (c ∷ s) t)

pub heartbeat_unknown :
    {W : Type 0} (now : ℕ) (beat : Request HeartbeatReq) (d : Daemon W) (req : HeartbeatReq)
    → is_post beat ≡ true
    → beat.decoded ≡ ok req
    → lookup req.lease_id d.store.leases ≡ none
    → handle_heartbeat now beat d ≡ (lease_not_found, d)
unfolding handle_heartbeat heartbeat
heartbeat_unknown now beat d req p e h = simp (handle_heartbeat, heartbeat, p, e, h) refl

heartbeat_known :
    {W : Type 0} (now : ℕ) (beat : Request HeartbeatReq) (d : Daemon W) (req : HeartbeatReq)
    {l : Lease}
    → is_post beat ≡ true
    → beat.decoded ≡ ok req
    → lookup req.lease_id d.store.leases ≡ some l
    → (handle_heartbeat now beat d).0.status ≡ status_ok
unfolding handle_heartbeat heartbeat
heartbeat_known now beat d req p e h = simp (handle_heartbeat, heartbeat, p, e, h) refl

release_known :
    {W : Type 0} (r : Request ReleaseReq) (d : Daemon W) (req : ReleaseReq) {l : Lease}
    → is_post r ≡ true
    → r.decoded ≡ ok req
    → lookup req.lease_id d.store.leases ≡ some l
    → (handle_release r d).1
      ≡ record d { store = record { leases = erase req.lease_id d.store.leases } }
unfolding handle_release release
release_known r d req p e h = simp (handle_release, release, p, e, h) refl

release_unknown :
    {W : Type 0} (r : Request ReleaseReq) (d : Daemon W) (req : ReleaseReq)
    → is_post r ≡ true
    → r.decoded ≡ ok req
    → lookup req.lease_id d.store.leases ≡ none
    → (handle_release r d).0.status ≡ 404
unfolding handle_release release
release_unknown r d req p e h = simp (handle_release, release, p, e, h) refl

release_method :
    {W : Type 0} (r : Request ReleaseReq) (d : Daemon W)
    → is_post r ≡ false
    → (handle_release r d).0.status ≡ 405
unfolding handle_release
release_method r d p = simp (handle_release, p) refl

clash : (a b c : ℕ) → a ≡ b → a ≡ c → b ≢ c → ⊥
clash a b c e f n = n (sym e ∙ f)

-- Once `handleRelease` has answered 200, a heartbeat of the same lease is answered 404 and changes
-- nothing.
pub handle_release-heartbeat :
    {W : Type 0} (now : ℕ) (r : Request ReleaseReq) (beat : Request HeartbeatReq) (d : Daemon W)
    (req : ReleaseReq) (req' : HeartbeatReq)
    → r.decoded ≡ ok req
    → is_post beat ≡ true
    → beat.decoded ≡ ok req'
    → req'.lease_id ≡ req.lease_id
    → (handle_release r d).0.status ≡ status_ok
    → handle_heartbeat now beat (handle_release r d).1 ≡ (lease_not_found, (handle_release r d).1)
handle_release-heartbeat {W = W} now r beat d req req' e p e' same h =
    elim (Bool-cases (is_post r)) [
      | inl q ↦ elim (Option-cases (lookup req.lease_id d.store.leases)) [
        | inl n ↦ elim (clash _ 404 200 (release_unknown r d req q e n) h (λ x. omega arith)) [ ]
        | inr (l, n) ↦
            let d' : Daemon W = record d {
              store = record { leases = erase req.lease_id d.store.leases };
            } in
            rw (release_known r d req q e n) (
              heartbeat_unknown now beat d' req' p e'
                (rw (same) (lookup-erase_self req.lease_id d.store.leases)))
      ]
      | inr q ↦ elim (clash _ 405 200 (release_method r d q) h (λ x. omega arith)) [ ]
    ]

-- The lease of a grant is known to the next heartbeat.
pub grant-heartbeat :
    {W : Type 0} (meets : Meets) (req : AcquireReq) (d : Daemon W) (now : ℕ)
    (beat : Request HeartbeatReq) (req' : HeartbeatReq)
    → is_post beat ≡ true
    → beat.decoded ≡ ok req'
    → req'.lease_id ≡ (acquire d.store meets.bytes req.pid lease_ttl meets.now).1.id
    → (handle_heartbeat now beat (grant meets req d).1).0.status ≡ status_ok
unfolding grant acquire
grant-heartbeat meets req d now beat req' p e same =
    let l : Lease = (acquire d.store meets.bytes req.pid lease_ttl meets.now).1 in
    heartbeat_known now beat (grant meets req d).1 req' {l = l} p e
      (rw (same) (lookup-insert_self l.id l d.store.leases))
