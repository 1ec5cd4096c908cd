-- ===== src/Daemon/Granting.antt =====
-- daemon/server.go, `handleAcquire`: when a lease is given, and what its refusal leaves.
use testcontainerd.Prelude.{
  ℕ, ◌≤◌, ◌≡◌, refl, ◌∙◌, true, false, Option, none, some, arith, Option-cases, Bool-cases, ◌⊎◌,
  inl, inr,
}
use testcontainerd.Prelude.Results.{Result-cases}
use testcontainerd.Errors.{Error}
use testcontainerd.LeaseStore.{lease_ttl, acquire}
use testcontainerd.Bundle.{Bundle, start_all}
use testcontainerd.SutManager.{SutManager}
use testcontainerd.SutManager.Boot.{ensure_started}
use testcontainerd.SutManager.Coherent.{IsCoherent}
use testcontainerd.SutManager.Outcome.{ensure_started-Ensured}
use testcontainerd.SutManager.Up.{IsUp, SuccessUp, Ensured-SuccessUp}
use testcontainerd.Daemon.{Daemon, Host, sut_input, ensure_infra_started}
use testcontainerd.Daemon.Protocol.{AcquireReq, Response, Request, acquired, status_ok, is_post}
use testcontainerd.Daemon.Handlers.{
  Meets, grant, enter_flight, acquire_sut, acquire_infra, acquire_body, handle_acquire,
}

-- `d'` has the leases, and the calls on their way, of `d`.
pub record IsKept {W : Type 0} (d d' : Daemon W) : Type 0 where
  pub same_store : d'.store ≡ d.store
  pub same_flight : d'.acquire_in_flight ≡ d.acquire_in_flight

-- The answers of `handleAcquire` to a daemon `d`: an error that leaves the leases, or a lease that is
-- the store's, with the containers and the service up.
pub data Answers {W : Type 0} (Why : Type 0) (meets : Meets) (d : Daemon W)
    : Option (Response × Daemon W × W) → Type 0 where
  unfinished : Why → Answers Why meets d none
  refuses :
      {response : Response} {d' : Daemon W} {w : W}
      → 400 ≤ response.status
      → IsKept d d'
      → Answers Why meets d (some (response, d', w))
  grants :
      {response : Response} {d' : Daemon W} {w : W} (req : AcquireReq)
      → response.status ≡ status_ok
      → response.body
        ≡ acquired record {
          lease_id = (acquire d.store meets.bytes req.pid lease_ttl meets.now).1.id;
          acquired_at = meets.then_now;
        }
      → d'.store ≡ (acquire d.store meets.bytes req.pid lease_ttl meets.now).0
      → d'.acquire_in_flight ≡ d.acquire_in_flight
      → d'.infra_started ≡ true
      → IsUp d'.sut
      → Answers Why meets d (some (response, d', w))

-- The goroutines that start the containers do not end in the events of the call.
abbrev pub NotRun : {W : Type 0} → Host W → Meets → Daemon W → Type 0
NotRun {W} host meets d = (w : W) × (start_all host.terminate d.bundle meets.events w ≡ none)

-- The fuel of the call is too little for the probe.
abbrev pub OutOfFuel : {W : Type 0} → Host W → ℕ → Meets → Daemon W → Type 0
OutOfFuel {W} host fuel meets d =
    (w : W) × (ensure_started host.os host.fs fuel meets.startup d.sut (sut_input d.cfg) w ≡ none)

abbrev pub Unfinished : {W : Type 0} → Host W → ℕ → Meets → Daemon W → Type 0
Unfinished host fuel meets d = NotRun host meets d ⊎ OutOfFuel host fuel meets d

module _ {W : Type 0} (host : Host W) (fuel : ℕ) (meets : Meets) where
  granted :
      (req : AcquireReq) (d : Daemon W) (sut : SutManager W) (w : W)
      → d.infra_started ≡ true
      → IsUp sut
      → Answers (OutOfFuel host fuel meets d) meets d (
          some (
            (grant meets req (record d { sut = sut })).0,
            (grant meets req (record d { sut = sut })).1,
            w,
          ))
  unfolding grant
  granted req d sut w i u = grants req refl refl refl refl i u

  acquire_sut_from :
      (req : AcquireReq) (d : Daemon W) (w : W) (r : Option (Option Error × SutManager W × W))
      → d.infra_started ≡ true
      → ensure_started host.os host.fs fuel meets.startup d.sut (sut_input d.cfg) w ≡ r
      → SuccessUp r
      → Answers (OutOfFuel host fuel meets d) meets d (acquire_sut host fuel meets req d w)
  unfolding SuccessUp acquire_sut
  acquire_sut_from req d w none i e u = rw (acquire_sut, e) (unfinished (w, e))
  acquire_sut_from req d w (some (some x, m, w')) i e u =
      rw (acquire_sut, e) (refuses (omega arith) record { same_store = refl; same_flight = refl })
  acquire_sut_from req d w (some (none, m, w')) i e u = rw (acquire_sut, e) (granted req d m w' i u)

  acquire_sut-Answers :
      (req : AcquireReq) (d : Daemon W) (w : W)
      → IsCoherent d.sut
      → d.infra_started ≡ true
      → Answers (OutOfFuel host fuel meets d) meets d (acquire_sut host fuel meets req d w)
  acquire_sut-Answers req d w h i = acquire_sut_from req d w _ i refl (
      Ensured-SuccessUp fuel meets.startup d.sut w _ h
        (ensure_started-Ensured host.os host.fs fuel meets.startup d.sut (sut_input d.cfg) w h))

  -- The leases and the service are not the infrastructure's, so that what starts it keeps them.
  IsKept-Answers :
      (Why Why' : Type 0) (d d' : Daemon W) (r : Option (Response × Daemon W × W))
      → (Why' → Why)
      → IsKept d d'
      → Answers Why' meets d' r
      → Answers Why meets d r
  IsKept-Answers Why Why' d d' r y k (unfinished x) = unfinished (y x)
  IsKept-Answers Why Why' d d' r y k (refuses s k') = refuses s record {
    same_store = k'.same_store ∙ k.same_store;
    same_flight = k'.same_flight ∙ k.same_flight;
  }
  IsKept-Answers Why Why' d d' r y k (grants req s b t f i u) =
      grants req s (rw (k.same_store) at b) (rw (k.same_store) at t) (f ∙ k.same_flight) i u

  infra_ran :
      (req : AcquireReq) (d : Daemon W) (w : W) (r : Option Error × Bundle W × W)
      → IsCoherent d.sut
      → d.infra_started ≡ false
      → start_all host.terminate d.bundle meets.events w ≡ some r
      → Answers (Unfinished host fuel meets d) meets d (acquire_infra host fuel meets req d w)
  unfolding acquire_infra
  infra_ran req d w (some x, b, w') h i e =
      simp (acquire_infra, ensure_infra_started, i, e)
        (refuses (omega arith) record { same_store = refl; same_flight = refl })
  infra_ran req d w (none, b, w') h i e =
      let d' : Daemon W = record d { bundle = b; infra_started = true } in
      simp (acquire_infra, ensure_infra_started, i, e)
        (IsKept-Answers _ (OutOfFuel host fuel meets d') d d' _ inr
          record { same_store = refl; same_flight = refl } (acquire_sut-Answers req d' w' h refl))

  acquire_infra-Answers :
      (req : AcquireReq) (d : Daemon W) (w : W)
      → IsCoherent d.sut
      → Answers (Unfinished host fuel meets d) meets d (acquire_infra host fuel meets req d w)
  unfolding acquire_infra
  acquire_infra-Answers req d w h = elim (Bool-cases d.infra_started) [
    | inl i ↦
        simp (acquire_infra, ensure_infra_started, i)
          (IsKept-Answers _ (OutOfFuel host fuel meets d) d d _ inr
            record { same_store = refl; same_flight = refl } (acquire_sut-Answers req d w h i))
    | inr i ↦ elim (Option-cases (start_all host.terminate d.bundle meets.events w)) [
      | inl e ↦ simp (acquire_infra, ensure_infra_started, i, e) (unfinished (inl (w, e)))
      | inr (r, e) ↦ infra_ran req d w r h i e
    ]
  ]

  acquire_body-Answers :
      (r : Request AcquireReq) (d : Daemon W) (w : W)
      → IsCoherent d.sut
      → Answers (Unfinished host fuel meets d) meets d (acquire_body host fuel meets r d w)
  unfolding acquire_body
  acquire_body-Answers r d w h = elim (Result-cases r.decoded) [
    | inl (x, e) ↦
        simp (acquire_body, e)
          (refuses (omega arith) record { same_store = refl; same_flight = refl })
    | inr (req, e) ↦ simp (acquire_body, e) (acquire_infra-Answers req d w h)
  ]

  body_ran :
      (r : Request AcquireReq) (d : Daemon W) (w : W) (o : Option (Response × Daemon W × W))
      → is_post r ≡ true
      → acquire_body host fuel meets r (enter_flight d) w ≡ o
      → Answers (Unfinished host fuel meets (enter_flight d)) meets (enter_flight d) o
      → Answers (Unfinished host fuel meets d) meets d (handle_acquire host fuel meets r d w)
  unfolding handle_acquire
  body_ran r d w o p e (unfinished x) = rw (handle_acquire, p, e) (unfinished x)
  body_ran r d w o p e (refuses s k) =
      rw (handle_acquire, p, e)
        (refuses s
          record { same_store = k.same_store; same_flight = rw (k.same_flight) (omega arith) })
  body_ran r d w o p e (grants req s b t f i u) =
      rw (handle_acquire, p, e) (grants req s b t (rw (f) (omega arith)) i u)

  -- `handleAcquire`, for a service whose command and channel are set together. Its answer is an
  -- error status and the leases are as before; or it is 200 with the id of a lease that the store
  -- has been given, the containers are started, and the service is up, or not managed. Either
  -- way the count of calls on their way is as before. It has no answer only if the given events
  -- are no complete run of the goroutines that start containers, or the fuel of the probe runs out.
  pub handle_acquire-Answers :
      (r : Request AcquireReq) (d : Daemon W) (w : W)
      → IsCoherent d.sut
      → Answers (Unfinished host fuel meets d) meets d (handle_acquire host fuel meets r d w)
  unfolding handle_acquire
  handle_acquire-Answers r d w h = elim (Bool-cases (is_post r)) [
    | inl p ↦ body_ran r d w _ p refl (acquire_body-Answers r (enter_flight d) w h)
    | inr p ↦
        rw (handle_acquire, p)
          (refuses (omega arith) record { same_store = refl; same_flight = refl })
  ]
