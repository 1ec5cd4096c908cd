-- ===== src/Examples/Wires.antt =====
-- An encoding of the messages, and a network on which a daemon listens at one address.
use testcontainerd.Prelude.{
  ℕ, zero, suc, ◌≡◌, refl, ◌∙◌, ap, true, false, Bool, [], ◌∷◌, ◌++◌, Option, none, some, Text, lit,
  length, has_prefix, if◌then◌else◌, arith,
}
use testcontainerd.Prelude.Int.{ℤ, pos, negsuc}
use testcontainerd.Prelude.Results.{Result, ok, err}
use testcontainerd.Errors.{Error, external}
use testcontainerd.Daemon.{Daemon, Host}
use testcontainerd.Daemon.Protocol.{
  AcquireReq, AcquireResp, HeartbeatReq, ReleaseReq, ErrorResp, HttpRequest, HttpReply, Wire, Codec,
}
use testcontainerd.Daemon.Handlers.{Meets}
use testcontainerd.Daemon.Router.{serve_http}
use testcontainerd.Client.{HttpCall, Http}
use testcontainerd.Client.Calls.{IsLossless, IsLosslessWire, Delivers}
use testcontainerd.Examples.Box.{parts, parts-length, bad_input}

-- A number, and what follows it.
abbrev pub signed : ℤ → Text → Text
signed (pos n) s = 0 ∷ n ∷ s
signed (negsuc n) s = 1 ∷ n ∷ s

abbrev pub take_signed : {A : Type 0} → (ℤ → Text → A) → Text → Result Error A
take_signed f (zero ∷ n ∷ s) = ok (f (pos n) s)
take_signed f (suc k ∷ n ∷ s) = ok (f (negsuc n) s)
take_signed f s = err bad_input

take_signed-signed :
    {A : Type 0} (f : ℤ → Text → A) (x : ℤ) (s : Text) → take_signed f (signed x s) ≡ ok (f x s)
take_signed-signed f (pos n) s = refl
take_signed-signed f (negsuc n) s = refl

abbrev pub acquire_req : Codec AcquireReq
acquire_req = record {
  encode = λ r. ok (length r.project ∷ (r.project ++ signed r.pid r.run_id));
  decode = decode;
}
  where
    decode : Text → Result Error AcquireReq
    decode [] = err bad_input
    decode (n ∷ s) =
        take_signed (λ pid run_id. record { project = (parts n s).0; pid = pid; run_id = run_id })
          (parts n s).1

acquire_req-IsLossless : IsLossless acquire_req
acquire_req-IsLossless r = (
  _,
  refl,
  ap
        (λ (s : Text × Text).
          take_signed {A = AcquireReq}
            (λ pid run_id. record { project = s.0; pid = pid; run_id = run_id }) s.1)
        (parts-length r.project (signed r.pid r.run_id))
      ∙ take_signed-signed
          (λ pid run_id. record { project = r.project; pid = pid; run_id = run_id }) r.pid r.run_id,
)

abbrev pub acquire_resp : Codec AcquireResp
acquire_resp = record { encode = λ r. ok (r.acquired_at ∷ r.lease_id); decode = decode }
  where
    decode : Text → Result Error AcquireResp
    decode [] = err bad_input
    decode (t ∷ s) = ok record { lease_id = s; acquired_at = t }

abbrev pub heartbeat_req : Codec HeartbeatReq
heartbeat_req = record { encode = λ r. ok r.lease_id; decode = λ s. ok record { lease_id = s } }

abbrev pub release_req : Codec ReleaseReq
release_req = record {
  encode = λ r. ok (signed r.exit_code r.lease_id);
  decode = take_signed (λ code s. record { lease_id = s; exit_code = code });
}

abbrev pub ok_resp : Codec Bool
ok_resp = record { encode = λ b. ok (if b then 1 ∷ [] else 0 ∷ []); decode = decode }
  where
    decode : Text → Result Error Bool
    decode (zero ∷ []) = ok false
    decode (suc n ∷ []) = ok true
    decode s = err bad_input

ok_resp-IsLossless : IsLossless ok_resp
ok_resp-IsLossless true = (_, refl, refl)
ok_resp-IsLossless false = (_, refl, refl)

abbrev pub error_of : Text → ErrorResp
error_of [] = record { code = []; message = [] }
error_of (n ∷ s) = record { code = (parts n s).0; message = (parts n s).1 }

abbrev pub wire : Wire
wire = record {
  acquire_req = acquire_req;
  acquire_resp = acquire_resp;
  heartbeat_req = heartbeat_req;
  release_req = release_req;
  ok_resp = ok_resp;
  state_resp = record { encode = λ s. err bad_input; decode = λ s. err bad_input };
  error_resp = λ e. length e.code ∷ (e.code ++ e.message);
  error_of = error_of;
}

pub wire-IsLosslessWire : IsLosslessWire wire
wire-IsLosslessWire = record {
  acquire_req = acquire_req-IsLossless;
  acquire_resp = λ r. (_, refl, refl);
  heartbeat_req = λ r. (_, refl, refl);
  release_req = λ r. (
    _,
    refl,
    take_signed-signed (λ code s. record { lease_id = s; exit_code = code }) r.exit_code r.lease_id,
  );
  ok_resp = ok_resp-IsLossless;
  error_resp = λ e.
      ap (λ (s : Text × Text). record { code = s.0; message = s.1 })
        (parts-length e.code e.message);
}

-- What stands behind a prefix.
unfoldable pub behind : Text → Text → Text
behind [] s = s
behind (c ∷ p) [] = []
behind (c ∷ p) (d ∷ s) = behind p s

behind-append : (p s : Text) → behind p (p ++ s) ≡ s
unfolding behind
behind-append [] s = refl
behind-append (c ∷ p) s = behind-append p s

has_prefix-append : (p s : Text) → has_prefix (p ++ s) p ≡ true
unfolding has_prefix
has_prefix-append [] s = ground arith
has_prefix-append (c ∷ p) s = ground (arith, has_prefix-append p s)

module _ {W : Type 0} (host : Host W) (fuel : ℕ) (meets : W → Meets) (base_url : Text) where
  abbrev pub unrouted : HttpRequest → HttpReply
  unrouted r = record { status = 404; body = [] }

  unfoldable pub carried :
      Daemon W × W → Option (HttpReply × Daemon W × W) → Result Error HttpReply × (Daemon W × W)
  carried s none = (err (external (lit "timeout")), s)
  carried s (some (r, d, w)) = (ok r, (d, w))

  unfoldable pub send : HttpCall → Daemon W × W → Result Error HttpReply × (Daemon W × W)
  unfolding carried serve_http
  send c s =
      if has_prefix c.url base_url
      then carried s (
          serve_http host wire unrouted fuel (meets s.1)
            record {
              method = c.method;
              path = behind base_url c.url;
              token = c.token;
              body = c.body;
            }
            s.0 s.1)
      else (err (external (lit "connection refused")), s)

  abbrev pub network : Http (Daemon W × W)
  network = record { send = send; dial = λ addr s. (none, s) }

  pub network-Delivers : Delivers host wire unrouted fuel meets base_url network
  unfolding send carried
  network-Delivers = record {
    delivers = λ method path token body d d' w w' reply e.
        rw (send, has_prefix-append base_url path, behind-append base_url path, e) refl;
  }
