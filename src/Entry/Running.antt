-- ===== src/Entry/Running.antt =====
-- testcontainerd.go, `Run`, with the process that a client starts and the daemon that it is connected
-- to.
use testcontainerd.Prelude.{
  ℕ, ◌+◌, ◌<◌, ◌≡◌, refl, ◌∙◌, ap, true, false, List, [], ◌∷◌, Option, none, some, Text, text_eq,
  text_eq_iff, is_nil, trim_space, sym, subst, All, inl, inr, arith,
}
use testcontainerd.Prelude.Int.{ℤ}
use testcontainerd.Prelude.Dict.{lookup, Distinct}
use testcontainerd.Prelude.Results.{ok, Result-cases}
use testcontainerd.Errors.{Error}
use testcontainerd.LeaseStore.{lease_ttl}
use testcontainerd.LeaseStore.KeepAlive.{HeldUntil}
use testcontainerd.Daemon.{Daemon, Host}
use testcontainerd.Daemon.Protocol.{Wire, HttpRequest, HttpReply}
use testcontainerd.Daemon.Handlers.{Meets}
use testcontainerd.Client.{Client, heartbeat, release}
use testcontainerd.Client.Environ.{getenv, merge_env, AllPlain, getenv-merge_env}
use testcontainerd.Client.Runner.{prepare_daemon_executable}
use testcontainerd.Client.Machine.{
  Machine, DaemonCommand, build_daemon_command, tcd_mode, tcd_runtime, mode_daemon,
}
use testcontainerd.Client.Calls.{IsLosslessWire, Delivers}
use testcontainerd.Client.Keeping.{heartbeat_renews, release_forgets}
use testcontainerd.Entry.{TestContainerd}
use testcontainerd.Entry.Modes.{Runnable, is_daemon_mode, daemon_config, beat_on, run_leased}

abbrev overridden : Text → List (Text × Text)
overridden path = (tcd_mode, mode_daemon) ∷ (tcd_runtime, path) ∷ []

overridden-Distinct : (path : Text) → Distinct (overridden path)
unfolding lookup text_eq
overridden-Distinct path = (refl, (refl, tt))

overridden-AllPlain : (path : Text) → AllPlain (overridden path)
overridden-AllPlain path = ground arith

mode_overridden :
    (base : List Text) (path : Text)
    → getenv (merge_env base (overridden path)) tcd_mode ≡ some mode_daemon
unfolding lookup text_eq
mode_overridden base path =
    getenv-merge_env base (overridden path) tcd_mode (overridden-Distinct path)
      (overridden-AllPlain path)

runtime_overridden :
    (base : List Text) (path : Text)
    → getenv (merge_env base (overridden path)) tcd_runtime ≡ some path
unfolding lookup text_eq
runtime_overridden base path =
    getenv-merge_env base (overridden path) tcd_runtime (overridden-Distinct path)
      (overridden-AllPlain path)

module _ {W : Type 0} (m : Machine W) where
  built-env :
      (path : Text) (w : W) (cmd : DaemonCommand)
      → (build_daemon_command m path w).0 ≡ ok cmd
      → (base : List Text) × (cmd.env ≡ merge_env base (overridden path))
  unfolding build_daemon_command
  built-env path w cmd h = elim (Result-cases (m.executable w)) [
    | inl (x, e) ↦ ground (arith, e)
    | inr (exe, e) ↦ elim (Result-cases (prepare_daemon_executable m.copier exe path w).0) [
      | inl (x, f) ↦ ground (arith, e, f)
      | inr (runner, f) ↦
          (m.environ (prepare_daemon_executable m.copier exe path w).1, ground (arith, e, f))
    ]
  ]

  -- The process that a client starts as its daemon finds itself in daemon mode, and its daemon's
  -- runtime file is the one that the client waits for, whatever the client's environment says: the
  -- path must not be empty, and have no space around it.
  pub build_daemon_command-agrees :
      (t : TestContainerd W) (path : Text) (w : W) (cmd : DaemonCommand)
      → trim_space path ≡ path
      → is_nil path ≡ false
      → (build_daemon_command m path w).0 ≡ ok cmd
      → (is_daemon_mode (getenv cmd.env) ≡ true)
        × ((daemon_config t (getenv cmd.env)).runtime_path ≡ path)
  unfolding daemon_config
  build_daemon_command-agrees t path w cmd p n h =
      let (base, e) = built-env path w cmd h in
      (
        rw (e, mode_overridden base path) ((text_eq_iff mode_daemon mode_daemon).1 refl),
        rw (e, runtime_overridden base path, p, n) refl,
      )

module _ {W : Type 0} (host : Host W) (wire : Wire) (unrouted : HttpRequest → HttpReply) (fuel : ℕ)
    (meets : W → Meets) (m : Machine (Daemon W × W)) (base_url : Text)
    (net : Delivers host wire unrouted fuel meets base_url m.http) (laws : IsLosslessWire wire)
    (rounds patience : ℕ) (pid : ℤ) where
  -- What the daemon's clock shows.
  abbrev pub clock : Daemon W × W → ℕ
  clock s = (meets s.1).now

  -- A turn of the tests that takes less than the time of a lease, and in which the daemon keeps its
  -- token, and the lease unless that has run out by the end of the turn: the reaper may collect leases,
  -- and other clients may make calls, but nobody releases this one.
  pub record IsGentle (id : Text) (turn : Daemon W × W → Daemon W × W) : Type 0 where
    pub short : (s : Daemon W × W) → clock (turn s) < clock s + lease_ttl
    pub same_token : (s : Daemon W × W) → (turn s).0.cfg.token ≡ s.0.cfg.token
    pub spares :
        (s : Daemon W × W) (e : ℕ)
        → HeldUntil s.0.store id e
        → clock (turn s) < e
        → HeldUntil (turn s).0.store id e

  -- The daemon has this token, and the lease for its whole time from now on.
  pub record IsFresh (id token : Text) (s : Daemon W × W) : Type 0 where
    pub held : HeldUntil s.0.store id (clock s + lease_ttl)
    pub same_token : s.0.cfg.token ≡ token

  -- The daemon has this token, and the lease, which has not run out.
  pub record IsLive (id token : Text) (s : Daemon W × W) : Type 0 where
    pub held : (e : ℕ) × HeldUntil s.0.store id e × (clock s < e)
    pub same_token : s.0.cfg.token ≡ token

  turn-IsLive :
      (id token : Text) (turn : Daemon W × W → Daemon W × W) (s : Daemon W × W)
      → IsGentle id turn
      → IsFresh id token s
      → IsLive id token (turn s)
  turn-IsLive id token turn s g f = record {
    held = (clock s + lease_ttl, g.spares s _ f.held (g.short s), g.short s);
    same_token = g.same_token s ∙ f.same_token;
  }

  heartbeat-IsFresh :
      (c : Client) (id token : Text) (s : Daemon W × W)
      → c.base_url ≡ base_url
      → trim_space c.token ≡ token
      → is_nil token ≡ false
      → IsLive id token s
      → IsFresh id token (heartbeat m.http wire c id s).1
  heartbeat-IsFresh c id token (d, w) u t n k =
      let (e, held, late) = k.held in
      let (store, r, renewed) =
        heartbeat_renews host wire unrouted fuel meets m.http base_url net laws c id d w e u
          (t ∙ sym k.same_token) (ap (λ x. is_nil x) k.same_token ∙ n) held in
      subst (λ (x : Option Error × (Daemon W × W)). IsFresh id token x.1) (sym r)
        record { held = renewed; same_token = k.same_token }

  beat_on-IsFresh :
      (c : Client) (id token : Text) (turns : List (Daemon W × W → Daemon W × W)) (s : Daemon W × W)
      → c.base_url ≡ base_url
      → trim_space c.token ≡ token
      → is_nil token ≡ false
      → All (IsGentle id) turns
      → IsFresh id token s
      → IsFresh id token (beat_on m wire rounds patience pid c id turns s)
  unfolding beat_on
  beat_on-IsFresh c id token [] s u t n g f = f
  beat_on-IsFresh c id token (turn ∷ turns) s u t n g f =
      beat_on-IsFresh c id token turns _ u t n g.1
        (heartbeat-IsFresh c id token (turn s) u t n (turn-IsLive id token turn s g.0 f))

  released :
      (c : Client) (id token : Text) (code : ℤ) (s : Daemon W × W)
      → c.base_url ≡ base_url
      → trim_space c.token ≡ token
      → is_nil token ≡ false
      → IsLive id token s
      → ((release m.http wire c id code s).0 ≡ none)
        × (lookup id (release m.http wire c id code s).1.0.store.leases ≡ none)
  released c id token code (d, w) u t n k =
      let (e, held, late) = k.held in
      let (store, r, gone) =
        release_forgets host wire unrouted fuel meets m.http base_url net laws c id code d w e u
          (t ∙ sym k.same_token) (ap (λ x. is_nil x) k.same_token ∙ n) held in
      (
        ap (λ (x : Option Error × (Daemon W × W)). x.0) r,
        ap (λ (x : Option Error × (Daemon W × W)). lookup id x.1.0.store.leases) r ∙ gone,
      )

  -- Where the tests of a run are over, before the release.
  abbrev pub at_end : Client → Text → Runnable (Daemon W × W) → Daemon W × W → Daemon W × W
  at_end c id tests s = tests.last_turn (beat_on m wire rounds patience pid c id tests.turns s)

  -- Tests run under a lease that the daemon has just given, or renewed, and each turn of them between
  -- two heartbeats is shorter than the time of a lease and does not release it. Then, however many
  -- turns there are and whatever the reaper collects in them, the lease is still live when the tests
  -- are over; the run gives the tests' code, the release in it succeeds, and the daemon has no lease
  -- of that id after it.
  pub run_leased-released :
      (c : Client) (id token : Text) (tests : Runnable (Daemon W × W)) (s : Daemon W × W)
      → c.base_url ≡ base_url
      → trim_space c.token ≡ token
      → is_nil token ≡ false
      → All (IsGentle id) tests.turns
      → IsGentle id tests.last_turn
      → IsFresh id token s
      → let r = run_leased m wire rounds patience pid c id tests s in
        IsLive id token (at_end c id tests s)
        × (r.0 ≡ tests.code)
        × ((release m.http wire c id tests.code (at_end c id tests s)).0 ≡ none)
        × (lookup id r.1.0.store.leases ≡ none)
  unfolding run_leased
  run_leased-released c id token tests s u t n g last f =
      let k =
        turn-IsLive id token tests.last_turn _ last
          (beat_on-IsFresh c id token tests.turns s u t n g f) in
      let (ended, gone) = released c id token tests.code (at_end c id tests s) u t n k in
      (k, refl, ended, gone)
