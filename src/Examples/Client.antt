-- ===== src/Examples/Client.antt =====
-- A client of the daemon of Examples/Daemon, over the network of Examples/Wires.
use testcontainerd.Prelude.{
  ℕ, Bool, List, ◌+◌, [], ◌∷◌, ◌*◌, ◌≡◌, ◌≢◌, refl, none, some, Text, lit, text_eq, text_eq_iff,
  true, trim_space, arith,
}
use testcontainerd.Prelude.Int.{pos}
use testcontainerd.Prelude.Dict.{lookup, insert, keep}
use testcontainerd.Prelude.Results.{ok, err}
use testcontainerd.LeaseStore
use testcontainerd.LeaseStore.{second, LeaseStore, Lease, lease_ttl, is_live, gc}
use testcontainerd.LeaseStore.KeepAlive.{HeldUntil}
use testcontainerd.Bundle.Pool.{run_all}
use testcontainerd.SutManager.Coherent.{IsCoherent}
use testcontainerd.Daemon.{Daemon}
use testcontainerd.Daemon.Handlers.{Meets, grant, handle_acquire}
use testcontainerd.Client.{Client, Http, acquire, heartbeat, release, state}
use testcontainerd.Client.Leasing.{Leased, acquire-Leased}
use testcontainerd.Client.Stranger.{shut_out, stranger_refused}
use testcontainerd.Client.Machine.{Machine, exists_already}
use testcontainerd.Entry.Modes.{Runnable, run_leased}
use testcontainerd.Entry.Running.{IsGentle, IsFresh, IsLive, at_end, run_leased-released}
use testcontainerd.Examples.Box.{unix_copier, box_json, no_file}
use testcontainerd.Examples.Daemon.{host, new, meets, granted}
use testcontainerd.Examples.Wires.{wire, wire-IsLosslessWire, unrouted, network, network-Delivers}

abbrev base_url : Text
base_url = lit "http://127.0.0.1:4000"

abbrev client : Client
client = record {
  cfg = record {
    project = lit "demo";
    runtime_path = lit "/tmp/tcd/demo/runtime.json";
    http_timeout = pos second;
  };
  base_url = base_url;
  token = lit "secret";
}

abbrev stranger : Client
stranger = record client { token = lit "guess" }

-- The clock is the world.
abbrev clocked : ℕ → Meets
clocked w = record meets { now = w; then_now = w }

abbrev net : Http (Daemon ℕ × ℕ)
net = network host 55 clocked base_url

acquire-Leased_example : Leased (clocked 0) new (acquire net wire (pos 42) client (new, 0))
unfolding handle_acquire text_eq run_all lookup insert IsCoherent
acquire-Leased_example =
    acquire-Leased host wire (unrouted host 55 clocked base_url) 55 clocked net base_url
      (network-Delivers host 55 clocked base_url) wire-IsLosslessWire (pos 42) client new 0 refl
      refl refl tt refl

granted-HeldUntil : HeldUntil granted.store (lit "lease-abcd") (12 * second)
unfolding grant LeaseStore.acquire lookup insert text_eq
granted-HeldUntil = (_, refl, refl)

not_the_token : trim_space (lit "guess") ≢ lit "secret"
unfolding trim_space text_eq
not_the_token e =
    let h : text_eq (lit "guess") (lit "secret") ≡ true =
      (text_eq_iff (lit "guess") (lit "secret")).1 e in
    ground (arith, h)

stranger_refused_example :
    (acquire net wire (pos 42) stranger (new, 0) ≡ (err shut_out, (new, 0)))
    × (heartbeat net wire stranger (lit "lease-abcd") (new, 0) ≡ (some shut_out, (new, 0)))
    × (release net wire stranger (lit "lease-abcd") (pos 1) (new, 0) ≡ (some shut_out, (new, 0)))
    × (state net wire stranger (new, 0) ≡ (err shut_out, (new, 0)))
stranger_refused_example =
    stranger_refused host wire (unrouted host 55 clocked base_url) 55 clocked net base_url
      (network-Delivers host 55 clocked base_url) wire-IsLosslessWire stranger (lit "lease-abcd")
      (pos 42) (pos 1) new 0 refl not_the_token

-- A machine on the network of the daemon, without files.
abbrev hosted : Machine (Daemon ℕ × ℕ)
hosted = record {
  disk = record {
    files = record {
      temp = lit "/tmp";
      mkdir_all = λ d w. (none, w);
      open_append = λ p w. (ok 7, w);
    };
    read_file = λ p w. err no_file;
    write_file = λ p b w. (none, w);
    rename = λ p q w. (none, w);
    remove_file = λ p w. (none, w);
  };
  clock = record { now = λ s. s.1; sleep = λ n s. (s.0, s.1 + n) };
  http = net;
  json = box_json;
  open_excl = λ p w. (exists_already, w);
  note_owner = λ p w. w;
  close_lock = λ p w. w;
  mod_time = λ p w. ok 0;
  executable = λ w. ok (lit "/tmp/demo.test");
  copier = unix_copier;
  environ = λ w. [];
  start = λ cmd w. (none, w);
  close_log = λ f w. w;
}

-- A turn of a second, at the end of which the reaper collects leases.
abbrev turn : Daemon ℕ × ℕ → Daemon ℕ × ℕ
turn s = (record s.0 { store = gc s.0.store (s.1 + second) }, s.1 + second)

-- Tests that take four turns, twice the time of a lease, with a heartbeat after each but the last, and
-- fail.
abbrev tests : Runnable (Daemon ℕ × ℕ)
tests = record { turns = turn ∷ turn ∷ turn ∷ []; last_turn = turn; code = pos 1 }

keep-live :
    (id : Text) (p : Lease → Bool) (m : List (Text × Lease)) (l : Lease)
    → lookup id m ≡ some l
    → p l ≡ true
    → lookup id (keep p m) ≡ some l
unfolding lookup keep
keep-live id p [] l h q = cc
keep-live id p ((k, v) ∷ m) l h q = ground (arith, keep-live id p m l, h, q)

turn-IsGentle :
    IsGentle host wire
      (unrouted host 55 clocked base_url)
      55
      clocked
      hosted
      base_url
      (network-Delivers host 55 clocked base_url)
      wire-IsLosslessWire
      1
      1
      (pos 42)
      (lit "lease-abcd")
      turn
unfolding gc
turn-IsGentle = record {
  short = λ s. omega arith;
  same_token = λ s. refl;
  spares = λ s e h late.
      let q : is_live (s.1 + second) h.0 ≡ true = ground (arith, h.2, late) in
      (h.0, keep-live (lit "lease-abcd") (is_live (s.1 + second)) s.0.store.leases h.0 h.1 q, h.2);
}

granted-IsFresh :
    IsFresh host wire
      (unrouted host 55 clocked base_url)
      55
      clocked
      hosted
      base_url
      (network-Delivers host 55 clocked base_url)
      wire-IsLosslessWire
      1
      1
      (pos 42)
      (lit "lease-abcd")
      (lit "secret")
      (granted, 10 * second)
unfolding grant
granted-IsFresh = record { held = granted-HeldUntil; same_token = refl }

abbrev tested : Daemon ℕ × ℕ
tested =
    at_end host wire (unrouted host 55 clocked base_url) 55 clocked hosted base_url
      (network-Delivers host 55 clocked base_url) wire-IsLosslessWire 1 1 (pos 42) client
      (lit "lease-abcd") tests (granted, 10 * second)

run_leased-released_example :
    let r =
      run_leased hosted wire 1 1 (pos 42) client (lit "lease-abcd") tests (granted, 10 * second) in
    IsLive host wire
      (unrouted host 55 clocked base_url)
      55
      clocked
      hosted
      base_url
      (network-Delivers host 55 clocked base_url)
      wire-IsLosslessWire
      1
      1
      (pos 42)
      (lit "lease-abcd")
      (lit "secret")
      tested
    × (r.0 ≡ pos 1)
    × ((release net wire client (lit "lease-abcd") (pos 1) tested).0 ≡ none)
    × (lookup (lit "lease-abcd") r.1.0.store.leases ≡ none)
unfolding trim_space
run_leased-released_example =
    run_leased-released host wire (unrouted host 55 clocked base_url) 55 clocked hosted base_url
      (network-Delivers host 55 clocked base_url) wire-IsLosslessWire 1 1 (pos 42) client
      (lit "lease-abcd") (lit "secret") tests (granted, 10 * second) refl refl refl
      (turn-IsGentle, (turn-IsGentle, (turn-IsGentle, tt))) turn-IsGentle granted-IsFresh
