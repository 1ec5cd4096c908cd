-- ===== src/Examples/Daemon.antt =====
-- A daemon with two containers and the service of Examples/SutManager.
use testcontainerd.Prelude.{
  ℕ, ◌+◌, ◌*◌, ◌≡◌, ◌↔◌, refl, true, false, [], ◌∷◌, some, lit, trim_space, text_eq, is_nil,
  is_some, arith, inl, inr,
}
use testcontainerd.Prelude.Int.{pos}
use testcontainerd.Prelude.Results.{ok}
use testcontainerd.Prelude.Dict.{lookup, insert}
use testcontainerd.Bundle.Pool.{run_all}
use testcontainerd.LeaseStore.{Lease, is_live, second, new_lease_store, active_count}
use testcontainerd.Examples.Bundle.{two, fresh, both, terminate}
use testcontainerd.Examples.SutManager.{counting, disk, plan, startup, managed, up}
use testcontainerd.SutManager.{grace_over, exits}
use testcontainerd.SutManager.Coherent.{IsCoherent}
use testcontainerd.Daemon.{Config, Daemon, Host, with_defaults}
use testcontainerd.Daemon.Protocol.{Request, AcquireReq, HeartbeatReq, ReleaseReq}
use testcontainerd.Daemon.Handlers.{Meets, leave_flight, is_authorized, grant, handle_acquire}
use testcontainerd.Daemon.Reaper.{Tick, Timers, zero_timers, on_tick, resume_tick, loop_reaper}
use testcontainerd.Daemon.Granting.{Answers, Unfinished, handle_acquire-Answers}
use testcontainerd.Daemon.Interleaved.{acquire_among}
use testcontainerd.Daemon.Interleaved.Atomic.{collected, reaped, acquire_among-handle_acquire}
use testcontainerd.Daemon.Idle.{IsDue, on_tick_stops}
use testcontainerd.Daemon.Expiring.{Later, HasDue, Stops, undisturbed, loop_reaper-undisturbed}
use testcontainerd.Daemon.Serving.{is_authorized_iff}
use testcontainerd.Daemon.Race.{resume_tick-grant}

abbrev pub host : Host ℕ
host = record {
  os = counting;
  fs = disk;
  terminate = terminate;
  remove = λ path w. w + 10000;
  shutdown_http = λ w. w + 100000;
}

abbrev pub config : Config ℕ
config = record {
  addr = lit "127.0.0.1:0";
  token = lit "secret";
  project = lit "demo";
  runtime_path = lit "/tmp/tcd/demo/runtime.json";
  idle_ttl = pos (15 * second);
  sut = some plan;
}

abbrev pub new : Daemon ℕ
new = record {
  cfg = config;
  bundle = fresh two;
  store = new_lease_store;
  serves = true;
  started_at = 1;
  runtime_path = lit "/tmp/tcd/demo/runtime.json";
  sut = managed;
  infra_started = false;
  is_closed = false;
  acquire_in_flight = 0;
}

abbrev pub meets : Meets
meets = record {
  events = both;
  startup = startup;
  bytes = 171 ∷ 205 ∷ [];
  now = 10 * second;
  then_now = 10 * second;
}

abbrev req : AcquireReq
req = record { project = lit "demo"; pid = pos 42; run_id = [] }

abbrev posted : {A : Type 0} → A → Request A
posted a = record { method = lit "POST"; token = lit " secret "; decoded = ok a }

abbrev beat : HeartbeatReq
beat = record { lease_id = lit "lease-abcd" }

abbrev leave : ReleaseReq
leave = record { lease_id = lit "lease-abcd"; exit_code = pos 0 }

abbrev pub granted : Daemon ℕ
granted = (grant meets req new).1

abbrev at : ℕ → Tick
at now = record { now = now; sut_stop = exits; shutdown_stop = grace_over }

-- The first acquire of a new daemon starts everything and is answered 200.
first_acquire : is_some (handle_acquire host 55 meets (posted req) new 0) ≡ true
unfolding handle_acquire text_eq run_all lookup insert
first_acquire = refl

handle_acquire-Answers_example :
    Answers
      (Unfinished host 55 meets new)
      meets
      new
      (handle_acquire host 55 meets (posted req) new 0)
unfolding IsCoherent
handle_acquire-Answers_example = handle_acquire-Answers host 55 meets (posted req) new 0 tt

on_tick_stops_example :
    ((on_tick host
        (at (30 * second))
        record { idle_since = 10 * second; sut_idle_since = 0 }
        new
        0).goes_on
      ≡ false)
    ↔ IsDue (at (30 * second)) record { idle_since = 10 * second; sut_idle_since = 0 } new
on_tick_stops_example =
    on_tick_stops host (at (30 * second)) record { idle_since = 10 * second; sut_idle_since = 0 }
      new 0

-- A tick before the containers are started, one before the service is, and two before the call ends.
acquire_among-handle_acquire_example :
    acquire_among host 55 meets
      (at (11 * second) ∷ [])
      (at (12 * second) ∷ [])
      (at (13 * second) ∷ at (14 * second) ∷ [])
      req
      zero_timers
      granted
      0
    ≡ reaped (at (13 * second) ∷ at (14 * second) ∷ []) zero_timers (
        handle_acquire host 55 meets
          (posted req)
          (collected (at (12 * second) ∷ []) (collected (at (11 * second) ∷ []) granted))
          0)
unfolding text_eq
acquire_among-handle_acquire_example =
    acquire_among-handle_acquire host 55 meets (at (11 * second) ∷ []) (at (12 * second) ∷ [])
      (at (13 * second) ∷ at (14 * second) ∷ []) (posted req) req zero_timers granted 0 refl refl

loop_reaper-undisturbed_example : Stops (
    loop_reaper host
      (undisturbed (at (20 * second) ∷ at (30 * second) ∷ at (40 * second) ∷ []))
      record { goes_on = true; timers = zero_timers; daemon = new; world = 0 })
unfolding Later HasDue active_count
loop_reaper-undisturbed_example =
    loop_reaper-undisturbed host (at (20 * second)) (at (30 * second) ∷ at (40 * second) ∷ [])
      second zero_timers new 0 (omega arith, (omega arith, (omega arith, tt))) refl refl refl
      (omega arith) (inr (inl refl))

is_authorized_iff_example :
    (is_authorized new (posted beat) ≡ true)
    ↔ ((trim_space (lit " secret ") ≡ lit "secret") × (is_nil (lit "secret") ≡ false))
is_authorized_iff_example = is_authorized_iff new (posted beat)

abbrev serving : Daemon ℕ
serving = record new { sut = up }

abbrev empty : Config ℕ
empty = record config { addr = []; token = []; project = lit " "; idle_ttl = pos 0 }

token_of_time : (with_defaults (lit "/tmp") 1234 empty).token ≡ lit "1234"
unfolding with_defaults
token_of_time = refl

abbrev flying : Daemon ℕ
flying = record new { acquire_in_flight = 1 }

abbrev late : Meets
late = record meets { now = 30 * second }

abbrev overdue : Timers
overdue = record { idle_since = 10 * second; sut_idle_since = 0 }

resume_tick-grant_example :
    (l : Lease) × ((lookup l.id (leave_flight (grant late req flying).1).store.leases ≡ some l)
      × ((is_live (30 * second) l ≡ true)
          × (((resume_tick host
                  (at (30 * second))
                  overdue
                  0
                  (leave_flight (grant late req flying).1)
                  0).goes_on
                ≡ false)
              × ((resume_tick host
                    (at (30 * second))
                    overdue
                    0
                    (leave_flight (grant late req flying).1)
                    0).daemon.is_closed
                  ≡ true))))
resume_tick-grant_example =
    resume_tick-grant host (at (30 * second)) overdue late req flying 0 refl (λ e. omega arith) refl
      (omega arith)
