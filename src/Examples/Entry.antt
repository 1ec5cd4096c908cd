-- ===== src/Examples/Entry.antt =====
-- The entry points, and the start of a daemon, at concrete inputs.
use testcontainerd.Prelude.{
  ℕ, ◌+◌, ◌*◌, ◌≡◌, ◌↔◌, refl, subst, if◌then◌else◌, true, false, [], ◌∷◌, none, some, Text, lit,
  is_nil, text_eq, trim_space, arith,
}
use testcontainerd.Prelude.Int.{pos}
use testcontainerd.Prelude.Dict.{lookup, insert, erase}
use testcontainerd.Prelude.Results.{ok, is_ok}
use testcontainerd.Errors.{external}
use testcontainerd.LeaseStore.{second, new_lease_store}
use testcontainerd.Registration.Accepted.{IsAcceptable}
use testcontainerd.Cleanup.{Docker, missing, cleanup_orphans}
use testcontainerd.Daemon.{Daemon}
use testcontainerd.Daemon.Start.{Server, server_closed, start}
use testcontainerd.Daemon.Start.Announced.{Started, start-Started}
use testcontainerd.Client.Environ.{getenv}
use testcontainerd.Client.Machine.{DaemonCommand, build_daemon_command}
use testcontainerd.Entry.{Config, TestContainerd, RegisterContainers, new_test_containerd}
use testcontainerd.Entry.Modes.{Booting, run_daemon_mode, exit_of, is_daemon_mode, daemon_config}
use testcontainerd.Entry.Accepting.{
  IsConfigured, new_test_containerd-accepts, run_daemon_mode_starts,
}
use testcontainerd.Entry.Running.{build_daemon_command-agrees}
use testcontainerd.SutManager.{new_sut_manager}
use testcontainerd.Examples.Bundle.{two}
use testcontainerd.Examples.Box.{
  Box, box_disk, box_json, box-IsDisk, box-IsFaithful, write_table, rename_table, remove_table,
}
use testcontainerd.Examples.Starting.{machine}

abbrev cfg : Config ℕ
cfg = record {
  global = record { project = lit " demo "; runtime_path = [] };
  daemon = record { addr = lit "127.0.0.1:0"; token = []; idle_ttl = pos (15 * second) };
  client = record { http_timeout = pos second };
  sut = none;
}

abbrev register : RegisterContainers ℕ
register w = (ok two, w + 1)

new_test_containerd-accepts_example :
    (is_ok (new_test_containerd (lit "/tmp") cfg (some register) 0).0 ≡ true)
    ↔ (IsConfigured cfg × (is_nil two ≡ false) × IsAcceptable two)
new_test_containerd-accepts_example =
    new_test_containerd-accepts (lit "/tmp") cfg register 0 1 two refl

abbrev made : TestContainerd ℕ
made = record {
  cfg = record cfg {
    global = record { project = lit "demo"; runtime_path = lit "/tmp/tcd/demo/runtime.json" };
  };
  register_containers = some register;
  registrations = two;
}

makes : (new_test_containerd (lit "/tmp") cfg (some register) 0).0 ≡ ok made
unfolding new_test_containerd text_eq
makes = refl

-- The daemon's start takes one step of the world, and fails if its token is empty.
abbrev boot : Booting ℕ
boot = record {
  temp = lit "/tmp";
  unix_nano = 1234;
  now = 1;
  start =
      λ d w. some (if is_nil d.cfg.token then some (external (lit "no token")) else none, w + 1);
}

run_daemon_mode_starts_example :
    (d : Daemon ℕ) × (run_daemon_mode boot made (λ k. none) 5 ≡ exit_of boot (boot.start d 5))
run_daemon_mode_starts_example =
    run_daemon_mode_starts (lit "/tmp") cfg (some register) 0 5 made boot (λ k. none) makes

abbrev spare : TestContainerd Box
spare = record {
  cfg = record {
    global = record { project = lit "demo"; runtime_path = lit "/elsewhere/runtime.json" };
    daemon = cfg.daemon;
    client = cfg.client;
    sut = none;
  };
  register_containers = none;
  registrations = [];
}

abbrev empty : Box
empty = record { time = 0; table = [] }

abbrev command : DaemonCommand
command = record {
  path = lit "/tmp/demo.test";
  args = lit "-test.run=^$" ∷ [];
  env = lit "PATH=/bin" ∷ lit "TCD_MODE=daemon" ∷ lit "TCD_RUNTIME=/tmp/tcd/demo/runtime.json" ∷ [];
  output = none;
}

build_daemon_command-agrees_example :
    (is_daemon_mode (getenv command.env) ≡ true)
    × ((daemon_config spare (getenv command.env)).runtime_path ≡ lit "/tmp/tcd/demo/runtime.json")
unfolding build_daemon_command insert text_eq trim_space
build_daemon_command-agrees_example =
    build_daemon_command-agrees machine spare (lit "/tmp/tcd/demo/runtime.json") empty command refl
      refl refl

-- A daemon of no containers and no service, on a machine without docker.
abbrev bare : Daemon Box
bare = record {
  cfg = record {
    addr = lit "127.0.0.1:0";
    token = lit "secret";
    project = lit "demo";
    runtime_path = lit "/tmp/tcd/demo/runtime.json";
    idle_ttl = pos (15 * second);
    sut = none;
  };
  bundle = record { started = false; regs = []; start_order = []; cleanup = []; container_by = [] };
  store = new_lease_store;
  serves = false;
  started_at = 1;
  runtime_path = lit "/tmp/tcd/demo/runtime.json";
  sut = new_sut_manager none;
  infra_started = false;
  is_closed = false;
  acquire_in_flight = 0;
}

abbrev no_docker : Docker Box
no_docker = record {
  connect = λ w. some (external (lit "no docker"));
  list = λ w. (ok [], w);
  remove = λ id w. (none, w);
  inspect = λ id w. (missing, w);
}

-- It serves for a minute.
abbrev server : Server Box
server = record {
  listen = λ addr w. (ok (lit "127.0.0.1:4000"), w);
  close_listener = λ w. w;
  close_file = λ f w. w;
  pid = pos 42;
  serve = λ d w. (server_closed, d, record w { time = w.time + 60 * second });
}

listens :
    (w : Box) (addr : Text) → (server.listen bare.cfg.addr w).0 ≡ ok addr → is_nil addr ≡ false
listens w addr h =
    let e : lit "127.0.0.1:4000" ≡ addr = ground (arith, h) in
    subst (λ (a : Text). is_nil a ≡ false) e refl

start-Started_example :
    Started box_disk box_json no_docker server
      ((w : Box) × (cleanup_orphans no_docker 1 bare.bundle.regs w ≡ none))
      bare
      (start box_disk box_json no_docker server 1 bare empty)
start-Started_example =
    start-Started box_disk box_json no_docker server box-IsDisk box-IsFaithful bare refl listens 1
      empty

-- The file is gone at the end.
starts_and_ends :
    start box_disk box_json no_docker server 1 bare empty
    ≡ some (none, record bare { serves = true }, record { time = 60 * second; table = [] })
unfolding start insert erase lookup text_eq write_table rename_table remove_table
starts_and_ends = refl
