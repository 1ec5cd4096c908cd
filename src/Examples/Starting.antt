-- ===== src/Examples/Starting.antt =====
-- Clients that start a daemon on the machine of Examples/Box.
use testcontainerd.Prelude.{
  ℕ, ◌+◌, ◌*◌, ◌≤◌, ◌≡◌, refl, true, false, [], ◌∷◌, Option, none, some, Text, lit, is_some,
  text_eq, ◌-◌, arith,
}
use testcontainerd.Prelude.Int.{pos, millisecond}
use testcontainerd.Prelude.Dict.{lookup, insert, erase}
use testcontainerd.Prelude.Results.{Result, ok, err}
use testcontainerd.Errors.{Error, external}
use testcontainerd.LeaseStore.{second}
use testcontainerd.Daemon.Protocol.{RuntimeInfo}
use testcontainerd.Runtime.Info.{discard, read}
use testcontainerd.Runtime.Waiting.{IsTicking, Waited, found, gave_up, wait-Waited}
use testcontainerd.Client.{Config, with_defaults}
use testcontainerd.Client.Machine.{
  Machine, Opened, opened, exists_already, start_lock_path, try_acquire_start_lock,
  is_stale_start_lock,
}
use testcontainerd.Client.Autostart.{auto_start_daemon}
use testcontainerd.Client.Starting.{IsSteady, auto_start_daemon_ends}
use testcontainerd.Client.Stuck.{IsStuck, auto_start_daemon_goes_on}
use testcontainerd.Client.Connect.{new_client}
use testcontainerd.Client.Connect.Reuse.{Connected, new_client-Connected}
use testcontainerd.Examples.Box.{
  unix_copier, Box, box_disk, box_clock, box_json, box-IsTicking, remove_table, write_table,
  encode_info, decode_info, no_file,
}

abbrev pub path : Text
path = lit "/tmp/tcd/demo/runtime.json"

abbrev pub lock : Text
lock = start_lock_path path

abbrev pub info : RuntimeInfo
info = record { addr = lit "127.0.0.1:4000"; token = lit "secret"; pid = pos 42; started_at = 1 }

abbrev pub made : Text → Option Text → Box → Opened × Box
made p none w = (opened, record w { table = insert p [] w.table })
made p (some b) w = (exists_already, w)

-- A machine on which a daemon writes its runtime file at once, and a lock has always just been made.
abbrev pub machine : Machine Box
machine = record {
  disk = box_disk;
  clock = box_clock;
  http = record { send = λ c w. (err (external (lit "refused")), w); dial = λ a w. (none, w) };
  json = box_json;
  open_excl = λ p w. made p (lookup p w.table) w;
  note_owner = λ p w. w;
  close_lock = λ p w. w;
  mod_time = λ p w. ok w.time;
  executable = λ w. ok (lit "/tmp/demo.test");
  copier = unix_copier;
  environ = λ w. lit "PATH=/bin" ∷ lit "TCD_MODE=test" ∷ [];
  start = λ cmd w. write_table path (encode_info info) w;
  close_log = λ f w. w;
}

made-time : (p : Text) (o : Option Text) (w : Box) → w.time ≤ (made p o w).1.time
made-time p none w = omega arith
made-time p (some b) w = omega arith

machine-IsSteady : IsSteady machine
unfolding IsTicking
machine-IsSteady = record {
  ticking = box-IsTicking;
  mkdir_steady = λ d w. omega arith;
  open_steady = λ p w. made-time p (lookup p w.table) w;
  dial_steady = λ a w. omega arith;
}

pub fresh :
    (p : Text) (w : Box) → is_stale_start_lock machine (start_lock_path p) p (90 * second) w ≡ false
unfolding is_stale_start_lock
fresh p w = let t : w.time - w.time ≡ 0 = omega arith in ground (arith, t)

abbrev pub empty : Box
empty = record { time = 0; table = [] }

auto_start_daemon_ends_example : is_some (auto_start_daemon machine 121 101 path empty) ≡ true
auto_start_daemon_ends_example =
    auto_start_daemon_ends machine machine-IsSteady 100 (omega arith) path (fresh path) empty

abbrev cfg : Config
cfg = record { project = lit "demo"; runtime_path = path; http_timeout = pos second }

new_client-Connected_example :
    Connected machine (with_defaults (lit "/tmp") cfg) (new_client machine 121 102 cfg empty)
new_client-Connected_example =
    new_client-Connected machine 101 cfg empty machine-IsSteady (omega arith)
      (fresh (with_defaults (lit "/tmp") cfg).runtime_path)

-- A client that finds no daemon starts one and is connected to it.
starts_one :
    new_client machine 1 1 cfg empty
    ≡ some (
      ok record { cfg = cfg; base_url = lit "http://127.0.0.1:4000"; token = lit "secret" },
      record { time = 0; table = (path, encode_info info) ∷ [] },
    )
unfolding new_client lookup insert erase text_eq write_table remove_table encode_info decode_info
starts_one = refl

-- A machine of which only the clock is kept, with a lock file of the time 0 that cannot be removed,
-- and no other file.
abbrev denied : Error
denied = external (lit "permission denied")

abbrev jammed : Machine ℕ
jammed = record {
  disk = record {
    files = record {
      temp = lit "/tmp";
      mkdir_all = λ d w. (none, w);
      open_append = λ p w. (ok 7, w);
    };
    read_file = λ p w. err no_file;
    write_file = λ p b w. (some denied, w);
    rename = λ p q w. (some denied, w);
    remove_file = λ p w. (some denied, w);
  };
  clock = record { now = λ w. w; sleep = λ d w. w + d };
  http = record { send = λ c w. (err denied, w); dial = λ a w. (some denied, w) };
  json = box_json;
  open_excl = λ p w. (exists_already, w);
  note_owner = λ p w. w;
  close_lock = λ p w. w;
  mod_time = λ p w. ok 0;
  executable = λ w. ok (lit "/tmp/demo.test");
  copier = unix_copier;
  environ = λ w. [];
  start = λ cmd w. (none, w);
  close_log = λ f w. w;
}

jammed-IsTicking : IsTicking jammed.clock
unfolding IsTicking
jammed-IsTicking d w = omega arith

abbrev Late : ℕ → Type 0
Late w = 90 * second ≤ w

jammed_stale : (w : ℕ) → Late w → is_stale_start_lock jammed lock path (90 * second) w ≡ true
unfolding is_stale_start_lock read
jammed_stale w h = ground (arith, h)

Waited-Late :
    (w : ℕ) (o : Option (Result Error RuntimeInfo × ℕ))
    → Late w
    → Waited jammed.disk jammed.json jammed.clock path (w + 1500 * millisecond) o
    → (e : Error) × (w' : ℕ) × (o ≡ some (err e, w'))
      × (is_stale_start_lock jammed lock path (90 * second) w' ≡ true)
      × Late (discard jammed.disk lock w')
unfolding read
Waited-Late w o h (found e) = ground (arith, e)
Waited-Late w o h (gave_up {e} {w = w'} r t) =
    (e, w', refl, jammed_stale w' (omega arith), omega arith)

jammed-IsStuck : IsStuck jammed path 14 Late
unfolding try_acquire_start_lock
jammed-IsStuck = record {
  refused = λ w h. refl;
  in_vain = λ w h. Waited-Late w _ h (
      wait-Waited jammed.disk jammed.json jammed.clock jammed-IsTicking 13 path (1500 * millisecond)
        w (omega arith));
}

auto_start_daemon_goes_on_example : auto_start_daemon jammed 1000000 14 path (90 * second) ≡ none
auto_start_daemon_goes_on_example =
    auto_start_daemon_goes_on jammed path 14 Late jammed-IsStuck 1000000 (90 * second) (omega arith)
