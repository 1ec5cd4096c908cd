-- ===== src/Examples/Discovery.antt =====
-- The runtime file of a daemon on the machine of Examples/Box.
use testcontainerd.Prelude.{◌*◌, ◌≡◌, refl, [], some, lit, text_eq, Text, arith}
use testcontainerd.Prelude.Int.{pos, millisecond}
use testcontainerd.Prelude.Dict.{lookup, insert}
use testcontainerd.Prelude.Results.{ok, err}
use testcontainerd.Errors.{external}
use testcontainerd.Daemon.Protocol.{RuntimeInfo}
use testcontainerd.Runtime.Info.{Disk, read, write, wait}
use testcontainerd.Runtime.Discovery.{IsDisk, read-write, write_atomic}
use testcontainerd.Runtime.Waiting.{Waited, wait-Waited}
use testcontainerd.Examples.Box.{
  Box, box_disk, box_clock, box_json, box-IsDisk, box-IsFaithful, box-IsTicking, no_file,
  write_table, rename_table, decode_info, encode_info,
}

abbrev first : RuntimeInfo
first = record { addr = lit "127.0.0.1:4000"; token = lit "secret"; pid = pos 42; started_at = 1 }

abbrev second : RuntimeInfo
second = record { addr = lit "127.0.0.1:5000"; token = lit "other"; pid = pos 43; started_at = 2 }

abbrev path : Text
path = lit "/tmp/tcd/demo/runtime.json"

abbrev empty : Box
empty = record { time = 0; table = [] }

abbrev written : Box
written = (write box_disk box_json path first empty).1

read-write_example : read box_disk box_json path written ≡ ok first
unfolding write insert text_eq lookup write_table rename_table
read-write_example =
    read-write box_disk box-IsDisk box_json path first empty box-IsFaithful refl refl refl

-- A disk on which no file can be renamed.
abbrev stuck : Disk Box
stuck = record box_disk { rename = λ p q w. (some (external (lit "permission denied")), w) }

stuck-IsDisk : IsDisk stuck
stuck-IsDisk = record {
  mkdir_keeps = box-IsDisk.mkdir_keeps;
  write_reads = box-IsDisk.write_reads;
  write_keeps = box-IsDisk.write_keeps;
  rename_moves = λ p q b w r h. ground arith;
  rename_keeps = λ p q c w e h r. r;
  remove_forgets = box-IsDisk.remove_forgets;
}

write_atomic_example :
    read stuck box_json path (write stuck box_json path second written).1 ≡ ok first
unfolding write read insert text_eq lookup write_table rename_table decode_info encode_info
write_atomic_example =
    write_atomic stuck stuck-IsDisk box_json path second first written
      (external (lit "permission denied")) refl refl

wait-Waited_example :
    Waited box_disk box_json box_clock path
      (500 * millisecond)
      (wait box_disk box_json box_clock 6 path (500 * millisecond) empty)
wait-Waited_example =
    wait-Waited box_disk box_json box_clock box-IsTicking 5 path (500 * millisecond) empty
      (omega arith)

-- With no runtime file, a wait of 500 ms gives up in its sixth round.
waited_in_vain :
    wait box_disk box_json box_clock 6 path (500 * millisecond) empty
    ≡ some (err no_file, record { time = 600 * millisecond; table = [] })
unfolding wait lookup
waited_in_vain = refl
