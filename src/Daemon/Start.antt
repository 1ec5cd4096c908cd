-- ===== src/Daemon/Start.antt =====
-- daemon/server.go, `Start`: from the log file to the end of the server. The registrations are those
-- of the bundle, and what the log is given is not modelled.
pub mod Announced
use testcontainerd.Prelude.{ℕ, true, Option, none, some, Text}
use testcontainerd.Prelude.Int.{ℤ}
use testcontainerd.Prelude.Results.{Result, ok, err}
use testcontainerd.Errors.{Error}
use testcontainerd.Runtime.{File, open_daemon_log_file}
use testcontainerd.Runtime.Info.{Disk, write, remove}
use testcontainerd.Cleanup.{Docker, cleanup_orphans}
use testcontainerd.Daemon.{Daemon}
use testcontainerd.Daemon.Protocol.{RuntimeInfo, Codec}

-- How `httpServer.Serve` ends: with `http.ErrServerClosed`, or with another error.
pub data Served : Type 0 where
  server_closed : Served
  broken : Error → Served

-- `net.Listen`, which gives the address listened at, `Close` of the listener and of a file,
-- `os.Getpid`, and the time in which the server serves: the calls and the ticks of that time, and the
-- end of it.
pub record Server (W : Type 0) : Type 0 where
  pub listen : Text → W → Result Error Text × W
  pub close_listener : W → W
  pub close_file : File → W → W
  pub pid : ℤ
  pub serve : Daemon W → W → Served × Daemon W × W

abbrev pub serve_error : Served → Option Error
serve_error server_closed = none
serve_error (broken e) = some e

module _ {W : Type 0} (disk : Disk W) (json : Codec RuntimeInfo) (docker : Docker W)
    (server : Server W) where
  -- What the runtime file of a daemon says.
  abbrev pub own_info : Daemon W → Text → RuntimeInfo
  own_info d addr = record {
    addr = addr;
    token = d.cfg.token;
    pid = server.pid;
    started_at = d.started_at;
  }

  -- From `tcdruntime.Write` on, where `httpServer` is set.
  unfoldable pub announce : Text → Daemon W → W → Option Error × Daemon W × W
  unfolding write remove
  announce addr d w =
      let (e, w1) = write disk json d.runtime_path (own_info d addr) w in
      elim e [
        | some x ↦ (some x, d, server.close_listener w1)
        | none ↦
            let (served, d', w2) = server.serve d w1 in
            (serve_error served, d', remove disk d.runtime_path w2)
      ]

  -- From `net.Listen` on.
  unfoldable pub start_listening : Daemon W → W → Option Error × Daemon W × W
  unfolding announce
  start_listening d w =
      let (l, w1) = server.listen d.cfg.addr w in
      elim l [ err e ↦ (some e, d, w1) | ok addr ↦ announce addr (record d { serves = true }) w1 ]

  -- From `CleanupOrphans` on; `none` is its fuel run out.
  unfoldable pub start_clean : ℕ → Daemon W → W → Option (Option Error × Daemon W × W)
  unfolding start_listening cleanup_orphans
  start_clean fuel d w = elim (cleanup_orphans docker fuel d.bundle.regs w) [
    | none ↦ none
    | some r ↦
        let (e, w') = r in
        elim e [ some x ↦ some (some x, d, w') | none ↦ some (start_listening d w') ]
  ]

  unfoldable pub start : ℕ → Daemon W → W → Option (Option Error × Daemon W × W)
  unfolding start_clean open_daemon_log_file
  start fuel d w =
      let (log, w') = open_daemon_log_file disk.files d.runtime_path w in
      elim log [
        | err e ↦ some (some e, d, w')
        | ok file ↦ elim (start_clean fuel d w') [
          | none ↦ none
          | some r ↦ let (e, d', w'') = r in some (e, d', server.close_file file w'')
        ]
      ]
