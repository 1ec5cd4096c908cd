-- ===== src/Daemon/Start/Announced.antt =====
-- daemon/server.go, `Start`: what the runtime file says while the daemon serves.
use testcontainerd.Prelude.{
  ℕ, ◌≡◌, ap, true, false, Bool, Option, none, some, Text, is_nil, Option-cases, inl, inr,
}
use testcontainerd.Prelude.Results.{ok, Result-cases}
use testcontainerd.Errors.{Error}
use testcontainerd.Runtime.{File, open_daemon_log_file}
use testcontainerd.Runtime.Info.{Disk, read, write, remove}
use testcontainerd.Runtime.Discovery.{IsDisk, read-write}
use testcontainerd.Cleanup.{Docker, cleanup_orphans}
use testcontainerd.Daemon.{Daemon}
use testcontainerd.Daemon.Protocol.{RuntimeInfo, Codec, IsFaithful}
use testcontainerd.Daemon.Start.{
  Server, serve_error, own_info, announce, start_listening, start_clean, start,
}

module _ {W : Type 0} (disk : Disk W) (json : Codec RuntimeInfo) (docker : Docker W)
    (server : Server W) where
  -- The end of `Start` of a daemon `d`. It has not served, and nothing but `httpServer` is set; or
  -- `net.Listen`, called in some world with the address of the configuration, has given an address,
  -- and the daemon has served from the world after the runtime file was written, in which a reader of the runtime file finds this address
  -- with the daemon's token, the process's id and the time of the start; after that the runtime file
  -- is removed and the log closed.
  pub data Started (Why : Type 0) (d : Daemon W)
      : Option (Option Error × Daemon W × W) → Type 0 where
    unstarted :
        {e : Error} {w : W} (s : Bool) → Started Why d (some (some e, record d { serves = s }, w))
    served :
        (file : File) (addr : Text) (v w : W)
        → (server.listen d.cfg.addr v).0 ≡ ok addr
        → write disk json d.runtime_path
            (own_info disk json docker server d addr)
            (server.listen d.cfg.addr v).1
          ≡ (none, w)
        → read disk json d.runtime_path w
          ≡ ok record {
            addr = addr;
            token = d.cfg.token;
            pid = server.pid;
            started_at = d.started_at;
          }
        → Started Why d (
            some (
              serve_error (server.serve (record d { serves = true }) w).0,
              (server.serve (record d { serves = true }) w).1,
              server.close_file file
                  (remove disk d.runtime_path (server.serve (record d { serves = true }) w).2),
            ))
    unfinished : Why → Started Why d none

  module _ (laws : IsDisk disk) (faithful : IsFaithful json) (d : Daemon W)
      (token : is_nil d.cfg.token ≡ false)
      (addressed : (w : W) (addr : Text)
        → (server.listen d.cfg.addr w).0 ≡ ok addr
        → is_nil addr ≡ false) where
    -- The log is closed at the end.
    abbrev closes : File → Option Error × Daemon W × W → Option (Option Error × Daemon W × W)
    closes file r = some (r.0, r.1, server.close_file file r.2)

    announce-Started :
        {Why : Type 0} (file : File) (addr : Text) (v : W)
        → (server.listen d.cfg.addr v).0 ≡ ok addr
        → Started Why d (
            closes file (
              announce disk json docker server addr
                (record d { serves = true })
                (server.listen d.cfg.addr v).1))
    unfolding announce
    announce-Started file addr v l =
        let w = (server.listen d.cfg.addr v).1 in
        let info = own_info disk json docker server d addr in
        elim (Option-cases
          (write disk json d.runtime_path (own_info disk json docker server d addr) w).0) [
            | inr (x, e) ↦ rw (announce, e) (unstarted true)
            | inl e ↦
                rw (announce, e)
                  (served file addr v (write disk json d.runtime_path info w).1 l
                    (ap (λ x. (x, (write disk json d.runtime_path info w).1)) e)
                    (read-write disk laws json d.runtime_path info w faithful (addressed v addr l)
                      token e))
          ]

    listening-Started :
        {Why : Type 0} (file : File) (w : W)
        → Started Why d (closes file (start_listening disk json docker server d w))
    unfolding start_listening
    listening-Started file w = elim (Result-cases (server.listen d.cfg.addr w).0) [
      | inl (x, e) ↦ rw (start_listening, e) (unstarted d.serves)
      | inr (addr, e) ↦ rw (start_listening, e) (announce-Started file addr w e)
    ]

    -- `Start` of a daemon with a token, where a listener has an address: it ends without having
    -- served, with an error, and sets nothing of the daemon but `httpServer`; or it serves, in a world
    -- where the runtime file tells a reader the address that `net.Listen` gave for the address of the
    -- configuration, with the token, the process's id and the time of the start, and then removes the
    -- file and gives the server's error, or nil if the server was closed. It has no end only where
    -- `CleanupOrphans` has none in the given fuel.
    pub start-Started :
        (fuel : ℕ) (w : W)
        → Started
            ((w' : W) × (cleanup_orphans docker fuel d.bundle.regs w' ≡ none))
            d
            (start disk json docker server fuel d w)
    unfolding start start_clean
    start-Started fuel w =
        elim (Result-cases (open_daemon_log_file disk.files d.runtime_path w).0) [
          | inl (x, e) ↦ rw (start, e) (unstarted d.serves)
          | inr (file, e) ↦
              let w' = (open_daemon_log_file disk.files d.runtime_path w).1 in
              elim (Option-cases (cleanup_orphans docker fuel d.bundle.regs w')) [
                | inl f ↦ rw (start, e, f) (unfinished (w', f))
                | inr ((some x, w''), f) ↦ rw (start, e, f) (unstarted d.serves)
                | inr ((none, w''), f) ↦ rw (start, e, f) (listening-Started file w'')
              ]
        ]
