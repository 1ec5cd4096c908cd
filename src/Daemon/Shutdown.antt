-- ===== src/Daemon/Shutdown.antt =====
-- daemon/server.go, `shutdownServer`: it runs once, and stops the service and the containers.
use testcontainerd.Prelude.{◌≡◌, refl, true, false, Bool-cases, inl, inr}
use testcontainerd.SutManager.{StopSelect, is_enabled}
use testcontainerd.SutManager.Coherent.{IsCoherent, IsCleared}
use testcontainerd.SutManager.Clearing.{stop-IsCleared}
use testcontainerd.Daemon.{
  Daemon, Host, stop_sut_only, stop_containers_only, shut_down, shutdown_server,
}
use testcontainerd.Daemon.Idle.{shutdown_server-closed}

module _ {W : Type 0} (host : Host W) where
  again :
      (chosen : StopSelect) (d : Daemon W) (w : W)
      → d.is_closed ≡ true
      → shutdown_server host chosen d w ≡ (d, w)
  unfolding shutdown_server
  again chosen d w e = rw (shutdown_server, e) refl

  -- A second call of `shutdownServer` does nothing, whatever the first one did.
  pub shutdown_server_twice :
      (chosen chosen' : StopSelect) (d : Daemon W) (w w' : W)
      → shutdown_server host chosen' (shutdown_server host chosen d w).0 w'
        ≡ ((shutdown_server host chosen d w).0, w')
  shutdown_server_twice chosen chosen' d w w' =
      again chosen' (shutdown_server host chosen d w).0 w' (shutdown_server-closed host chosen d w)

  stop_containers_only-sut : (d : Daemon W) (w : W) → (stop_containers_only host d w).1.sut ≡ d.sut
  unfolding stop_containers_only
  stop_containers_only-sut d w = elim (Bool-cases d.infra_started) [
    | inl e ↦ simp (stop_containers_only, e) refl
    | inr e ↦ simp (stop_containers_only, e) refl
  ]

  shut_down-IsCleared :
      (chosen : StopSelect) (d : Daemon W) (w : W)
      → IsCoherent d.sut
      → is_enabled d.sut ≡ true
      → IsCleared d.sut (shut_down host chosen d w).0.sut
  unfolding shut_down stop_sut_only
  shut_down-IsCleared chosen d w h p =
      let r = stop_sut_only host chosen (record d { is_closed = true }) w in
      rw (stop_containers_only-sut r.1 r.2) (stop-IsCleared host.os chosen d.sut w h p)

  -- The first call of `shutdownServer` leaves the manager of an enabled service without a command and
  -- channel.
  pub shutdown_server-IsCleared :
      (chosen : StopSelect) (d : Daemon W) (w : W)
      → d.is_closed ≡ false
      → IsCoherent d.sut
      → is_enabled d.sut ≡ true
      → IsCleared d.sut (shutdown_server host chosen d w).0.sut
  unfolding shutdown_server
  shutdown_server-IsCleared chosen d w e h p =
      simp (shutdown_server, e) (shut_down-IsCleared chosen d w h p)
