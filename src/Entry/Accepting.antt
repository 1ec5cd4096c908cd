-- ===== src/Entry/Accepting.antt =====
-- testcontainerd.go, `New`: what it accepts, and that the daemon accepts it too.
use testcontainerd.Prelude.{
  ◌≡◌, ◌↔◌, refl, sym, subst, ◌∙◌, ap, true, false, not, List, [], ◌∷◌, Option, none, some, Text,
  is_nil, is_some, trim_space, Option-cases, Bool-cases, inl, inr, arith,
}
use testcontainerd.Prelude.Int.{is_pos}
use testcontainerd.Prelude.Results.{ok, err, is_ok, Result-cases}
use testcontainerd.Errors.{Error}
use testcontainerd.Registration.{Registration, check_registrations}
use testcontainerd.Registration.Accepted.{IsAcceptable, check_registrations-none}
use testcontainerd.Bundle.{new_bundle}
use testcontainerd.Daemon.{Daemon, new_daemon}
use testcontainerd.Entry.{
  Config, TestContainerd, RegisterContainers, normalize_global, check_config, check_loaded, load,
  new_test_containerd,
}
use testcontainerd.Entry.Modes.{
  Booting, daemon_config, loaded, boot_daemon, boot_loaded, run_daemon_mode, exit_of,
}

module _ {W : Type 0} where
  -- The daemon's address is not blank, and both times are positive.
  pub record IsConfigured (cfg : Config W) : Type 0 where
    pub addressed : is_nil (trim_space cfg.daemon.addr) ≡ false
    pub patient : is_pos cfg.client.http_timeout ≡ true
    pub lasting : is_pos cfg.daemon.idle_ttl ≡ true

  check_config-none : (cfg : Config W) → (check_config cfg ≡ none) ↔ IsConfigured cfg
  unfolding check_config
  check_config-none cfg = (there, back)
    where
      there : check_config cfg ≡ none → IsConfigured cfg
      there h = record {
        addressed = ground (arith, h);
        patient = ground (arith, h);
        lasting = ground (arith, h);
      }

      back : IsConfigured cfg → check_config cfg ≡ none
      back c = ground (arith, c.addressed, c.patient, c.lasting)

  check_loaded-none :
      (regs : List (Registration W))
      → (check_loaded regs ≡ none) ↔ ((is_nil regs ≡ false) × IsAcceptable regs)
  unfolding check_loaded
  check_loaded-none [] = ground arith
  check_loaded-none (reg ∷ regs) = (
    (λ h. (refl, (check_registrations-none (reg ∷ regs)).0 h)),
    λ a. (check_registrations-none (reg ∷ regs)).1 a.1,
  )

  load_registered :
      (cfg : Config W) (register : RegisterContainers W) (w w' : W) {regs : List (Registration W)}
      → register w ≡ (ok regs, w')
      → is_ok (load cfg (some register) w).0 ≡ not (is_some (check_loaded regs))
  unfolding load
  load_registered cfg register w w' {regs} r = elim (Option-cases (check_loaded regs)) [
    | inl e ↦ rw (load, r, e) refl
    | inr (x, e) ↦ rw (load, r, e) refl
  ]

  abbrev normal : Text → Config W → Config W
  normal temp cfg = record cfg { global = normalize_global temp cfg.global }

  new_refused :
      (temp : Text) (cfg : Config W) (register : Option (RegisterContainers W)) (w : W) {e : Error}
      → check_config cfg ≡ some e
      → new_test_containerd temp cfg register w ≡ (err e, w)
  unfolding new_test_containerd check_config
  new_refused temp cfg register w h = rw (new_test_containerd, h) refl

  new_loads :
      (temp : Text) (cfg : Config W) (register : Option (RegisterContainers W)) (w : W)
      → check_config cfg ≡ none
      → new_test_containerd temp cfg register w ≡ load (normal temp cfg) register w
  unfolding new_test_containerd check_config
  new_loads temp cfg register w h = rw (new_test_containerd, h) refl

  -- `New`, given a function that registers containers without an error, accepts exactly where the
  -- daemon's address is not blank, the client's timeout and the daemon's idle time are positive, and
  -- the registrations are some, each with a name and a `Start`, and no trimmed name twice.
  pub new_test_containerd-accepts :
      (temp : Text) (cfg : Config W) (register : RegisterContainers W) (w w' : W)
      (regs : List (Registration W))
      → register w ≡ (ok regs, w')
      → (is_ok (new_test_containerd temp cfg (some register) w).0 ≡ true)
        ↔ (IsConfigured cfg × (is_nil regs ≡ false) × IsAcceptable regs)
  new_test_containerd-accepts temp cfg register w w' regs r =
      elim (Option-cases (check_config cfg)) [
        | inr (x, e) ↦
            rw (new_refused temp cfg (some register) w e) (ground (arith, check_config-none cfg, e))
        | inl e ↦
            rw
              (
                new_loads temp cfg (some register) w e,
                load_registered (normal temp cfg) register w w' r,
              )
              (elim (Option-cases (check_loaded regs)) [
                | inl f ↦ rw (f) (ground (arith, check_config-none cfg, check_loaded-none regs))
                | inr (y, f) ↦ rw (f) (ground (arith, check_loaded-none regs))
              ])
      ]

  -- What `New` has made sure of.
  record IsReady (t : TestContainerd W) : Type 0 where
    checked : check_loaded t.registrations ≡ none
    registered : (f : RegisterContainers W) × (t.register_containers ≡ some f)

  load-IsReady :
      (cfg : Config W) (register : Option (RegisterContainers W)) (w : W) (t : TestContainerd W)
      → (load cfg register w).0 ≡ ok t
      → IsReady t
  unfolding load
  load-IsReady cfg none w t h = ground (arith, h)
  load-IsReady cfg (some f) w t h = elim (Result-cases (f w).0) [
    | inl (x, e) ↦ ground (arith, e)
    | inr (regs, e) ↦ elim (Option-cases (check_loaded regs)) [
      | inr (x, g) ↦ ground (arith, e, g)
      | inl g ↦
          let made : TestContainerd W = record {
            cfg = cfg;
            register_containers = some f;
            registrations = regs;
          } in
          let same : made ≡ t = ground (arith, e, g) in
          subst (λ (u : TestContainerd W). IsReady u) same
            record { checked = g; registered = (f, refl) }
    ]
  ]

  new-IsReady :
      (temp : Text) (cfg : Config W) (register : Option (RegisterContainers W)) (w : W)
      (t : TestContainerd W)
      → (new_test_containerd temp cfg register w).0 ≡ ok t
      → IsReady t
  new-IsReady temp cfg register w t h = elim (Option-cases (check_config cfg)) [
    | inr (x, e) ↦ ground (arith, new_refused temp cfg register w e)
    | inl e ↦
        load-IsReady (normal temp cfg) register w t
          (sym (ap (λ r. r.0) (new_loads temp cfg register w e)) ∙ h)
  ]

  new_daemon-ready :
      (boot : Booting W) (t : TestContainerd W) (env : Text → Option Text)
      → check_loaded t.registrations ≡ none
      → (d : Daemon W) × (new_daemon boot.temp boot.unix_nano boot.now
            (daemon_config t env)
            t.registrations
          ≡ ok d)
  unfolding new_daemon new_bundle check_loaded
  new_daemon-ready boot t env h = elim (Bool-cases (is_nil t.registrations)) [
    | inl n ↦ ground (arith, h, n)
    | inr n ↦
        let c : check_registrations [] t.registrations ≡ none = ground (arith, h, n) in
        rw (new_daemon, new_bundle, n, c) (_, refl)
  ]

  loaded_already :
      (t : TestContainerd W) (f : RegisterContainers W) (w : W)
      → is_nil t.registrations ≡ false
      → loaded t f w ≡ (ok t, w)
  unfolding loaded
  loaded_already t f w n = simp (loaded, n) refl

  boot_daemon-start :
      (boot : Booting W) (t : TestContainerd W) (env : Text → Option Text) (d : Daemon W) (w : W)
      → new_daemon boot.temp boot.unix_nano boot.now (daemon_config t env) t.registrations ≡ ok d
      → boot_daemon boot t env w ≡ exit_of boot (boot.start d w)
  unfolding boot_daemon
  boot_daemon-start boot t env d w e = rw (boot_daemon, e) refl

  run_registered :
      (boot : Booting W) (t t' : TestContainerd W) (env : Text → Option Text)
      (f : RegisterContainers W) (w w' : W)
      → t.register_containers ≡ some f
      → loaded t f w ≡ (ok t', w')
      → run_daemon_mode boot t env w ≡ boot_daemon boot t' env w'
  unfolding run_daemon_mode boot_loaded
  run_registered boot t t' env f w w' r l = rw (run_daemon_mode, r, l) refl

  -- An instance that `New` gave comes to the start of its daemon in daemon mode, whatever the
  -- environment and the world then are: the exit code is that of the daemon's start.
  pub run_daemon_mode_starts :
      (temp : Text) (cfg : Config W) (register : Option (RegisterContainers W)) (w w' : W)
      (t : TestContainerd W) (boot : Booting W) (env : Text → Option Text)
      → (new_test_containerd temp cfg register w).0 ≡ ok t
      → (d : Daemon W) × (run_daemon_mode boot t env w' ≡ exit_of boot (boot.start d w'))
  run_daemon_mode_starts temp cfg register w w' t boot env h =
      let ready = new-IsReady temp cfg register w t h in
      let (f, r) = ready.registered in
      let n : is_nil t.registrations ≡ false = nonempty t ready.checked in
      let (d, e) = new_daemon-ready boot t env ready.checked in
      (
        d,
        run_registered boot t t env f w' w' r (loaded_already t f w' n)
            ∙ boot_daemon-start boot t env d w' e,
      )
    where
      nonempty :
          (t : TestContainerd W)
          → check_loaded t.registrations ≡ none
          → is_nil t.registrations ≡ false
      nonempty t c = ((check_loaded-none t.registrations).0 c).0
