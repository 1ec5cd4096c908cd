-- ===== src/Entry.antt =====
-- testcontainerd.go: the configuration, and `New`.
pub mod Modes
pub mod Accepting
pub mod Running
use testcontainerd.Prelude.{
  ℕ, Bool, true, false, List, [], ◌∷◌, Option, none, some, Text, lit, text_eq, trim_space, is_nil,
  not, if◌then◌else◌,
}
use testcontainerd.Prelude.Int.{ℤ, pos, is_pos}
use testcontainerd.Prelude.Results.{Result, ok, err}
use testcontainerd.Errors.{
  Error, addr_required, timeout_not_positive, idle_ttl_not_positive, register_nil,
  registrations_empty,
}
use testcontainerd.Registration.{Registration, check_registrations}
use testcontainerd.Runtime.Paths.{default_runtime_path}
use testcontainerd.SutManager.{SutBootPlan}
use testcontainerd.Daemon
use testcontainerd.Daemon.{Daemon, new_daemon}
use testcontainerd.Daemon.Protocol.{Wire}
use testcontainerd.Client
use testcontainerd.Client.{Client, LeaseInfo, acquire, heartbeat, release}
use testcontainerd.Client.Machine.{Machine, tcd_mode, tcd_runtime, mode_daemon}
use testcontainerd.Client.Connect.{new_client}

pub record GlobalConfig : Type 0 where
  pub project : Text
  pub runtime_path : Text

pub record DaemonConfig : Type 0 where
  pub addr : Text
  pub token : Text
  pub idle_ttl : ℤ

pub record ClientConfig : Type 0 where
  pub http_timeout : ℤ

pub record Config (W : Type 0) : Type 0 where
  pub global : GlobalConfig
  pub daemon : DaemonConfig
  pub client : ClientConfig
  pub sut : Option (SutBootPlan W)

-- `RegisterContainersFunc`, which acts on the world.
abbrev pub RegisterContainers : Type 0 → Type 0
RegisterContainers W = W → Result Error (List (Registration W)) × W

-- A nil function is `none`.
pub record TestContainerd (W : Type 0) : Type 0 where
  pub cfg : Config W
  pub register_containers : Option (RegisterContainers W)
  pub registrations : List (Registration W)

unfoldable pub normalize_global : Text → GlobalConfig → GlobalConfig
unfolding trim_space default_runtime_path
normalize_global temp cfg =
    let project = (let p = trim_space cfg.project in if is_nil p then lit "default" else p) in
    let runtime_path = trim_space cfg.runtime_path in
    record {
      project = project;
      runtime_path =
          if is_nil runtime_path then default_runtime_path temp project else runtime_path;
    }

module _ {W : Type 0} where
  -- The guards of `New` on the configuration.
  unfoldable pub check_config : Config W → Option Error
  unfolding trim_space
  check_config cfg =
      if is_nil (trim_space cfg.daemon.addr)
      then some addr_required
      else if not (is_pos cfg.client.http_timeout)
      then some timeout_not_positive
      else if not (is_pos cfg.daemon.idle_ttl)
      then some idle_ttl_not_positive
      else none

  -- What `New` asks of the registrations.
  unfoldable pub check_loaded : List (Registration W) → Option Error
  unfolding check_registrations
  check_loaded regs = if is_nil regs then some registrations_empty else check_registrations [] regs

  -- From `registerContainers == nil` on.
  unfoldable pub load :
      Config W → Option (RegisterContainers W) → W → Result Error (TestContainerd W) × W
  unfolding check_loaded
  load cfg none w = (err register_nil, w)
  load cfg (some register) w =
      let (r, w') = register w in
      elim r [
        | err e ↦ (err e, w')
        | ok regs ↦ elim (check_loaded regs) [
          | some e ↦ (err e, w')
          | none ↦ (
            ok record { cfg = cfg; register_containers = some register; registrations = regs },
            w',
          )
        ]
      ]

  -- `New`.
  unfoldable pub new_test_containerd :
      Text → Config W → Option (RegisterContainers W) → W → Result Error (TestContainerd W) × W
  unfolding normalize_global check_config load
  new_test_containerd temp cfg register w =
      let cfg' = record cfg { global = normalize_global temp cfg.global } in
      elim (check_config cfg') [ some e ↦ (err e, w) | none ↦ load cfg' register w ]

  -- `RuntimePath`.
  abbrev pub runtime_path : TestContainerd W → Text
  runtime_path t = t.cfg.global.runtime_path
