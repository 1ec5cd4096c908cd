-- ===== src/Client/Runner.antt =====
-- client/autostart.go, `prepareDaemonExecutable` and `copyFile`: the executable that a daemon runs is
-- the client's own, and on Windows a copy of it. A handle of an open file is a number.
pub mod FileSystem
pub mod Copied
use testcontainerd.Prelude.{ℕ, ◌++◌, Bool, [], Option, none, some, Text, lit, if◌then◌else◌}
use testcontainerd.Prelude.Results.{Result, ok, err}
use testcontainerd.Errors.{Error, runner_dir_failed, runner_failed}
use testcontainerd.Daemon.{format_digits}

-- `runtime.GOOS == "windows"`, the clock, `RunnerDir`, `filepath.Join` and `filepath.Ext` as they are
-- on the machine, and the calls of the operating system: `os.MkdirAll`, `os.Open`, the mode that
-- `Stat` gives, `os.OpenFile` with `O_CREATE|O_TRUNC|O_WRONLY`, `io.Copy` from the second handle to
-- the first, `Sync` and `Close`.
pub record CopyApi (W : Type 0) : Type 0 where
  pub is_windows : Bool
  pub now : W → ℕ
  pub runner_dir : Text → Text
  pub join : Text → Text → Text
  pub ext : Text → Text
  pub mkdir_all : Text → W → Option Error × W
  pub open_file : Text → W → Result Error ℕ × W
  pub file_mode : ℕ → W → Option ℕ
  pub create_file : Text → ℕ → W → Result Error ℕ × W
  pub copy : ℕ → ℕ → W → Option Error × W
  pub sync : ℕ → W → Option Error × W
  pub close : ℕ → W → W

-- 0o755.
abbrev pub default_mode : ℕ
default_mode = 493

module _ {W : Type 0} (api : CopyApi W) where
  -- From `io.Copy` on.
  unfoldable pub fill : ℕ → ℕ → W → Option Error × W
  fill out input w =
      let (e, w') = api.copy out input w in
      elim e [ some x ↦ (some x, w') | none ↦ api.sync out w' ]

  -- From `in.Stat` on.
  unfoldable pub copy_from : ℕ → Text → W → Option Error × W
  unfolding fill
  copy_from input dst w =
      let mode : ℕ = elim (api.file_mode input w) [ none ↦ default_mode | some m ↦ m ] in
      let (r, w') = api.create_file dst mode w in
      elim r [
        | err e ↦ (some e, w')
        | ok out ↦ let (e, w'') = fill out input w' in (e, api.close out w'')
      ]

  unfoldable pub copy_file : Text → Text → W → Option Error × W
  unfolding copy_from
  copy_file src dst w =
      let (r, w') = api.open_file src w in
      elim r [
        | err e ↦ (some e, w')
        | ok input ↦ let (e, w'') = copy_from input dst w' in (e, api.close input w'')
      ]

  -- Where the copy goes; a time of 64 bits has at most 19 digits.
  unfoldable pub runner_path : Text → Text → W → Text
  runner_path exe runtime_path w =
      api.join (api.runner_dir runtime_path)
        (lit "tcd_" ++ format_digits 20 (api.now w) [] ++ api.ext exe)

  -- On Windows.
  unfoldable pub copy_executable : Text → Text → W → Result Error Text × W
  unfolding copy_file runner_path
  copy_executable exe runtime_path w =
      let (e, w1) = api.mkdir_all (api.runner_dir runtime_path) w in
      elim e [
        | some x ↦ (err (runner_dir_failed x), w1)
        | none ↦
            let runner = runner_path exe runtime_path w1 in
            let (f, w2) = copy_file exe runner w1 in
            elim f [ some x ↦ (err (runner_failed x), w2) | none ↦ (ok runner, w2) ]
      ]

  unfoldable pub prepare_daemon_executable : Text → Text → W → Result Error Text × W
  unfolding copy_executable
  prepare_daemon_executable exe runtime_path w =
      let copied = copy_executable exe runtime_path w in
      if api.is_windows then copied else (ok exe, w)
