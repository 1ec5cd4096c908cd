-- ===== src/Runtime.antt =====
-- tcdruntime/log.go and tcdruntime/path.go: where the files of a daemon stand, and its log files.
-- The file system is a parameter.
pub mod Paths
pub mod Info
pub mod Discovery
pub mod Waiting
use testcontainerd.Prelude.{ℕ, Option, none, some, Text}
use testcontainerd.Prelude.Results.{Result, ok, err}
use testcontainerd.Errors.{Error}
use Paths.{dir, app_log_path, daemon_log_path}

-- A file handle.
abbrev pub File : Type 0
File = ℕ

-- `os.TempDir`, `os.MkdirAll`, and `os.OpenFile` for appending.
pub record Files (W : Type 0) : Type 0 where
  pub temp : Text
  pub mkdir_all : Text → W → Option Error × W
  pub open_append : Text → W → Result Error File × W

module _ {W : Type 0} (fs : Files W) where
  unfoldable pub open_log_file : Text → W → Result Error File × W
  unfolding dir
  open_log_file path w =
      let (e, w') = fs.mkdir_all (dir path) w in
      elim e [ some x ↦ (err x, w') | none ↦ fs.open_append path w' ]

  unfoldable pub open_app_log_file : Text → W → Result Error File × W
  unfolding open_log_file app_log_path
  open_app_log_file runtime_path w = open_log_file (app_log_path fs.temp runtime_path) w

  unfoldable pub open_daemon_log_file : Text → W → Result Error File × W
  unfolding open_log_file daemon_log_path
  open_daemon_log_file runtime_path w = open_log_file (daemon_log_path fs.temp runtime_path) w
