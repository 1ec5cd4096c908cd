-- ===== src/Runtime/Info.antt =====
-- tcdruntime/file.go: the runtime file, in which a daemon says where it listens. The file system,
-- the clock and `encoding/json` are parameters; a call of `sleep` is the time in which other
-- processes change the files.
use testcontainerd.Prelude.{
  ℕ, zero, suc, ◌+◌, ◌*◌, ◌||◌, Option, none, some, Text, lit, ◌++◌, ltb, is_nil, if◌then◌else◌,
}
use testcontainerd.Prelude.Int.{millisecond}
use testcontainerd.Prelude.Results.{Result, ok, err}
use testcontainerd.Errors.{Error, invalid_runtime_info}
use testcontainerd.Daemon.Protocol.{RuntimeInfo, Codec}
use testcontainerd.Runtime.{Files}
use testcontainerd.Runtime.Paths.{dir, default_runtime_path}

-- `os.ReadFile`, `os.WriteFile`, `os.Rename` and `os.Remove`, beside the calls for the log files.
pub record Disk (W : Type 0) : Type 0 where
  pub files : Files W
  pub read_file : Text → W → Result Error Text
  pub write_file : Text → Text → W → Option Error × W
  pub rename : Text → Text → W → Option Error × W
  pub remove_file : Text → W → Option Error × W

-- `time.Now` and `time.Sleep`, in nanoseconds.
pub record Clock (W : Type 0) : Type 0 where
  pub now : W → ℕ
  pub sleep : ℕ → W → W

module _ {W : Type 0} (disk : Disk W) where
  -- The empty path is the default project's.
  abbrev pub path_or_default : Text → Text
  path_or_default path =
      if is_nil path then default_runtime_path disk.files.temp (lit "default") else path

  -- `os.Remove` with its error ignored.
  abbrev pub discard : Text → W → W
  discard path w = (disk.remove_file path w).1

  unfoldable pub remove : Text → W → W
  remove path w = discard (path_or_default path) w

  -- `Write` once the directory is there and the content is encoded.
  unfoldable pub replace : Text → Text → W → Option Error × W
  replace path b w =
      let tmp = path ++ lit ".tmp" in
      let (e, w') = disk.write_file tmp b w in
      elim e [ some x ↦ (some x, w') | none ↦ disk.rename tmp path w' ]

  module _ (json : Codec RuntimeInfo) where
    -- What a file's content says.
    unfoldable pub parse : Text → Result Error RuntimeInfo
    parse b = elim (json.decode b) [
      | err e ↦ err e
      | ok info ↦
          if is_nil info.addr || is_nil info.token then err invalid_runtime_info else ok info
    ]

    unfoldable pub read : Text → W → Result Error RuntimeInfo
    unfolding parse
    read path w = elim (disk.read_file (path_or_default path) w) [ err e ↦ err e | ok b ↦ parse b ]

    unfoldable pub write : Text → RuntimeInfo → W → Option Error × W
    unfolding dir replace
    write path info w =
        let p = path_or_default path in
        let (e, w') = disk.files.mkdir_all (dir p) w in
        elim e [
          | some x ↦ (some x, w')
          | none ↦ elim (json.encode info) [ err x ↦ (some x, w') | ok b ↦ replace p b w' ]
        ]

    module _ (clock : Clock W) where
      -- The loop of `Wait`; `none` is fuel run out.
      unfoldable pub wait_loop : ℕ → Text → ℕ → W → Option (Result Error RuntimeInfo × W)
      unfolding read
      wait_loop zero path deadline w = none
      wait_loop (suc fuel) path deadline w =
          let rest = wait_loop fuel path deadline (clock.sleep (120 * millisecond) w) in
          elim (read path w) [
            | ok info ↦ some (ok info, w)
            | err e ↦ if ltb deadline (clock.now w) then some (err e, w) else rest
          ]

      unfoldable pub wait : ℕ → Text → ℕ → W → Option (Result Error RuntimeInfo × W)
      unfolding wait_loop
      wait fuel path timeout w = wait_loop fuel path (clock.now w + timeout) w
