-- ===== src/Examples/Runner.antt =====
-- The copy of an executable on a drive: its files, the handles that were ever opened, each with its
-- path and its offset, and how many of them are open.
use testcontainerd.Prelude.{
  ℕ, suc, ◌-◌, ◌++◌, ◌≡◌, refl, true, List, [], ◌∷◌, Option, none, some, Text, lit, length,
  get_elem?, text_eq,
}
use testcontainerd.Prelude.Dict.{lookup, insert}
use testcontainerd.Prelude.Results.{Result, ok, err}
use testcontainerd.Errors.{Error, external}
use testcontainerd.Daemon.{format_digits}
use testcontainerd.Client.Runner.{CopyApi, prepare_daemon_executable}
use testcontainerd.Client.Runner.FileSystem.{View}

record Drive : Type 0 where
  files : List (Text × Text)
  open_now : ℕ
  handles : List (Text × ℕ)

abbrev no_such_file : Error
no_such_file = external (lit "no such file")

abbrev with_handle : Text → Drive → Drive
with_handle p w = record w { open_now = suc w.open_now; handles = w.handles ++ ((p, 0) ∷ []) }

abbrev opened_file : Option Text → Text → Drive → Result Error ℕ × Drive
opened_file none p w = (err no_such_file, w)
opened_file (some c) p w = (ok (length w.handles), with_handle p w)

abbrev put : Text → Option Text → Drive → Option Error × Drive
put p none w = (some no_such_file, w)
put p (some c) w = (none, record w { files = insert p c w.files })

abbrev copied : Option (Text × ℕ) → Option (Text × ℕ) → Drive → Option Error × Drive
copied none i w = (some no_such_file, w)
copied (some h) none w = (some no_such_file, w)
copied (some h) (some i) w = put h.0 (lookup i.0 w.files) w

abbrev drive_api : CopyApi Drive
drive_api = record {
  is_windows = true;
  now = λ w. 77;
  runner_dir = λ p. lit "C:\\tcd\\runners";
  join = λ p q. p ++ lit "\\" ++ q;
  ext = λ p. lit ".exe";
  mkdir_all = λ p w. (none, w);
  open_file = λ p w. opened_file (lookup p w.files) p w;
  file_mode = λ h w. none;
  create_file =
      λ p m w. (ok (length w.handles), record (with_handle p w) { files = insert p [] w.files });
  copy = λ h i w. copied (get_elem? w.handles h) (get_elem? w.handles i) w;
  sync = λ h w. (none, w);
  close = λ h w. record w { open_now = w.open_now - 1 };
}

abbrev drive_view : View Drive
drive_view = record {
  content = λ p w. lookup p w.files;
  opened = λ w. w.open_now;
  at = λ h w. get_elem? w.handles h;
}

abbrev executable : Text
executable = lit "C:\\temp\\app.test.exe"

abbrev drive : Drive
drive = record { files = (executable, lit "code") ∷ []; open_now = 3; handles = [] }

prepared :
    (prepare_daemon_executable drive_api executable (lit "C:\\tcd\\runtime.json") drive).0
    ≡ ok (lit "C:\\tcd\\runners\\tcd_77.exe")
unfolding prepare_daemon_executable lookup insert text_eq format_digits
prepared = refl
