-- ===== src/Client/Runner/FileSystem.antt =====
-- client/autostart.go, `copyFile`: what it relies on of the operating system.
use testcontainerd.Prelude.{ℕ, suc, ◌-◌, ◌≡◌, ◌≢◌, [], Option, none, some, Text}
use testcontainerd.Prelude.Results.{ok, err}
use testcontainerd.Errors.{Error}
use testcontainerd.Client.Runner.{CopyApi}

-- What can be seen of the files: the content of a path, how many handles are open, and the path and
-- the offset of a handle.
pub record View (W : Type 0) : Type 0 where
  pub content : Text → W → Option Text
  pub opened : W → ℕ
  pub at : ℕ → W → Option (Text × ℕ)

-- From `w` to `w'` no file changes.
abbrev pub SameFiles : {W : Type 0} → View W → W → W → Type 0
SameFiles view w w' = (q : Text) → view.content q w' ≡ view.content q w

-- From `w` to `w'` no file but the one at `p` changes.
abbrev pub SameBut : {W : Type 0} → View W → Text → W → W → Type 0
SameBut view p w w' = (q : Text) → q ≢ p → view.content q w' ≡ view.content q w

-- What the documentation says of the calls: what opens a file opens a handle at its start, and
-- truncates it where it is opened to write; `io.Copy` without an error has written at the offset of
-- the one handle what the other had to read, and changes that file only; `Close` closes a handle.
pub record IsFileSystem {W : Type 0} (api : CopyApi W) (view : View W) : Type 0 where
  pub mkdir_opened : (p : Text) (w : W) → view.opened (api.mkdir_all p w).1 ≡ view.opened w
  pub mkdir_files : (p : Text) (w : W) → SameFiles view w (api.mkdir_all p w).1
  pub open_files : (p : Text) (w : W) → SameFiles view w (api.open_file p w).1
  pub open_opened :
      (p : Text) (w : W) (h : ℕ)
      → (api.open_file p w).0 ≡ ok h
      → view.opened (api.open_file p w).1 ≡ suc (view.opened w)
  pub open_at :
      (p : Text) (w : W) (h : ℕ)
      → (api.open_file p w).0 ≡ ok h
      → view.at h (api.open_file p w).1 ≡ some (p, 0)
  pub open_fails :
      (p : Text) (w : W) (e : Error)
      → (api.open_file p w).0 ≡ err e
      → view.opened (api.open_file p w).1 ≡ view.opened w
  pub create_files : (p : Text) (m : ℕ) (w : W) → SameBut view p w (api.create_file p m w).1
  pub create_opened :
      (p : Text) (m : ℕ) (w : W) (h : ℕ)
      → (api.create_file p m w).0 ≡ ok h
      → view.opened (api.create_file p m w).1 ≡ suc (view.opened w)
  pub create_at :
      (p : Text) (m : ℕ) (w : W) (h : ℕ)
      → (api.create_file p m w).0 ≡ ok h
      → view.at h (api.create_file p m w).1 ≡ some (p, 0)
  pub create_empty :
      (p : Text) (m : ℕ) (w : W) (h : ℕ)
      → (api.create_file p m w).0 ≡ ok h
      → view.content p (api.create_file p m w).1 ≡ some []
  pub create_keeps :
      (p : Text) (m : ℕ) (w : W) (h : ℕ) (x : Text × ℕ)
      → view.at h w ≡ some x
      → view.at h (api.create_file p m w).1 ≡ some x
  pub create_fails :
      (p : Text) (m : ℕ) (w : W) (e : Error)
      → (api.create_file p m w).0 ≡ err e
      → view.opened (api.create_file p m w).1 ≡ view.opened w
  pub copy_opened : (h i : ℕ) (w : W) → view.opened (api.copy h i w).1 ≡ view.opened w
  pub copy_files :
      (h i : ℕ) (w : W) (p : Text) → view.at h w ≡ some (p, 0) → SameBut view p w (api.copy h i w).1
  pub copy_copies :
      (h i : ℕ) (w : W) (p q : Text)
      → view.at h w ≡ some (p, 0)
      → view.at i w ≡ some (q, 0)
      → p ≢ q
      → view.content p w ≡ some []
      → (api.copy h i w).0 ≡ none
      → view.content p (api.copy h i w).1 ≡ view.content q w
  pub sync_opened : (h : ℕ) (w : W) → view.opened (api.sync h w).1 ≡ view.opened w
  pub sync_files : (h : ℕ) (w : W) → SameFiles view w (api.sync h w).1
  pub close_opened : (h : ℕ) (w : W) → view.opened (api.close h w) ≡ view.opened w - 1
  pub close_files : (h : ℕ) (w : W) → SameFiles view w (api.close h w)
