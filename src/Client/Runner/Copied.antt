-- ===== src/Client/Runner/Copied.antt =====
-- client/autostart.go, `prepareDaemonExecutable` and `copyFile`: what the copy holds, and that each
-- file that is opened is closed.
use testcontainerd.Prelude.{
  ℕ, suc, ◌≡◌, ◌≢◌, sym, ◌∙◌, [], Option, none, some, Text, Option-cases, inl, inr, arith,
}
use testcontainerd.Prelude.Results.{Result, ok, Result-cases}
use testcontainerd.Errors.{Error}
use testcontainerd.Client.Runner.FileSystem.{View, IsFileSystem, SameBut}
use testcontainerd.Client.Runner.{CopyApi, fill, copy_from, copy_file, default_mode}

-- What a copy from `src` to `dst` does from `w` on, where `r` is its end: it closes what it opens,
-- changes no file but `dst`, and with no error `dst` has what `src` had.
pub record Copied {W : Type 0} (view : View W) (src dst : Text) (w : W) (r : Option Error × W)
    : Type 0 where
  pub counts : view.opened r.1 ≡ view.opened w
  pub others : SameBut view dst w r.1
  pub same : r.0 ≡ none → view.content dst r.1 ≡ view.content src w

module _ {W : Type 0} (api : CopyApi W) (view : View W) (laws : IsFileSystem api view) where
  -- A handle that was opened before is closed again.
  close_back : (h n : ℕ) (w : W) → view.opened w ≡ suc n → view.opened (api.close h w) ≡ n
  close_back h n w e = let c = laws.close_opened h w in omega arith

  fill-Copied :
      (out input : ℕ) (src dst : Text) (w : W)
      → view.at out w ≡ some (dst, 0)
      → view.at input w ≡ some (src, 0)
      → src ≢ dst
      → view.content dst w ≡ some []
      → Copied view src dst w (fill api out input w)
  unfolding fill
  fill-Copied out input src dst w o i ne empty = elim (Option-cases (api.copy out input w).0) [
    | inl e ↦
        let w' = (api.copy out input w).1 in
        rw (fill, e)
          record {
            counts = laws.sync_opened out w' ∙ laws.copy_opened out input w;
            others = λ q n. laws.sync_files out w' q ∙ laws.copy_files out input w dst o q n;
            same = λ h.
                laws.sync_files out w' dst
                ∙ laws.copy_copies out input w dst src o i (λ p. ne (sym p)) empty e;
          }
    | inr (x, e) ↦
        rw (fill, e)
          record {
            counts = laws.copy_opened out input w;
            others = laws.copy_files out input w dst o;
            same = λ h. cc;
          }
  ]

  copy_from-Copied :
      (input : ℕ) (src dst : Text) (w : W)
      → view.at input w ≡ some (src, 0)
      → src ≢ dst
      → Copied view src dst w (copy_from api input dst w)
  unfolding copy_from
  copy_from-Copied input src dst w i ne =
      let m : ℕ = elim (api.file_mode input w) [ none ↦ default_mode | some k ↦ k ] in
      let w' = (api.create_file dst m w).1 in
      elim (Result-cases (api.create_file dst m w).0) [
        | inl (x, e) ↦
            rw (copy_from, e)
              record {
                counts = laws.create_fails dst m w x e;
                others = laws.create_files dst m w;
                same = λ h. cc;
              }
        | inr (out, e) ↦
            let f =
              fill-Copied out input src dst w' (laws.create_at dst m w out e)
                (laws.create_keeps dst m w input (src, 0) i) ne (laws.create_empty dst m w out e) in
            let w'' = (fill api out input w').1 in
            rw (copy_from, e)
              record {
                counts =
                    close_back out (view.opened w) w''
                      (f.counts ∙ laws.create_opened dst m w out e);
                others = λ q n.
                    laws.close_files out w'' q ∙ (f.others q n ∙ laws.create_files dst m w q n);
                same = λ h.
                    laws.close_files out w'' dst ∙ (f.same h ∙ laws.create_files dst m w src ne);
              }
      ]

  pub copy_file-Copied :
      (src dst : Text) (w : W) → src ≢ dst → Copied view src dst w (copy_file api src dst w)
  unfolding copy_file
  copy_file-Copied src dst w ne =
      let w' = (api.open_file src w).1 in
      elim (Result-cases (api.open_file src w).0) [
        | inl (x, e) ↦
            rw (copy_file, e)
              record {
                counts = laws.open_fails src w x e;
                others = λ q n. laws.open_files src w q;
                same = λ h. cc;
              }
        | inr (input, e) ↦
            let f = copy_from-Copied input src dst w' (laws.open_at src w input e) ne in
            let w'' = (copy_from api input dst w').1 in
            rw (copy_file, e)
              record {
                counts =
                    close_back input (view.opened w) w''
                      (f.counts ∙ laws.open_opened src w input e);
                others =
                    λ q n. laws.close_files input w'' q ∙ (f.others q n ∙ laws.open_files src w q);
                same = λ h. laws.close_files input w'' dst ∙ (f.same h ∙ laws.open_files src w src);
              }
      ]

  -- What the caller of `prepareDaemonExecutable` finds at the end `r` of it.
  abbrev pub Prepared : Text → Text → W → Result Error Text × W → Type 0
  Prepared exe runner w r =
      (view.opened r.1 ≡ view.opened w)
      × SameBut view runner w r.1
      × ((path : Text) → r.0 ≡ ok path → view.content path r.1 ≡ view.content exe w)
