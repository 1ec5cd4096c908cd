-- ===== src/Runtime/Discovery.antt =====
-- tcdruntime/file.go: what a reader of the runtime file finds after a write, a failed write and a
-- removal, and that `Wait` ends.
use testcontainerd.Prelude.{
  ◌≡◌, ◌≢◌, refl, sym, ◌∙◌, ap, false, none, some, Text, lit, ◌++◌, length, length-append, is_nil,
  Option-cases, inl, inr, arith,
}
use testcontainerd.Prelude.Results.{Result, ok, err, Result-cases}
use testcontainerd.Errors.{Error}
use testcontainerd.Daemon.Protocol.{RuntimeInfo, Codec, IsFaithful}
use testcontainerd.Runtime.Paths.{dir}
use testcontainerd.Runtime.Info.{Disk, path_or_default, remove, parse, read, replace, write}

-- What the file system promises on the content of files.
pub record IsDisk {W : Type 0} (disk : Disk W) : Type 0 where
  pub mkdir_keeps :
      (d q : Text) (c : Text) (w : W)
      → disk.read_file q w ≡ ok c
      → disk.read_file q (disk.files.mkdir_all d w).1 ≡ ok c
  pub write_reads :
      (p b : Text) (w : W)
      → (disk.write_file p b w).0 ≡ none
      → disk.read_file p (disk.write_file p b w).1 ≡ ok b
  pub write_keeps :
      (p q b c : Text) (w : W)
      → p ≢ q
      → disk.read_file q w ≡ ok c
      → disk.read_file q (disk.write_file p b w).1 ≡ ok c
  pub rename_moves :
      (p q b : Text) (w : W)
      → disk.read_file p w ≡ ok b
      → (disk.rename p q w).0 ≡ none
      → disk.read_file q (disk.rename p q w).1 ≡ ok b
  pub rename_keeps :
      (p q c : Text) (w : W) (e : Error)
      → (disk.rename p q w).0 ≡ some e
      → disk.read_file q w ≡ ok c
      → disk.read_file q (disk.rename p q w).1 ≡ ok c
  pub remove_forgets :
      (p c : Text) (w : W)
      → (disk.remove_file p w).0 ≡ none
      → disk.read_file p (disk.remove_file p w).1 ≢ ok c

-- There is no value.
abbrev pub IsFailed : {A : Type 0} → Result Error A → Type 0
IsFailed {A} r = (a : A) → r ≢ ok a

tmp_apart : (p : Text) → p ++ lit ".tmp" ≢ p
tmp_apart p e =
    let n : length (p ++ lit ".tmp") ≡ length p = ap length e in
    omega (arith, n, length-append p (lit ".tmp"))

-- The branches of a write, and of a read.
module _ {W : Type 0} (disk : Disk W) where
  replace_unwritten :
      (p b : Text) (w : W) {x : Error}
      → (disk.write_file (p ++ lit ".tmp") b w).0 ≡ some x
      → replace disk p b w ≡ (some x, (disk.write_file (p ++ lit ".tmp") b w).1)
  unfolding replace
  replace_unwritten p b w e = rw (replace, e) refl

  replace_written :
      (p b : Text) (w : W)
      → (disk.write_file (p ++ lit ".tmp") b w).0 ≡ none
      → replace disk p b w
        ≡ disk.rename (p ++ lit ".tmp") p (disk.write_file (p ++ lit ".tmp") b w).1
  unfolding replace
  replace_written p b w e = rw (replace, e) refl

  module _ (json : Codec RuntimeInfo) where
    abbrev made : Text → W → W
    made path w = (disk.files.mkdir_all (dir (path_or_default disk path)) w).1

    write_no_dir :
        (path : Text) (info : RuntimeInfo) (w : W) {x : Error}
        → (disk.files.mkdir_all (dir (path_or_default disk path)) w).0 ≡ some x
        → write disk json path info w ≡ (some x, made path w)
    unfolding write
    write_no_dir path info w e = rw (write, e) refl

    write_no_json :
        (path : Text) (info : RuntimeInfo) (w : W) {x : Error}
        → (disk.files.mkdir_all (dir (path_or_default disk path)) w).0 ≡ none
        → json.encode info ≡ err x
        → write disk json path info w ≡ (some x, made path w)
    unfolding write
    write_no_json path info w e f = rw (write, e, f) refl

    write_replaces :
        (path : Text) (info : RuntimeInfo) (w : W) {b : Text}
        → (disk.files.mkdir_all (dir (path_or_default disk path)) w).0 ≡ none
        → json.encode info ≡ ok b
        → write disk json path info w ≡ replace disk (path_or_default disk path) b (made path w)
    unfolding write
    write_replaces path info w e f = rw (write, e, f) refl

    read_content :
        (path : Text) (w : W) {b : Text}
        → disk.read_file (path_or_default disk path) w ≡ ok b
        → read disk json path w ≡ parse disk json b
    unfolding read
    read_content path w e = rw (read, e) refl

    read_nothing :
        (path : Text) (w : W) {x : Error}
        → disk.read_file (path_or_default disk path) w ≡ err x
        → read disk json path w ≡ err x
    unfolding read
    read_nothing path w e = rw (read, e) refl

    parse_ok :
        (b : Text) (info : RuntimeInfo)
        → json.decode b ≡ ok info
        → is_nil info.addr ≡ false
        → is_nil info.token ≡ false
        → parse disk json b ≡ ok info
    unfolding parse
    parse_ok b info e a t = rw (parse, e, a, t) refl

    -- What is read is the content of the file.
    read-ok :
        (path : Text) (w : W) (info : RuntimeInfo)
        → read disk json path w ≡ ok info
        → (b : Text) × (disk.read_file (path_or_default disk path) w ≡ ok b)
          × (parse disk json b ≡ ok info)
    read-ok path w info h = elim (Result-cases (disk.read_file (path_or_default disk path) w)) [
      | inl (x, e) ↦ ground (arith, read_nothing path w e)
      | inr (b, e) ↦ (b, e, sym (read_content path w e) ∙ h)
    ]

module _ {W : Type 0} (disk : Disk W) (laws : IsDisk disk) where
  replace-reads :
      (p b : Text) (w : W)
      → (replace disk p b w).0 ≡ none
      → disk.read_file p (replace disk p b w).1 ≡ ok b
  replace-reads p b w h = elim (Option-cases (disk.write_file (p ++ lit ".tmp") b w).0) [
    | inl e ↦ rw (replace_written disk p b w e) (
        laws.rename_moves (p ++ lit ".tmp") p b _ (laws.write_reads (p ++ lit ".tmp") b w e)
          (sym (ap (λ r. r.0) (replace_written disk p b w e)) ∙ h))
    | inr (x, e) ↦ ground (arith, replace_unwritten disk p b w e)
  ]

  replace_fails :
      (p b c : Text) (w : W) (x : Error)
      → (replace disk p b w).0 ≡ some x
      → disk.read_file p w ≡ ok c
      → disk.read_file p (replace disk p b w).1 ≡ ok c
  replace_fails p b c w x h r =
      let kept = laws.write_keeps (p ++ lit ".tmp") p b c w (tmp_apart p) r in
      elim (Option-cases (disk.write_file (p ++ lit ".tmp") b w).0) [
        | inl e ↦ rw (replace_written disk p b w e) (
            laws.rename_keeps (p ++ lit ".tmp") p c _ x
              (sym (ap (λ r. r.0) (replace_written disk p b w e)) ∙ h) kept)
        | inr (y, e) ↦ rw (replace_unwritten disk p b w e) kept
      ]

  module _ (json : Codec RuntimeInfo) where
    write-reads :
        (path : Text) (info : RuntimeInfo) (w : W)
        → (write disk json path info w).0 ≡ none
        → (b : Text) × (json.encode info ≡ ok b)
          × (disk.read_file (path_or_default disk path) (write disk json path info w).1 ≡ ok b)
    write-reads path info w h =
        elim (Option-cases (disk.files.mkdir_all (dir (path_or_default disk path)) w).0) [
          | inr (x, e) ↦ ground (arith, write_no_dir disk json path info w e)
          | inl e ↦ elim (Result-cases (json.encode info)) [
            | inl (x, f) ↦ ground (arith, write_no_json disk json path info w e f)
            | inr (b, f) ↦
                let q = write_replaces disk json path info w e f in
                (
                  b,
                  f,
                  rw (q)
                      (replace-reads (path_or_default disk path) b _ (sym (ap (λ r. r.0) q) ∙ h)),
                )
          ]
        ]

    write_fails :
        (path c : Text) (info : RuntimeInfo) (w : W) (x : Error)
        → (write disk json path info w).0 ≡ some x
        → disk.read_file (path_or_default disk path) w ≡ ok c
        → disk.read_file (path_or_default disk path) (write disk json path info w).1 ≡ ok c
    write_fails path c info w x h r =
        let p = path_or_default disk path in
        let kept = laws.mkdir_keeps (dir p) p c w r in
        elim (Option-cases (disk.files.mkdir_all (dir (path_or_default disk path)) w).0) [
          | inr (y, e) ↦ rw (write_no_dir disk json path info w e) kept
          | inl e ↦ elim (Result-cases (json.encode info)) [
            | inl (y, f) ↦ rw (write_no_json disk json path info w e f) kept
            | inr (b, f) ↦
                let q = write_replaces disk json path info w e f in
                rw (q) (replace_fails p b c _ x (sym (ap (λ r. r.0) q) ∙ h) kept)
          ]
        ]

    -- What `Write` has written without an error, `Read` reads back: the address and the token must
    -- not be empty, and the codec must give back what it encodes.
    pub read-write :
        (path : Text) (info : RuntimeInfo) (w : W)
        → IsFaithful json
        → is_nil info.addr ≡ false
        → is_nil info.token ≡ false
        → (write disk json path info w).0 ≡ none
        → read disk json path (write disk json path info w).1 ≡ ok info
    read-write path info w faithful a t h =
        let (b, f, r) = write-reads path info w h in
        read_content disk json path _ r ∙ parse_ok disk json b info (faithful info b f) a t

    -- `Write` is atomic: when it fails, whatever failed, what could be read before can be read still.
    pub write_atomic :
        (path : Text) (info old : RuntimeInfo) (w : W) (x : Error)
        → read disk json path w ≡ ok old
        → (write disk json path info w).0 ≡ some x
        → read disk json path (write disk json path info w).1 ≡ ok old
    write_atomic path info old w x r h =
        let (b, f, p) = read-ok disk json path w old r in
        read_content disk json path _ (write_fails path b info w x h f) ∙ p

    -- After a removal that does not fail, `Read` fails.
    read-remove :
        (path : Text) (w : W)
        → (disk.remove_file (path_or_default disk path) w).0 ≡ none
        → IsFailed (read disk json path (remove disk path w))
    unfolding remove
    read-remove path w h info r =
        let (b, f, p) = read-ok disk json path _ info r in
        laws.remove_forgets (path_or_default disk path) b w h f
