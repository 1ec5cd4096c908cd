-- ===== src/Runtime/Paths.antt =====
-- tcdruntime/path.go, with the functions of `path/filepath` (on Unix) that it calls. The temporary
-- directory of `os.TempDir` is an argument.
use testcontainerd.Prelude.{
  ℕ, Bool, true, false, List, [], ◌∷◌, ◌++◌, reverse, Text, lit, text_eq, trim_space, replace_all,
  is_nil, ◌==◌, if◌then◌else◌,
}

-- Put a character in front of the first element.
cons_first : ℕ → List Text → List Text
cons_first c [] = (c ∷ []) ∷ []
cons_first c (s ∷ rest) = (c ∷ s) ∷ rest

-- The elements of a path, empty ones included.
unfoldable pub split_slash : Text → List Text
unfolding cons_first
split_slash [] = [] ∷ []
split_slash (c ∷ s) = let rest = split_slash s in if c == b'/' then [] ∷ rest else cons_first c rest

unfoldable pub join_slash : List Text → Text
join_slash [] = []
join_slash (s ∷ []) = s
join_slash (s ∷ t ∷ rest) = s ++ lit "/" ++ join_slash (t ∷ rest)

abbrev pub is_rooted : Text → Bool
is_rooted [] = false
is_rooted (c ∷ s) = c == b'/'

-- An element ".." takes the last element kept away, and stays only at the front of a path that is
-- not rooted. The elements kept are in reverse.
unfoldable pub pop_element : Bool → List Text → List Text
pop_element true [] = []
pop_element false [] = lit ".." ∷ []
pop_element rooted (t ∷ kept) = if text_eq t (lit "..") then lit ".." ∷ t ∷ kept else kept

unfoldable pub clean_element : Bool → Text → List Text → List Text
unfolding pop_element
clean_element rooted s kept =
    if is_nil s
    then kept
    else if text_eq s (lit ".")
    then kept
    else if text_eq s (lit "..")
    then pop_element rooted kept
    else s ∷ kept

unfoldable pub clean_elements : Bool → List Text → List Text → List Text
unfolding clean_element
clean_elements rooted [] kept = reverse kept
clean_elements rooted (s ∷ rest) kept = clean_elements rooted rest (clean_element rooted s kept)

-- `filepath.Clean`.
unfoldable pub clean : Text → Text
unfolding split_slash clean_elements join_slash
clean path =
    let rooted = is_rooted path in
    let body = join_slash (clean_elements rooted (split_slash path) []) in
    if rooted then lit "/" ++ body else if is_nil body then lit "." else body

unfoldable pub drop_empty : List Text → List Text
drop_empty [] = []
drop_empty (s ∷ rest) = if is_nil s then drop_empty rest else s ∷ rest

-- `filepath.Join`: empty elements at the front are left out (those inside, `Clean` removes).
unfoldable pub join : List Text → Text
unfolding drop_empty clean
join elements =
    let kept = drop_empty elements in if is_nil kept then [] else clean (join_slash kept)

-- What stands up to the last separator, in reverse.
unfoldable pub drop_base : Text → Text
drop_base [] = []
drop_base (c ∷ s) = if c == b'/' then c ∷ s else drop_base s

-- `filepath.Dir`.
unfoldable pub dir : Text → Text
unfolding drop_base clean
dir path = clean (reverse (drop_base (reverse path)))

unfoldable pub sanitize_project : Text → Text
unfolding trim_space replace_all
sanitize_project project =
    let trimmed = trim_space project in
    if is_nil trimmed
    then lit "default"
    else let replaced =
        replace_all b' ' b'_'
          (replace_all b':' b'_' (replace_all b'/' b'_' (replace_all 92 b'_' trimmed))) in
      if is_nil replaced then lit "default" else replaced

unfoldable pub default_runtime_path : Text → Text → Text
unfolding sanitize_project join
default_runtime_path temp project =
    join (temp ∷ lit "tcd" ∷ sanitize_project project ∷ lit "runtime.json" ∷ [])

unfoldable pub artifact_dir : Text → Text → Text
unfolding default_runtime_path dir
artifact_dir temp runtime_path =
    let trimmed = trim_space runtime_path in
    dir (if is_nil trimmed then default_runtime_path temp (lit "default") else trimmed)

unfoldable pub app_log_path : Text → Text → Text
unfolding artifact_dir join
app_log_path temp runtime_path = join (artifact_dir temp runtime_path ∷ lit "app.log" ∷ [])

unfoldable pub daemon_log_path : Text → Text → Text
unfolding artifact_dir join
daemon_log_path temp runtime_path = join (artifact_dir temp runtime_path ∷ lit "daemon.log" ∷ [])

unfoldable pub runner_dir : Text → Text → Text
unfolding artifact_dir join
runner_dir temp runtime_path = join (artifact_dir temp runtime_path ∷ lit "runner" ∷ [])
