-- ===== src/Examples/Runtime.antt =====
-- Paths of runtime files and logs.
use testcontainerd.Prelude.{◌≡◌, refl, lit, text_eq}
use testcontainerd.Runtime.Paths.{default_runtime_path, app_log_path}

path_of_project :
    default_runtime_path (lit "/tmp") (lit "a b/c") ≡ lit "/tmp/tcd/a_b_c/runtime.json"
unfolding default_runtime_path text_eq
path_of_project = refl

-- A project named ".." leaves the directory "tcd".
path_of_parent : default_runtime_path (lit "/tmp/") (lit "..") ≡ lit "/tmp/runtime.json"
unfolding default_runtime_path text_eq
path_of_parent = refl

app_log_beside : app_log_path (lit "/tmp") (lit " x/../y/runtime.json ") ≡ lit "y/app.log"
unfolding app_log_path text_eq
app_log_beside = refl
