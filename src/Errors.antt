-- ===== src/Errors.antt =====
-- Go's `error` values: one constructor for each error that the program makes (`errors.New`,
-- `fmt.Errorf`), and `external` for those that come from code outside it, with their text. A nil
-- error is `none` in an `Option Error`. `message` is `Error()`.
use testcontainerd.Prelude.{List, [], ◌∷◌, ◌++◌, Text, lit}

pub data Error : Type 0 where
  external : Text → Error
  -- container/bundle.go and testcontainerd.go
  registrations_empty name_empty : Error
  start_nil duplicated_name not_found_after_start : Text → Error
  start_failed init_failed : Text → Error → Error
  rollback_failed : Error → Error → Error
  -- testcontainerd.go
  addr_required timeout_not_positive idle_ttl_not_positive register_nil : Error
  -- daemon/sut_manager.go
  plan_nil command_nil path_required workdir_required : Error
  workdir_stat_failed : Error → Error
  workdir_not_directory : Text → Error
  exited_before_startup exited_before_ready : Error
  exited_before_startup_with exited_before_ready_with : Error → Error
  ready_timeout : List Text → Error
  -- daemon/cleanup.go
  remove_timeout : Text → Error
  -- daemon/process_control_windows.go
  sut_process_nil : Error
  -- tcdruntime/file.go
  invalid_runtime_info : Error
  -- client/client.go
  daemon_error : Text → Text → Error
  connect_failed : Error
  -- client/autostart.go
  not_reachable : Error
  lock_timeout : Text → Error
  lock_dir_failed resolve_failed runner_dir_failed runner_failed : Error → Error

-- `strings.Join(texts, ",")`.
unfoldable pub join_comma : List Text → Text
join_comma [] = []
join_comma (s ∷ []) = s
join_comma (s ∷ t ∷ rest) = s ++ lit "," ++ join_comma (t ∷ rest)

unfoldable pub message : Error → Text
unfolding join_comma
message (external s) = s
message registrations_empty = lit "container registrations cannot be empty"
message name_empty = lit "container registration name cannot be empty"
message (start_nil name) = lit "container registration start cannot be nil: " ++ name
message (duplicated_name name) = lit "duplicated container name: " ++ name
message (not_found_after_start name) = lit "container not found after start: " ++ name
message (start_failed name e) = lit "start container " ++ name ++ lit " failed: " ++ message e
message (init_failed name e) = lit "run init for " ++ name ++ lit " failed: " ++ message e
message (rollback_failed e f) = message e ++ lit "; rollback failed: " ++ message f
message addr_required = lit "daemon addr is required"
message timeout_not_positive = lit "client http timeout must be > 0"
message idle_ttl_not_positive = lit "daemon idle ttl must be > 0"
message register_nil = lit "registerContainers cannot be nil"
message plan_nil = lit "sut boot plan is nil"
message command_nil = lit "sut command is nil"
message path_required = lit "sut command path is required"
message workdir_required = lit "sut workdir is required"
message (workdir_stat_failed e) = lit "sut workdir stat failed: " ++ message e
message (workdir_not_directory dir) = lit "sut workdir is not directory: " ++ dir
message exited_before_startup = lit "sut process exited before startup completed"
message exited_before_ready = lit "sut process exited before ready"
message (exited_before_startup_with e) =
    lit "sut process exited before startup completed: " ++ message e
message (exited_before_ready_with e) = lit "sut process exited before ready: " ++ message e
message (ready_timeout addrs) = lit "wait sut ready timeout, failed addrs: " ++ join_comma addrs
message (remove_timeout id) = lit "wait remove container " ++ id ++ lit " timeout"
message invalid_runtime_info = lit "invalid runtime info"
message (daemon_error code text) = lit "daemon error: " ++ code ++ lit " " ++ text
message connect_failed = lit "connect daemon failed after runtime refresh"
message not_reachable = lit "daemon runtime created but service not reachable"
message (lock_timeout path) = lit "wait daemon start lock timeout: " ++ path
message (lock_dir_failed e) = lit "create lock dir: " ++ message e
message (resolve_failed e) = lit "resolve current executable: " ++ message e
message sut_process_nil = lit "sut process is nil"
message (runner_dir_failed e) = lit "create daemon runner dir: " ++ message e
message (runner_failed e) = lit "prepare daemon runner executable: " ++ message e
