-- ===== src/Configurator/Mps.antt =====
-- mps.go: the life of an MPS server. What the operating system answers is a parameter.
use Prim.Native.String.{◌++◌ as str_append}
use fa_st_gshare.Common.{
  Bool, true, false, ◌||◌, String, str_eq, Option, none, some, List, [], ◌∷◌, if◌then◌else◌,
}

pub record MpsServer : Type 0 where
  pub uuid : String
  pub name : String
  pub is_enabled : Bool

-- What `os.Stat` finds at a path.
pub data Stat : Type 0 where
  not_exist stat_failed named_pipe other_file : Stat

-- The operating system during one operation: whether a call fails, by path or device; the control
-- pipe before the operation, and after the daemon was told to quit.
pub record System : Type 0 where
  pub stat_before : String → Stat
  pub stat_after : String → Stat
  pub mkdir_fails : String → Bool
  pub start_fails : String → Bool
  pub quit_fails : String → Bool

pub data MpsError : Type 0 where
  check_failed create_failed start_failed stop_failed still_running : MpsError

-- `GetLogDir` and `GetPipeDir`
unfoldable pub get_log_dir : String → String
get_log_dir uuid = str_append "/tmp/mps_log_" uuid

unfoldable pub get_pipe_dir : String → String
get_pipe_dir uuid = str_append "/tmp/mps_" uuid

-- `BuildEnvironment`
unfoldable pub build_environment : String → List String
unfolding get_pipe_dir get_log_dir
build_environment uuid =
    str_append "CUDA_VISIBLE_DEVICES=" uuid
    ∷ str_append "CUDA_MPS_PIPE_DIRECTORY=" (get_pipe_dir uuid)
    ∷ str_append "CUDA_MPS_LOG_DIRECTORY=" (get_log_dir uuid)
    ∷ []

-- Whether the daemon runs, and whether the error is not nil.
abbrev pub running_of : Stat → Bool × Bool
running_of not_exist = (false, false)
running_of stat_failed = (false, true)
running_of named_pipe = (true, false)
running_of other_file = (false, false)

-- `IsMPSDaemonRunning`
unfoldable pub is_mps_daemon_running : (String → Stat) → MpsServer → Bool × Bool
is_mps_daemon_running stat s = running_of (stat (str_append (get_pipe_dir s.uuid) "/control"))

-- `CreateDirectories`: whether it fails. A failure to remove an old directory is only logged.
unfoldable pub create_directories_fails : System → MpsServer → Bool
create_directories_fails sys s =
    sys.mkdir_fails (get_pipe_dir s.uuid) || sys.mkdir_fails (get_log_dir s.uuid)

-- `StartMPSDaemon`
unfoldable pub start_mps_daemon : System → MpsServer → MpsServer × Option MpsError
start_mps_daemon sys s =
    if s.is_enabled
    then (s, none)
    else if sys.start_fails s.uuid
    then (s, some start_failed)
    else (record s { is_enabled = true }, none)

-- `SetupMPSEnvironment`
unfoldable pub setup_mps_environment : System → MpsServer → MpsServer × Option MpsError
setup_mps_environment sys s =
    let (running, failed) = is_mps_daemon_running sys.stat_before s in
    if s.is_enabled
    then (s, none)
    else if failed
    then (s, some check_failed)
    else if running
    then (s, none)
    else if create_directories_fails sys s
    then (s, some create_failed)
    else start_mps_daemon sys s

-- `StopMPSDaemon`: a failed check after the quit is only logged.
unfoldable pub stop_mps_daemon : System → MpsServer → MpsServer × Option MpsError
stop_mps_daemon sys s =
    let (running, failed) = is_mps_daemon_running sys.stat_after s in
    if s.is_enabled
    then if sys.quit_fails s.uuid
      then (s, some stop_failed)
      else if failed
      then (record s { is_enabled = false }, none)
      else if running
      then (s, some still_running)
      else (record s { is_enabled = false }, none)
    else (s, none)

-- `NewMPSServer`; `none` is an error.
unfoldable pub new_mps_server : String → String → Option MpsServer
new_mps_server name uuid =
    if str_eq uuid ""
    then none
    else some (record {
      uuid = uuid;
      name = if str_eq name "" then "unnamed-gpu" else name;
      is_enabled = false;
    })
