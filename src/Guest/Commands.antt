-- ===== src/Guest/Commands.antt =====
-- internal/init: the handlers of internal/init/init.go and the dispatch of internal/init/comm.go.
use goship.Base.{
  Text, lit, ℕ, List, [], ◌∷◌, Option, none, some, is_some, has_prefix, le_zero, ◌==◌, text_eq,
  if◌then◌else◌, Result, ok, err, ℤ, pos, negsuc,
}
use goship.Entities.Name.{NameError, validate_app_name}
use goship.Entities.App.{
  AppSpec, PortMapping, AppState, is_container_mode, is_process_mode, container_mode,
}
use goship.Strings.{clean}
use goship.Guest.Message.{InitCommand}
use goship.Guest.Logs.{LogError, read_last_n_lines}
use goship.Guest.State.{Agent, Reply, System, Coding}
use goship.Guest.Transfer.Update.{handle_update_init}
use goship.Guest.Transfer.Upload.{handle_upload_binary}
use goship.Guest.Transfer.Image.{handle_upload_image}
use goship.Supervisor.Manager.{AppStatus}
use goship.Guest.Executor.{
  AppExecutor, Answers, ExecError, Executors, executor_deploy, executor_stop, executor_remove,
  executor_logs, executor_status,
}

pub record ContainerStatus : Type 0 where
  pub name : Text
  pub id : Text
  pub image : Text
  pub state : AppState
  pub status : Text
  pub ports : List PortMapping
  pub started_at : Option ℕ

abbrev pub to_container_status : AppStatus → ContainerStatus
to_container_status s = record {
  name = s.name;
  id = s.id;
  image = s.image;
  state = s.state;
  status = s.status;
  ports = s.ports;
  started_at = s.started_at;
}

-- The containers among the apps, for older clients.
unfoldable pub containers : List AppStatus → List ContainerStatus
containers [] = []
containers (s ∷ ss) =
    let rest = containers ss in
    if container_mode s.execution_mode then to_container_status s ∷ rest else rest

pub data Refusal : Type 0 where
  app_required image_required docker_unavailable binary_required : Refusal
  log_outside invalid_json : Refusal
  bad_name : NameError → Refusal
  exec_failed : ExecError → Refusal
  log_failed : LogError → Refusal
  unknown_action : Text → Refusal

pub data Response : Type 0 where
  done : Response
  transfer : Reply → Response
  logs : Text → Response
  status : List AppStatus → List ContainerStatus → Response
  refused : Refusal → Response

-- The agent's transfers and its executors.
pub record Machine (D : Type 0) : Type 0 where
  pub agent : Agent
  pub executors : Executors D

abbrev pub default_log_file : Text
default_log_file = lit "/var/log/goship-init.log"

-- `DefaultLogLines` for a count that is not positive.
abbrev pub log_lines : ℤ → ℕ
log_lines (pos n) = if le_zero (pos n) then 100 else n
log_lines (negsuc n) = 100

-- The path of the file to read, if it is under /var/log.
unfoldable pub log_path : Text → Option Text
unfolding clean has_prefix
log_path log_file =
    let path = clean (if log_file == lit "" then default_log_file else log_file) in
    if has_prefix path (lit "/var/log/") then some path else none

abbrev pub log_response : Result LogError Text → Response
log_response (ok t) = logs t
log_response (err e) = refused (log_failed e)

abbrev pub logs_of_app : Result ExecError Text → Response
logs_of_app (ok t) = logs t
logs_of_app (err e) = refused (exec_failed e)

abbrev pub finished : Result ExecError (Unit {0}) → Response
finished (ok u) = done
finished (err e) = refused (exec_failed e)

module _ {D : Type 0} (ops : AppExecutor D) where
  -- The answer of the executors, and the machine with them.
  abbrev pub with_executors :
      Machine D → Result ExecError (Unit {0}) × Executors D → Response × Machine D
  with_executors m r = (finished r.0, record m { executors = r.1 })

  -- The checks of `handleDeploy`, once the app's name is valid.
  abbrev pub check_mode : AppSpec → Executors D → Option Refusal
  check_mode app x =
      if is_container_mode app
      then (if app.image == lit ""
          then some image_required
          else if is_some x.docker
          then none
          else some docker_unavailable)
      else if is_process_mode app
      then (if app.binary == lit "" then some binary_required else none)
      else none

  unfoldable pub handle_deploy : InitCommand → Answers → Machine D → Response × Machine D
  unfolding executor_deploy is_container_mode is_process_mode
  handle_deploy cmd ans m = elim cmd.app [
    | none ↦ (refused app_required, m)
    | some app ↦ elim (validate_app_name app.name) [
      | err e ↦ (refused (bad_name e), m)
      | ok u ↦ elim (check_mode app m.executors) [
        | some r ↦ (refused r, m)
        | none ↦ with_executors m (executor_deploy ops ans app m.executors)
      ]
    ]
  ]

  unfoldable pub handle_stop : InitCommand → Answers → Machine D → Response × Machine D
  unfolding executor_stop
  handle_stop cmd ans m = elim (validate_app_name cmd.app_name) [
    | err e ↦ (refused (bad_name e), m)
    | ok u ↦ with_executors m (executor_stop ops ans cmd.app_name m.executors)
  ]

  unfoldable pub handle_remove : InitCommand → Answers → Machine D → Response × Machine D
  unfolding executor_remove
  handle_remove cmd ans m = elim (validate_app_name cmd.app_name) [
    | err e ↦ (refused (bad_name e), m)
    | ok u ↦ with_executors m (executor_remove ops ans cmd.app_name m.executors)
  ]

  unfoldable pub handle_logs : InitCommand → Answers → Machine D → Response
  unfolding executor_logs read_last_n_lines log_path
  handle_logs cmd ans m =
      if cmd.app_name == lit ""
      then elim (log_path cmd.log_file) [
        | none ↦ refused log_outside
        | some path ↦ log_response (read_last_n_lines (ans.read path) (log_lines cmd.lines))
      ]
      else elim (validate_app_name cmd.app_name) [
        | err e ↦ refused (bad_name e)
        | ok u ↦ logs_of_app (executor_logs ops ans cmd.app_name (log_lines cmd.lines) m.executors)
      ]

  unfoldable pub handle_status : Answers → Machine D → Response × Machine D
  unfolding executor_status containers
  handle_status ans m =
      let r = executor_status ops ans m.executors in
      (status r.0 (containers r.0), record m { executors = r.1 })

  abbrev pub with_agent : Machine D → Reply × Agent → Response × Machine D
  with_agent m r = (transfer r.0, record m { agent = r.1 })

  -- The handler that is registered for an action.
  unfoldable pub dispatch :
      Coding → InitCommand → System → Answers → Machine D → Response × Machine D
  unfolding handle_deploy handle_stop handle_remove handle_logs handle_status handle_update_init
      handle_upload_binary handle_upload_image
  dispatch code cmd sys ans m =
      if cmd.action == lit "ping"
      then (done, m)
      else if cmd.action == lit "deploy"
      then handle_deploy cmd ans m
      else if cmd.action == lit "stop"
      then handle_stop cmd ans m
      else if cmd.action == lit "remove"
      then handle_remove cmd ans m
      else if cmd.action == lit "status"
      then handle_status ans m
      else if cmd.action == lit "logs"
      then (handle_logs cmd ans m, m)
      else if cmd.action == lit "update-init"
      then with_agent m (handle_update_init code cmd sys m.agent)
      else if cmd.action == lit "upload-binary"
      then with_agent m (handle_upload_binary code cmd sys m.agent)
      else if cmd.action == lit "upload-image"
      then with_agent m (handle_upload_image code cmd sys m.agent)
      else (refused (unknown_action cmd.action), m)
