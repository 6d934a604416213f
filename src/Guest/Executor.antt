-- ===== src/Guest/Executor.antt =====
-- internal/init/executor.go: `ExecutorManager`, which routes the operations on apps to Docker or to
-- the process supervisor.
use goship.Base.{Text, ℕ, Bool, List, [], ◌++◌, Option, none, some, if◌then◌else◌, Result, ok, err}
use goship.Entities.Name.{NameError}
use goship.Entities.App.{AppSpec, is_process_mode}
use goship.Strings.{Content}
use goship.Guest.Logs.{LogError, read_last_n_lines}
use goship.Supervisor.Process.{process_log_path}
use goship.Supervisor.Manager
use goship.Supervisor.Manager.{
  Manager, AppStatus, DeployError, DeployEnv, deploy, stop, remove_app, get_status,
}

-- The Docker manager by the interface `AppExecutor`; its states are `D`.
pub record AppExecutor (D : Type 0) : Type 0 where
  pub deploy_app : AppSpec → D → Result Text (Unit {0}) × D
  pub stop_app : Text → D → Result Text (Unit {0}) × D
  pub remove_app : Text → D → Result Text (Unit {0}) × D
  pub status : D → Result Text (List AppStatus)
  pub logs : Text → ℕ → D → Result Text Text

-- What the system answers to the process supervisor during one command.
pub record Answers : Type 0 where
  pub deployment : DeployEnv
  pub failure : Bool
  pub proc_status : ℕ → Text
  pub read : Text → Content

pub data ExecError : Type 0 where
  docker_error : Text → ExecError
  process_error : DeployError → ExecError
  log_error : LogError → ExecError
  bad_name : NameError → ExecError
  no_process no_docker no_executor : ExecError

-- A nil pointer is `none`.
pub record Executors (D : Type 0) : Type 0 where
  pub docker : Option D
  pub process : Option Manager

abbrev pub from_docker {ℓ} : {A : Type ℓ} → Result Text A → Result ExecError A
from_docker (ok a) = ok a
from_docker (err t) = err (docker_error t)

abbrev pub from_process : Result DeployError (Unit {0}) → Result ExecError (Unit {0})
from_process (ok a) = ok a
from_process (err e) = err (process_error e)

abbrev pub from_log : Result LogError Text → Result ExecError Text
from_log (ok t) = ok t
from_log (err e) = err (log_error e)

-- `GetLogs` of the process supervisor.
unfoldable pub process_logs : Answers → Text → ℕ → Result ExecError Text
unfolding process_log_path read_last_n_lines
process_logs ans name n = elim (process_log_path name) [
  | err e ↦ err (bad_name e)
  | ok path ↦ from_log (read_last_n_lines (ans.read path) n)
]

module _ {D : Type 0} (ops : AppExecutor D) where
  unfoldable pub executor_deploy :
      Answers → AppSpec → Executors D → Result ExecError (Unit {0}) × Executors D
  unfolding is_process_mode deploy
  executor_deploy ans app x =
      if is_process_mode app
      then elim x.process [
        | none ↦ (err no_process, x)
        | some m ↦
            let r = deploy (some app) ans.deployment m in
            (from_process r.0, record x { process = some r.1 })
      ]
      else elim x.docker [
        | none ↦ (err no_docker, x)
        | some d ↦ let r = ops.deploy_app app d in (from_docker r.0, record x { docker = some r.1 })
      ]

  -- `Stop` of the supervisor returns no error.
  abbrev pub stop_process_app :
      Answers → Text → Executors D → Result ExecError (Unit {0}) × Executors D
  stop_process_app ans name x = elim x.process [
    | none ↦ (ok tt, x)
    | some m ↦ (ok tt, record x { process = some (Manager.stop name ans.failure m) })
  ]

  abbrev pub or_process :
      Answers
      → Text
      → Result Text (Unit {0})
      → Executors D
      → Result ExecError (Unit {0}) × Executors D
  or_process ans name (ok u) x = (ok tt, x)
  or_process ans name (err t) x = stop_process_app ans name x

  unfoldable pub executor_stop :
      Answers → Text → Executors D → Result ExecError (Unit {0}) × Executors D
  unfolding stop
  executor_stop ans name x = elim x.docker [
    | none ↦ stop_process_app ans name x
    | some d ↦
        let r = ops.stop_app name d in or_process ans name r.0 (record x { docker = some r.1 })
  ]

  abbrev pub remove_from_docker : Text → Option D → Option D
  remove_from_docker name none = none
  remove_from_docker name (some d) = some (ops.remove_app name d).1

  abbrev pub remove_from_process : Answers → Text → Option Manager → Option Manager
  remove_from_process ans name none = none
  remove_from_process ans name (some m) = some (Manager.remove_app name ans.failure m)

  unfoldable pub executor_remove :
      Answers → Text → Executors D → Result ExecError (Unit {0}) × Executors D
  unfolding Manager.remove_app
  executor_remove ans name x = (
    ok tt,
    record {
      docker = remove_from_docker name x.docker;
      process = remove_from_process ans name x.process;
    },
  )

  abbrev pub logs_of_process : Answers → Text → ℕ → Executors D → Result ExecError Text
  logs_of_process ans name n x = elim x.process [
    | none ↦ err no_executor
    | some m ↦ process_logs ans name n
  ]

  unfoldable pub executor_logs : Answers → Text → ℕ → Executors D → Result ExecError Text
  unfolding process_logs
  executor_logs ans name n x = elim x.docker [
    | none ↦ logs_of_process ans name n x
    | some d ↦ elim (ops.logs name n d) [ ok t ↦ ok t | err e ↦ logs_of_process ans name n x ]
  ]

  abbrev pub docker_statuses : Option D → List AppStatus
  docker_statuses none = []
  docker_statuses (some d) = elim (ops.status d) [ ok l ↦ l | err e ↦ [] ]

  abbrev pub process_statuses : Answers → Option Manager → List AppStatus × Option Manager
  process_statuses ans none = ([], none)
  process_statuses ans (some m) = let r = get_status ans.proc_status m in (r.0, some r.1)

  unfoldable pub executor_status : Answers → Executors D → List AppStatus × Executors D
  unfolding get_status
  executor_status ans x =
      let r = process_statuses ans x.process in
      (docker_statuses x.docker ++ r.0, record x { process = r.1 })
