-- ===== src/Supervisor/Manager/Methods.antt =====
-- internal/init/process.go: `Deploy`, `Stop`, `Remove` and `Close` of `ProcessManager`.
use goship.Base.{
  Text, lit, ℕ, suc, Bool, true, false, List, [], ◌∷◌, ◌++◌, Option, none, some, Dict, get, put,
  remove, ◌==◌, text_eq, nat_eq, if◌then◌else◌, Result, ok, err,
}
use goship.Entities.Name.{NameError, validate_app_name}
use goship.Entities.App.{AppSpec}
use goship.Entities.App.AppState.{running, stopped}
use goship.Supervisor.Process.{Process, waiting, process_log_path, stop_process}
use goship.Supervisor.Manager.Heap.{Manager, update, change}

pub data DeployError : Type 0 where
  app_required binary_required binary_not_found log_failed start_failed : DeployError
  bad_name : NameError → DeployError

-- What the system answers during one `Deploy`.
pub record DeployEnv : Type 0 where
  pub now : ℕ
  pub failure : Bool  -- how the process that is replaced exits
  pub binary_exists : Bool
  pub log_opens : Bool
  pub starts : Option ℕ  -- the PID
  pub environ : List Text

abbrev pub key_values : Dict Text → List Text
key_values [] = []
key_values ((k, v) ∷ m) = (k ++ (lit "=" ++ v)) ∷ key_values m

unfoldable pub validate_process_app : AppSpec → Bool → Result DeployError (Unit {0})
validate_process_app app binary_exists = elim (validate_app_name app.name) [
  | err x ↦ err (bad_name x)
  | ok _ ↦
      if app.binary == lit ""
      then err binary_required
      else if binary_exists
      then ok tt
      else err binary_not_found
]

-- A tracked process is stopped and no longer tracked.
unfoldable pub retire : Text → Bool → (Process → Process) → Manager → Manager
unfolding change stop_process
retire name failure f m = elim (get m.processes name) [
  | none ↦ m
  | some i ↦ record (change (λ p. f (stop_process failure p)) i m) {
    processes = remove m.processes name;
  }
]

abbrev pub new_process : AppSpec → DeployEnv → ℕ → Process
new_process app e pid = record {
  name = app.name;
  binary = app.binary;
  args = app.command ++ app.args;
  env = e.environ ++ key_values app.env;
  work_dir = app.working_dir;
  pid = pid;
  started_at = e.now;
  state = running;
  log_open = true;
  restart_policy = app.restart_policy;
  restart_count = 0;
  stopping = false;
  phase = waiting;
}

abbrev pub track : Process → Manager → Manager
track p m = record {
  processes = put m.processes p.name m.next;
  heap = update m.heap m.next p;
  next = suc m.next;
}

-- `Deploy` from the log file on, when the process of that name has been retired.
unfoldable pub launch : AppSpec → DeployEnv → Manager → Result DeployError (Unit {0}) × Manager
unfolding process_log_path
launch app e m = elim (process_log_path app.name) [
  | err x ↦ (err (bad_name x), m)
  | ok path ↦
      if e.log_opens
      then elim e.starts [
        | none ↦ (err start_failed, m)
        | some pid ↦ (ok tt, track (new_process app e pid) m)
      ]
      else (err log_failed, m)
]

unfoldable pub deploy :
    Option AppSpec → DeployEnv → Manager → Result DeployError (Unit {0}) × Manager
unfolding validate_process_app
deploy none e m = (err app_required, m)
deploy (some app) e m = elim (validate_process_app app e.binary_exists) [
  | err x ↦ (err x, m)
  | ok _ ↦ launch app e (retire app.name e.failure (λ p. p) m)
]

unfoldable pub stop : Text → Bool → Manager → Manager
unfolding change stop_process
stop name failure m = elim (get m.processes name) [
  | none ↦ m
  | some i ↦ change (λ p. record (stop_process failure p) { state = stopped }) i m
]

abbrev pub close_log : Process → Process
close_log p = record p { log_open = false }

unfoldable pub remove_app : Text → Bool → Manager → Manager
unfolding retire
remove_app name failure m = retire name failure close_log m

-- The loop of `Close` over the map; `failures` says how each process exits.
unfoldable pub stop_all : Dict ℕ → (ℕ → Bool) → Manager → Manager
unfolding change stop_process
stop_all [] failures m = m
stop_all ((k, i) ∷ ps) failures m =
    stop_all ps failures (change (λ p. close_log (stop_process (failures i) p)) i m)

unfoldable pub close : (ℕ → Bool) → Manager → Manager
unfolding stop_all
close failures m = record (stop_all m.processes failures m) { processes = [] }
