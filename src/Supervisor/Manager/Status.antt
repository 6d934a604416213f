-- ===== src/Supervisor/Manager/Status.antt =====
-- internal/init/process.go: `GetStatus` of `ProcessManager`, which also corrects states.
use goship.Base.{
  Text, lit, ℕ, Bool, true, false, List, [], ◌∷◌, ◌++◌, Option, none, some, Dict, ◌==◌, text_eq,
  nat_eq, if◌then◌else◌, itoa, ltb, ◌&&◌,
}
use goship.Entities.App.{AppState, ExecutionMode, PortMapping}
use goship.Entities.App.AppState.{stopped}
use goship.Supervisor.Process.{Process}
use goship.Supervisor.Manager.Heap.{Manager, change}

pub record AppStatus : Type 0 where
  pub name : Text
  pub execution_mode : ExecutionMode
  pub id : Text
  pub image : Text
  pub binary : Text
  pub state : AppState
  pub status : Text
  pub ports : List PortMapping
  pub started_at : Option ℕ
  pub restart_count : ℕ

abbrev pub state_text : AppState → Text
state_text AppState.pending = lit "pending"
state_text AppState.running = lit "running"
state_text AppState.stopped = lit "stopped"
state_text AppState.failed = lit "failed"

abbrev pub is_running : AppState → Bool
is_running AppState.running = true
is_running _ = false

-- A process that is taken to run while the system says `exited` is set to `stopped`.
unfoldable pub refresh : Text → Process → Process
refresh proc_status p =
    if is_running p.state && proc_status == lit "exited" then record p { state = stopped } else p

-- The text of the status, from the state before the correction.
unfoldable pub status_text : Text → Process → Text
status_text proc_status p =
    let base =
      if is_running p.state
      then (if proc_status == lit "exited"
          then lit "stopped (exited)"
          else lit "running (pid " ++ (itoa p.pid ++ (lit ", " ++ (proc_status ++ lit ")"))))
      else state_text p.state in
    if ltb 0 p.restart_count then base ++ (lit ", restarts: " ++ itoa p.restart_count) else base

abbrev pub app_status : Text → Process → AppStatus
app_status proc_status p = record {
  name = p.name;
  execution_mode = ExecutionMode.process;
  id = itoa p.pid;
  image = lit "";
  binary = p.binary;
  state = (refresh proc_status p).state;
  status = status_text proc_status p;
  ports = [];
  started_at = some p.started_at;
  restart_count = p.restart_count;
}

-- `proc_status` answers `getProcessStatus` by address.
unfoldable pub statuses : Dict ℕ → (ℕ → Text) → Manager → List AppStatus
unfolding refresh status_text
statuses [] proc_status m = []
statuses ((k, i) ∷ ps) proc_status m =
    let rest = statuses ps proc_status m in
    elim (m.heap i) [ none ↦ rest | some p ↦ app_status (proc_status i) p ∷ rest ]

unfoldable pub refresh_all : Dict ℕ → (ℕ → Text) → Manager → Manager
unfolding change refresh
refresh_all [] proc_status m = m
refresh_all ((k, i) ∷ ps) proc_status m =
    refresh_all ps proc_status (change (refresh (proc_status i)) i m)

unfoldable pub get_status : (ℕ → Text) → Manager → List AppStatus × Manager
unfolding statuses refresh_all
get_status proc_status m =
    (statuses m.processes proc_status m, refresh_all m.processes proc_status m)
