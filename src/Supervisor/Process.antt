-- ===== src/Supervisor/Process.antt =====
-- internal/init/process.go: a managed process and what its monitor does at each exit.
use goship.Base.{
  Text, lit, ℕ, ◌+◌, ◌-◌, ◌^◌, Bool, true, false, List, Option, none, some, leb, text_eq,
  if◌then◌else◌, min, ◌++◌, Result, ok, err,
}
use goship.Entities.Name.{NameError, validate_app_name}
use goship.Entities.App.{AppState, RestartPolicy}
use goship.Entities.App.AppState.{running, stopped, failed}

abbrev pub max_restarts : ℕ
max_restarts = 5

-- In seconds.
abbrev pub max_backoff : ℕ
max_backoff = 30

-- Where the goroutine of `monitorProcess` stands. `done` is closed except in `waiting`, in which
-- the process is alive; `exited e` is past `cmd.Wait()`, whose error is nil or not, and before the
-- lock; `sleeping` is the backoff; `finished` is after the return.
pub data Phase : Type 0 where
  waiting : Phase
  exited : Bool → Phase
  sleeping finished : Phase

pub record Process : Type 0 where
  pub name : Text
  pub binary : Text
  pub args : List Text
  pub env : List Text
  pub work_dir : Text
  pub pid : ℕ
  pub started_at : ℕ
  pub state : AppState
  pub log_open : Bool
  pub restart_policy : RestartPolicy
  pub restart_count : ℕ
  pub stopping : Bool
  pub phase : Phase

unfoldable pub process_log_path : Text → Result NameError Text
process_log_path app_name = elim (validate_app_name app_name) [
  | err x ↦ err x
  | ok _ ↦ ok (lit "/var/log/goship-" ++ app_name ++ lit ".log")
]

unfoldable pub should_restart : RestartPolicy → Bool → Bool
should_restart RestartPolicy.always failure = true
should_restart RestartPolicy.on_failure failure = failure
should_restart _ failure = false

-- The state of a process that is not started again.
abbrev pub final_state : Bool → AppState
final_state true = failed
final_state false = stopped

abbrev pub ends : AppState → Process → Process
ends st p = record p { state = st; phase = finished }

-- The first critical section of `monitorProcess`, for a process that is still tracked.
unfoldable pub after_exit : Bool → Process → Process
unfolding should_restart
after_exit failure p =
    if p.stopping
    then ends (final_state failure) p
    else if should_restart p.restart_policy failure
    then (if leb max_restarts p.restart_count
        then ends failed p
        else record p { restart_count = p.restart_count + 1; phase = sleeping })
    else ends (final_state failure) p

-- The sleep between the critical sections, in seconds.
unfoldable pub backoff : ℕ → ℕ
backoff restart_count = min (2 ^ (restart_count - 1)) max_backoff

-- `restartProcess`: the new process's PID, or nothing if it does not start.
unfoldable pub restart_process : Option ℕ → ℕ → Process → Process
restart_process none now p = ends failed p
restart_process (some pid) now p = record p {
  pid = pid;
  started_at = now;
  state = running;
  phase = waiting;
}

-- `stopProcess` returns once `done` is closed: if the process was alive, it has exited by then,
-- with the error `failure`.
abbrev pub stop_phase : Bool → Phase → Phase
stop_phase failure waiting = exited failure
stop_phase failure (exited e) = exited e
stop_phase failure sleeping = sleeping
stop_phase failure finished = finished

unfoldable pub stop_process : Bool → Process → Process
stop_process failure p = record p { stopping = true; phase = stop_phase failure p.phase }
