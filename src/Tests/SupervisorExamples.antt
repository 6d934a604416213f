-- ===== src/Tests/SupervisorExamples.antt =====
-- A manager that deploys one app, whose process fails, is stopped, or is deployed again.
use goship.Base.{
  lit, text_beq, contains_rune, ℕ, Bool, true, false, ◌≡◌, ◌≢◌, refl, List, [], ◌∷◌, some, get, put,
}
use goship.Entities.Name.{validate_path_component, validate_app_name}
use goship.Entities.App.{RestartPolicy}
use goship.Entities.App.AppState.{running, failed}
use goship.Supervisor.Process.{
  Process, waiting, finished, should_restart, after_exit, process_log_path,
}
use goship.Supervisor.Manager.{
  Manager, new_process_manager, Event, deploys, handle, wake, step, run, deploy, launch, retire,
  validate_process_app, stop, change, handles, wakes, is_tracked,
}
use goship.Supervisor.Safety.{IsSafe}
use goship.Supervisor.Interleavings.{run-IsSafe}
use goship.Supervisor.Restarts.{IsKept, last_crash, crashes, crashes_give_up}
use goship.Tests.Fixtures.{worker, machine}
use goship.Supervisor.Stopping.{stop_final, stop_monitor_state}

abbrev deployed : List Event
deployed = deploys (some worker) machine ∷ []

abbrev worker_process : Process
worker_process = record {
  name = lit "worker";
  binary = lit "/opt/goship/binaries/worker/run";
  args = [];
  env = [];
  work_dir = [];
  pid = 101;
  started_at = 5;
  state = running;
  log_open = true;
  restart_policy = RestartPolicy.on_failure;
  restart_count = 0;
  stopping = false;
  phase = waiting;
}

abbrev manager : Manager
manager = run new_process_manager deployed

worker-there : manager.heap 0 ≡ some worker_process
unfolding run step deploy validate_process_app validate_app_name validate_path_component launch
    retire process_log_path new_process_manager contains_rune text_beq get
worker-there = refl

worker-tracked : get manager.processes (lit "worker") ≡ some 0
unfolding run step deploy validate_process_app validate_app_name validate_path_component launch
    retire process_log_path new_process_manager contains_rune text_beq get put
worker-tracked = refl

worker-IsKept : IsKept manager 0 worker_process
unfolding should_restart
worker-IsKept = record {
  there = worker-there;
  tracked = worker-tracked;
  live = refl;
  wanted = refl;
  policy = refl;
}

abbrev restarts : List (ℕ × ℕ)
restarts = (201, 6) ∷ (202, 8) ∷ (203, 12) ∷ (204, 20) ∷ (205, 36) ∷ []

-- Witnesses.
run-IsSafe_example : IsSafe manager
run-IsSafe_example = run-IsSafe deployed

crashes_give_up_example :
    (q : Process) × ((last_crash 0 (crashes 0 restarts manager)).heap 0 ≡ some q)
    × (q.state ≡ failed)
    × (q.phase ≡ finished)
    × (q.restart_count ≡ 5)
crashes_give_up_example = crashes_give_up restarts manager 0 worker_process worker-IsKept refl

abbrev after_stop : List Event
after_stop = handle 0 ∷ wake 0 (some 301) 9 ∷ []

abbrev ended : Process
ended = record worker_process { state = failed; stopping = true; phase = finished }

stop-ended : (run (stop (lit "worker") true manager) after_stop).heap 0 ≡ some ended
unfolding run step deploy validate_process_app validate_app_name validate_path_component launch
    retire process_log_path new_process_manager contains_rune text_beq get put stop change handles
    wakes is_tracked after_exit
stop-ended = refl

stop_final_example : (◌≡◌ {A = Bool} true true) × (finished ≢ waiting)
stop_final_example =
    stop_final manager (lit "worker") true 0 after_stop ended (run-IsSafe deployed) worker-tracked
      worker_process worker-there stop-ended

stop_monitor_state_example :
    (q : Process) × ((handles 0 (stop (lit "worker") true manager)).heap 0 ≡ some q)
    × (q.state ≡ failed)
stop_monitor_state_example =
    stop_monitor_state manager (lit "worker") true 0 worker_process worker-tracked worker-there refl
      refl
