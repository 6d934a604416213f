-- ===== src/Supervisor/Manager/Events.antt =====
-- internal/init/process.go: the interleavings of the methods of `ProcessManager` with its monitors.
use goship.Base.{
  Text, ℕ, Bool, true, false, List, [], ◌∷◌, Option, none, some, get, ◌==◌, text_eq, nat_eq,
}
use goship.Entities.App.{AppSpec}
use goship.Supervisor.Process.{
  Process, Phase, waiting, exited, sleeping, finished, after_exit, restart_process,
}
use goship.Supervisor.Manager.Heap.{Manager, change}
use goship.Supervisor.Manager.Methods.{DeployEnv, deploy, stop, remove_app, close}
use goship.Supervisor.Manager.Status.{get_status}

-- A live process exits, and `cmd.Wait()` returns.
abbrev pub exit_phase : Bool → Phase → Phase
exit_phase failure waiting = exited failure
exit_phase failure (exited e) = exited e
exit_phase failure sleeping = sleeping
exit_phase failure finished = finished

unfoldable pub exits : ℕ → Bool → Manager → Manager
unfolding change
exits i failure m = change (λ p. record p { phase = exit_phase failure p.phase }) i m

-- `tracked, ok := m.processes[proc.name]; ok && tracked == proc`
unfoldable pub is_tracked : ℕ → Process → Manager → Bool
is_tracked i p m = elim (get m.processes p.name) [ none ↦ false | some j ↦ j == i ]

abbrev pub react : Phase → Bool → Process → Process
react (exited failure) true p = after_exit failure p
react (exited failure) false p = record p { phase = finished }
react waiting tracked p = p
react sleeping tracked p = p
react finished tracked p = p

-- The monitor at address i takes the lock after an exit.
unfoldable pub handles : ℕ → Manager → Manager
unfolding change after_exit is_tracked
handles i m = change (λ p. react p.phase (is_tracked i p m) p) i m

abbrev pub resume : Phase → Bool → Option ℕ → ℕ → Process → Process
resume sleeping true starts now p = restart_process starts now p
resume sleeping false starts now p = record p { phase = finished }
resume waiting go starts now p = p
resume (exited e) go starts now p = p
resume finished go starts now p = p

abbrev pub and_not : Bool → Bool → Bool
and_not b true = false
and_not b false = b

-- The monitor at address i takes the lock after its backoff.
unfoldable pub wakes : ℕ → Option ℕ → ℕ → Manager → Manager
unfolding change restart_process is_tracked
wakes i starts now m =
    change (λ p. resume p.phase (and_not (is_tracked i p m) p.stopping) starts now p) i m

-- What happens to a manager, in any order.
pub data Event : Type 0 where
  deploys : Option AppSpec → DeployEnv → Event
  stops removes : Text → Bool → Event
  closes : (ℕ → Bool) → Event
  asks : (ℕ → Text) → Event
  exit : ℕ → Bool → Event
  handle : ℕ → Event
  wake : ℕ → Option ℕ → ℕ → Event

unfoldable pub step : Manager → Event → Manager
step m (deploys app e) = (deploy app e m).1
step m (stops name failure) = stop name failure m
step m (removes name failure) = remove_app name failure m
step m (closes failures) = close failures m
step m (asks proc_status) = (get_status proc_status m).1
step m (exit i failure) = exits i failure m
step m (handle i) = handles i m
step m (wake i starts now) = wakes i starts now m

unfoldable pub run : Manager → List Event → Manager
unfolding step
run m [] = m
run m (x ∷ xs) = run (step m x) xs
