-- ===== src/Guest/Acting.antt =====
-- What the executors of the agent (internal/init/executor.go) do to the supervisor and to Docker.
use goship.Base.{
  Text, text_beq_iff, Bool, true, false, Option, none, some, is_ok, ◌==◌, text_eq, Result, ok, err,
  if◌then◌else◌, ◌≡◌, ◌≢◌, refl, arith,
}
use goship.Entities.Name.{NameError, validate_app_name, validate_path_component}
use goship.Entities.App.{AppSpec, ExecutionMode, is_process_mode, is_container_mode}
use goship.Entities.Components.{IsComponent, validate_path_component_iff}
use goship.Supervisor.Manager.{Manager, Event, deploys, stops, removes, asks, step}
use goship.Guest.Executor.{
  AppExecutor, Answers, Executors, ExecError, stop_process_app, or_process, remove_from_process,
  remove_from_docker, process_statuses, executor_deploy, executor_stop, executor_remove,
  executor_status,
}

pub valid-name : (n : Text) → IsComponent n → validate_app_name n ≡ ok tt
unfolding validate_app_name
valid-name n h = (validate_path_component_iff n).1 h

pub invalid-name :
    (n : Text) → (IsComponent n → ⊥) → (e : NameError) × (validate_app_name n ≡ err e)
unfolding validate_app_name
invalid-name n f = go (validate_path_component n) refl
  where
    go :
        (v : Result NameError (Unit {0}))
        → validate_path_component n ≡ v
        → (e : NameError) × (validate_path_component n ≡ err e)
    go (err e) ev = (e, ev)
    go (ok u) ev = absurd (f ((validate_path_component_iff n).0 ev))

pub test_false : (a b : Text) → a ≢ b → (a == b) ≡ false
test_false a b n = ground (arith, text_beq_iff a b, n)

pub container-modes :
    (app : AppSpec)
    → app.execution_mode ≡ ExecutionMode.container
    → (is_container_mode app ≡ true) × (is_process_mode app ≡ false)
unfolding is_container_mode is_process_mode
container-modes app h = (rw h refl, rw h refl)

pub process-modes :
    (app : AppSpec)
    → app.execution_mode ≡ ExecutionMode.process
    → (is_container_mode app ≡ false) × (is_process_mode app ≡ true)
unfolding is_container_mode is_process_mode
process-modes app h = (rw h refl, rw h refl)

-- One event of the supervisor, if there is one.
abbrev pub acted : Event → Option Manager → Option Manager
acted x none = none
acted x (some k) = some (step k x)

module _ {D : Type 0} (ops : AppExecutor D) (ans : Answers) where
  abbrev pub docker_stops : Text → Option D → Bool
  docker_stops name none = false
  docker_stops name (some d) = is_ok (ops.stop_app name d).0

  abbrev pub docker_removes : Text → Option D → Option D
  docker_removes name none = none
  docker_removes name (some d) = some (ops.remove_app name d).1

  pub stop-lem :
      (name : Text) (x : Executors D)
      → ((executor_stop ops ans name x).0 ≡ ok tt)
        × ((executor_stop ops ans name x).1.process ≡ (
            if docker_stops name x.docker
            then x.process
            else acted (stops name ans.failure) x.process))
  unfolding executor_stop step
  stop-lem name x = go x.docker x.process
    where
      Ends : Bool → Option Manager → Result ExecError (Unit {0}) × Executors D → Type 0
      Ends b p r =
          (r.0 ≡ ok tt) × (r.1.process ≡ (if b then p else acted (stops name ans.failure) p))

      fallback :
          (d : Option D) (p : Option Manager)
          → Ends false p (stop_process_app ops ans name (record { docker = d; process = p }))
      fallback d none = (refl, refl)
      fallback d (some k) = (refl, refl)

      after :
          (r : Result Text (Unit {0})) (d : Option D) (p : Option Manager)
          → Ends (is_ok r) p (or_process ops ans name r (record { docker = d; process = p }))
      after (ok u) d p = (refl, refl)
      after (err t) d p = fallback d p

      go :
          (d : Option D) (p : Option Manager)
          → Ends
              (docker_stops name d)
              p
              (executor_stop ops ans name (record { docker = d; process = p }))
      go none p = fallback none p
      go (some d) p = after (ops.stop_app name d).0 _ p

  pub remove-lem :
      (name : Text) (x : Executors D)
      → let r = executor_remove ops ans name x in
        (r.0 ≡ ok tt)
        × (r.1.process ≡ acted (removes name ans.failure) x.process)
        × (r.1.docker ≡ docker_removes name x.docker)
  unfolding executor_remove step
  remove-lem name x = (refl, process x.process, docker x.docker)
    where
      process :
          (p : Option Manager)
          → remove_from_process ops ans name p ≡ acted (removes name ans.failure) p
      process none = refl
      process (some k) = refl

      docker : (d : Option D) → remove_from_docker ops name d ≡ docker_removes name d
      docker none = refl
      docker (some d) = refl

  pub status-lem :
      (x : Executors D)
      → let r = executor_status ops ans x in
        (r.1.process ≡ acted (asks ans.proc_status) x.process) × (r.1.docker ≡ x.docker)
  unfolding executor_status step
  status-lem x = (process x.process, refl)
    where
      process :
          (p : Option Manager) → (process_statuses ops ans p).1 ≡ acted (asks ans.proc_status) p
      process none = refl
      process (some k) = refl

  pub deploy_process-lem :
      (app : AppSpec) (x : Executors D)
      → app.execution_mode ≡ ExecutionMode.process
      → let r = executor_deploy ops ans app x in
        (r.1.process ≡ acted (deploys (some app) ans.deployment) x.process)
        × (r.1.docker ≡ x.docker)
  unfolding executor_deploy is_process_mode step
  deploy_process-lem app x h = go x.process
    where
      go :
          (p : Option Manager)
          → let r = executor_deploy ops ans app (record { docker = x.docker; process = p }) in
            (r.1.process ≡ acted (deploys (some app) ans.deployment) p) × (r.1.docker ≡ x.docker)
      go none = rw (executor_deploy, h) (refl, refl)
      go (some k) = rw (executor_deploy, h) (refl, refl)

  pub deploy_container-lem :
      (app : AppSpec) (x : Executors D) (d : D)
      → app.execution_mode ≡ ExecutionMode.container
      → x.docker ≡ some d
      → let r = executor_deploy ops ans app x in
        (r.1.process ≡ x.process) × (r.1.docker ≡ some (ops.deploy_app app d).1)
  unfolding executor_deploy
  deploy_container-lem app x d h e = rw (executor_deploy, (container-modes app h).1, e) (refl, refl)
