-- ===== src/Api/Lifecycle.antt =====
-- internal/api/project_handlers.go: stopping, starting and restarting a VM, and its logs.
use goship.Base.{
  Text, ℕ, zero, suc, Bool, true, false, [], some, text_eq, Result, ok, err, if◌then◌else◌,
}
use goship.Entities.Project.{Project, ProjectState}
use goship.Entities.Instance.{ProjectInstance, InstanceState}
use goship.Store.Disk.{Store, Env}
use goship.Store.Projects.{update_project}
use goship.Store.Records.{update_instance, put_instance}
use goship.Api.Projects.{assign_project, is_stopped}
use goship.Runtime.{ProjectRuntime}
use goship.Api.Replies.{
  ApiError, server_error, gateway_timeout, ProjectResponse, World, with_store, then_do, Vm,
  known_vm, call_runtime, load_vm, instance_now, project_now,
}

-- `instance.State = state` and `UpdateInstance`, whose error is only logged.
abbrev pub save_instance : ProjectInstance → Env → Store → Store
save_instance i e s = (update_instance (some i) e s).1

-- `project.State = state` and `UpdateProject`, whose error is only logged.
unfoldable pub mark_project : ProjectState → Project → Env → Store → Store
unfolding update_project assign_project
mark_project state p e s =
    let q = record p { state = state } in (update_project (some q) e (assign_project q s)).1

unfoldable pub mark_stopped : Vm → Env → Env → Store → Store
unfolding update_instance mark_project
mark_stopped v e f s =
    let i = record (instance_now v.machine s) { state = InstanceState.stopped } in
    mark_project ProjectState.stopped v.project f (save_instance i e (put_instance (some i) s))

unfoldable pub mark_started : Vm → Env → Env → Store → Store
unfolding update_instance mark_project
mark_started v e f s =
    mark_project ProjectState.running v.project f (save_instance (instance_now v.machine s) e s)

abbrev pub response_of : Vm → Store → ProjectResponse
response_of v s = record {
  project = project_now v.project s;
  vm = some (instance_now v.machine s);
  apps = [];
}

abbrev pub says_stopped : Result Text ProjectInstance → Bool
says_stopped (err x) = false
says_stopped (ok i) = is_stopped i.state

module _ {R : Type 0} where
  abbrev pub stopped_reply :
      Vm → Env → Env → Result Text (Unit {0}) × World R → Result ApiError (Unit {0}) × World R
  stopped_reply v e f (err x, w) = (err server_error, w)
  stopped_reply v e f (ok u, w) = (ok tt, with_store w (mark_stopped v e f w.server.store))

  abbrev pub started_reply :
      Vm → Env → Env → Result Text (Unit {0}) × World R → Result ApiError ProjectResponse × World R
  started_reply v e f (err x, w) = (err server_error, w)
  started_reply v e f (ok u, w) =
      let s = mark_started v e f w.server.store in (ok (response_of v s), with_store w s)

module _ {R : Type 0} (rt : ProjectRuntime R) where
  -- `handleProjectStop`; `e` and `f` are what its two saves meet.
  unfoldable pub handle_project_stop :
      Bool → Text → Env → Env → World R → Result ApiError (Unit {0}) × World R
  unfolding known_vm mark_stopped
  handle_project_stop runtime id e f w =
      then_do (known_vm runtime id w.server.store)
        (λ v u.
          stopped_reply v e f
            (call_runtime rt v.machine.id (rt.stop_instance v.machine.id) (load_vm rt v.machine u)))
        w

  unfoldable pub start_vm : Vm → Env → Env → World R → Result ApiError ProjectResponse × World R
  unfolding mark_started
  start_vm v e f w =
      started_reply v e f (call_runtime rt v.machine.id (rt.start_instance v.machine.id) w)

  -- `handleProjectStart`
  unfoldable pub handle_project_start :
      Bool → Text → Env → Env → World R → Result ApiError ProjectResponse × World R
  unfolding known_vm start_vm
  handle_project_start runtime id e f w =
      then_do (known_vm runtime id w.server.store) (λ v u. start_vm v e f (load_vm rt v.machine u))
        w

  -- The loop that waits for the VM to stop, for the ticks before the deadline of the request: whether
  -- it saw the VM stopped.
  unfoldable pub wait_stopped : ℕ → Text → World R → Bool × World R
  wait_stopped zero id w = (false, w)
  wait_stopped (suc n) id w =
      let r = call_runtime rt id (rt.get_instance_status id) w in
      let rest = wait_stopped n id r.1 in if says_stopped r.0 then (true, r.1) else rest

  abbrev pub waited_reply :
      Vm → Env → Env → Bool × World R → Result ApiError ProjectResponse × World R
  waited_reply v e f (false, w) = (err gateway_timeout, w)
  waited_reply v e f (true, w) = start_vm v e f w

  abbrev pub restarting :
      ℕ
      → Vm
      → Env
      → Env
      → Result Text (Unit {0}) × World R
      → Result ApiError ProjectResponse × World R
  restarting ticks v e f (err x, w) = (err server_error, w)
  restarting ticks v e f (ok u, w) = waited_reply v e f (wait_stopped ticks v.machine.id w)

  -- `handleProjectRestart`; the deadline of three minutes allows the ticker a count of ticks.
  unfoldable pub handle_project_restart :
      Bool → Text → ℕ → Env → Env → World R → Result ApiError ProjectResponse × World R
  unfolding known_vm wait_stopped start_vm
  handle_project_restart runtime id ticks e f w =
      then_do (known_vm runtime id w.server.store)
        (λ v u.
          restarting ticks v e f
            (call_runtime rt v.machine.id (rt.stop_instance v.machine.id) (load_vm rt v.machine u)))
        w
