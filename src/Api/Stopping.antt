-- ===== src/Api/Stopping.antt =====
-- What `handleProjectStop` leaves in the state.
use goship.Base.{Text, true, Option, none, some, get-put_self, Result, ok, err, ◌≡◌, refl}
use goship.Entities.Project.{ProjectState}
use goship.Entities.Instance.{ProjectInstance, InstanceState}
use goship.Store.Disk.{Store, Env}
use goship.Store.Records.{put_instance}
use goship.Runtime.{ProjectRuntime}
use goship.Api.Replies.{World, Vm, server_error, known_vm, call_runtime, load_vm, instance_now}
use goship.Api.Lifecycle.{mark_stopped, stopped_reply, handle_project_stop}
use goship.Api.Stored.{
  HasProject, HasInstance, update_instance-HasInstance, mark_project-HasProject,
  mark_project-HasInstance,
}

mark_stopped-HasInstance :
    (v : Vm) (e f : Env) (s : Store)
    → HasInstance
        (record (instance_now v.machine s) { state = InstanceState.stopped })
        (mark_stopped v e f s)
unfolding mark_stopped
mark_stopped-HasInstance v e f s =
    let i = record (instance_now v.machine s) { state = InstanceState.stopped } in
    mark_project-HasInstance ProjectState.stopped v.project f i _ (
      update_instance-HasInstance i e (put_instance (some i) s)
        (record { time = i.updated_at; there = get-put_self s.state.instances i.id i }))

pub put_instance-projects :
    (i : Option ProjectInstance) (s : Store) → (put_instance i s).state.projects ≡ s.state.projects
put_instance-projects none s = refl
put_instance-projects (some i) s = refl

module _ {R : Type 0} (v : Vm) (e f : Env) where
  -- The project and the instance stand in the state as stopped.
  abbrev pub IsMarked : World R → World R → Type 0
  IsMarked u t =
      HasProject (record v.project { state = ProjectState.stopped }) t.server.store
      × HasInstance
          (record (instance_now v.machine u.server.store) { state = InstanceState.stopped })
          t.server.store

  stopped_reply-ok :
      (r : Result Text (Unit {0}) × World R)
      → r.0 ≡ ok tt
      → ((stopped_reply v e f r).0 ≡ ok tt) × IsMarked r.1 (stopped_reply v e f r).1
  unfolding mark_stopped
  stopped_reply-ok (err x, w) h = cc
  stopped_reply-ok (ok u, w) h = (
    refl,
    (
      mark_project-HasProject ProjectState.stopped v.project f _,
      mark_stopped-HasInstance v e f w.server.store,
    ),
  )

  stopped_reply-err :
      (r : Result Text (Unit {0}) × World R) (x : Text)
      → r.0 ≡ err x
      → stopped_reply v e f r ≡ (err server_error, r.1)
  stopped_reply-err (err y, w) x h = refl
  stopped_reply-err (ok u, w) x h = cc

module _ {R : Type 0} (rt : ProjectRuntime R) where
  -- What the call that stops the VM replies, and the state after it.
  abbrev pub after_stop : Vm → World R → Result Text (Unit {0}) × World R
  after_stop v w =
      call_runtime rt v.machine.id (rt.stop_instance v.machine.id) (load_vm rt v.machine w)

  -- A known project with a VM. If the runtime stops the VM, the reply is ok, and the project and the
  -- instance, as the runtime has left it, stand in the state as stopped, whether the saves succeed
  -- or not. If the runtime fails, the reply is a server error and the projects are as they were.
  pub handle_project_stop_exact :
      (id : Text) (e f : Env) (w : World R) (v : Vm)
      → known_vm true id w.server.store ≡ ok v
      → let t = handle_project_stop rt true id e f w in
        ((after_stop v w).0 ≡ ok tt → (t.0 ≡ ok tt) × IsMarked v e f (after_stop v w).1 t.1)
        × ((x : Text)
            → (after_stop v w).0 ≡ err x
            → (t.0 ≡ err server_error)
              × (t.1.server.store.state.projects ≡ w.server.store.state.projects))
  unfolding handle_project_stop
  handle_project_stop_exact id e f w v known =
      rw (known, handle_project_stop)
        (
          stopped_reply-ok v e f (after_stop v w),
          λ x h. rw (stopped_reply-err v e f (after_stop v w) x h) (
            refl,
            put_instance-projects (rt.object v.machine.id (after_stop v w).1.runtime)
                w.server.store,
          ),
        )
