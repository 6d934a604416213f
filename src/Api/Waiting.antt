-- ===== src/Api/Waiting.antt =====
-- `handleProjectRestart`: it starts the VM once a status has said that it is stopped, and not before.
use goship.Base.{
  Text, ℕ, zero, suc, ◌<◌, Bool, true, false, Result, ok, err, ◌≡◌, ◌≢◌, refl, sym, ap, ◌∙◌, arith,
  ok_injective,
}
use goship.Entities.Project.{ProjectState}
use goship.Entities.Instance.{ProjectInstance, InstanceState}
use goship.Store.Disk.{Env}
use goship.Runtime.{ProjectRuntime}
use goship.Api.Projects.{is_stopped}
use goship.Api.Replies.{
  ApiError, gateway_timeout, ProjectResponse, World, Vm, known_vm, shared, call_runtime,
}
use goship.Api.Lifecycle.{
  says_stopped, wait_stopped, mark_started, started_reply, start_vm, waited_reply, restarting,
  handle_project_restart,
}
use goship.Api.Stored.{HasProject, mark_project-HasProject}
use goship.Api.Stopping.{put_instance-projects, after_stop}

is_stopped-state : (s : InstanceState) → is_stopped s ≡ true → s ≡ InstanceState.stopped
is_stopped-state InstanceState.stopped h = refl
is_stopped-state InstanceState.pending h = cc h
is_stopped-state InstanceState.starting h = cc h
is_stopped-state InstanceState.running h = cc h
is_stopped-state InstanceState.stopping h = cc h
is_stopped-state InstanceState.failed h = cc h
is_stopped-state (InstanceState.other t) h = cc h

says_stopped-ok :
    (r : Result Text ProjectInstance)
    → says_stopped r ≡ true
    → (i : ProjectInstance) × (r ≡ ok i) × (i.state ≡ InstanceState.stopped)
says_stopped-ok (err x) h = cc h
says_stopped-ok (ok i) h = (i, refl, is_stopped-state i.state h)

says_stopped-no :
    (r : Result Text ProjectInstance) (i : ProjectInstance)
    → says_stopped r ≡ false
    → r ≡ ok i
    → i.state ≢ InstanceState.stopped
says_stopped-no (err x) i h e s = cc
says_stopped-no (ok j) i h e s =
    let q : is_stopped i.state ≡ false =
      ap (λ (x : ProjectInstance). is_stopped x.state) (sym (ok_injective e)) ∙ h in
    cc (rw s at q)

module _ {R : Type 0} (rt : ProjectRuntime R) (id : Text) where
  -- The runtime after a count of status calls.
  unfoldable pub after_statuses : ℕ → R → R
  after_statuses zero r = r
  after_statuses (suc n) r = after_statuses n (rt.get_instance_status id r).1

  -- None of so many status calls, from this state on, says that the VM is stopped.
  abbrev pub NeverStopped : ℕ → R → Type 0
  NeverStopped n r =
      (k : ℕ) (i : ProjectInstance)
      → k < n
      → (rt.get_instance_status id (after_statuses k r)).0 ≡ ok i
      → i.state ≢ InstanceState.stopped

  -- A status call that has led to this state said that the VM is stopped.
  pub record WasStopped (after : R) : Type 0 where
    pub before : R
    pub machine : ProjectInstance
    pub says : rt.get_instance_status id before ≡ (ok machine, after)
    pub stopped : machine.state ≡ InstanceState.stopped

  NeverStopped-suc :
      (n : ℕ) (r : R)
      → says_stopped (rt.get_instance_status id r).0 ≡ false
      → NeverStopped n (rt.get_instance_status id r).1
      → NeverStopped (suc n) r
  unfolding after_statuses
  NeverStopped-suc n r silent f zero i l q =
      says_stopped-no (rt.get_instance_status id r).0 i silent q
  NeverStopped-suc n r silent f (suc k) i l q = f k i (omega (arith, l)) q

  -- How the wait ends.
  record WaitEnds (n : ℕ) (w : World R) (x : Bool × World R) : Type 0 where
    on_stop : x.0 ≡ true → WasStopped x.1.runtime
    on_time : x.0 ≡ false → NeverStopped n w.runtime × (x.1.runtime ≡ after_statuses n w.runtime)
    keeps : x.1.server.store.state.projects ≡ w.server.store.state.projects

  wait_stopped-WaitEnds : (n : ℕ) (w : World R) → WaitEnds n w (wait_stopped rt n id w)
  unfolding wait_stopped after_statuses
  wait_stopped-WaitEnds zero w = record {
    on_stop = λ h. cc h;
    on_time = λ h. ((λ k i l. absurd (omega arith)), refl);
    keeps = refl;
  }
  wait_stopped-WaitEnds (suc n) w =
      go (says_stopped reply) refl
        (wait_stopped-WaitEnds n (call_runtime rt id (rt.get_instance_status id) w).1)
    where
      reply : Result Text ProjectInstance
      reply = (rt.get_instance_status id w.runtime).0

      next : World R
      next = (call_runtime rt id (rt.get_instance_status id) w).1

      go :
          (b : Bool)
          → says_stopped reply ≡ b
          → WaitEnds n next (wait_stopped rt n id next)
          → WaitEnds (suc n) w (wait_stopped rt (suc n) id w)
      go true eb later =
          let (i, e, s) = says_stopped-ok reply eb in
          rw (wait_stopped, eb)
            (record {
              on_stop = λ h. record {
                before = w.runtime;
                machine = i;
                says = ap (λ x. (x, next.runtime)) e;
                stopped = s;
              };
              on_time = λ h. cc h;
              keeps = put_instance-projects (rt.object id next.runtime) w.server.store;
            })
      go false eb later =
          rw (wait_stopped, eb)
            (record {
              on_stop = later.on_stop;
              on_time = λ h. let (f, e) = later.on_time h in (NeverStopped-suc n w.runtime eb f, e);
              keeps =
                  later.keeps ∙ put_instance-projects (rt.object id next.runtime) w.server.store;
            })

module _ {R : Type 0} (rt : ProjectRuntime R) (v : Vm) (ticks : ℕ) (f : Env) (w : World R) where
  -- How a restart ends. With ok: the runtime stopped the VM, a status said that it was stopped, and
  -- the next call of the runtime, which was its last, started it; the project stands in the state as
  -- running. With a timeout: the runtime stopped the VM, no status before the deadline said so, and
  -- the VM was not started, since these statuses were the last calls. With any error the projects are
  -- as they were.
  pub record RestartEnds (t : Result ApiError ProjectResponse × World R) : Type 0 where
    pub on_success :
        (x : ProjectResponse)
        → t.0 ≡ ok x
        → ((after_stop rt v w).0 ≡ ok tt)
          × (r : R) × WasStopped rt v.machine.id r
          × (rt.start_instance v.machine.id r ≡ (ok tt, t.1.runtime))
          × HasProject (record v.project { state = ProjectState.running }) t.1.server.store
    pub on_timeout :
        t.0 ≡ err gateway_timeout
        → ((after_stop rt v w).0 ≡ ok tt)
          × NeverStopped rt v.machine.id ticks (after_stop rt v w).1.runtime
          × (t.1.runtime ≡ after_statuses rt v.machine.id ticks (after_stop rt v w).1.runtime)
    pub on_error :
        (x : ApiError)
        → t.0 ≡ err x
        → t.1.server.store.state.projects ≡ w.server.store.state.projects

  started-RestartEnds :
      (e : Env) (u : World R)
      → (after_stop rt v w).0 ≡ ok tt
      → WasStopped rt v.machine.id u.runtime
      → u.server.store.state.projects ≡ w.server.store.state.projects
      → RestartEnds (start_vm rt v e f u)
  unfolding start_vm mark_started
  started-RestartEnds e u s seen same = go (rt.start_instance v.machine.id u.runtime) refl
    where
      go :
          (r : Result Text (Unit {0}) × R)
          → rt.start_instance v.machine.id u.runtime ≡ r
          → RestartEnds
              (started_reply v e f (r.0, shared rt v.machine.id (record u { runtime = r.1 })))
      go (err x, r) g = record {
        on_success = λ y h. cc h;
        on_timeout = λ h. cc h;
        on_error = λ y h. put_instance-projects (rt.object v.machine.id r) u.server.store ∙ same;
      }
      go (ok n, r) g = record {
        on_success = λ y h.
            (s, u.runtime, seen, g, mark_project-HasProject ProjectState.running v.project f _);
        on_timeout = λ h. cc h;
        on_error = λ y h. cc h;
      }

  stopped_projects :
      (after_stop rt v w).1.server.store.state.projects ≡ w.server.store.state.projects
  stopped_projects =
      put_instance-projects (rt.object v.machine.id (after_stop rt v w).1.runtime) w.server.store

  waited-RestartEnds :
      (e : Env)
      → (after_stop rt v w).0 ≡ ok tt
      → (x : Bool × World R) → WaitEnds rt v.machine.id ticks (after_stop rt v w).1 x
      → RestartEnds (waited_reply rt v e f x)
  waited-RestartEnds e s (true, t) wait =
      started-RestartEnds e t s (wait.on_stop refl) (wait.keeps ∙ stopped_projects)
  waited-RestartEnds e s (false, t) wait = record {
    on_success = λ y h. cc h;
    on_timeout = λ h. (s, (wait.on_time refl).0, (wait.on_time refl).1);
    on_error = λ y h. wait.keeps ∙ stopped_projects;
  }

  stopped-RestartEnds :
      (e : Env) (r : Result Text (Unit {0}))
      → (after_stop rt v w).0 ≡ r
      → RestartEnds (restarting rt ticks v e f (r, (after_stop rt v w).1))
  stopped-RestartEnds e (err x) h = record {
    on_success = λ y g. cc g;
    on_timeout = λ g. cc g;
    on_error = λ y g. stopped_projects;
  }
  stopped-RestartEnds e (ok u) h =
      waited-RestartEnds e h (wait_stopped rt ticks v.machine.id (after_stop rt v w).1)
        (wait_stopped-WaitEnds rt v.machine.id ticks (after_stop rt v w).1)

-- A restart of a known project with a VM. If it is answered with ok, the runtime stopped the VM, a
-- status then said that it was stopped, and the next call of the runtime, its last, started it; the
-- project stands in the state as running, whether the saves succeed or not. If it is answered with a
-- timeout, the runtime stopped the VM, none of the statuses before the deadline said that it was
-- stopped, and nothing was called after them, so that the VM was not started. With any error the
-- projects are as they were.
pub handle_project_restart_exact :
    {R : Type 0} (rt : ProjectRuntime R) (id : Text) (ticks : ℕ) (e f : Env) (w : World R) (v : Vm)
    → known_vm true id w.server.store ≡ ok v
    → RestartEnds rt v ticks f w (handle_project_restart rt true id ticks e f w)
unfolding handle_project_restart
handle_project_restart_exact rt id ticks e f w v known =
    rw (known, handle_project_restart)
      (stopped-RestartEnds rt v ticks f w e (after_stop rt v w).0 refl)
