-- ===== src/Api/Serving.antt =====
-- The routes of an app that was deployed or stopped by the handlers.
use goship.Base.{Text, lit, Bool, Option, some, ok, if◌then◌else◌, ◌≡◌, ◌==◌, text_eq}
use mathlib.Core.Option
use goship.Entities.Project.{Project}
use goship.Entities.App.{AppSpec, PortMapping, get_hostname}
use goship.Entities.LocalState
use goship.Store.Disk.{Store}
use goship.Store.Records
use goship.Store.Records.{get_instance}
use goship.Runtime.{ProjectRuntime}
use goship.Api.Routes.{RouteTable, lookup, backend_of}
use goship.Api.Reconciling.{is_route}
use goship.Api.Logs.{KnownApp, known_app}
use goship.Api.Replies.{World, Vm, instance_now}
use goship.Api.Deploying.{deploy_to}

-- The domains of the app lead to its backend at the address that the VM has in the second state,
-- and every other domain leads where it did in the first.
abbrev pub Serves : {R : Type 0} → Vm → AppSpec → PortMapping → World R → World R → Type 0
Serves v a port w u =
    (r : RouteTable)
    → w.server.routes ≡ some r
    → (k : Text)
    → Option.map (lookup k) u.server.routes
      ≡ some (
          if is_route k (get_hostname a) v.project.domains
          then some (backend_of (instance_now v.machine u.server.store).ip_address port)
          else lookup k r)

-- The app with the image that the request gives, if it gives one that is not empty.
abbrev pub with_image : Option (Option Text) → AppSpec → AppSpec
with_image (some (some image)) a = if image == lit "" then a else record a { image = image }
with_image _ a = a

module _ {R : Type 0} (rt : ProjectRuntime R) where
  -- The VM of the project is deployed to.
  record IsDeployed (p : Project) (a b : AppSpec) (w u : World R) : Type 0 where
    v : Vm
    of_project : v.project ≡ p
    vm : Records.get_instance p.id w.server.store ≡ some v.machine
    deploys : deploy_to rt b v w ≡ (ok b, u)
    same : b ≡ a

  -- What the override leaves: the app with the image, and all but the apps of the state.
  record IsOverridden (image : Option (Option Text)) (a b : AppSpec) (w u : World R) : Type 0 where
    asked : b ≡ with_image image a
    routes : u.server.routes ≡ w.server.routes
    runtime : u.runtime ≡ w.runtime
    instances : u.server.store.state.instances ≡ w.server.store.state.instances

  -- The VM that the store has for the known project was given the app by a deployment of the runtime
  -- that worked, and serves it.
  pub record IsServed (runtime : Bool) (id name : Text) (image : Option (Option Text)) (b : AppSpec)
      (port : PortMapping) (w u : World R) : Type 0 where
    pub k : KnownApp
    pub v : Vm
    pub known : known_app runtime id name w.server.store ≡ ok k
    pub asked : b ≡ with_image image k.app
    pub of_project : v.project ≡ k.project
    pub vm : Records.get_instance k.project.id w.server.store ≡ some v.machine
    pub calls :
        rt.deploy_app v.machine.id b (rt.load_instance v.machine w.runtime) ≡ (ok tt, u.runtime)
    pub serves : Serves v b port w u
