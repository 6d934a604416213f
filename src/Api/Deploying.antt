-- ===== src/Api/Deploying.antt =====
-- internal/api/app_handlers.go: creating, deploying, stopping, deleting, showing and listing apps.
use goship.Base.{
  Text, lit, ℕ, Bool, true, false, not, ◌&&◌, List, [], ◌∷◌, Option, none, some, is_some, Dict,
  ◌==◌, text_eq, int_eq, Result, ok, err, ◌>>=◌, ◌>>◌, require, ℤ, pos, if◌then◌else◌,
}
use goship.Entities.Name.{validate_app_name}
use goship.Entities.Resources.{Resources}
use goship.Entities.Project.{Project}
use goship.Entities.Instance.{ProjectInstance}
use goship.Entities.App.{AppSpec, PortMapping, ExecutionMode, RestartPolicy, is_container_mode}
use goship.Store.Disk.{Store, StoreError, Env}
use goship.Store.Records
use goship.Store.Records.{get_app, get_apps, set_app, delete_app, get_instance}
use goship.Api.Apps.{assign}
use goship.Api.Routes.{register_app_routes, remove_app_routes}
use goship.Api.Creation.{readable, valid_name, with_routes}
use goship.Api.Logs.{known_app}
use goship.Runtime.{ProjectRuntime}
use goship.Api.Replies.{
  ApiError, bad_request, conflict, server_error, World, with_store, then_do, Vm, known_project,
  some_or_not_found, vm_of, call_runtime, load_vm, or_server_error, instance_now,
}

pub record CreateAppRequest : Type 0 where
  pub name : Text
  pub execution_mode : ExecutionMode
  pub image : Text
  pub binary : Text
  pub ports : List PortMapping
  pub env : Dict Text
  pub resources : Resources
  pub restart_policy : RestartPolicy
  pub replicas : ℤ
  pub hostname : Text
  pub available : Option Bool

-- The defaults of what was not given.
abbrev pub mode_of : ExecutionMode → ExecutionMode
mode_of ExecutionMode.unset = ExecutionMode.container
mode_of m = m

abbrev pub policy_or_never : RestartPolicy → RestartPolicy
policy_or_never RestartPolicy.unset = RestartPolicy.never
policy_or_never p = p

abbrev pub replicas_of : ℤ → ℤ
replicas_of n = if n == pos 0 then pos 1 else n

abbrev pub is_empty {ℓ} : {A : Type ℓ} → List A → Bool
is_empty [] = true
is_empty (x ∷ xs) = false

-- What the mode needs: a binary or ports; another mode is refused.
abbrev pub mode_accepts : ExecutionMode → CreateAppRequest → Bool
mode_accepts ExecutionMode.container req = not (is_empty req.ports)
mode_accepts ExecutionMode.process req = not (req.binary == lit "")
mode_accepts _ req = false

abbrev pub new_app : CreateAppRequest → ℕ → AppSpec
new_app req now = record {
  name = req.name;
  execution_mode = mode_of req.execution_mode;
  image = req.image;
  tag = [];
  binary = req.binary;
  replicas = replicas_of req.replicas;
  command = [];
  args = [];
  env = req.env;
  ports = req.ports;
  volumes = [];
  resources = req.resources;
  health_check = none;
  restart_policy = policy_or_never req.restart_policy;
  working_dir = [];
  hostname = req.hostname;
  available = req.available;
  description = [];
  tags = [];
  created_at = now;
}

-- The project and the request, once they have passed the checks.
pub record NewApp : Type 0 where
  pub project : Project
  pub app : AppSpec

unfoldable pub checked_app : Text → Option CreateAppRequest → ℕ → Store → Result ApiError NewApp
unfolding known_project get_app
checked_app id req now s = do
  p ← known_project id s
  r ← readable req
  valid_name (validate_app_name r.name)
  require (mode_accepts (mode_of r.execution_mode) r) bad_request
  require (not (is_some (Records.get_app p.id r.name s))) conflict
  ok (record { project = p; app = new_app r now })

abbrev pub app_saved :
    AppSpec → Result StoreError (Unit {0}) × Store → Result ApiError AppSpec × Store
app_saved a (err x, s) = (err server_error, s)
app_saved a (ok u, s) = (ok a, s)

abbrev pub save_new : Result ApiError NewApp → Env → Store → Result ApiError AppSpec × Store
save_new (err x) e s = (err x, s)
save_new (ok n) e s = app_saved n.app (Records.set_app n.project.id (some n.app) e s)

-- `handleAppCreate`
unfoldable pub handle_app_create :
    Text → Option CreateAppRequest → Env → Store → Result ApiError AppSpec × Store
unfolding checked_app set_app
handle_app_create id req e s = save_new (checked_app id req e.now s) e s

-- `handleAppGet`
unfoldable pub handle_app_get : Text → Text → Store → Result ApiError AppSpec
unfolding known_project get_app
handle_app_get id name s = do
  p ← known_project id s
  some_or_not_found (Records.get_app p.id name s)

-- `handleAppList`
unfoldable pub handle_app_list : Text → Store → Result ApiError (List AppSpec)
unfolding known_project get_apps
handle_app_list id s = do p ← known_project id s; ok (get_apps p.id s)

module _ {R : Type 0} where
  abbrev pub image_set :
      AppSpec → Result StoreError (Unit {0}) × Store → World R → Result ApiError AppSpec × World R
  image_set a r w = elim r.0 [
    | err x ↦ (err server_error, with_store w r.1)
    | ok u ↦ (ok a, with_store w r.1)
  ]

  -- The image that the request gives instead, assigned to the object of the store, and saved. There
  -- may be no body, and it may be no JSON.
  unfoldable pub override_image :
      Text
      → Text
      → AppSpec
      → Option (Option Text)
      → Env
      → World R
      → Result ApiError AppSpec × World R
  unfolding assign set_app
  override_image pid name a none e w = (ok a, w)
  override_image pid name a (some none) e w = (err bad_request, w)
  override_image pid name a (some (some image)) e w =
      let b = record a { image = image } in
      let u = record w { server = assign pid name b w.server } in
      if image == lit ""
      then (ok a, w)
      else image_set b (Records.set_app pid (some b) e u.server.store) u

  abbrev pub register_in : Project → AppSpec → Text → World R → World R
  register_in p a ip w = with_routes w (register_app_routes p a ip)

  abbrev pub deploy_reply :
      Project
      → AppSpec
      → ProjectInstance
      → Result Text (Unit {0}) × World R
      → Result ApiError AppSpec × World R
  deploy_reply p a i (err x, w) = (err server_error, w)
  deploy_reply p a i (ok u, w) =
      (ok a, register_in p a (instance_now i w.server.store).ip_address w)

  abbrev pub unrouted :
      Project → AppSpec → Result Text (Unit {0}) × World R → Result ApiError (Unit {0}) × World R
  unrouted p a (err x, w) = (err server_error, w)
  unrouted p a (ok u, w) = (ok tt, with_routes w (remove_app_routes p a))

  abbrev pub app_deleted :
      Result StoreError (Unit {0}) × Store → World R → Result ApiError (Unit {0}) × World R
  app_deleted r w = (or_server_error r.0, with_store w r.1)

module _ {R : Type 0} (rt : ProjectRuntime R) where
  abbrev pub deploy_to : AppSpec → Vm → World R → Result ApiError AppSpec × World R
  deploy_to a v w =
      deploy_reply v.project a v.machine
        (call_runtime rt v.machine.id (rt.deploy_app v.machine.id a) (load_vm rt v.machine w))

  abbrev pub deploy_known : Project → AppSpec → World R → Result ApiError AppSpec × World R
  deploy_known p a w =
      if is_container_mode a && a.image == lit ""
      then (err bad_request, w)
      else then_do (vm_of w.server.store p) (deploy_to a) w

  abbrev pub deploy_after :
      Project → Result ApiError AppSpec × World R → Result ApiError AppSpec × World R
  deploy_after p (err x, w) = (err x, w)
  deploy_after p (ok a, w) = deploy_known p a w

  -- `handleAppDeploy`
  unfoldable pub handle_app_deploy :
      Bool → Text → Text → Option (Option Text) → Env → World R → Result ApiError AppSpec × World R
  unfolding known_app override_image get_instance register_app_routes is_container_mode
  handle_app_deploy runtime id name image e w =
      then_do (known_app runtime id name w.server.store)
        (λ k u. deploy_after k.project (override_image k.project.id name k.app image e u)) w

  -- `handleAppStop`
  unfoldable pub handle_app_stop :
      Bool → Text → Text → World R → Result ApiError (Unit {0}) × World R
  unfolding known_app get_instance remove_app_routes
  handle_app_stop runtime id name w =
      then_do (known_app runtime id name w.server.store)
        (λ k u.
          then_do (vm_of u.server.store k.project)
            (λ v t. unrouted k.project k.app (
              call_runtime rt v.machine.id (rt.stop_app v.machine.id name)
                (load_vm rt v.machine t)))
            u)
        w

  -- The app is taken out of the VM if there is one, an error only logged.
  abbrev pub remove_from_vm : Text → Option ProjectInstance → World R → World R
  remove_from_vm name none w = w
  remove_from_vm name (some i) w =
      (call_runtime rt i.id (rt.remove_app i.id name) (load_vm rt i w)).1

  -- `handleAppDelete`
  unfoldable pub handle_app_delete :
      Bool → Text → Text → Env → World R → Result ApiError (Unit {0}) × World R
  unfolding known_app get_instance remove_app_routes delete_app
  handle_app_delete runtime id name e w =
      then_do (known_app runtime id name w.server.store)
        (λ k u.
          let t =
            remove_from_vm name (Records.get_instance k.project.id u.server.store)
              (with_routes u (remove_app_routes k.project k.app)) in
          app_deleted (delete_app k.project.id name e t.server.store) t)
        w
