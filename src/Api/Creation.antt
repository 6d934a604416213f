-- ===== src/Api/Creation.antt =====
-- internal/api/project_handlers.go: creating, deleting, showing and listing projects.
use goship.Base.{
  Text, lit, ℕ, Bool, List, [], ◌∷◌, Option, none, some, ◌==◌, text_eq, Result, ok, err, ◌>>=◌,
  ◌>>◌, require, if◌then◌else◌,
}
use mathlib.Core.Option
use goship.Entities.Name.{NameError, validate_project_name}
use goship.Entities.Resources.{Resources}
use goship.Entities.Project.{Project, RuntimeType, ProjectState}
use goship.Entities.Instance.{ProjectInstance, check_binding}
use goship.Entities.App.{AppSpec}
use goship.Store.Disk.{Store, StoreError, project_exists, Env}
use goship.Store.Projects.{create_project, delete_project, update_project, list_projects}
use goship.Store.Records
use goship.Store.Records.{get_instance, get_apps, set_instance, delete_instance}
use goship.Api.Projects.{assign_project}
use goship.Api.Routes.{RouteTable, remove_app_routes}
use goship.Runtime.{ProjectRuntime}
use goship.Api.Lifecycle.{mark_project}
use goship.Api.Replies.{
  ApiError, bad_request, conflict, server_error, no_runtime, ProjectResponse, World, with_store,
  then_do, known_project, call_runtime, load_vm, project_now, or_server_error,
}

pub record CreateProjectRequest : Type 0 where
  pub name : Text
  pub resources : Resources
  pub domains : List Text
  pub default_domain : Text

-- What the saves of one request meet, in their order.
abbrev pub Saves : Type 0
Saves = ℕ → Env

abbrev pub readable {ℓ} : {A : Type ℓ} → Option A → Result ApiError A
readable none = err bad_request
readable (some a) = ok a

abbrev pub valid_name : Result NameError (Unit {0}) → Result ApiError (Unit {0})
valid_name (err x) = err bad_request
valid_name (ok u) = ok tt

abbrev pub checked_request :
    Bool → Option CreateProjectRequest → Result ApiError CreateProjectRequest
checked_request runtime req = do
  require runtime no_runtime
  r ← readable req
  valid_name (validate_project_name r.name)
  ok r

-- An error of `CreateProject` that says that the project is there already is a conflict.
abbrev pub creation_error : StoreError → ApiError
creation_error project_exists = conflict
creation_error _ = server_error

abbrev pub default_of : Text → Text → Text
default_of given first = if given == lit "" then first else given

-- The domains of the request, if there are some, and `UpdateProject`, whose error is only logged.
unfoldable pub give_domains : CreateProjectRequest → Project → Env → Store → Store
unfolding assign_project update_project
give_domains req p e s = elim req.domains [
  | [] ↦ s
  | d ∷ ds ↦
      let q = record p { domains = d ∷ ds; default_domain = default_of req.default_domain d } in
      (update_project (some q) e (assign_project q s)).1
]

-- After the VM was made: the project runs and the instance is kept, errors only logged.
unfoldable pub keep_vm : Project → ProjectInstance → Env → Env → Store → Store
unfolding mark_project set_instance
keep_vm p i e f s = (set_instance (some i) f (mark_project ProjectState.running p e s)).1

-- The binding of the instance that is there, if one is.
abbrev pub bound_reply : Project → Option ProjectInstance → Result ApiError (Unit {0})
bound_reply p none = ok tt
bound_reply p (some i) = elim (check_binding p i) [ err x ↦ err conflict | ok u ↦ ok tt ]

unfoldable pub remove_all_routes : Project → List AppSpec → RouteTable → RouteTable
unfolding remove_app_routes
remove_all_routes p [] t = t
remove_all_routes p (a ∷ as') t = remove_all_routes p as' (remove_app_routes p a t)

module _ {R : Type 0} where
  abbrev pub made_vm :
      Project
      → Saves
      → Result Text ProjectInstance × R
      → World R
      → Result ApiError ProjectResponse × World R
  made_vm p e (err x, r) w = (
    err server_error,
    with_store (record w { runtime = r }) (delete_project p.id (e 2) w.server.store).1,
  )
  made_vm p e (ok i, r) w =
      let s = keep_vm p i (e 2) (e 3) w.server.store in
      (
        ok (record { project = project_now p s; vm = some i; apps = [] }),
        with_store (record w { runtime = r }) s,
      )

  abbrev pub deleted :
      Result StoreError (Unit {0}) × Store → World R → Result ApiError (Unit {0}) × World R
  deleted r w = (or_server_error r.0, with_store w r.1)

  abbrev pub with_routes : World R → (RouteTable → RouteTable) → World R
  with_routes w f = record w { server = record w.server { routes = Option.map f w.server.routes } }

module _ {R : Type 0} (rt : ProjectRuntime R) where
  abbrev pub make_vm : Project → Saves → World R → Result ApiError ProjectResponse × World R
  make_vm p e w = made_vm p e (rt.create_instance p w.runtime) w

  abbrev pub created_project :
      CreateProjectRequest
      → Saves
      → Result StoreError Project × Store
      → World R
      → Result ApiError ProjectResponse × World R
  created_project req e (err x, s) w = (err (creation_error x), with_store w s)
  created_project req e (ok p, s) w =
      let t = give_domains req p (e 1) s in make_vm (project_now p t) e (with_store w t)

  -- `handleProjectCreate`; `id` is the new UUID.
  unfoldable pub handle_project_create :
      Bool
      → Option CreateProjectRequest
      → Text
      → Saves
      → World R
      → Result ApiError ProjectResponse × World R
  unfolding give_domains create_project delete_project keep_vm
  handle_project_create runtime req id e w =
      then_do (checked_request runtime req)
        (λ r u.
          created_project r e
            (create_project r.name RuntimeType.qemu r.resources id (e 0) u.server.store) u)
        w

  -- The instance is destroyed and taken out of the state, errors only logged.
  unfoldable pub destroy_vm : Option ProjectInstance → Env → World R → World R
  unfolding delete_instance
  destroy_vm none e w = w
  destroy_vm (some i) e w =
      let u = (call_runtime rt i.id (rt.destroy_instance i.id) (load_vm rt i w)).1 in
      with_store u (delete_instance i.id e u.server.store).1

  abbrev pub delete_known :
      Project → Option ProjectInstance → Saves → World R → Result ApiError (Unit {0}) × World R
  delete_known p i e w =
      let u =
        destroy_vm i (e 0) (with_routes w (remove_all_routes p (get_apps p.id w.server.store))) in
      deleted (delete_project p.id (e 1) u.server.store) u

  -- `handleProjectDelete`. The storage of the registry, which it cleans up, is no part of the state.
  unfoldable pub handle_project_delete :
      Bool → Text → Saves → World R → Result ApiError (Unit {0}) × World R
  unfolding known_project get_instance get_apps remove_all_routes destroy_vm delete_project
      check_binding
  handle_project_delete runtime id e w =
      then_do (do require runtime no_runtime; known_project id w.server.store)
        (λ p u.
          let i = Records.get_instance p.id u.server.store in
          then_do (bound_reply p i) (λ _ v. delete_known p i e v) u)
        w

-- `handleProjectGet`
unfoldable pub handle_project_get : Text → Store → Result ApiError ProjectResponse
unfolding known_project get_instance get_apps
handle_project_get id s = do
  p ← known_project id s
  ok (record { project = p; vm = Records.get_instance p.id s; apps = get_apps p.id s })

-- `handleProjectList`
unfoldable pub handle_project_list : Store → List Project
unfolding list_projects
handle_project_list s = list_projects s
