-- ===== src/Api/Removing.antt =====
-- What `handleProjectDelete` takes out of the state and of the routes.
use goship.Base.{
  Text, lit, Bool, true, false, ◌||◌, List, [], ◌∷◌, Option, none, some, get, Result, ok, err,
  if◌then◌else◌, ap, sym, subst, ok_injective, ◌≡◌, ◌≢◌, refl, ◌∙◌, arith,
}
use mathlib.Core.Option
use goship.Entities.Project.{Project}
use goship.Entities.Instance.{ProjectInstance}
use goship.Entities.App.{AppSpec, get_hostname}
use goship.Entities.LocalState.{get_project_apps}
use goship.Store.Disk.{Store, StoreError, Env, save, saved}
use goship.Store.Projects.{get_project, delete_project}
use goship.Store.Records
use goship.Store.Records.{get_instance, get_apps, put_instance, delete_instance, with_instances}
use goship.Store.Names.{IsConsistent, get_project_exact, get_project_sound, delete_project_exact}
use goship.Runtime.{ProjectRuntime}
use goship.Api.Routes.{RouteTable, lookup, remove_app_routes}
use goship.Api.Reconciling.{is_route, lookup-delete_routes}
use goship.Api.Replies.{World, known_project, or_not_found, call_runtime, load_vm}
use goship.Api.Creation.{
  with_routes, Saves, remove_all_routes, destroy_vm, bound_reply, handle_project_delete,
}

-- A domain that one of the apps has under the project's domains.
unfoldable pub has_route : Text → List Text → List AppSpec → Bool
has_route k ds [] = false
has_route k ds (a ∷ as') = is_route k (get_hostname a) ds || has_route k ds as'

lookup-remove_all_routes :
    (p : Project) (apps : List AppSpec) (t : RouteTable) (k : Text)
    → lookup k (remove_all_routes p apps t)
      ≡ (if has_route k p.domains apps then none else lookup k t)
unfolding remove_all_routes has_route remove_app_routes
lookup-remove_all_routes p [] t k = refl
lookup-remove_all_routes p (a ∷ as') t k = ground (
  arith,
  lookup-remove_all_routes p as' (remove_app_routes p a t) k,
  lookup-delete_routes (get_hostname a) p.domains t k,
)

-- Projects and apps are the same.
abbrev Keeps : Store → Store → Type 0
Keeps s t = (t.state.projects ≡ s.state.projects) × (t.state.apps ≡ s.state.apps)

put_instance-Keeps : (i : Option ProjectInstance) (s : Store) → Keeps s (put_instance i s)
put_instance-Keeps none s = (refl, refl)
put_instance-Keeps (some i) s = (refl, refl)

saved-Keeps : (e : Env) (s : Store) → Keeps s (saved (save e s)).1
unfolding save
saved-Keeps e s = (ground arith, ground arith)

delete_instance-Keeps : (id : Text) (e : Env) (s : Store) → Keeps s (delete_instance id e s).1
unfolding delete_instance
delete_instance-Keeps id e s = saved-Keeps e (with_instances s _)

module _ {R : Type 0} (rt : ProjectRuntime R) where
  abbrev destroyed : ProjectInstance → World R → Store
  destroyed i w = (call_runtime rt i.id (rt.destroy_instance i.id) (load_vm rt i w)).1.server.store

  destroy_vm-Keeps :
      (i : Option ProjectInstance) (e : Env) (w : World R)
      → Keeps w.server.store (destroy_vm rt i e w).server.store
  unfolding destroy_vm
  destroy_vm-Keeps none e w = (refl, refl)
  destroy_vm-Keeps (some i) e w =
      let a =
        put_instance-Keeps
          (rt.object i.id (rt.destroy_instance i.id (rt.load_instance i w.runtime)).1)
          w.server.store in
      let b = delete_instance-Keeps i.id e (destroyed i w) in (b.0 ∙ a.0, b.1 ∙ a.1)

  destroy_vm-routes :
      (i : Option ProjectInstance) (e : Env) (w : World R)
      → (destroy_vm rt i e w).server.routes ≡ w.server.routes
  unfolding destroy_vm
  destroy_vm-routes none e w = refl
  destroy_vm-routes (some i) e w = refl

pub known_project-ok :
    (id : Text) (s : Store) (p : Project) → known_project id s ≡ ok p → get_project id s ≡ ok p
unfolding known_project
known_project-ok id s p h = go (get_project id s) h
  where
    go : (r : Result StoreError Project) → or_not_found r ≡ ok p → r ≡ ok p
    go (err x) g = cc
    go (ok q) g = ap ok (ok_injective g)

module _ (s : Store) (c : IsConsistent s.state.projects) (p : Project)
    (stands : get s.state.projects p.id ≡ some p) (has_id : p.id ≢ lit "") where
  -- The deletion from a state with the same projects and apps.
  delete_project-Keeps :
      (t : Store) (e : Env)
      → Keeps s t
      → let u = (delete_project p.id e t).1 in
        (get u.state.projects p.id ≡ none)
        × (get_project_apps u.state p.id ≡ [])
        × ((j : Text) → j ≢ p.id → get u.state.projects j ≡ get s.state.projects j)
  delete_project-Keeps t e k =
      let d : IsConsistent t.state.projects = subst IsConsistent (sym k.0) c in
      let there : get t.state.projects p.id ≡ some p = rw k.0 stands in
      let known = (get_project_exact t d p.id p there).0 in
      let r = delete_project_exact t d p.id p e known has_id in
      (r.0, r.1, λ j ne. r.2 j ne ∙ rw k.0 refl)

module _ {R : Type 0} (rt : ProjectRuntime R) where
  -- Names are unique, the project is known and has an ID, and its VM, if it has one, is bound to it.
  -- However the runtime and the saves answer, a deletion leaves neither the project nor its apps in
  -- the state, leaves every other project as it was, and takes the domains of the apps of the
  -- project, and no others, out of the routes.
  pub handle_project_delete_exact :
      (id : Text) (e : Saves) (w : World R) (p : Project) (r : RouteTable)
      → IsConsistent w.server.store.state.projects
      → known_project id w.server.store ≡ ok p
      → p.id ≢ lit ""
      → bound_reply p (Records.get_instance p.id w.server.store) ≡ ok tt
      → w.server.routes ≡ some r
      → let t = (handle_project_delete rt true id e w).1.server in
        (get t.store.state.projects p.id ≡ none)
        × (get_project_apps t.store.state p.id ≡ [])
        × ((j : Text)
            → j ≢ p.id
            → get t.store.state.projects j ≡ get w.server.store.state.projects j)
        × ((k : Text)
            → Option.map (lookup k) t.routes
              ≡ some (
                  if has_route k p.domains (get_apps p.id w.server.store)
                  then none
                  else lookup k r))
  unfolding handle_project_delete
  handle_project_delete_exact id e w p r c known has_id b routes =
      let stands =
        (get_project_sound w.server.store c id p (known_project-ok id w.server.store p known)).0 in
      let i = Records.get_instance p.id w.server.store in
      let v = with_routes w (remove_all_routes p (get_apps p.id w.server.store)) in
      let gone =
        delete_project-Keeps w.server.store c p stands has_id (destroy_vm rt i (e 0) v).server.store
          (e 1) (destroy_vm-Keeps rt i (e 0) v) in
      rw (known, handle_project_delete)
        (rw b (
          gone.0,
          gone.1,
          gone.2,
          λ k.
              rw (destroy_vm-routes rt i (e 0) v)
                (rw routes (ap some (lookup-remove_all_routes p _ r k))),
        ))
