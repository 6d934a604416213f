-- ===== src/Store/Records.antt =====
-- internal/shared/state/local.go: the operations on instances, apps and nodes.
use goship.Base.{
  Text, ◌==◌, text_eq, List, [], ◌∷◌, Option, none, some, Dict, get, put, remove, values, is_some,
  Result, ok, err, if◌then◌else◌,
}
use goship.Entities.Name.{validate_app_name}
use goship.Entities.App.{AppSpec}
use goship.Entities.Project.{Node}
use goship.Entities.Instance.{ProjectInstance}
use goship.Entities.LocalState
use goship.Entities.LocalState.{LocalState, get_project_apps, remove_app}
use goship.Store.Disk.{
  Store, StoreError, bad_name, bad_binding, instance_required, instance_not_found, app_required,
  node_not_found, Env, save, saved, validate_instance_binding,
}

abbrev pub with_instances : Store → Dict ProjectInstance → Store
with_instances s is = record s { state = record s.state { instances = is } }

-- `SetInstance` reads the fields of a nil instance only after the check has refused it.
abbrev pub put_instance : Option ProjectInstance → Store → Store
put_instance none s = s
put_instance (some i) s = with_instances s (put s.state.instances i.id i)

unfoldable pub set_instance :
    Option ProjectInstance → Env → Store → Result StoreError (Unit {0}) × Store
unfolding save
set_instance i e s = elim (validate_instance_binding s.state.projects i) [
  | err x ↦ (err (bad_binding x), s)
  | ok _ ↦ saved (save e (put_instance i s))
]

unfoldable pub get_instance : Text → Store → Option ProjectInstance
unfolding LocalState.get_instance
get_instance project_id s = LocalState.get_instance s.state project_id

unfoldable pub update_instance :
    Option ProjectInstance → Env → Store → Result StoreError (Unit {0}) × Store
unfolding save
update_instance none e s = (err instance_required, s)
update_instance (some i) e s =
    if is_some (get s.state.instances i.id)
    then elim (validate_instance_binding s.state.projects (some i)) [
      | err x ↦ (err (bad_binding x), s)
      | ok _ ↦ saved (save e (put_instance (some (record i { updated_at = e.now })) s))
    ]
    else (err instance_not_found, s)

unfoldable pub get_instance_by_id : Text → Store → Option ProjectInstance
get_instance_by_id id s = get s.state.instances id

unfoldable pub delete_instance : Text → Env → Store → Result StoreError (Unit {0}) × Store
unfolding save
delete_instance id e s = saved (save e (with_instances s (remove s.state.instances id)))

unfoldable pub set_app : Text → Option AppSpec → Env → Store → Result StoreError (Unit {0}) × Store
unfolding save LocalState.set_app
set_app project_id none e s = (err app_required, s)
set_app project_id (some a) e s = elim (validate_app_name a.name) [
  | err x ↦ (err (bad_name x), s)
  | ok _ ↦ saved (save e (record s { state = LocalState.set_app s.state project_id a e.now }))
]

unfoldable pub get_app : Text → Text → Store → Option AppSpec
unfolding get_project_apps
get_app project_id name s = get (get_project_apps s.state project_id) name

unfoldable pub get_apps : Text → Store → List AppSpec
unfolding get_project_apps
get_apps project_id s = values (get_project_apps s.state project_id)

unfoldable pub delete_app : Text → Text → Env → Store → Result StoreError (Unit {0}) × Store
unfolding save remove_app
delete_app project_id name e s =
    saved (save e (record s { state = remove_app s.state project_id name e.now }))

abbrev pub with_nodes : Store → Dict (Option Node) → Store
with_nodes s ns = record s { state = record s.state { nodes = ns } }

unfoldable pub set_node : Node → Env → Store → Result StoreError (Unit {0}) × Store
unfolding save
set_node n e s = saved (save e (with_nodes s (put s.state.nodes n.id (some n))))

-- The loop over the nodes reads the field of each, and panics at a nil one.
pub data NodeSearch : Type 0 where
  found : Text → Node → NodeSearch
  missing panics : NodeSearch

unfoldable pub by_hostname : Text → Dict (Option Node) → NodeSearch
by_hostname h [] = missing
by_hostname h ((k, none) ∷ m) = panics
by_hostname h ((k, some n) ∷ m) =
    let rest = by_hostname h m in if n.hostname == h then found k n else rest

-- How a call ends: it returns, or it panics.
pub data Outcome {ℓ} (A : Type ℓ) : Type ℓ where
  returns : A → Outcome A
  panic : Outcome A

unfoldable pub get_node : Text → Store → Outcome (Result StoreError (Option Node))
get_node key s = elim (get s.state.nodes key) [
  | some n ↦ returns (ok n)
  | none ↦ elim (by_hostname key s.state.nodes) [
    | found k n ↦ returns (ok (some n))
    | missing ↦ returns (err node_not_found)
    | panics ↦ panic
  ]
]

unfoldable pub list_nodes : Store → List (Option Node)
list_nodes s = values s.state.nodes

unfoldable pub delete_node : Text → Env → Store → Outcome (Result StoreError (Unit {0}) × Store)
unfolding save
delete_node key e s =
    if is_some (get s.state.nodes key)
    then returns (saved (save e (with_nodes s (remove s.state.nodes key))))
    else elim (by_hostname key s.state.nodes) [
      | found k n ↦ returns (saved (save e (with_nodes s (remove s.state.nodes k))))
      | missing ↦ returns (err node_not_found, s)
      | panics ↦ panic
    ]
