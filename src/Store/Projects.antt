-- ===== src/Store/Projects.antt =====
-- internal/shared/state/local.go: the operations on projects.
use goship.Base.{
  Text, lit, ◌==◌, text_eq, List, [], Option, none, some, Dict, get, put, remove, find, values,
  is_some, Result, ok, err, if◌then◌else◌,
}
use goship.Entities.Name.{validate_project_name}
use goship.Entities.Resources.{Resources}
use goship.Entities.Project.{Project, RuntimeType, ProjectState}
use goship.Store.Disk.{
  Store, StoreError, project_exists, project_required, project_not_found, bad_name, Env, save,
  saved,
}

abbrev pub with_projects : Store → Dict Project → Store
with_projects s ps = record s { state = record s.state { projects = ps } }

abbrev pub by_name : Text → Store → Option (Text × Project)
by_name name s = find (λ p. p.name == name) s.state.projects

abbrev pub fresh_project : Text → Text → RuntimeType → Resources → Env → Project
fresh_project id name runtime resources e = record {
  id = id;
  name = name;
  runtime = runtime;
  resources = resources;
  topology = none;
  state = ProjectState.pending;
  labels = [];
  domains = [];
  default_domain = lit "";
  env = none;
  created_at = e.now;
  updated_at = e.now;
}

-- If the save failed, the project is taken out again.
abbrev pub or_undo : Project → Option StoreError × Store → Result StoreError Project × Store
or_undo p (none, s) = (ok p, s)
or_undo p (some x, s) = (err x, with_projects s (remove s.state.projects p.id))

-- `id` is the new UUID.
unfoldable pub create_project :
    Text → RuntimeType → Resources → Text → Env → Store → Result StoreError Project × Store
unfolding save
create_project name runtime resources id e s = elim (validate_project_name name) [
  | err x ↦ (err (bad_name x), s)
  | ok _ ↦
      if is_some (by_name name s)
      then (err project_exists, s)
      else let p = fresh_project id name runtime resources e in
        or_undo p (save e (with_projects s (put s.state.projects id p)))
]

unfoldable pub get_project : Text → Store → Result StoreError Project
get_project key s = elim (get s.state.projects key) [
  | some p ↦ ok p
  | none ↦ elim (by_name key s) [ some entry ↦ ok entry.1 | none ↦ err project_not_found ]
]

unfoldable pub list_projects : Store → List Project
list_projects s = values s.state.projects

unfoldable pub update_project : Option Project → Env → Store → Result StoreError (Unit {0}) × Store
unfolding save
update_project none e s = (err project_required, s)
update_project (some p) e s = elim (validate_project_name p.name) [
  | err x ↦ (err (bad_name x), s)
  | ok _ ↦
      if is_some (get s.state.projects p.id)
      then saved
          (save e (with_projects s (put s.state.projects p.id (record p { updated_at = e.now }))))
      else (err project_not_found, s)
]

-- `projectID` of `DeleteProject`; the empty text if nothing was found.
unfoldable pub project_id_of : Text → Store → Text
project_id_of key s =
    if is_some (get s.state.projects key)
    then key
    else elim (by_name key s) [ some entry ↦ entry.1.id | none ↦ lit "" ]

abbrev pub without_project : Text → Store → Store
without_project id s = record s {
  state = record s.state {
    projects = remove s.state.projects id;
    instances = remove s.state.instances id;
    apps = remove s.state.apps id;
  };
}

unfoldable pub delete_project : Text → Env → Store → Result StoreError (Unit {0}) × Store
unfolding save project_id_of
delete_project key e s =
    let id = project_id_of key s in
    if id == lit "" then (err project_not_found, s) else saved (save e (without_project id s))
