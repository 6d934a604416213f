-- ===== src/Store/Disk.antt =====
-- internal/shared/state/local.go: the store, its file, `NewStore`, `load` and `save`.
use goship.Base.{
  map_values, Text, lit, ℕ, text_eq, [], ◌∷◌, ◌++◌, Option, none, some, Dict, get, Result, ok, err,
  ◌>>=◌,
}
use goship.Entities.Name.{NameError, validate_project_name, validate_app_name}
use goship.Entities.App.{AppSpec}
use goship.Entities.Project.{Project, Node}
use goship.Entities.Instance.{
  ProjectInstance, BindingError, no_instance, unknown_project, check_binding,
}
use goship.Entities.LocalState.{LocalState, new_local_state}

-- What encoding/json reads from the file: each map and each pointer may be null.
pub record StateFile : Type 0 where
  pub version : Text
  pub projects : Option (Dict (Option Project))
  pub instances : Option (Dict (Option ProjectInstance))
  pub apps : Option (Dict (Option (Dict (Option AppSpec))))
  pub nodes : Option (Dict (Option Node))
  pub updated_at : ℕ

pub data File : Type 0 where
  absent unreadable unparsable : File
  holds : StateFile → File

pub record Store : Type 0 where
  pub data_dir : Text
  pub path : Text
  pub state : LocalState
  pub file : File

pub data StoreError : Type 0 where
  bad_name : NameError → StoreError
  project_exists project_required project_not_found : StoreError
  bad_binding : BindingError → StoreError
  instance_required instance_not_found app_required node_not_found : StoreError
  marshal_failed write_failed : StoreError

-- What the file system does with one `save`; a failed write leaves some file.
pub data WriteOutcome : Type 0 where
  written marshal_fails : WriteOutcome
  write_fails : File → WriteOutcome

-- What one call reads from outside: the clock, and the outcome of its `save`.
pub record Env : Type 0 where
  pub now : ℕ
  pub io : WriteOutcome

-- `omitempty` drops an empty map, which is read back as nil.
abbrev pub omit_empty : Option (Dict Text) → Option (Dict Text)
omit_empty none = none
omit_empty (some []) = none
omit_empty (some (e ∷ m)) = some (e ∷ m)

abbrev pub omit_env : Project → Project
omit_env p = record p { env = omit_empty p.env }

-- json.MarshalIndent: the document that `json.Unmarshal` reads back.
unfoldable pub to_file : LocalState → StateFile
unfolding map_values
to_file s = record {
  version = s.version;
  projects = some (map_values (λ p. some (omit_env p)) s.projects);
  instances = some (map_values some s.instances);
  apps = some (map_values (λ m. some (map_values some m)) s.apps);
  nodes = some s.nodes;
  updated_at = s.updated_at;
}

abbrev pub finish_write : WriteOutcome → Store → Option StoreError × Store
finish_write written s = (none, record s { file = holds (to_file s.state) })
finish_write marshal_fails s = (some marshal_failed, s)
finish_write (write_fails f) s = (some write_failed, record s { file = f })

abbrev pub stamped : Env → Store → Store
stamped e s = record s { state = record s.state { updated_at = e.now } }

unfoldable pub save : Env → Store → Option StoreError × Store
save e s = finish_write e.io (stamped e s)

-- A call that ends with `return s.save()`.
abbrev pub saved : Option StoreError × Store → Result StoreError (Unit {0}) × Store
saved (none, s) = (ok tt, s)
saved (some x, s) = (err x, s)

unfoldable pub validate_instance_binding :
    Dict Project → Option ProjectInstance → Result BindingError (Unit {0})
validate_instance_binding projects none = err no_instance
validate_instance_binding projects (some i) = elim (get projects i.project_id) [
  | none ↦ err unknown_project
  | some p ↦ check_binding p i
]

pub data LoadError : Type 0 where
  read_failed parse_failed null_project null_app : LoadError
  bad_name : NameError → LoadError
  bad_binding : BindingError → LoadError

abbrev pub named {ℓ} : {A : Type ℓ} → A → Result NameError (Unit {0}) → Result LoadError A
named a (ok _) = ok a
named a (err x) = err (LoadError.bad_name x)

module _ {ℓ} {A B : Type ℓ} where
  -- A loop over a map that checks each value and stops at the first error.
  unfoldable pub check_values : (A → Result LoadError B) → Dict A → Result LoadError (Dict B)
  check_values f [] = ok []
  check_values f ((k, v) ∷ m) = do w ← f v; rest ← check_values f m; ok ((k, w) ∷ rest)

abbrev pub load_project : Option Project → Result LoadError Project
load_project none = err null_project
load_project (some p) = named p (validate_project_name p.name)

abbrev pub load_app : Option AppSpec → Result LoadError AppSpec
load_app none = err null_app
load_app (some a) = named a (validate_app_name a.name)

abbrev pub load_apps : Option (Dict (Option AppSpec)) → Result LoadError (Dict AppSpec)
load_apps none = ok []
load_apps (some m) = check_values load_app m

abbrev pub bound_instance :
    Option ProjectInstance → Result BindingError (Unit {0}) → Result LoadError ProjectInstance
bound_instance none r = err (LoadError.bad_binding no_instance)
bound_instance (some i) (ok _) = ok i
bound_instance (some i) (err x) = err (LoadError.bad_binding x)

abbrev pub load_instance : Dict Project → Option ProjectInstance → Result LoadError ProjectInstance
load_instance projects i = bound_instance i (validate_instance_binding projects i)

abbrev pub or_empty {ℓ} : {V : Type ℓ} → Option (Dict V) → Dict V
or_empty none = []
or_empty (some m) = m

unfoldable pub load_file : StateFile → Result LoadError LocalState
unfolding check_values
load_file d = do
  projects ← check_values load_project (or_empty d.projects)
  apps ← check_values load_apps (or_empty d.apps)
  instances ← check_values (load_instance projects) (or_empty d.instances)
  ok (record {
    version = d.version;
    projects = projects;
    instances = instances;
    apps = apps;
    nodes = or_empty d.nodes;
    updated_at = d.updated_at;
  })

-- The error of `load`, which `NewStore` tells apart by os.IsNotExist.
pub data LoadFailure : Type 0 where
  not_exist : LoadFailure
  failed : LoadError → LoadFailure

abbrev pub or_failed : Result LoadError LocalState → Result LoadFailure LocalState
or_failed (ok s) = ok s
or_failed (err x) = err (failed x)

unfoldable pub load : File → Result LoadFailure LocalState
load absent = err not_exist
load unreadable = err (failed read_failed)
load unparsable = err (failed parse_failed)
load (holds d) = or_failed (load_file d)

abbrev pub opened : Store → Result LoadFailure LocalState → Result LoadError Store
opened s (ok state) = ok (record s { state = state })
opened s (err not_exist) = ok s
opened s (err (failed x)) = err x

-- `NewStore` on a directory that it could make, `~` replaced; `file` is what stands there.
unfoldable pub new_store : Text → File → ℕ → Result LoadError Store
new_store data_dir file now =
    opened
      (record {
        data_dir = data_dir;
        path = data_dir ++ lit "/state.json";
        state = new_local_state now;
        file = file;
      })
      (load file)
