-- ===== src/Entities/LocalState.antt =====
-- pkg/domain/entities/state.go: the whole state of the control plane.
use goship.Base.{Text, lit, ℕ, ◌==◌, text_eq, [], Option, none, some, Dict, get, put, remove, find}
use mathlib.Core.Option
use goship.Entities.Project.{Project, Node}
use goship.Entities.Instance.{ProjectInstance}
use goship.Entities.App.{AppSpec}

-- A node read from the state file may be null.
pub record LocalState : Type 0 where
  pub version : Text
  pub projects : Dict Project
  pub instances : Dict ProjectInstance
  pub apps : Dict (Dict AppSpec)
  pub nodes : Dict (Option Node)
  pub updated_at : ℕ

unfoldable pub new_local_state : ℕ → LocalState
new_local_state now = record {
  version = lit "v1";
  projects = [];
  instances = [];
  apps = [];
  nodes = [];
  updated_at = now;
}

unfoldable pub get_project_apps : LocalState → Text → Dict AppSpec
get_project_apps s project_id = elim (get s.apps project_id) [ some apps ↦ apps | none ↦ [] ]

unfoldable pub set_app : LocalState → Text → AppSpec → ℕ → LocalState
unfolding get_project_apps
set_app s project_id app now = record s {
  apps = put s.apps project_id (put (get_project_apps s project_id) app.name app);
  updated_at = now;
}

-- The map of a project without apps is nil, and stays so.
unfoldable pub remove_app : LocalState → Text → Text → ℕ → LocalState
remove_app s project_id app_name now = elim (get s.apps project_id) [
  | some apps ↦ record s { apps = put s.apps project_id (remove apps app_name); updated_at = now }
  | none ↦ record s { updated_at = now }
]

unfoldable pub get_instance : LocalState → Text → Option ProjectInstance
get_instance s project_id =
    Option.map (λ e. e.1) (find (λ i. i.project_id == project_id) s.instances)
