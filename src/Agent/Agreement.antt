-- ===== src/Agent/Agreement.antt =====
-- The stores that give a node the same desired state (internal/api/node_handlers.go).
use goship.Base.{Text, List, [], ◌∷◌, some, Dict, put, text_eq, ◌≡◌, refl, arith}
use goship.Entities.Project.{Project, Node}
use goship.Entities.App.{AppSpec}
use goship.Entities.LocalState.{get_project_apps}
use goship.Store.Disk.{Store, Env, save, saved}
use goship.Store.Projects.{list_projects}
use goship.Store.Records.{set_node, get_apps, with_nodes}
use goship.Api.Nodes.{apps_by_project, desired_state}

-- What a desired state is made of.
pub record Agrees (s t : Store) : Type 0 where
  pub same_projects : t.state.projects ≡ s.state.projects
  pub same_apps : t.state.apps ≡ s.state.apps

pub saved-Agrees :
    (e : Env) (s : Store)
    → Agrees s (saved (save e s)).1 × ((saved (save e s)).1.state.nodes ≡ s.state.nodes)
unfolding save
saved-Agrees e s = (record { same_projects = ground arith; same_apps = ground arith }, ground arith)

pub set_node-Agrees :
    (n : Node) (e : Env) (s : Store)
    → Agrees s (set_node n e s).1
      × ((set_node n e s).1.state.nodes ≡ put s.state.nodes n.id (some n))
unfolding set_node
set_node-Agrees n e s =
    let r = saved-Agrees e (with_nodes s (put s.state.nodes n.id (some n))) in
    (record { same_projects = r.0.same_projects; same_apps = r.0.same_apps }, r.1)

pub get_apps-Agrees : (s t : Store) (k : Text) → Agrees s t → get_apps k t ≡ get_apps k s
unfolding get_apps get_project_apps
get_apps-Agrees s t k h = rw h.same_apps refl

pub apps_by_project-Agrees :
    (s t : Store) (ps : List Project) (m : Dict (List AppSpec))
    → Agrees s t
    → apps_by_project t ps m ≡ apps_by_project s ps m
unfolding apps_by_project
apps_by_project-Agrees s t [] m h = refl
apps_by_project-Agrees s t (p ∷ ps) m h =
    rw (get_apps-Agrees s t p.id h) (apps_by_project-Agrees s t ps (put m p.id (get_apps p.id s)) h)

pub desired_state-Agrees : (s t : Store) → Agrees s t → desired_state t ≡ desired_state s
unfolding desired_state list_projects
desired_state-Agrees s t h =
    rw (h.same_projects, apps_by_project-Agrees s t (list_projects s) [] h) refl
