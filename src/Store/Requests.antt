-- ===== src/Store/Requests.antt =====
-- internal/shared/state/store.go: the calls of `Storer` that change the state, as data, so that a
-- history of a store is a sequence of them.
use goship.Base.{Text, ◌≡◌, ◌≢◌, Option, none, some, get, remove, AllValues, Result, ok, err}
use goship.Entities.Resources.{Resources}
use goship.Entities.App.{AppSpec}
use goship.Entities.Project.{Project, Node, RuntimeType}
use goship.Entities.Instance.{ProjectInstance}
use goship.Store.Disk.{Store, StoreError, Env}
use goship.Store.Projects.{create_project, update_project, delete_project, project_id_of}
use goship.Store.Records.{
  set_instance, update_instance, delete_instance, set_app, delete_app, set_node, delete_node,
  Outcome, returns, panic,
}

pub data Request : Type 0 where
  create : Text → RuntimeType → Resources → Text → Request
  update : Option Project → Request
  delete : Text → Request
  put_instance : Option ProjectInstance → Request
  renew_instance : Option ProjectInstance → Request
  drop_instance : Text → Request
  put_app : Text → Option AppSpec → Request
  drop_app : Text → Text → Request
  put_node : Node → Request
  drop_node : Text → Request

abbrev pub to_error {ℓ} :
    {A : Type ℓ} → Result StoreError A × Store → Outcome (Option StoreError × Store)
to_error (ok a, s) = returns (none, s)
to_error (err x, s) = returns (some x, s)

abbrev pub or_panic :
    Outcome (Result StoreError (Unit {0}) × Store) → Outcome (Option StoreError × Store)
or_panic (returns r) = to_error r
or_panic panic = panic

-- The error that a call returns, and the store after it.
unfoldable pub perform : Request → Env → Store → Outcome (Option StoreError × Store)
perform (create name rt res id) e s = to_error (create_project name rt res id e s)
perform (update p) e s = to_error (update_project p e s)
perform (delete key) e s = to_error (delete_project key e s)
perform (put_instance i) e s = to_error (set_instance i e s)
perform (renew_instance i) e s = to_error (update_instance i e s)
perform (drop_instance id) e s = to_error (delete_instance id e s)
perform (put_app pid a) e s = to_error (set_app pid a e s)
perform (drop_app pid name) e s = to_error (delete_app pid name e s)
perform (put_node n) e s = to_error (set_node n e s)
perform (drop_node key) e s = or_panic (delete_node key e s)

-- What the callers see to: a new UUID is new; a project is not renamed; a project that is deleted
-- has no instance left but, at most, one under the project's own ID.
abbrev pub IsAdmissible : Request → Store → Type 0
IsAdmissible (create name rt res id) s = get s.state.projects id ≡ none
IsAdmissible (update (some p)) s =
    (q : Project) → get s.state.projects p.id ≡ some q → (q.name ≡ p.name) × (q.id ≡ p.id)
IsAdmissible (delete key) s =
    AllValues (λ i. i.project_id ≢ project_id_of key s)
      (remove s.state.instances (project_id_of key s))
IsAdmissible _ s = Unit

-- A history: calls that the callers may make, and that return.
pub data History (s : Store) : Store → Type 0 where
  start : History s s
  call :
      {t : Store} {u : Store} {x : Option StoreError} (r : Request) (e : Env)
      → History s t
      → IsAdmissible r t
      → perform r e t ≡ returns (x, u)
      → History s u
