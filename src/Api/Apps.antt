-- ===== src/Api/Apps.antt =====
-- internal/api/app_handlers.go: `handleAppUpdate`. The app is the object in the store, so that each
-- assignment to its fields is a change of the state.
use goship.Base.{
  Text, lit, Bool, not, ◌||◌, ◌&&◌, List, Option, none, some, is_some, Dict, put, copy, or_else,
  ◌==◌, text_eq, if◌then◌else◌, Result, ok, err, ℤ,
}
use mathlib.Core.Option
use goship.Entities.Resources.{Float64}
use goship.Entities.Project.{Project}
use goship.Entities.App.{AppSpec, PortMapping, RestartPolicy, get_hostname}
use goship.Entities.LocalState.{get_project_apps}
use goship.Store.Disk.{Store, StoreError, Env}
use goship.Store.Projects.{get_project}
use goship.Store.Records
use goship.Store.Records.{get_app, set_app, get_instance}
use goship.Api.Routes.{RouteTable, reconcile_app_routes}

-- A nil pointer, slice or map is a field that was not given.
pub record UpdateAppRequest : Type 0 where
  pub image : Option Text
  pub binary : Option Text
  pub ports : Option (List PortMapping)
  pub env : Option (Dict Text)
  pub description : Option Text
  pub tags : Option (List Text)
  pub restart_policy : Option Text
  pub cpu : Option Float64
  pub memory_mb : Option ℤ
  pub hostname : Option Text
  pub available : Option Bool

-- The store, and the route table if there is a proxy.
pub record Server : Type 0 where
  pub store : Store
  pub routes : Option RouteTable

pub data Status : Type 0 where
  done bad_request not_found server_error : Status

abbrev pub or_old {ℓ} : {A : Type ℓ} → Option A → A → A
or_old none a = a
or_old (some b) a = b

abbrev pub copied : Option (Dict Text) → Dict Text → Dict Text
copied none env = env
copied (some new) env = copy env new

-- The fields that the handler sets before it looks at the restart policy.
abbrev pub set_first : UpdateAppRequest → AppSpec → AppSpec
set_first req app = record app {
  image = or_old req.image app.image;
  binary = or_old req.binary app.binary;
  ports = or_old req.ports app.ports;
  env = copied req.env app.env;
  description = or_old req.description app.description;
  tags = or_old req.tags app.tags;
}

-- Those that it sets afterwards.
abbrev pub set_rest : UpdateAppRequest → AppSpec → AppSpec
set_rest req app = record app {
  resources = record app.resources {
    cpu = or_old req.cpu app.resources.cpu;
    memory_mb = or_old req.memory_mb app.resources.memory_mb;
  };
  hostname = or_old req.hostname app.hostname;
  available = or_else req.available app.available;
}

-- The three policies that the handler accepts.
unfoldable pub parse_policy : Text → Option RestartPolicy
parse_policy s =
    if s == lit "never"
    then some RestartPolicy.never
    else if s == lit "always"
    then some RestartPolicy.always
    else if s == lit "on-failure"
    then some RestartPolicy.on_failure
    else none

abbrev pub policy_of : Option Text → Option RestartPolicy
policy_of none = none
policy_of (some s) = parse_policy s

unfoldable pub has_changes : UpdateAppRequest → Bool
has_changes req =
    is_some req.image
    || (is_some req.binary
        || (is_some req.ports
            || (is_some req.env
                || (is_some req.description
                    || (is_some req.tags
                        || (is_some req.restart_policy
                            || (is_some req.cpu
                                || (is_some req.memory_mb
                                    || (is_some req.hostname || is_some req.available)))))))))

-- An assignment to the fields of the app that stands under a name of a project.
unfoldable pub assign : Text → Text → AppSpec → Server → Server
unfolding get_project_apps
assign project_id name app sv = record sv {
  store = record sv.store {
    state = record sv.store.state {
      apps =
          put sv.store.state.apps project_id
            (put (get_project_apps sv.store.state project_id) name app);
    };
  };
}

abbrev pub with_policy : Option RestartPolicy → AppSpec → AppSpec
with_policy p app = record app { restart_policy = or_old p app.restart_policy }

abbrev pub routes_after : UpdateAppRequest → Project → AppSpec → Text → Server → Server
routes_after req project app old_hostname sv =
    if is_some req.hostname || is_some req.available
    then record sv {
      routes =
          Option.map
            (reconcile_app_routes project app old_hostname
              (Records.get_instance project.id sv.store))
            sv.routes;
    }
    else sv

abbrev pub stored : Result StoreError (Unit {0}) × Store → Server → Server
stored r sv = record sv { store = r.1 }

-- From the save on, for the app as it is then.
unfoldable pub save_app :
    UpdateAppRequest → Project → Text → AppSpec → Text → Env → Server → Status × Server
unfolding set_app assign reconcile_app_routes get_instance
save_app req project name app old_hostname e sv =
    let r = Records.set_app project.id (some app) e (assign project.id name app sv).store in
    elim r.0 [
      | err x ↦ (server_error, stored r sv)
      | ok u ↦ (done, routes_after req project app old_hostname (stored r sv))
    ]

-- From the restart policy on: none that the code knows ends the request.
unfoldable pub update_app :
    UpdateAppRequest → Project → Text → AppSpec → Env → Server → Status × Server
unfolding save_app parse_policy has_changes get_hostname
update_app req project name app e sv =
    let first = set_first req app in
    if is_some req.restart_policy && not (is_some (policy_of req.restart_policy))
    then (bad_request, assign project.id name first sv)
    else if not (has_changes req)
    then (bad_request, sv)
    else let second = with_policy (policy_of req.restart_policy) first in
      save_app req project name (set_rest req second) (get_hostname second) e sv

-- `req` is nothing where the body is no JSON of a request.
unfoldable pub handle_app_update :
    Text → Text → Option UpdateAppRequest → Env → Server → Status × Server
unfolding get_project get_app update_app
handle_app_update id name req e sv = elim (get_project id sv.store) [
  | err x ↦ (not_found, sv)
  | ok project ↦ elim (get_app project.id name sv.store) [
    | none ↦ (not_found, sv)
    | some app ↦ elim req [ none ↦ (bad_request, sv) | some r ↦ update_app r project name app e sv ]
  ]
]
