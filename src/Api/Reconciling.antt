-- ===== src/Api/Reconciling.antt =====
-- What `reconcileAppRoutes` leaves in the table, domain by domain.
use goship.Base.{
  Text, lit, Bool, false, ◌||◌, List, [], ◌∷◌, Option, none, some, put, remove, get-put, get-remove,
  ◌==◌, text_eq, if◌then◌else◌, ◌≡◌, refl, arith,
}
use goship.Entities.Project.{Project}
use goship.Entities.Instance.{ProjectInstance}
use goship.Entities.App.{AppSpec, PortMapping, is_available, get_hostname}
use goship.Api.Routes.{
  RouteTable, set_route, delete_route, lookup, route_of, set_routes, delete_routes, backend_of,
  register_app_routes, reconcile_app_routes,
}

-- A domain that a hostname has under one of the project's domains.
unfoldable pub is_route : Text → Text → List Text → Bool
is_route k hostname [] = false
is_route k hostname (d ∷ ds) = route_of hostname d == k || is_route k hostname ds

pub lookup-set_routes :
    (hostname backend : Text) (ds : List Text) (routes : RouteTable) (k : Text)
    → lookup k (set_routes hostname backend ds routes)
      ≡ (if is_route k hostname ds then some backend else lookup k routes)
unfolding lookup set_routes set_route is_route
lookup-set_routes hostname backend [] routes k = refl
lookup-set_routes hostname backend (d ∷ ds) routes k = ground (
  arith,
  lookup-set_routes hostname backend ds (put routes (route_of hostname d) backend) k,
  get-put routes (route_of hostname d) k backend,
)

pub lookup-delete_routes :
    (hostname : Text) (ds : List Text) (routes : RouteTable) (k : Text)
    → lookup k (delete_routes hostname ds routes)
      ≡ (if is_route k hostname ds then none else lookup k routes)
unfolding lookup delete_routes delete_route is_route
lookup-delete_routes hostname [] routes k = refl
lookup-delete_routes hostname (d ∷ ds) routes k = ground (
  arith,
  lookup-delete_routes hostname ds (remove routes (route_of hostname d)) k,
  get-remove routes (route_of hostname d) k,
)

-- The backend that an app should have: it is available, it has a port, and its VM has an address.
abbrev pub wanted_backend : AppSpec → Option ProjectInstance → Option Text
wanted_backend app none = none
wanted_backend app (some i) = elim app.ports [
  | [] ↦ none
  | port ∷ ports ↦
      if i.ip_address == lit ""
      then none
      else if is_available app
      then some (backend_of i.ip_address port)
      else none
]

-- The entry that a domain should have.
abbrev pub wanted : Project → AppSpec → Text → Option Text → RouteTable → Text → Option Text
wanted project app old_hostname none routes k =
    if is_route k old_hostname project.domains then none else lookup k routes
wanted project app old_hostname (some backend) routes k =
    if is_route k (get_hostname app) project.domains
    then some backend
    else if is_route k old_hostname project.domains
    then none
    else lookup k routes

-- After the reconciliation the domains of the app's hostname lead to its backend, if it should have
-- one; the other domains of its old hostname lead nowhere; every other domain is as it was.
pub reconcile_app_routes_exact :
    (project : Project) (app : AppSpec) (old_hostname : Text) (i : Option ProjectInstance)
    (routes : RouteTable) (k : Text)
    → lookup k (reconcile_app_routes project app old_hostname i routes)
      ≡ wanted project app old_hostname (wanted_backend app i) routes k
unfolding reconcile_app_routes register_app_routes
reconcile_app_routes_exact project app old_hostname none routes k =
    lookup-delete_routes old_hostname project.domains routes k
reconcile_app_routes_exact project app old_hostname (some i) routes k = go app.ports
  where
    go :
        (ports : List PortMapping)
        → lookup k (
            reconcile_app_routes project
              (record app { ports = ports })
              old_hostname
              (some i)
              routes)
          ≡ wanted project
              (record app { ports = ports })
              old_hostname
              (wanted_backend (record app { ports = ports }) (some i))
              routes
              k
    go [] = ground (arith, lookup-delete_routes old_hostname project.domains routes k)
    go (port ∷ ports) = ground (
      arith,
      lookup-delete_routes old_hostname project.domains routes k,
      lookup-set_routes (get_hostname app) (backend_of i.ip_address port) project.domains
          (delete_routes old_hostname project.domains routes) k,
    )
