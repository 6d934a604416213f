-- ===== src/Api/Routes.antt =====
-- internal/proxy/routes.go, the choice of internal/proxy/proxy.go, and the routes that
-- internal/api/app_handlers.go keeps.
use goship.Base.{
  Text, lit, List, [], ◌∷◌, ◌++◌, Option, none, some, Dict, get, put, remove, ◌==◌, text_eq, nat_eq,
  if◌then◌else◌, print_int,
}
use goship.Entities.Project.{Project}
use goship.Entities.Instance.{ProjectInstance}
use goship.Entities.App.{AppSpec, PortMapping, is_available, get_hostname}

-- `RouteTable`: the backend of each domain.
abbrev pub RouteTable : Type 0
RouteTable = Dict Text

unfoldable pub set_route : Text → Text → RouteTable → RouteTable
unfolding put
set_route domain backend routes = put routes domain backend

unfoldable pub delete_route : Text → RouteTable → RouteTable
unfolding remove
delete_route domain routes = remove routes domain

unfoldable pub lookup : Text → RouteTable → Option Text
unfolding get
lookup domain routes = get routes domain

-- The text before the last colon, if there is one.
unfoldable pub before_last_colon : Text → Option Text
before_last_colon [] = none
before_last_colon (c ∷ s) = elim (before_last_colon s) [
  | some r ↦ some (c ∷ r)
  | none ↦ if c == b':' then some [] else none
]

-- The backend that `ServeHTTP` forwards a request to; without one it replies with an error.
unfoldable pub serve_backend : Text → RouteTable → Option Text
unfolding before_last_colon lookup
serve_backend host routes =
    lookup (elim (before_last_colon host) [ none ↦ host | some h ↦ h ]) routes

abbrev pub route_of : Text → Text → Text
route_of hostname domain = hostname ++ (lit "." ++ domain)

unfoldable pub set_routes : Text → Text → List Text → RouteTable → RouteTable
unfolding set_route
set_routes hostname backend [] routes = routes
set_routes hostname backend (d ∷ ds) routes =
    set_routes hostname backend ds (set_route (route_of hostname d) backend routes)

unfoldable pub delete_routes : Text → List Text → RouteTable → RouteTable
unfolding delete_route
delete_routes hostname [] routes = routes
delete_routes hostname (d ∷ ds) routes =
    delete_routes hostname ds (delete_route (route_of hostname d) routes)

abbrev pub backend_of : Text → PortMapping → Text
backend_of ip port = ip ++ (lit ":" ++ print_int port.host_port)

-- `registerAppRoutes` on a table that is there.
unfoldable pub register_app_routes : Project → AppSpec → Text → RouteTable → RouteTable
unfolding is_available get_hostname set_routes
register_app_routes project app ip routes = elim app.ports [
  | [] ↦ routes
  | port ∷ ports ↦
      if is_available app
      then set_routes (get_hostname app) (backend_of ip port) project.domains routes
      else routes
]

-- The registration from what `GetInstance` returns.
abbrev pub register_on : Project → AppSpec → Option ProjectInstance → RouteTable → RouteTable
register_on project app none routes = routes
register_on project app (some i) routes =
    if i.ip_address == lit "" then routes else register_app_routes project app i.ip_address routes

-- `reconcileAppRoutes`; without domains nothing is looked up.
unfoldable pub reconcile_app_routes :
    Project → AppSpec → Text → Option ProjectInstance → RouteTable → RouteTable
unfolding delete_routes register_app_routes
reconcile_app_routes project app old_hostname instance' routes =
    register_on project app instance' (delete_routes old_hostname project.domains routes)

unfoldable pub remove_app_routes : Project → AppSpec → RouteTable → RouteTable
unfolding delete_routes get_hostname
remove_app_routes project app routes = delete_routes (get_hostname app) project.domains routes
