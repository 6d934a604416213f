-- ===== src/Api/Domains.antt =====
-- internal/api: the domains of a project, and the routes that follow them.
use goship.Base.{
  Text, lit, List, [], ◌∷◌, Option, none, some, ◌==◌, text_eq, Result, ok, err, if◌then◌else◌,
}
use mathlib.Core.Option
use goship.Entities.Project.{Project}
use goship.Entities.Instance.{ProjectInstance}
use goship.Entities.App.{AppSpec, get_hostname}
use goship.Store.Disk.{Store, StoreError, Env}
use goship.Store.Projects.{update_project, list_projects}
use goship.Store.Records
use goship.Store.Records.{get_instance, get_apps}
use goship.Api.Apps.{Server}
use goship.Api.Routes.{RouteTable, delete_routes, register_app_routes}
use goship.Api.Projects.{assign_project}
use goship.Api.Creation.{default_of}
use goship.Api.Replies.{ApiError, server_error, known_project, project_now}

pub record UpdateDomainsRequest : Type 0 where
  pub domains : List Text
  pub default_domain : Text

abbrev pub first_of : List Text → Text
first_of [] = lit ""
first_of (d ∷ ds) = d

-- The loop that removes the routes of the old domains.
unfoldable pub delete_old : List Text → List AppSpec → RouteTable → RouteTable
unfolding get_hostname delete_routes
delete_old old [] t = t
delete_old old (a ∷ as') t = delete_old old as' (delete_routes (get_hostname a) old t)

unfoldable pub register_all : Project → Text → List AppSpec → RouteTable → RouteTable
unfolding register_app_routes
register_all p ip [] t = t
register_all p ip (a ∷ as') t = register_all p ip as' (register_app_routes p a ip t)

-- Registration if there is an instance with an address.
abbrev pub register_where :
    Project → List AppSpec → Option ProjectInstance → RouteTable → RouteTable
register_where p apps none t = t
register_where p apps (some i) t =
    if i.ip_address == lit "" then t else register_all p i.ip_address apps t

-- `reconcileRoutesOnDomainChange` on a table that is there.
unfoldable pub reconcile_domains :
    Project → List Text → List AppSpec → Option ProjectInstance → RouteTable → RouteTable
unfolding delete_old register_all
reconcile_domains p old apps i t = register_where p apps i (delete_old old apps t)

abbrev pub with_domains : UpdateDomainsRequest → Project → Project
with_domains req p = record p {
  domains = req.domains;
  default_domain = default_of req.default_domain (first_of req.domains);
}

abbrev pub domains_saved :
    Project
    → List Text
    → Result StoreError (Unit {0}) × Store
    → Server
    → Result ApiError Project × Server
domains_saved p old (err x, s) sv = (err server_error, record sv { store = s })
domains_saved p old (ok u, s) sv = (
  ok (project_now p s),
  record sv {
    store = s;
    routes =
        Option.map (reconcile_domains p old (get_apps p.id s) (Records.get_instance p.id s))
          sv.routes;
  },
)

abbrev pub update_domains :
    UpdateDomainsRequest → Project → Env → Server → Result ApiError Project × Server
update_domains req p e sv =
    let q = with_domains req p in
    domains_saved q p.domains (update_project (some q) e (assign_project q sv.store)) sv

abbrev pub domains_of_known :
    Result ApiError Project
    → Option UpdateDomainsRequest
    → Env
    → Server
    → Result ApiError Project × Server
domains_of_known (err x) req e sv = (err x, sv)
domains_of_known (ok p) none e sv = (err ApiError.bad_request, sv)
domains_of_known (ok p) (some req) e sv = update_domains req p e sv

-- `handleDomainsUpdate`
unfoldable pub handle_domains_update :
    Text → Option UpdateDomainsRequest → Env → Server → Result ApiError Project × Server
unfolding known_project get_apps get_instance reconcile_domains update_project assign_project
handle_domains_update id req e sv = domains_of_known (known_project id sv.store) req e sv

abbrev pub rebuild_project : Store → Project → RouteTable → RouteTable
rebuild_project s p t = elim p.domains [
  | [] ↦ t
  | d ∷ ds ↦ register_where p (get_apps p.id s) (Records.get_instance p.id s) t
]

unfoldable pub rebuild_all : Store → List Project → RouteTable → RouteTable
unfolding get_apps get_instance register_all
rebuild_all s [] t = t
rebuild_all s (p ∷ ps) t = rebuild_all s ps (rebuild_project s p t)

-- `RebuildRoutes`
unfoldable pub rebuild_routes : Server → Server
unfolding list_projects rebuild_all
rebuild_routes sv = record sv {
  routes = Option.map (rebuild_all sv.store (list_projects sv.store)) sv.routes;
}
