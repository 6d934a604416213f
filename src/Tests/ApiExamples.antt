-- ===== src/Tests/ApiExamples.antt =====
-- Updates of an app that has a route.
use goship.Base.{lit, text_beq, true, [], ◌∷◌, none, some, get, pos, ok, find, ◌≡◌, refl}
use goship.Entities.Project.{Project}
use goship.Entities.Instance.{ProjectInstance, InstanceState}
use goship.Entities.App.{AppSpec}
use goship.Store.Projects.{get_project}
use goship.Api.Routes.{lookup, reconcile_app_routes}
use goship.Api.Reconciling.{wanted, wanted_backend, reconcile_app_routes_exact}
use goship.Api.Apps.{UpdateAppRequest, Server, bad_request}
use goship.Entities.Resources.{Resources}
use goship.Entities.LocalState
use goship.Store.Disk.{Store}
use goship.Store.Records
use goship.Api.Projects.{
  UpdateProjectRequest, ProjectStatus, refused, resources_of_edit, edit_resources,
  handle_project_update,
}
use goship.Api.Resizing.{Holds, Grows, handle_project_update_exact}
use goship.Tests.Fixtures.{worker, web, one_project, works}

abbrev site : Project
site = record web { domains = lit "example.org" ∷ [] }

abbrev served : AppSpec
served = record worker {
  ports = record { host_port = pos 8080; container_port = pos 80; protocol = lit "tcp" } ∷ [];
}

abbrev vm : ProjectInstance
vm = record {
  id = lit "i1";
  project_id = lit "p1";
  node_id = [];
  state = InstanceState.running;
  ip_address = lit "10.0.0.2";
  ssh_port = pos 22;
  domain_name = [];
  domain_uuid = [];
  topology = none;
  error = [];
  created_at = 7;
  updated_at = 7;
}

abbrev server : Server
server = record {
  store = record one_project {
    state = record one_project.state { apps = (lit "p1", (lit "worker", worker) ∷ []) ∷ [] };
  };
  routes = some [];
}

-- A new image with a restart policy that there is not.
abbrev wrong : UpdateAppRequest
wrong = record {
  image = some (lit "other");
  binary = none;
  ports = none;
  env = none;
  description = none;
  tags = none;
  restart_policy = some (lit "sometimes");
  cpu = none;
  memory_mb = none;
  hostname = none;
  available = none;
}

abbrev with_stopped_vm : Store
with_stopped_vm = record one_project {
  state = record one_project.state {
    instances = (lit "i1", record vm { state = InstanceState.stopped }) ∷ [];
  };
}

-- More CPU, and a smaller disk.
abbrev shrink : UpdateProjectRequest
shrink = record {
  cpu = some 4;
  memory_mb = none;
  memory = none;
  disk_mb = some (pos 1024);
  disk = none;
}

web-known_with_vm : get_project (lit "web") with_stopped_vm ≡ ok web
unfolding get_project find get text_beq
web-known_with_vm = refl

vm-known :
    Records.get_instance (lit "p1") with_stopped_vm
    ≡ some (record vm { state = InstanceState.stopped })
unfolding Records.get_instance LocalState.get_instance find text_beq
vm-known = refl

-- Witnesses.
handle_project_update_exact_example :
    let t = handle_project_update true (lit "web") (some shrink) true works with_stopped_vm in
    let ed = edit_resources shrink web.resources in
    Holds (lit "p1") (resources_of_edit ed) t.1
    × Grows web.resources (resources_of_edit ed)
    × ((r : Resources)
        → ed ≡ refused r
        → (t.0 ≡ ProjectStatus.bad_request) × Holds (lit "p1") r t.1)
handle_project_update_exact_example =
    handle_project_update_exact (lit "web") web (record vm { state = InstanceState.stopped }) shrink
      true works with_stopped_vm web-known_with_vm vm-known refl refl

reconcile_app_routes_exact_example :
    lookup (lit "worker.example.org") (
      reconcile_app_routes site served
        (lit "old")
        (some vm)
        ((lit "old.example.org", lit "10.0.0.2:8080") ∷ []))
    ≡ wanted site served
        (lit "old")
        (wanted_backend served (some vm))
        ((lit "old.example.org", lit "10.0.0.2:8080") ∷ [])
        (lit "worker.example.org")
reconcile_app_routes_exact_example =
    reconcile_app_routes_exact site served (lit "old") (some vm)
      ((lit "old.example.org", lit "10.0.0.2:8080") ∷ []) (lit "worker.example.org")
