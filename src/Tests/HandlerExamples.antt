-- ===== src/Tests/HandlerExamples.antt =====
-- Requests to the handlers over the mock runtime.
use goship.Base.{
  Text, true, [], ◌∷◌, Option, none, some, get, or_else, length, pos, ok, err, Result, find, All,
  text_beq, ◌≡◌, ◌≢◌, refl, ap, sym, subst, ◌∙◌, arith, text_beq_iff, ok_injective, lit,
  if◌then◌else◌, Dict, put, copy, map_values, contains_rune,
}
use mathlib.Core.Option
use goship.Strings.{no_file, bytes}
use goship.Entities.Name.{validate_project_name, validate_path_component}
use goship.Entities.Project.{Project, Node, NodeStatus}
use goship.Entities.Instance.{ProjectInstance, InstanceState, check_binding}
use goship.Entities.App.{AppSpec, PortMapping}
use goship.Entities.LocalState
use goship.Entities.LocalState.{get_project_apps}
use goship.Reconciler.{DesiredState}
use goship.Store.Disk.{Store, node_not_found, save, to_file}
use goship.Store.Projects.{with_projects}
use goship.Store.Records
use goship.Store.Records.{get_instance, get_node, get_apps, Outcome, returns}
use goship.Store.Names.{IsConsistent}
use goship.Runtime.{ProjectRuntime}
use goship.Mock.{Mock, new_mock, default_fns, mock_runtime}
use goship.Vault.{Aead, new_vault, Cipher}
use goship.Vault.Hex.{IsByte, encode_hex}
use goship.Vault.Keyring.{
  KeyEnv, IsRandom, load_or_create_master_key, load_or_create_master_key-stays,
}
use goship.Vault.Encryption.{IsAuthentic}
use goship.Api.Routes.{RouteTable, lookup}
use goship.Api.Replies.{
  ApiError, not_found, conflict, server_error, World, Vm, known_project, known_vm,
}
use goship.Api.Creation.{
  CreateProjectRequest, handle_project_create, handle_project_delete, bound_reply,
}
use goship.Api.Lifecycle.{handle_project_stop, handle_project_restart}
use goship.Api.Stopping.{IsMarked, after_stop, handle_project_stop_exact}
use goship.Api.Waiting.{RestartEnds, handle_project_restart_exact}
use goship.Api.Undone.{handle_project_create_unchanged}
use goship.Api.Removing.{has_route, handle_project_delete_exact}
use goship.Api.Nodes.{RegisterNodeRequest, handle_node_register, handle_node_desired_state}
use goship.Api.Registering.{
  HasUniqueHosts, handle_node_register-HasUniqueHosts, IsComplete, handle_node_desired_state_exact,
}
use goship.Api.Environments.{VaultEnv, Secrets, handle_env_set, handle_env_list}
use goship.Api.Revealing.{HasNonces}
use goship.Api.Secrets.{IsReliable, handle_env_list-set}
use goship.Tests.Fixtures.{worker, web, one_project, works, fails, small}

abbrev mock : ProjectRuntime Mock
mock = mock_runtime (default_fns (lit "i1") 1)

abbrev site : Project
site = record web { domains = lit "example.org" ∷ [] }

abbrev http : PortMapping
http = record { host_port = pos 8080; container_port = pos 80; protocol = lit "tcp" }

abbrev served : AppSpec
served = record worker { ports = http ∷ [] }

abbrev vm : ProjectInstance
vm = record {
  id = lit "i1";
  project_id = lit "p1";
  node_id = [];
  state = InstanceState.running;
  ip_address = lit "10.0.0.2";
  ssh_port = pos 22;
  domain_name = [];
  domain_uuid = [];
  topology = none;
  error = [];
  created_at = 7;
  updated_at = 7;
}

-- A project with a VM and an app, whose route is there.
abbrev routes : RouteTable
routes = (lit "worker.example.org", lit "10.0.0.9:80") ∷ ((lit "other.net", lit "10.0.0.7:80") ∷ [])

abbrev running : World Mock
running = record {
  server = record {
    store = record one_project {
      state = record one_project.state {
        projects = (lit "p1", site) ∷ [];
        instances = (lit "i1", vm) ∷ [];
        apps = (lit "p1", (lit "worker", served) ∷ []) ∷ [];
      };
    };
    routes = some routes;
  };
  runtime = new_mock;
}

abbrev site_vm : Vm
site_vm = record { project = site; machine = vm }

site-known : known_vm true (lit "web") running.server.store ≡ ok site_vm
unfolding known_vm find get text_beq
site-known = refl

site-there : known_project (lit "web") running.server.store ≡ ok site
unfolding known_project find get text_beq
site-there = refl

-- A request for a project whose name is there.
abbrev again : CreateProjectRequest
again = record { name = lit "web"; resources = small; domains = []; default_domain = [] }

again-refused :
    (handle_project_create mock true (some again) (lit "p2") (λ n. works) running).0 ≡ err conflict
unfolding handle_project_create find text_beq validate_project_name validate_path_component
    contains_rune
again-refused = refl

no_p2 : get running.server.store.state.projects (lit "p2") ≡ none
unfolding get text_beq
no_p2 = refl

only_key : {V : Type 0} {v w : V} (k j : Text) → get ((k, v) ∷ []) j ≡ some w → (k ≡ j) × (v ≡ w)
unfolding get
only_key {v = v} {w = w} k j g = ground (arith, text_beq_iff k j, g)

site-IsConsistent : IsConsistent running.server.store.state.projects
unfolding get
site-IsConsistent = record {
  is_map = (refl, tt);
  keyed = λ k p g. let o = only_key (lit "p1") k g in ap (λ (q : Project). q.id) (sym o.1) ∙ o.0;
  unique = λ j k p q gj gk n. sym (only_key (lit "p1") j gj).0 ∙ (only_key (lit "p1") k gk).0;
}

abbrev node : Node
node = record {
  id = lit "n1";
  hostname = lit "alpha";
  endpoint = [];
  status = NodeStatus.online;
  resources = small;
  labels = [];
  last_heartbeat = 1;
  created_at = 1;
  updated_at = 1;
}

abbrev one_node : Store
one_node = record one_project {
  state = record one_project.state { nodes = (lit "n1", some node) ∷ [] };
}

abbrev beta : RegisterNodeRequest
beta = record { hostname = lit "beta"; endpoint = []; resources = small; labels = none }

one_node-HasUniqueHosts : HasUniqueHosts one_node.state.nodes
one_node-HasUniqueHosts = record {
  there = (refl, tt);
  unique = λ j k a b gj gk n. sym (only_key (lit "n1") j gj).0 ∙ (only_key (lit "n1") k gk).0;
}

-- A cipher that puts the text in front of itself as it is, under a nonce of one byte.
abbrev plain_aead : Aead
plain_aead = record { nonce_size = 1; seal = λ n p. p; open_sealed = λ n c. some c }

abbrev plain_cipher : Cipher
plain_cipher = record { sha256 = λ k. k; new_aead = λ k. some plain_aead }

plain-IsAuthentic : IsAuthentic plain_aead
plain-IsAuthentic = record { opens = λ n p h. refl; seals_bytes = λ n p h. h }

abbrev key_env : KeyEnv
key_env = record {
  random = some (7 ∷ (200 ∷ []));
  mkdir_works = true;
  write_works = true;
  left = no_file;
}

abbrev vault_env : VaultEnv
vault_env = record { cipher = plain_cipher; key_env = key_env; nonces = λ n. some (9 ∷ []) }

key_env-IsRandom : IsRandom key_env
key_env-IsRandom k e =
    let same : (7 ∷ (200 ∷ [])) ≡ k = cc e in
    subst (All IsByte) same (omega arith, (omega arith, tt))

plain_only : (key : Text) (v : Aead) → new_vault plain_cipher key ≡ ok v → plain_aead ≡ v
unfolding new_vault
plain_only [] v e = cc
plain_only (b ∷ key) v e = ok_injective e

plain-HasNonces : HasNonces plain_aead vault_env.nonces
plain-HasNonces = record {
  sized = λ n x e. let same : (9 ∷ []) ≡ x = cc e in subst (λ x. length x ≡ 1) same refl;
  bytes_only = λ n x e. let same : (9 ∷ []) ≡ x = cc e in subst (All IsByte) same (omega arith, tt);
}

vault_env-IsReliable : IsReliable vault_env
vault_env-IsReliable = record {
  random = key_env-IsRandom;
  authentic = λ key v e. subst IsAuthentic (plain_only key v e) plain-IsAuthentic;
  has_nonces =
      λ key v e. subst (λ a. HasNonces a vault_env.nonces) (plain_only key v e) plain-HasNonces;
}

abbrev no_key : Secrets
no_key = record { store = running.server.store; key_file = no_file }

-- A request with a secret, and what it leaves.
abbrev token : Dict Text
token = (lit "TOKEN", lit "abc") ∷ []

abbrev sealed : Dict Text
sealed = (lit "TOKEN", lit "encrypted:CWFiYw==") ∷ []

abbrev token_set : Secrets
token_set = record {
  store =
      (save works (
        with_projects no_key.store
          ((lit "p1", record site { env = some sealed; updated_at = 7 }) ∷ []))).1;
  key_file = bytes (lit "07c8");
}

token-is_set :
    handle_env_set (lit "p1") (some (record { env = token; secret = true })) vault_env works no_key
    ≡ (ok sealed, token_set)
unfolding handle_env_set get text_beq validate_project_name validate_path_component contains_rune
    put copy save to_file map_values
token-is_set = refl

site-bound : bound_reply site (Records.get_instance (lit "p1") running.server.store) ≡ ok tt
unfolding Records.get_instance LocalState.get_instance find text_beq check_binding
site-bound = refl

site-by_id : get no_key.store.state.projects (lit "p1") ≡ some site
unfolding get text_beq
site-by_id = refl

key-made :
    load_or_create_master_key key_env no_file
    ≡ (ok (7 ∷ (200 ∷ [])), bytes (encode_hex (7 ∷ (200 ∷ []))))
unfolding load_or_create_master_key
key-made = refl

-- Witnesses.
handle_project_restart_exact_example :
    RestartEnds mock site_vm 3 fails running
      (handle_project_restart mock true (lit "web") 3 works fails running)
handle_project_restart_exact_example =
    handle_project_restart_exact mock (lit "web") 3 works fails running site_vm site-known

handle_project_stop_exact_example :
    let t = handle_project_stop mock true (lit "web") works fails running in
    ((after_stop mock site_vm running).0 ≡ ok tt
      → (t.0 ≡ ok tt) × IsMarked site_vm works fails (after_stop mock site_vm running).1 t.1)
    × ((x : Text)
        → (after_stop mock site_vm running).0 ≡ err x
        → (t.0 ≡ err server_error)
          × (t.1.server.store.state.projects ≡ running.server.store.state.projects))
handle_project_stop_exact_example =
    handle_project_stop_exact mock (lit "web") works fails running site_vm site-known

handle_project_create_unchanged_example :
    get
      (handle_project_create mock true
        (some again)
        (lit "p2")
        (λ n. works)
        running).1.server.store.state.projects
      (lit "p1")
    ≡ get running.server.store.state.projects (lit "p1")
handle_project_create_unchanged_example =
    handle_project_create_unchanged mock true (some again) (lit "p2") (λ n. works) running conflict
      (λ e. cc) no_p2 again-refused (lit "p1")

handle_project_delete_exact_example :
    let t = (handle_project_delete mock true (lit "web") (λ n. fails) running).1.server in
    (get t.store.state.projects (lit "p1") ≡ none)
    × (get_project_apps t.store.state (lit "p1") ≡ [])
    × ((j : Text)
        → j ≢ lit "p1"
        → get t.store.state.projects j ≡ get running.server.store.state.projects j)
    × ((k : Text)
        → Option.map (lookup k) t.routes
          ≡ some (
              if has_route k site.domains (get_apps (lit "p1") running.server.store)
              then none
              else lookup k routes))
handle_project_delete_exact_example =
    handle_project_delete_exact mock (lit "web") (λ n. fails) running site routes site-IsConsistent
      site-there (λ e. cc) site-bound refl

handle_node_register-HasUniqueHosts_example :
    (r : Result ApiError Node × Store) × (handle_node_register (some beta) (lit "n2") works one_node
      ≡ returns r)
    × HasUniqueHosts r.1.state.nodes
handle_node_register-HasUniqueHosts_example =
    handle_node_register-HasUniqueHosts (some beta) (lit "n2") works one_node
      one_node-HasUniqueHosts

handle_node_desired_state_exact_example :
    ((n : Option Node)
      → get_node (lit "alpha") one_node ≡ returns (ok n)
      → (d : DesiredState) × (handle_node_desired_state (lit "alpha") one_node ≡ returns (ok d))
        × IsComplete one_node d)
    × (get_node (lit "alpha") one_node ≡ returns (err node_not_found)
        → handle_node_desired_state (lit "alpha") one_node ≡ returns (err not_found))
handle_node_desired_state_exact_example = handle_node_desired_state_exact (lit "alpha") one_node

load_or_create_master_key-stays_example :
    load_or_create_master_key
      (record key_env { random = none })
      (bytes (encode_hex (7 ∷ (200 ∷ []))))
    ≡ (ok (7 ∷ (200 ∷ [])), bytes (encode_hex (7 ∷ (200 ∷ []))))
load_or_create_master_key-stays_example =
    load_or_create_master_key-stays key_env no_file (7 ∷ (200 ∷ []))
      (bytes (encode_hex (7 ∷ (200 ∷ [])))) key_env-IsRandom key-made
      (record key_env { random = none })

handle_env_list-set_example :
    (m : Dict Text) × (handle_env_list
        (lit "p1")
        true
        (record vault_env { key_env = record key_env { random = none } })
        token_set
      ≡ (ok m, token_set))
    × ((k : Text) → get m k ≡ or_else (get token k) (get [] k))
handle_env_list-set_example =
    handle_env_list-set site token vault_env
      (record vault_env { key_env = record key_env { random = none } }) works no_key sealed
      token_set site-by_id tt ((omega arith, (omega arith, (omega arith, tt))), tt)
      vault_env-IsReliable refl token-is_set
