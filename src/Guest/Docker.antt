-- ===== src/Guest/Docker.antt =====
-- internal/init/docker.go: `DockerManager` over the calls of the Docker client that it makes.
use goship.Base.{
  Text, lit, ℕ, zero, suc, ◌*◌, Bool, true, false, not, List, [], ◌∷◌, ◌++◌, Option, none, some,
  Dict, put, ◌==◌, nat_eq, text_eq, take, drop, length, has_prefix, contains_rune, if◌then◌else◌,
  Result, ok, err, ◌>>=◌, ℤ, pos, negsuc, print_int,
}
use goship.Strings.{wrap_int64}
use goship.Entities.Resources.{Float64}
use goship.Entities.App.{AppSpec, AppState, ExecutionMode, RestartPolicy, PortMapping, VolumeMount}
use goship.Supervisor.Manager.{AppStatus}

pub record PortBinding : Type 0 where
  pub host_ip : Text
  pub host_port : Text

-- container.Config, HostConfig and NetworkingConfig, the fields that are set.
pub record ContainerSpec : Type 0 where
  pub name : Text
  pub image : Text
  pub env : List Text
  pub cmd : List Text
  pub working_dir : Text
  pub exposed : Dict (Unit {0})
  pub bindings : Dict (List PortBinding)
  pub restart : Text
  pub memory : ℤ
  pub nano_cpus : ℤ
  pub binds : List Text
  pub aliases : Dict (List Text)

pub record PortSummary : Type 0 where
  pub public_port : ℕ
  pub private_port : ℕ
  pub kind : Text

-- An entry of `ContainerList`.
pub record Container : Type 0 where
  pub id : Text
  pub names : List Text
  pub image : Text
  pub state : Text
  pub status : Text
  pub ports : List PortSummary

pub data ClientError : Type 0 where
  is_not_found : ClientError
  failed : Text → ClientError

-- The calls of the client; its states are `D`.
pub record DockerClient (D : Type 0) : Type 0 where
  pub network_inspect : Text → D → Result ClientError (Unit {0})
  pub network_create : Text → D → Result ClientError (Unit {0}) × D
  pub image_load : Text → D → Result ClientError (Unit {0}) × D
  pub image_inspect : Text → D → Result ClientError (Unit {0})
  pub image_pull : Text → D → Result ClientError (Unit {0}) × D
  pub container_list : D → Result ClientError (List Container)
  pub container_remove : Text → D → Result ClientError (Unit {0}) × D
  pub container_create : ContainerSpec → D → Result ClientError Text × D
  pub container_start : Text → D → Result ClientError (Unit {0}) × D
  pub container_stop : Text → D → Result ClientError (Unit {0}) × D
  pub container_logs : Text → ℤ → D → Result ClientError (Text × Text)
  pub started_at : Text → D → Option ℕ

abbrev pub network_name : Text
network_name = lit "goship"

abbrev pub container_name : Text → Text
container_name app = lit "goship-" ++ app

-- The image with its tag, or with `latest` where it has no colon.
unfoldable pub image_reference : AppSpec → Text
unfolding contains_rune
image_reference app =
    if not (app.tag == lit "")
    then app.image ++ (lit ":" ++ app.tag)
    else if contains_rune app.image b':'
    then app.image
    else app.image ++ lit ":latest"

-- `buildEnvList`
unfoldable pub build_env_list : Dict Text → List Text
build_env_list [] = []
build_env_list ((k, v) ∷ m) = (k ++ (lit "=" ++ v)) ∷ build_env_list m

unfoldable pub to_docker_restart_policy : RestartPolicy → Text
to_docker_restart_policy RestartPolicy.always = lit "always"
to_docker_restart_policy RestartPolicy.on_failure = lit "on-failure"
to_docker_restart_policy RestartPolicy.never = lit "no"
to_docker_restart_policy _ = lit "unless-stopped"

unfoldable pub to_app_state : Text → AppState
to_app_state s =
    if s == lit "running"
    then AppState.running
    else if s == lit "exited"
    then AppState.stopped
    else if s == lit "dead"
    then AppState.stopped
    else if s == lit "created"
    then AppState.pending
    else if s == lit "restarting"
    then AppState.pending
    else AppState.failed

abbrev pub port_key : PortMapping → Text
port_key p =
    print_int p.container_port
    ++ (lit "/" ++ (if p.protocol == lit "" then lit "tcp" else p.protocol))

-- The loop over the ports: the ports that are exposed, and where each is bound.
unfoldable pub expose : List PortMapping → Dict (Unit {0}) → Dict (Unit {0})
unfolding put
expose [] m = m
expose (p ∷ ps) m = expose ps (put m (port_key p) tt)

unfoldable pub bind_ports : List PortMapping → Dict (List PortBinding) → Dict (List PortBinding)
unfolding put
bind_ports [] m = m
bind_ports (p ∷ ps) m = bind_ports ps (
    put m (port_key p) (record { host_ip = lit "0.0.0.0"; host_port = print_int p.host_port } ∷ []))

unfoldable pub bind_list : List VolumeMount → List Text
bind_list [] = []
bind_list (v ∷ vs) = (v.source ++ (lit ":" ++ v.destination)) ∷ bind_list vs

-- int64 arithmetic on a positive count of megabytes.
abbrev pub memory_bytes : ℤ → ℤ
memory_bytes (pos zero) = pos 0
memory_bytes (pos (suc n)) = wrap_int64 (suc n * 1048576)
memory_bytes (negsuc n) = pos 0

-- `nano` is the conversion `int64(cpu * 1e9)` where the CPU is positive, and zero elsewhere.
unfoldable pub container_spec : (Float64 → ℤ) → AppSpec → ContainerSpec
unfolding image_reference build_env_list expose bind_ports bind_list to_docker_restart_policy
    wrap_int64
container_spec nano app = record {
  name = container_name app.name;
  image = image_reference app;
  env = build_env_list app.env;
  cmd = app.command ++ app.args;
  working_dir = app.working_dir;
  exposed = expose app.ports [];
  bindings = bind_ports app.ports [];
  restart = to_docker_restart_policy app.restart_policy;
  memory = memory_bytes app.resources.memory_mb;
  nano_cpus = nano app.resources.cpu;
  binds = bind_list app.volumes;
  aliases = (network_name, app.name ∷ []) ∷ [];
}

unfoldable pub has_name : Text → List Text → Bool
has_name n [] = false
has_name n (m ∷ ms) = let rest = has_name n ms in if m == n then true else rest

-- The name of the app of a container: what follows the prefix in the first name that has it.
unfoldable pub app_name_of : List Text → Option Text
unfolding has_prefix
app_name_of [] = none
app_name_of (n ∷ ns) =
    let rest = app_name_of ns in
    if has_prefix n (lit "/goship-") then some (drop (length (lit "/goship-")) n) else rest

abbrev pub ports_of : List PortSummary → List PortMapping
ports_of [] = []
ports_of (p ∷ ps) =
    record { host_port = pos p.public_port; container_port = pos p.private_port; protocol = p.kind }
    ∷ ports_of ps

module _ {D : Type 0} (c : DockerClient D) where
  abbrev pub created_network : Result ClientError (Unit {0}) → D → Result ClientError (Unit {0}) × D
  created_network (ok u) d = (ok tt, d)
  created_network (err x) d = c.network_create network_name d

  -- `ensureNetwork`
  unfoldable pub ensure_network : D → Result ClientError (Unit {0}) × D
  ensure_network d = created_network (c.network_inspect network_name d) d

  -- `LoadImage`
  unfoldable pub load_image : Text → D → Result ClientError (Unit {0}) × D
  load_image archive d = c.image_load archive d

  abbrev pub pulled : Result ClientError (Unit {0}) → Text → D → Result ClientError (Unit {0}) × D
  pulled (ok u) ref d = (ok tt, d)
  pulled (err x) ref d = c.image_pull ref d

  abbrev pub removed_next :
      Result ClientError (Unit {0}) × D
      → (D → Result ClientError (Unit {0}) × D)
      → Result ClientError (Unit {0}) × D
  removed_next (err x, d) f = (err x, d)
  removed_next (ok u, d) f = f d

  -- The loop that removes the containers that have the name.
  unfoldable pub remove_existing : Text → List Container → D → Result ClientError (Unit {0}) × D
  unfolding has_name
  remove_existing n [] d = (ok tt, d)
  remove_existing n (k ∷ ks) d =
      let skip = remove_existing n ks d in
      let gone = removed_next (c.container_remove k.id d) (λ e. remove_existing n ks e) in
      if has_name n k.names then gone else skip

  abbrev pub started : Result ClientError Text × D → Result ClientError (Unit {0}) × D
  started (err x, d) = (err x, d)
  started (ok id, d) = c.container_start id d

  abbrev pub create_and_start :
      ContainerSpec → Result ClientError (Unit {0}) × D → Result ClientError (Unit {0}) × D
  create_and_start spec (err x, d) = (err x, d)
  create_and_start spec (ok u, d) = started (c.container_create spec d)

  abbrev pub replace_in :
      ContainerSpec → Result ClientError (List Container) → D → Result ClientError (Unit {0}) × D
  replace_in spec (err x) d = (err x, d)
  replace_in spec (ok ks) d = create_and_start spec (remove_existing (lit "/" ++ spec.name) ks d)

  abbrev pub replace :
      ContainerSpec → Result ClientError (Unit {0}) × D → Result ClientError (Unit {0}) × D
  replace spec (err x, d) = (err x, d)
  replace spec (ok u, d) = replace_in spec (c.container_list d) d

  -- `Deploy`
  unfoldable pub docker_deploy : (Float64 → ℤ) → AppSpec → D → Result ClientError (Unit {0}) × D
  unfolding container_spec remove_existing
  docker_deploy nano app d =
      let spec = container_spec nano app in
      replace spec (pulled (c.image_inspect spec.image d) spec.image d)

  abbrev pub or_absent : Result ClientError (Unit {0}) × D → Result ClientError (Unit {0}) × D
  or_absent (err is_not_found, d) = (ok tt, d)
  or_absent (err (failed x), d) = (err (failed x), d)
  or_absent (ok u, d) = (ok tt, d)

  -- `Stop` and `Remove`
  unfoldable pub docker_stop : Text → D → Result ClientError (Unit {0}) × D
  docker_stop app d = or_absent (c.container_stop (container_name app) d)

  unfoldable pub docker_remove : Text → D → Result ClientError (Unit {0}) × D
  docker_remove app d = or_absent (c.container_remove (container_name app) d)

  abbrev pub both_streams : Text → Text → Text
  both_streams out [] = out
  both_streams [] (e ∷ es) = e ∷ es
  both_streams (o ∷ os) (e ∷ es) = (o ∷ os) ++ (10 ∷ (e ∷ es))

  -- `GetLogs`; the client's answer is already split into the two streams.
  unfoldable pub docker_logs : Text → ℤ → D → Result ClientError Text
  docker_logs app lines d = do
    r ← c.container_logs (container_name app) lines d
    ok (both_streams r.0 r.1)

  -- The entry of one container; its ID has at least twelve characters.
  abbrev pub docker_status : Container → Text → D → AppStatus
  docker_status k app d = record {
    name = app;
    execution_mode = ExecutionMode.container;
    id = take 12 k.id;
    image = k.image;
    binary = [];
    state = to_app_state k.state;
    status = k.status;
    ports = ports_of k.ports;
    started_at = if k.state == lit "running" then c.started_at k.id d else none;
    restart_count = 0;
  }

  abbrev pub status_entry : Container → Option Text → D → List AppStatus → List AppStatus
  status_entry k none d rest = rest
  status_entry k (some app) d rest = docker_status k app d ∷ rest

  unfoldable pub container_statuses : List Container → D → List AppStatus
  unfolding app_name_of to_app_state
  container_statuses [] d = []
  container_statuses (k ∷ ks) d = status_entry k (app_name_of k.names) d (container_statuses ks d)

  -- `GetStatus`
  unfoldable pub docker_get_status : D → Result ClientError (List AppStatus)
  unfolding container_statuses
  docker_get_status d = do ks ← c.container_list d; ok (container_statuses ks d)
