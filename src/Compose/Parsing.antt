-- ===== src/Compose/Parsing.antt =====
-- internal/compose/parser.go: `resolveServiceEnv` and `ParseBytes`.
use goship.Base.{
  Text, lit, ℕ, Bool, true, false, not, ◌||◌, ◌&&◌, List, [], ◌∷◌, ◌++◌, Option, none, some, Dict,
  copy, ◌==◌, text_eq, is_some, ltb, if◌then◌else◌, Result, ok, err, ◌>>=◌, pos,
}
use goship.Entities.Resources.{Resources, Float64}
use goship.Entities.App.{AppSpec, ExecutionMode, RestartPolicy}
use goship.Compose.Service.{Value, ComposeResourceSpec, ComposeService, ComposeFile, BuildContext}
use goship.Strings.{Content}
use goship.Compose.EnvFile.{EnvFileError, load_env_file}
use goship.Strings.{is_abs, join_path}
use goship.Compose.Substitute.{substitute_vars}
use goship.Compose.Fields.{
  ComposeError, no_services, in_service, parse_command, parse_env_file_field, parse_ports,
  parse_environment, parse_volumes, map_restart_policy, parse_resources, parse_build,
}

-- What the parser reads outside of the compose file.
pub record Outside : Type 0 where
  pub read : Text → Content
  pub host : Text → Option Text
  pub parse_float : Text → Option Float64
  pub now : ℕ

pub record ParseConfig : Type 0 where
  pub base_dir : Text
  pub registry_addr : Text
  pub project_name : Text

pub data Warning : Type 0 where
  env_file_skipped : Text → Text → EnvFileError → Warning
  no_image depends_on_ignored networks_ignored : Text → Warning

abbrev pub env_path : Text → Text → Text
env_path base_dir p = if not (is_abs p) && not (base_dir == lit "") then join_path base_dir p else p

abbrev pub add_file :
    Text
    → Text
    → Result EnvFileError (Dict Text)
    → Dict Text × List Warning
    → Dict Text × List Warning
add_file name p (ok vars) (base, warnings) = (copy base vars, warnings)
add_file name p (err e) (base, warnings) = (base, warnings ++ (env_file_skipped name p e ∷ []))

-- The loop over the env files: later ones override earlier ones.
unfoldable pub load_env_files :
    Outside → Text → Text → List Text → Dict Text × List Warning → Dict Text × List Warning
unfolding load_env_file
load_env_files out name base_dir [] acc = acc
load_env_files out name base_dir (p ∷ ps) acc =
    let path = env_path base_dir p in
    load_env_files out name base_dir ps (add_file name path (load_env_file (out.read path)) acc)

abbrev pub within {ℓ} : {A : Type ℓ} → Text → Result ComposeError A → Result ComposeError A
within name (ok a) = ok a
within name (err e) = err (in_service name e)

abbrev pub env_files : Option Value → Result ComposeError (List Text)
env_files none = ok []
env_files (some v) = parse_env_file_field v

abbrev pub raw_env : Option Value → Result ComposeError (Dict Text)
raw_env none = ok []
raw_env (some v) = parse_environment v

unfoldable pub resolve_service_env :
    Outside → Text → ComposeService → Text → Result ComposeError (Dict Text × List Warning)
unfolding parse_env_file_field load_env_files parse_environment substitute_vars
resolve_service_env out name svc base_dir = do
  paths ← within name (env_files svc.env_file)
  let base = load_env_files out name base_dir paths ([], [])
  raw ← within name (raw_env svc.environment)
  ok (copy (copy [] base.0) (substitute_vars out.host raw base.0), base.1)

abbrev pub command_of : Option Value → Result ComposeError (List Text)
command_of none = ok []
command_of (some v) = parse_command v

abbrev pub limits_of : ComposeService → Option ComposeResourceSpec
limits_of svc = elim svc.deploy [
  | none ↦ none
  | some d ↦ elim d.resources [ none ↦ none | some r ↦ r.limits ]
]

abbrev pub no_resources : Resources
no_resources = record { cpu = 0; memory_mb = pos 0; disk_mb = pos 0 }

abbrev pub resources_of :
    (Text → Option Float64) → Option ComposeResourceSpec → Result ComposeError Resources
resources_of parse_float none = ok no_resources
resources_of parse_float (some spec) = parse_resources parse_float spec

abbrev pub image_name : ParseConfig → Text → Text
image_name cfg name =
    if not (cfg.registry_addr == lit "") && not (cfg.project_name == lit "")
    then cfg.registry_addr
      ++ (lit "/goship-" ++ (cfg.project_name ++ (lit "/" ++ (name ++ lit ":latest"))))
    else lit "goship-" ++ (name ++ lit ":latest")

-- The build of a service without an image.
abbrev pub build_of :
    ParseConfig → Text → ComposeService → Result ComposeError (Option BuildContext)
build_of cfg name svc = elim svc.build [
  | none ↦ ok none
  | some v ↦
      if svc.image == lit ""
      then (within name (parse_build v) >>= λ bc.
          ok (some (record bc { image_name = image_name cfg name })))
      else ok none
]

-- What one service adds to the results.
pub record Parsed : Type 0 where
  pub apps : List AppSpec
  pub builds : Dict BuildContext
  pub warnings : List Warning

abbrev pub ignored : Option Value → Warning → List Warning
ignored none w = []
ignored (some v) w = w ∷ []

abbrev pub image_of : ComposeService → Option BuildContext → Text
image_of svc none = svc.image
image_of svc (some bc) = bc.image_name

abbrev pub builds_of : Text → Option BuildContext → Dict BuildContext
builds_of name none = []
builds_of name (some bc) = (name, bc) ∷ []

-- A service with neither an image nor a build is left out, with a warning.
abbrev pub parsed : ComposeService → Text → AppSpec → Option BuildContext → List Warning → Parsed
parsed svc name app build warnings =
    if svc.image == lit "" && not (is_some svc.build)
    then record { apps = []; builds = []; warnings = warnings ++ (no_image name ∷ []) }
    else record {
      apps = app ∷ [];
      builds = builds_of name build;
      warnings =
          warnings
          ++ (ignored svc.depends_on (depends_on_ignored name)
              ++ ignored svc.networks (networks_ignored name));
    }

unfoldable pub parse_service :
    Outside → ParseConfig → Text → ComposeService → Result ComposeError Parsed
unfolding resolve_service_env parse_command parse_ports parse_volumes map_restart_policy
    parse_resources parse_build
parse_service out cfg name svc = do
  command ← within name (command_of svc.command)
  ports ← within name (parse_ports svc.ports)
  env ← resolve_service_env out name svc cfg.base_dir
  volumes ← within name (parse_volumes svc.volumes)
  resources ← within name (resources_of out.parse_float (limits_of svc))
  build ← build_of cfg name svc
  let app : AppSpec = record {
    name = name;
    execution_mode = ExecutionMode.container;
    image = image_of svc build;
    tag = lit "";
    binary = lit "";
    replicas = pos 1;
    command = command;
    args = [];
    env = env.0;
    ports = ports;
    volumes = volumes;
    resources = resources;
    health_check = none;
    restart_policy =
        if svc.restart == lit "" then RestartPolicy.unset else map_restart_policy svc.restart;
    working_dir = lit "";
    hostname = lit "";
    available = none;
    description = lit "";
    tags = [];
    created_at = out.now;
  }
  ok (parsed svc name app build env.1)

-- sort.Strings: bytes in order.
unfoldable pub text_ltb : Text → Text → Bool
text_ltb [] [] = false
text_ltb [] (y ∷ ys) = true
text_ltb (x ∷ xs) [] = false
text_ltb (x ∷ xs) (y ∷ ys) = ltb x y || (not (ltb y x) && text_ltb xs ys)

module _ {ℓ} {V : Type ℓ} where
  unfoldable pub insert_sorted : Text → V → Dict V → Dict V
  unfolding text_ltb
  insert_sorted k v [] = (k, v) ∷ []
  insert_sorted k v ((j, w) ∷ m) =
      let rest = insert_sorted k v m in
      if text_ltb j k then (j, w) ∷ rest else (k, v) ∷ ((j, w) ∷ m)

  unfoldable pub sort_by_name : Dict V → Dict V
  unfolding insert_sorted
  sort_by_name [] = []
  sort_by_name ((k, v) ∷ m) = insert_sorted k v (sort_by_name m)

unfoldable pub parse_services :
    Outside → ParseConfig → Dict ComposeService → Result ComposeError Parsed
unfolding parse_service
parse_services out cfg [] = ok (record { apps = []; builds = []; warnings = [] })
parse_services out cfg ((name, svc) ∷ services) = do
  p ← parse_service out cfg name svc
  rest ← parse_services out cfg services
  ok (record {
    apps = p.apps ++ rest.apps;
    builds = p.builds ++ rest.builds;
    warnings = p.warnings ++ rest.warnings;
  })

-- `ParseBytes` on a file that yaml.v3 has decoded.
unfoldable pub parse_bytes : Outside → ParseConfig → ComposeFile → Result ComposeError Parsed
unfolding parse_services sort_by_name
parse_bytes out cfg cf = elim cf.services [
  | [] ↦ err no_services
  | e ∷ m ↦ parse_services out cfg (sort_by_name (e ∷ m))
]
