-- ===== src/Tests/ComposeExamples.antt =====
-- Sizes, templates, ports and the environment of a service, at concrete values.
use goship.Base.{
  Text, lit, ◌*◌, ◌-◌, ◌^◌, ◌<◌, ◌≤◌, List, [], ◌∷◌, ◌++◌, Option, none, some, Dict, get, or_else,
  ok, pos, negsuc, itoa, ◌≡◌, refl, arith,
}
use mathlib.Core.Option
use goship.Size.{parse_size_mb, parse_size_mb_exact}
use goship.Compose.Service.{ComposeService, Value, Item, mapping}
use goship.Strings.{Content, bytes}
use goship.Compose.Substitute.{braced, bare, resolve_value, reference_value}
use goship.Compose.Templates.{
  Piece, plain, reference, print, meaning, IsTemplate, resolve_value-print,
}
use goship.Compose.Fields.{parse_port, parse_environment, parse_env_file_field}
use goship.Compose.Parsing.{Outside, Warning, load_env_files, resolve_service_env}
use goship.Compose.Merging.{files_value, resolve_service_env_exact}
use goship.Compose.Ports.{IsPart, host_container, parse_port_roundtrip}

abbrev host : Text → Option Text
host name = none

abbrev files : Text → Content
files path = bytes (lit "USER=admin # who")

abbrev outside : Outside
outside = record { read = files; host = host; parse_float = λ s. none; now = 3 }

abbrev context : Dict Text
context = (lit "USER", lit "admin") ∷ []

abbrev service : ComposeService
service = record {
  image = lit "db";
  command = none;
  ports = [];
  env_file = some (Value.str (lit "/etc/app.env"));
  environment = some (mapping ((lit "LOGIN", Item.str (lit "${USER}")) ∷ []));
  volumes = [];
  restart = [];
  deploy = none;
  depends_on = none;
  networks = none;
  build = none;
  labels = [];
}

-- hello $USER, ${HOME:-none}
abbrev template : List Piece
template =
    plain (lit "hello ")
    ∷ reference (bare (lit "USER"))
    ∷ plain (lit ", ")
    ∷ reference (braced (lit "HOME:-none"))
    ∷ []

template-IsTemplate : IsTemplate template
template-IsTemplate = ground arith

address-IsPart : IsPart (lit "127.0.0.1")
address-IsPart = ground arith

-- Witnesses.
parse_size_mb_exact_example :
    (parse_size_mb (itoa 8 ++ lit "M") ≡ ok (pos 8))
    × (8 * 1024 < 2 ^ 63 → parse_size_mb (itoa 8 ++ lit "G") ≡ ok (pos (8 * 1024)))
    × (2 ^ 63 ≤ 8 * 1024
        → 8 * 1024 < 2 ^ 64
        → parse_size_mb (itoa 8 ++ lit "G") ≡ ok (negsuc (2 ^ 64 - 8 * 1024 - 1)))
parse_size_mb_exact_example = parse_size_mb_exact 8 (omega arith)

resolve_value-print_example :
    resolve_value host context (print template) ≡ meaning (reference_value host context) template
resolve_value-print_example = resolve_value-print host context template template-IsTemplate

resolve_service_env_exact_example :
    (env : Dict Text) × (ws : List Warning) × (resolve_service_env outside
        (lit "db")
        service
        (lit "/srv")
      ≡ ok (env, ws))
    × ((k : Text)
        → get env k
          ≡ or_else
              (Option.map
                (resolve_value outside.host
                  (load_env_files outside
                    (lit "db")
                    (lit "/srv")
                    (lit "/etc/app.env" ∷ [])
                    ([], [])).0)
                (get ((lit "LOGIN", lit "${USER}") ∷ []) k))
              (files_value outside (lit "/srv") (lit "/etc/app.env" ∷ []) k))
unfolding parse_environment parse_env_file_field
resolve_service_env_exact_example =
    resolve_service_env_exact outside (lit "db") service (lit "/srv") (lit "/etc/app.env" ∷ [])
      ((lit "LOGIN", lit "${USER}") ∷ []) refl refl

parse_port_roundtrip_example :
    (parse_port (host_container 8080 80)
      ≡ ok (record { host_port = pos 8080; container_port = pos 80; protocol = lit "tcp" }))
    × (parse_port (host_container 8080 80 ++ (b'/' ∷ lit "udp"))
        ≡ ok (record { host_port = pos 8080; container_port = pos 80; protocol = lit "udp" }))
    × (parse_port (lit "127.0.0.1" ++ (b':' ∷ host_container 8080 80))
        ≡ ok (record { host_port = pos 8080; container_port = pos 80; protocol = lit "tcp" }))
parse_port_roundtrip_example =
    parse_port_roundtrip 8080 80 (lit "udp") (lit "127.0.0.1") (omega arith) (omega arith)
      address-IsPart
