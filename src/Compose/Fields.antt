-- ===== src/Compose/Fields.antt =====
-- internal/compose/parser.go: the parsers of a service's fields.
use goship.Base.{
  Text, lit, false, ◌||◌, List, [], ◌∷◌, Option, none, some, Dict, get, put, map_values, ◌==◌,
  text_eq, if◌then◌else◌, Result, ok, err, ◌>>=◌, ℤ, pos,
}
use goship.Entities.Resources.{Resources, Float64}
use goship.Entities.App.{PortMapping, VolumeMount, RestartPolicy}
use goship.Strings.{cut, split, split_n, words, parse_int}
use goship.Size.{SizeError, parse_size_mb}
use goship.Compose.Service.{Item, Value, seq, mapping, ComposeResourceSpec, BuildContext}

pub data ComposeError : Type 0 where
  no_services bad_command bad_env_file bad_port_mapping bad_host_port bad_container_port :
      ComposeError
  bad_environment bad_volume bad_cpus bad_build : ComposeError
  bad_memory : SizeError → ComposeError
  in_service : Text → ComposeError → ComposeError

-- The loop over a list of which each element must be a string.
unfoldable pub strings : ComposeError → List Item → Result ComposeError (List Text)
strings e [] = ok []
strings e (Item.other t ∷ items) = err e
strings e (Item.str s ∷ items) = do rest ← strings e items; ok (s ∷ rest)

unfoldable pub parse_command : Value → Result ComposeError (List Text)
unfolding strings words
parse_command (Value.str s) = ok (words s)
parse_command (seq items) = strings bad_command items
parse_command _ = err bad_command

unfoldable pub parse_env_file_field : Value → Result ComposeError (List Text)
unfolding strings
parse_env_file_field (Value.str s) = ok (s ∷ [])
parse_env_file_field (seq items) = strings bad_env_file items
parse_env_file_field _ = err bad_env_file

abbrev pub port_mapping : Text → Option ℤ → Option ℤ → Result ComposeError PortMapping
port_mapping protocol none container = err bad_host_port
port_mapping protocol (some h) none = err bad_container_port
port_mapping protocol (some h) (some c) =
    ok (record { host_port = h; container_port = c; protocol = protocol })

-- host:container or ip:host:container.
abbrev pub port_parts : Text → List Text → Result ComposeError PortMapping
port_parts protocol (h ∷ c ∷ []) = port_mapping protocol (parse_int h) (parse_int c)
port_parts protocol (ip ∷ h ∷ c ∷ []) = port_mapping protocol (parse_int h) (parse_int c)
port_parts protocol _ = err bad_port_mapping

unfoldable pub parse_port : Text → Result ComposeError PortMapping
unfolding cut split parse_int
parse_port s = elim (cut (lit "/") s) [
  | none ↦ port_parts (lit "tcp") (split b':' s)
  | some r ↦ port_parts r.1 (split b':' r.0)
]

unfoldable pub parse_ports : List Text → Result ComposeError (List PortMapping)
unfolding parse_port
parse_ports [] = ok []
parse_ports (s ∷ rest) = do p ← parse_port s; ps ← parse_ports rest; ok (p ∷ ps)

abbrev pub print_item : Item → Text
print_item (Item.str s) = s
print_item (Item.other t) = t

abbrev pub put_entry : Text → Option (Text × Text) → Dict Text → Dict Text
put_entry s none env = put env s (lit "")
put_entry s (some (k, v)) env = put env k v

unfoldable pub parse_entries : List Item → Dict Text → Result ComposeError (Dict Text)
unfolding cut
parse_entries [] env = ok env
parse_entries (Item.other t ∷ items) env = err bad_environment
parse_entries (Item.str s ∷ items) env = parse_entries items (put_entry s (cut (lit "=") s) env)

unfoldable pub parse_environment : Value → Result ComposeError (Dict Text)
unfolding parse_entries map_values
parse_environment (mapping m) = ok (map_values print_item m)
parse_environment (seq items) = parse_entries items []
parse_environment _ = err bad_environment

abbrev pub volume_mount : List Text → Result ComposeError VolumeMount
volume_mount (s ∷ d ∷ []) = ok (record { source = s; destination = d; read_only = false })
volume_mount (s ∷ d ∷ m ∷ rest) =
    ok (record { source = s; destination = d; read_only = m == lit "ro" })
volume_mount _ = err bad_volume

unfoldable pub parse_volumes : List Text → Result ComposeError (List VolumeMount)
unfolding split_n
parse_volumes [] = ok []
parse_volumes (s ∷ rest) = do
  v ← volume_mount (split_n 2 b':' s)
  vs ← parse_volumes rest
  ok (v ∷ vs)

unfoldable pub map_restart_policy : Text → RestartPolicy
map_restart_policy policy =
    if policy == lit "always" || policy == lit "unless-stopped"
    then RestartPolicy.always
    else if policy == lit "on-failure"
    then RestartPolicy.on_failure
    else RestartPolicy.never

abbrev pub cpus_of : Option Float64 → Result ComposeError Float64
cpus_of none = err bad_cpus
cpus_of (some f) = ok f

abbrev pub memory_of : Result SizeError ℤ → Result ComposeError ℤ
memory_of (err x) = err (bad_memory x)
memory_of (ok n) = ok n

-- `parse_float` is strconv.ParseFloat, whose bits for 0 are 0.
unfoldable pub parse_resources :
    (Text → Option Float64) → ComposeResourceSpec → Result ComposeError Resources
unfolding parse_size_mb
parse_resources parse_float spec = do
  cpu ← if spec.cpus == lit "" then ok 0 else cpus_of (parse_float spec.cpus)
  memory ← if spec.memory == lit "" then ok (pos 0) else memory_of (parse_size_mb spec.memory)
  ok (record { cpu = cpu; memory_mb = memory; disk_mb = pos 0 })

-- A key of the build mapping: absent, or a string.
abbrev pub build_text : Option Item → Result ComposeError Text
build_text none = ok (lit "")
build_text (some (Item.str s)) = ok s
build_text (some (Item.other t)) = err bad_build

unfoldable pub parse_build : Value → Result ComposeError BuildContext
parse_build (Value.str s) = ok (record { context = s; dockerfile = lit ""; image_name = lit "" })
parse_build (mapping m) = do
  context ← build_text (get m (lit "context"))
  dockerfile ← build_text (get m (lit "dockerfile"))
  ok (record {
    context = if context == lit "" then lit "." else context;
    dockerfile = dockerfile;
    image_name = lit "";
  })
parse_build _ = err bad_build
