-- ===== src/Manifest.antt =====
-- internal/manifest: a deployment manifest, its loading and its environments. What yaml.v3 decodes is
-- an argument.
pub mod Overlay
use goship.Base.{
  Text, lit, ℕ, Bool, true, false, ◌&&◌, ◌||◌, List, [], ◌∷◌, Option, none, some, Dict, get, put,
  copy, ◌==◌, nat_eq, text_eq, ltb, leb, length, has_prefix, if◌then◌else◌, Result, ok, err, ◌>>=◌,
  ◌>>◌, require, ℤ, pos, not,
}
use goship.Strings.{
  trim_space, cut, unsnoc, raw_lines, drop_cr, max_line, Content, no_file, broken, bytes, is_abs,
  clean, join_path, scan,
}
use goship.Size.{SizeError, parse_size_mb}
use goship.Entities.Name.{NameError, validate_project_name}
use goship.Entities.Resources
use goship.Entities.Resources.{Float64}

-- `Resources` of the manifest; an empty text is a size that is not given.
pub record ManifestResources : Type 0 where
  pub cpu : Float64
  pub memory : Text
  pub disk : Text

pub record ComposeRef : Type 0 where
  pub file : Text
  pub build : Option Bool

pub record Environment : Type 0 where
  pub resources : Option ManifestResources
  pub domains : List Text
  pub compose : Option ComposeRef
  pub env : Dict Text
  pub secrets : Dict Text

-- Nil secrets are told apart from empty ones by `Load`.
pub record Manifest : Type 0 where
  pub version : Text
  pub project : Text
  pub resources : Option ManifestResources
  pub domains : List Text
  pub default_domain : Text
  pub compose : Option ComposeRef
  pub env : Dict Text
  pub secrets : Option (Dict Text)
  pub secrets_file : Text
  pub environments : Dict Environment

-- An empty text is a size of nothing.
abbrev pub size_or_zero : Text → Result SizeError ℤ
size_or_zero [] = ok (pos 0)
size_or_zero (c ∷ s) = parse_size_mb (c ∷ s)

-- `ToEntityResources`
unfoldable pub to_entity_resources : Option ManifestResources → Result SizeError Resources.Resources
unfolding parse_size_mb
to_entity_resources none = ok (record { cpu = 0; memory_mb = pos 0; disk_mb = pos 0 })
to_entity_resources (some r) = do
  memory ← size_or_zero r.memory
  disk ← size_or_zero r.disk
  ok (record { cpu = r.cpu; memory_mb = memory; disk_mb = disk })

pub data ManifestError : Type 0 where
  read_failed parse_failed secrets_unreadable version_required unknown_environment : ManifestError
  bad_project : NameError → ManifestError

-- One line of a secrets file.
unfoldable pub add_secret : Text → Dict Text → Dict Text
unfolding trim_space cut put has_prefix
add_secret raw m =
    let line = trim_space raw in
    if line == lit "" || has_prefix line (lit "#")
    then m
    else elim (cut (lit "=") line) [ none ↦ m | some r ↦ put m (trim_space r.0) (trim_space r.1) ]

unfoldable pub add_secrets : List Text → Dict Text → Result ManifestError (Dict Text)
unfolding add_secret
add_secrets [] m = ok m
add_secrets (line ∷ lines) m =
    let rest = add_secrets lines (add_secret (drop_cr line) m) in
    if leb max_line (length line) then err secrets_unreadable else rest

-- `loadSecretsFile`
unfoldable pub load_secrets_file : Content → Result ManifestError (Dict Text)
unfolding raw_lines add_secrets
load_secrets_file no_file = err secrets_unreadable
load_secrets_file broken = err secrets_unreadable
load_secrets_file (bytes s) = add_secrets (raw_lines s) []

-- The text up to the last slash.
unfoldable pub to_last_slash : Text → Option Text
to_last_slash [] = none
to_last_slash (c ∷ s) = elim (to_last_slash s) [
  | some r ↦ some (c ∷ r)
  | none ↦ if c == b'/' then some (c ∷ []) else none
]

abbrev pub or_nothing : Option Text → Text
or_nothing none = []
or_nothing (some s) = s

-- filepath.Dir
unfoldable pub dir_of : Text → Text
unfolding to_last_slash clean
dir_of path = clean (or_nothing (to_last_slash path))

unfoldable pub secrets_path : Text → Text → Text
unfolding dir_of join_path has_prefix
secrets_path path file = if is_abs file then file else join_path (dir_of path) file

-- The secrets of the file, and those of the manifest over them.
abbrev pub over_file : Dict Text → Option (Dict Text) → Dict Text
over_file base none = base
over_file base (some m) = copy (copy [] base) m

abbrev pub with_secrets : Manifest → Dict Text → Manifest
with_secrets m s = record m { secrets = some s }

abbrev pub with_file : Manifest → Result ManifestError (Dict Text) → Result ManifestError Manifest
with_file m (err x) = err x
with_file m (ok base) = ok (with_secrets m (over_file base m.secrets))

unfoldable pub add_file_secrets : (Text → Content) → Text → Manifest → Result ManifestError Manifest
unfolding load_secrets_file secrets_path
add_file_secrets files path m =
    if m.secrets_file == lit ""
    then ok m
    else with_file m (load_secrets_file (files (secrets_path path m.secrets_file)))

abbrev pub checked_name : Result NameError (Unit {0}) → Result ManifestError (Unit {0})
checked_name (err x) = err (bad_project x)
checked_name (ok u) = ok tt

-- `Validate`
unfoldable pub validate : Manifest → Result ManifestError (Unit {0})
validate m = do
  require (not (m.version == lit "")) version_required
  checked_name (validate_project_name m.project)

-- `Load`: what reading and decoding the file gave, and the other files.
unfoldable pub load_manifest :
    Result ManifestError Manifest → (Text → Content) → Text → Result ManifestError Manifest
unfolding add_file_secrets validate
load_manifest decoded files path = do
  m ← decoded
  n ← add_file_secrets files path m
  validate n
  ok n

-- The test `> 0` of a float64: it is not NaN and its sign bit is clear.
abbrev pub is_positive_float : Float64 → Bool
is_positive_float bits = ltb 0 bits && leb bits 9218868437227405312

abbrev pub text_or : Text → Text → Text
text_or [] base = base
text_or (c ∷ s) base = c ∷ s

abbrev pub empty_resources : ManifestResources
empty_resources = record { cpu = 0; memory = []; disk = [] }

abbrev pub given_or {ℓ} : {A : Type ℓ} → A → Option A → A
given_or d none = d
given_or d (some a) = a

abbrev pub overlay_resources :
    Option ManifestResources → Option ManifestResources → Option ManifestResources
overlay_resources none base = base
overlay_resources (some e) base =
    let b = given_or empty_resources base in
    some (record {
      cpu = if is_positive_float e.cpu then e.cpu else b.cpu;
      memory = text_or e.memory b.memory;
      disk = text_or e.disk b.disk;
    })

abbrev pub build_or : Option Bool → Option Bool → Option Bool
build_or none base = base
build_or (some b) base = some b

abbrev pub no_compose : ComposeRef
no_compose = record { file = []; build = none }

abbrev pub overlay_compose : Option ComposeRef → Option ComposeRef → Option ComposeRef
overlay_compose none base = base
overlay_compose (some e) base =
    let b = given_or no_compose base in
    some (record { file = text_or e.file b.file; build = build_or e.build b.build })

abbrev pub overlay_map : Dict Text → Dict Text → Dict Text
overlay_map [] base = base
overlay_map (x ∷ m) base = copy (copy [] base) (x ∷ m)

abbrev pub overlay_secrets : Dict Text → Option (Dict Text) → Option (Dict Text)
overlay_secrets [] base = base
overlay_secrets (x ∷ m) base = some (overlay_map (x ∷ m) (given_or [] base))

-- The domains, and the default, which is the first of new ones.
abbrev pub overlay_domains : List Text → Manifest → Manifest
overlay_domains [] m = m
overlay_domains (d ∷ ds) m = record m { domains = d ∷ ds; default_domain = d }

unfoldable pub overlay : Environment → Manifest → Manifest
unfolding copy
overlay e m =
    let n = overlay_domains e.domains m in
    record n {
      resources = overlay_resources e.resources m.resources;
      compose = overlay_compose e.compose m.compose;
      env = overlay_map e.env m.env;
      secrets = overlay_secrets e.secrets m.secrets;
      environments = [];
    }

-- `Resolve`
unfoldable pub resolve : Text → Manifest → Result ManifestError Manifest
unfolding overlay get
resolve name m = if name == lit "" then ok m else elim (get m.environments name) [
  | none ↦ err unknown_environment
  | some e ↦ ok (overlay e m)
]
