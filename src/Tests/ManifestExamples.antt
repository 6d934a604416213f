-- ===== src/Tests/ManifestExamples.antt =====
-- A manifest with an environment and a file of secrets, and a serial device.
use goship.Base.{
  Text, lit, [], ◌∷◌, Option, none, some, get, copy, or_else, text_beq, contains_rune, ok, ◌≡◌, ◌≢◌,
  refl,
}
use goship.Strings.{Content, bytes, unsnoc}
use goship.Entities.Name.{validate_project_name, validate_path_component}
use goship.Manifest.{
  Manifest, Environment, resolve, load_manifest, validate, secrets_path, given_or,
}
use goship.Manifest.Overlay.{resolve_exact, load_manifest_exact, domains_over, Reads}
use goship.Guest.Message.{InitCommand}
use goship.Tests.Fixtures.{update_command}

abbrev staging : Environment
staging = record {
  resources = none;
  domains = lit "staging.example.org" ∷ [];
  compose = none;
  env = (lit "MODE", lit "staging") ∷ [];
  secrets = [];
}

abbrev shop : Manifest
shop = record {
  version = lit "1";
  project = lit "shop";
  resources = none;
  domains = lit "example.org" ∷ [];
  default_domain = lit "example.org";
  compose = none;
  env = (lit "MODE", lit "production") ∷ ((lit "LANG", lit "en") ∷ []);
  secrets = some ((lit "TOKEN", lit "inline") ∷ []);
  secrets_file = lit "secrets";
  environments = (lit "staging", staging) ∷ [];
}

abbrev disk : Text → Content
disk path = bytes (lit "TOKEN=file")

abbrev loaded : Manifest
loaded = record shop { secrets = some ((lit "TOKEN", lit "inline") ∷ []) }

staging-there : get shop.environments (lit "staging") ≡ some staging
unfolding get text_beq
staging-there = refl

shop-loads : load_manifest (ok shop) disk (lit "goship.yml") ≡ ok loaded
unfolding load_manifest text_beq validate_project_name validate_path_component contains_rune copy
    unsnoc
shop-loads = refl

abbrev decode : Text → Option InitCommand
decode s = some update_command

-- Witnesses.
resolve_exact_example :
    (r : Manifest) × (resolve (lit "staging") shop ≡ ok r)
    × ((k : Text) → get r.env k ≡ or_else (get staging.env k) (get shop.env k))
    × ((k : Text)
        → get (given_or [] r.secrets) k
          ≡ or_else (get staging.secrets k) (get (given_or [] shop.secrets) k))
    × (r.domains ≡ domains_over staging.domains shop.domains)
    × (r.project ≡ shop.project)
    × (r.version ≡ shop.version)
    × (r.environments ≡ [])
resolve_exact_example = resolve_exact shop (lit "staging") staging (λ e. cc) staging-there

load_manifest_exact_example :
    (validate loaded ≡ ok tt)
    × (lit "secrets" ≡ lit "" → loaded ≡ shop)
    × (lit "secrets" ≢ lit ""
        → Reads (disk (secrets_path (lit "goship.yml") (lit "secrets"))) shop loaded)
load_manifest_exact_example = load_manifest_exact shop loaded disk (lit "goship.yml") shop-loads
