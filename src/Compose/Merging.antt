-- ===== src/Compose/Merging.antt =====
-- The environment of a service, key by key: the environment section, substituted, then the env
-- files from the last to the first.
use goship.Base.{
  Text, List, [], ◌∷◌, Option, none, some, Dict, get, copy, get-copy, get-map_values, or_else,
  Result, ok, err, ◌≡◌, refl, ap, ◌∙◌,
}
use mathlib.Core.Option
use goship.Compose.Service.{ComposeService}
use goship.Compose.EnvFile.{EnvFileError, load_env_file}
use goship.Compose.Substitute.{resolve_value, substitute_vars}
use goship.Compose.Parsing.{
  Outside, Warning, env_path, add_file, load_env_files, env_files, raw_env, resolve_service_env,
}

-- What a file that could be read has for a key.
abbrev pub file_value : Result EnvFileError (Dict Text) → Text → Option Text
file_value (ok vars) k = get vars k
file_value (err e) k = none

-- The value in the last of the files that has the key.
abbrev pub files_value : Outside → Text → List Text → Text → Option Text
files_value out base_dir [] k = none
files_value out base_dir (p ∷ ps) k =
    or_else (files_value out base_dir ps k)
      (file_value (load_env_file (out.read (env_path base_dir p))) k)

or_else_assoc : (a b c : Option Text) → or_else a (or_else b c) ≡ or_else (or_else a b) c
or_else_assoc none b c = refl
or_else_assoc (some x) b c = refl

or_else-none : (a : Option Text) → or_else a none ≡ a
or_else-none none = refl
or_else-none (some x) = refl

get-add_file :
    (name p : Text) (r : Result EnvFileError (Dict Text)) (acc : Dict Text × List Warning)
    (k : Text)
    → get (add_file name p r acc).0 k ≡ or_else (file_value r k) (get acc.0 k)
get-add_file name p (ok vars) (base, ws) k = get-copy base vars k
get-add_file name p (err e) (base, ws) k = refl

get-load_env_files :
    (out : Outside) (name base_dir : Text) (ps : List Text) (acc : Dict Text × List Warning)
    (k : Text)
    → get (load_env_files out name base_dir ps acc).0 k
      ≡ or_else (files_value out base_dir ps k) (get acc.0 k)
unfolding load_env_files
get-load_env_files out name base_dir [] acc k = refl
get-load_env_files out name base_dir (p ∷ ps) acc k =
    let r = load_env_file (out.read (env_path base_dir p)) in
    get-load_env_files out name base_dir ps (add_file name (env_path base_dir p) r acc) k
    ∙ (ap (or_else (files_value out base_dir ps k))
          (get-add_file name (env_path base_dir p) r acc k)
        ∙ or_else_assoc (files_value out base_dir ps k) (file_value r k) (get acc.0 k))

-- If the fields of a service are well formed, its environment is found, and a key has in it the
-- value of the environment section, with references replaced by the values of the env files or the
-- host and of nothing else, or else the value of the last env file that could be read and has it.
pub resolve_service_env_exact :
    (out : Outside) (name : Text) (svc : ComposeService) (base_dir : Text) (paths : List Text)
    (raw : Dict Text)
    → env_files svc.env_file ≡ ok paths
    → raw_env svc.environment ≡ ok raw
    → (env : Dict Text) × (ws : List Warning) × (resolve_service_env out name svc base_dir
        ≡ ok (env, ws))
      × ((k : Text)
          → get env k
            ≡ or_else
                (Option.map
                  (resolve_value out.host (load_env_files out name base_dir paths ([], [])).0)
                  (get raw k))
                (files_value out base_dir paths k))
unfolding resolve_service_env substitute_vars get
resolve_service_env_exact out name svc base_dir paths raw ep er =
    let base = load_env_files out name base_dir paths ([], []) in
    let here : (k : Text) → get base.0 k ≡ files_value out base_dir paths k = (λ k.
      get-load_env_files out name base_dir paths ([], []) k
      ∙ or_else-none (files_value out base_dir paths k)) in
    (
      copy (copy [] base.0) (substitute_vars out.host raw base.0),
      base.1,
      rw (ep, er, resolve_service_env) refl,
      λ k.
          rw (get-copy, get-copy, get-map_values, here k)
            (ap (or_else (Option.map (resolve_value out.host base.0) (get raw k)))
              (or_else-none (files_value out base_dir paths k))),
    )
