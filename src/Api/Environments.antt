-- ===== src/Api/Environments.antt =====
-- internal/api/env_handlers.go: the environment of a project, and its secret values.
use goship.Base.{
  Text, ℕ, suc, Bool, not, List, [], ◌∷◌, Option, none, some, Dict, remove, copy, Result, ok, err,
  if◌then◌else◌,
}
use goship.Strings.{Content}
use goship.Entities.Project.{Project}
use goship.Store.Disk.{Store, StoreError, Env}
use goship.Store.Projects.{update_project}
use goship.Vault.{Aead, Cipher, VaultError, new_vault, encrypt, decrypt, is_encrypted}
use goship.Vault.Keyring.{KeyError, KeyEnv, load_or_create_master_key}
use goship.Api.Projects.{assign_project}
use goship.Api.Replies.{ApiError, bad_request, not_found, server_error, known_project, project_now}

pub record SetEnvRequest : Type 0 where
  pub env : Dict Text
  pub secret : Bool

-- What the vault of one request meets: the cipher, the system at the file of the master key, and
-- the nonces in their order.
pub record VaultEnv : Type 0 where
  pub cipher : Cipher
  pub key_env : KeyEnv
  pub nonces : ℕ → Option Text

-- The store, and the file of the master key.
pub record Secrets : Type 0 where
  pub store : Store
  pub key_file : Content

abbrev pub opened_with : Result VaultError Aead → Content → Option Aead × Content
opened_with (err x) f = (none, f)
opened_with (ok v) f = (some v, f)

abbrev pub with_vault : VaultEnv → Result KeyError Text × Content → Option Aead × Content
with_vault e (err x, f) = (none, f)
with_vault e (ok key, f) = opened_with (new_vault e.cipher key) f

-- `initVault`; nothing if it fails.
unfoldable pub init_vault : VaultEnv → Content → Option Aead × Content
unfolding load_or_create_master_key new_vault
init_vault e f = with_vault e (load_or_create_master_key e.key_env f)

abbrev pub encrypted_entry : Text → Result VaultError Text → Option (Dict Text) → Option (Dict Text)
encrypted_entry k (ok c) (some m) = some ((k, c) ∷ m)
encrypted_entry k (ok c) none = none
encrypted_entry k (err x) m = none

-- The loop that encrypts the values of the request, from the n-th nonce on.
unfoldable pub encrypt_all : Aead → (ℕ → Option Text) → ℕ → Dict Text → Option (Dict Text)
unfolding encrypt
encrypt_all v nonces n [] = some []
encrypt_all v nonces n ((k, x) ∷ m) =
    encrypted_entry k (encrypt v (nonces n) x) (encrypt_all v nonces (suc n) m)

abbrev pub encrypted_with : VaultEnv → Dict Text → Option Aead → Option (Dict Text)
encrypted_with e env none = none
encrypted_with e env (some v) = encrypt_all v e.nonces 0 env

-- The values to store, and the file of the key; nothing if the vault fails.
abbrev pub values_to_store : VaultEnv → SetEnvRequest → Content → Option (Dict Text) × Content
values_to_store e req f =
    let r = init_vault e f in
    if req.secret then (encrypted_with e req.env r.0, r.1) else (some req.env, f)

abbrev pub or_new : Option (Dict Text) → Dict Text
or_new none = []
or_new (some m) = m

abbrev pub with_env : Project → Dict Text → Project
with_env p m = record p { env = some m }

abbrev pub env_now : Project → Store → Dict Text
env_now p s = or_new (project_now p s).env

abbrev pub env_saved :
    Project → Result StoreError (Unit {0}) × Store → Content → Result ApiError (Dict Text) × Secrets
env_saved p (err x, s) f = (err server_error, record { store = s; key_file = f })
env_saved p (ok u, s) f = (ok (env_now p s), record { store = s; key_file = f })

abbrev pub save_env : Project → Env → Store → Content → Result ApiError (Dict Text) × Secrets
save_env p e s f = env_saved p (update_project (some p) e (assign_project p s)) f

-- A nil map is replaced before the vault is asked.
abbrev pub set_values :
    Project → Env → Option (Dict Text) × Content → Store → Result ApiError (Dict Text) × Secrets
set_values p e (none, f) s = (
  err server_error,
  record { store = assign_project (with_env p (or_new p.env)) s; key_file = f },
)
set_values p e (some m, f) s = save_env (with_env p (copy (or_new p.env) m)) e s f

abbrev pub set_env_of :
    Result ApiError Project
    → Option SetEnvRequest
    → VaultEnv
    → Env
    → Secrets
    → Result ApiError (Dict Text) × Secrets
set_env_of (err x) req v e w = (err x, w)
set_env_of (ok p) none v e w = (err bad_request, w)
set_env_of (ok p) (some req) v e w = elim req.env [
  | [] ↦ (err bad_request, w)
  | x ∷ m ↦ set_values p e (values_to_store v req w.key_file) w.store
]

-- `handleEnvSet`
unfoldable pub handle_env_set :
    Text → Option SetEnvRequest → VaultEnv → Env → Secrets → Result ApiError (Dict Text) × Secrets
unfolding known_project encrypt_all init_vault update_project assign_project
handle_env_set id req v e w = set_env_of (known_project id w.store) req v e w

abbrev pub add_entry : Text → Text → Option (Dict Text) × Content → Option (Dict Text) × Content
add_entry k x (none, f) = (none, f)
add_entry k x (some m, f) = (some ((k, x) ∷ m), f)

abbrev pub add_plain :
    Text
    → Result VaultError Text
    → Option (Dict Text) × Content
    → Content
    → Option (Dict Text) × Content
add_plain k (err x) r f = (none, f)
add_plain k (ok plain) r f = add_entry k plain r

-- A vault that is there, or else the one that `initVault` makes now.
abbrev pub vault_or_init : VaultEnv → Option Aead → Content → Option Aead × Content
vault_or_init e (some v) f = (some v, f)
vault_or_init e none f = init_vault e f

-- `decryptEnv`: the loop over the map, with the vault once it was made; nothing on an error.
unfoldable pub decrypt_env :
    VaultEnv → Dict Text → Option Aead → Content → Option (Dict Text) × Content
unfolding is_encrypted decrypt init_vault
decrypt_env e [] v f = (some [], f)
decrypt_env e ((k, x) ∷ m) v f =
    let plain = add_entry k x (decrypt_env e m v f) in
    let r = vault_or_init e v f in
    let rest = decrypt_env e m r.0 r.1 in
    if not (is_encrypted x)
    then plain
    else elim r.0 [ none ↦ (none, r.1) | some a ↦ add_plain k (decrypt a x) rest r.1 ]

abbrev pub listed : Secrets → Option (Dict Text) × Content → Result ApiError (Dict Text) × Secrets
listed w (none, f) = (err server_error, record w { key_file = f })
listed w (some m, f) = (ok m, record w { key_file = f })

abbrev pub list_env_of :
    Result ApiError Project → Bool → VaultEnv → Secrets → Result ApiError (Dict Text) × Secrets
list_env_of (err x) show_values v w = (err x, w)
list_env_of (ok p) show_values v w =
    if show_values
    then listed w (decrypt_env v (or_new p.env) none w.key_file)
    else (ok (or_new p.env), w)

-- `handleEnvList`
unfoldable pub handle_env_list :
    Text → Bool → VaultEnv → Secrets → Result ApiError (Dict Text) × Secrets
unfolding known_project decrypt_env
handle_env_list id show_values v w = list_env_of (known_project id w.store) show_values v w

unfoldable pub remove_keys : Dict Text → List Text → Dict Text
unfolding remove
remove_keys m [] = m
remove_keys m (k ∷ ks) = remove_keys (remove m k) ks

abbrev pub delete_keys :
    Project → List Text → Env → Secrets → Option (Dict Text) → Result ApiError (Dict Text) × Secrets
delete_keys p keys e w none = (err not_found, w)
delete_keys p keys e w (some m) = save_env (with_env p (remove_keys m keys)) e w.store w.key_file

abbrev pub delete_env_of :
    Result ApiError Project
    → Option (List Text)
    → Env
    → Secrets
    → Result ApiError (Dict Text) × Secrets
delete_env_of (err x) req e w = (err x, w)
delete_env_of (ok p) none e w = (err bad_request, w)
delete_env_of (ok p) (some []) e w = (err bad_request, w)
delete_env_of (ok p) (some (k ∷ ks)) e w = delete_keys p (k ∷ ks) e w p.env

-- `handleEnvDelete`; the request is its keys.
unfoldable pub handle_env_delete :
    Text → Option (List Text) → Env → Secrets → Result ApiError (Dict Text) × Secrets
unfolding known_project remove_keys update_project assign_project
handle_env_delete id req e w = delete_env_of (known_project id w.store) req e w
