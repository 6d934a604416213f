-- ===== src/Api/Secrets.antt =====
-- What is set as a secret by `handleEnvSet` is shown again by `handleEnvList`.
use goship.Base.{
  Text, true, false, [], ◌∷◌, Option, none, some, Dict, get, copy, get-copy, get-put_self,
  AllValues-get, AllValues, AllValues-imp, or_else, Result, ok, err, ◌≡◌, refl, ap, sym, subst, ◌∙◌,
  All,
}
use goship.Strings.{Content}
use goship.Entities.Project.{Project}
use goship.Store.Disk.{Store, StoreError, Env}
use goship.Store.Projects.{get_project, update_project}
use goship.Vault.{Aead, VaultError, new_vault, is_encrypted}
use goship.Vault.Hex.{IsByte}
use goship.Vault.Keyring.{
  KeyError, IsRandom, load_or_create_master_key, load_or_create_master_key-stays,
}
use goship.Vault.Encryption.{IsAuthentic}
use goship.Api.Projects.{assign_project}
use goship.Api.Replies.{known_project}
use goship.Api.Environments.{
  VaultEnv, Secrets, with_vault, opened_with, init_vault, encrypt_all, encrypted_with, or_new,
  with_env, set_values, set_env_of, save_env, env_saved, handle_env_set, handle_env_list,
}
use goship.Api.Revealing.{
  reveal, revealed, IsReadable, HasNonces, encrypt_all_reads, decrypt_env_reads, AllValues-copy,
}
use goship.Api.Stored.{HasProject, update_project-HasProject}

-- What is relied on of the cipher and of the random bytes of a request.
pub record IsReliable (e : VaultEnv) : Type 0 where
  pub random : IsRandom e.key_env
  pub authentic : (key : Text) (v : Aead) → new_vault e.cipher key ≡ ok v → IsAuthentic v
  pub has_nonces : (key : Text) (v : Aead) → new_vault e.cipher key ≡ ok v → HasNonces v e.nonces

-- A vault that was made can be made again from the file that is there then, which stays.
record Opened (e : VaultEnv) (v : Aead) (after : Content) : Type 0 where
  key : Text
  made : new_vault e.cipher key ≡ ok v
  again : (d : VaultEnv) → d.cipher ≡ e.cipher → init_vault d after ≡ (some v, after)

init_vault-Opened :
    (e : VaultEnv) (f after : Content) (v : Aead)
    → IsReliable e
    → init_vault e f ≡ (some v, after)
    → Opened e v after
unfolding init_vault
init_vault-Opened e f after v r h = go (load_or_create_master_key e.key_env f) refl h
  where
    go :
        (l : Result KeyError Text × Content)
        → load_or_create_master_key e.key_env f ≡ l
        → with_vault e l ≡ (some v, after)
        → Opened e v after
    go (err x, g) el w = cc
    go (ok key, g) el w = vault (new_vault e.cipher key) refl w
      where
        vault :
            (n : Result VaultError Aead)
            → new_vault e.cipher key ≡ n
            → opened_with n g ≡ (some v, after)
            → Opened e v after
        vault (err x) en q = cc
        vault (ok u) en q =
            let same : u ≡ v = cc q in
            let stays : g ≡ after = ap (λ r. r.1) q in
            let made : new_vault e.cipher key ≡ ok v = rw (← same) en in
            record {
              key = key;
              made = made;
              again = λ d c.
                  rw
                    (
                      init_vault,
                      load_or_create_master_key-stays e.key_env f key after r.random
                          (rw (← stays) el) d.key_env,
                    )
                    (rw (c, made) refl);
            }

known_project_by_id :
    (id : Text) (p : Project) (s : Store)
    → get s.state.projects id ≡ some p
    → known_project id s ≡ ok p
unfolding known_project get_project
known_project_by_id id p s h = rw (known_project, get_project, h) refl

-- Listing where every value can be read with a vault that can be made again.
list_reads :
    (id : Text) (p : Project) (m : Dict Text) (d : VaultEnv) (v : Aead) (w : Secrets)
    → get w.store.state.projects id ≡ some p
    → or_new p.env ≡ m
    → init_vault d w.key_file ≡ (some v, w.key_file)
    → AllValues (IsReadable v) m
    → (shown : Dict Text) × (handle_env_list id true d w ≡ (ok shown, w))
      × ((k : Text) → get shown k ≡ revealed v (get m k))
unfolding handle_env_list
list_reads id p m d v w there env again readable =
    let r = decrypt_env_reads d v w.key_file m none again readable in
    (r.0, rw (known_project_by_id id p w.store there, handle_env_list) (rw (env, r.1) refl), r.2)

reveal_plain_text : (v : Aead) (x : Text) → is_encrypted x ≡ false → reveal v x ≡ ok x
unfolding reveal
reveal_plain_text v x h = rw h refl

reveal_plain : (v : Aead) (x : Text) → is_encrypted x ≡ false → IsReadable v x
reveal_plain v x h = record { plain = x; reads = reveal_plain_text v x h }

revealed_plain :
    (v : Aead) (m : Dict Text) (k : Text)
    → AllValues (λ x. is_encrypted x ≡ false) m
    → revealed v (get m k) ≡ get m k
revealed_plain v m k h = go (get m k) refl
  where
    go : (o : Option Text) → get m k ≡ o → revealed v o ≡ o
    go none eo = refl
    go (some x) eo =
        let plain = AllValues-get (λ x. is_encrypted x ≡ false) m k x h eo in
        rw (revealed, reveal_plain_text v x plain) refl

revealed_either :
    (v : Aead) (a b c d : Option Text)
    → ((x : Text) → a ≡ some x → IsReadable v x)
    → revealed v a ≡ c
    → revealed v b ≡ d
    → revealed v (or_else a b) ≡ or_else c d
revealed_either v none b none d i h g = g
revealed_either v none b (some y) d i h g = cc
revealed_either v (some x) b c d i h g =
    let r = i x refl in
    let known : c ≡ some r.plain = sym h ∙ rw (revealed, r.reads) refl in
    rw known (rw (revealed, r.reads) refl)

module _ (p : Project) (req : Dict Text) (ve d : VaultEnv) (e : Env) (r : IsReliable ve)
    (bs : AllValues (All IsByte) req) (old : AllValues (λ x. is_encrypted x ≡ false) (or_new p.env))
    (same : d.cipher ≡ ve.cipher) where
  -- What a later listing shows.
  abbrev Shows : Secrets → Type 0
  Shows after =
      (m : Dict Text) × (handle_env_list p.id true d after ≡ (ok m, after))
      × ((k : Text) → get m k ≡ or_else (get req k) (get (or_new p.env) k))

  saved-Shows :
      (s : Store) (v : Aead) (enc : Dict Text) (f : Content) (shown : Dict Text) (after : Secrets)
      → Opened ve v f
      → encrypt_all v ve.nonces 0 req ≡ some enc
      → save_env (with_env p (copy (or_new p.env) enc)) e s f ≡ (ok shown, after)
      → Shows after
  unfolding assign_project
  saved-Shows s v enc f shown after o ee h =
      go (update_project (some q) e (assign_project q s)) refl
        (update_project-HasProject q e (assign_project q s)
          (record { time = q.updated_at; there = get-put_self s.state.projects p.id q }))
        h
    where
      q : Project
      q = with_env p (copy (or_new p.env) enc)

      go :
          (u : Result StoreError (Unit {0}) × Store)
          → update_project (some q) e (assign_project q s) ≡ u
          → HasProject q u.1
          → env_saved q u f ≡ (ok shown, after)
          → Shows after
      go (err x, t) eu has g = cc
      go (ok u, t) eu has g =
          let nonces = r.has_nonces o.key v o.made in
          let reads =
            encrypt_all_reads v ve.nonces (r.authentic o.key v o.made) nonces req 0 enc bs ee in
          let readable =
            AllValues-copy (IsReadable v) (or_new p.env) enc
              (AllValues-imp (λ x. is_encrypted x ≡ false) (IsReadable v) (reveal_plain v)
                (or_new p.env) old)
              reads.0 in
          let w : Secrets = record { store = t; key_file = f } in
          let l =
            list_reads p.id (record q { updated_at = has.time }) (copy (or_new p.env) enc) d v w
              has.there refl (o.again d same) readable in
          let shows : Shows w = (
            l.0,
            l.1,
            λ k.
                l.2 k
                ∙ rw (get-copy (or_new p.env) enc k) (
                    revealed_either v (get enc k) (get (or_new p.env) k) (get req k)
                      (get (or_new p.env) k) (λ x. AllValues-get (IsReadable v) enc k x reads.0)
                      (reads.1 k) (revealed_plain v (or_new p.env) k old)),
          ) in
          subst Shows (ap (λ x. x.1) g) shows

-- A project that stands under its ID, and whose values so far are not encrypted; the values of the
-- request are bytes. If a request to set
-- secret values is answered with ok, every later listing that shows values answers with ok, with the
-- values of the request and the other values as they were, and changes nothing. The listing may meet
-- any system, but has the same cipher, whose `Open` undoes its `Seal` and whose nonces fit it.
pub handle_env_list-set :
    (p : Project) (req : Dict Text) (ve d : VaultEnv) (e : Env) (w : Secrets) (shown : Dict Text)
    (after : Secrets)
    → get w.store.state.projects p.id ≡ some p
    → AllValues (λ x. is_encrypted x ≡ false) (or_new p.env)
    → AllValues (All IsByte) req
    → IsReliable ve
    → d.cipher ≡ ve.cipher
    → handle_env_set p.id (some (record { env = req; secret = true })) ve e w ≡ (ok shown, after)
    → (m : Dict Text) × (handle_env_list p.id true d after ≡ (ok m, after))
      × ((k : Text) → get m k ≡ or_else (get req k) (get (or_new p.env) k))
unfolding handle_env_set
handle_env_list-set p req ve d e w shown after stands old bs r same h =
    go req bs (rw (known_project_by_id p.id p w.store stands, handle_env_set) at h)
  where
    go :
        (req : Dict Text) (bs : AllValues (All IsByte) req)
        → set_env_of (ok p) (some (record { env = req; secret = true })) ve e w ≡ (ok shown, after)
        → Shows p req ve d e r bs old same after
    go [] bs g = cc
    go (x ∷ req) bs g = made (init_vault ve w.key_file) refl g
      where
        made :
            (i : Option Aead × Content)
            → init_vault ve w.key_file ≡ i
            → set_values p e (encrypted_with ve (x ∷ req) i.0, i.1) w.store ≡ (ok shown, after)
            → Shows p (x ∷ req) ve d e r bs old same after
        made (none, f) ei g = cc
        made (some v, f) ei g = sealed (encrypt_all v ve.nonces 0 (x ∷ req)) refl g
          where
            sealed :
                (c : Option (Dict Text))
                → encrypt_all v ve.nonces 0 (x ∷ req) ≡ c
                → set_values p e (c, f) w.store ≡ (ok shown, after)
                → Shows p (x ∷ req) ve d e r bs old same after
            sealed none ec g = cc
            sealed (some enc) ec g =
                saved-Shows p (x ∷ req) ve d e r bs old same w.store v enc f shown after
                  (init_vault-Opened ve w.key_file f v r ei) ec g
