-- ===== src/Api/Revealing.antt =====
-- The loops of `handleEnvSet` and `decryptEnv` over the values of an environment.
use goship.Base.{
  Text, ℕ, suc, Bool, true, false, [], ◌∷◌, Option, none, some, Dict, get, copy, AllValues,
  AllValues-put, length, All, ◌==◌, text_eq, Result, ok, err, if◌then◌else◌, ◌≡◌, refl, ap, sym,
  subst, Bool-cases, inl, inr,
}
use goship.Strings.{Content}
use goship.Vault.{Aead, VaultError, encrypt, decrypt, is_encrypted}
use goship.Vault.Hex.{IsByte}
use goship.Vault.Encryption.{IsAuthentic, decrypt-encrypt}
use goship.Api.Environments.{VaultEnv, vault_or_init, encrypted_entry, encrypt_all, decrypt_env}

-- What a stored value stands for.
unfoldable pub reveal : Aead → Text → Result VaultError Text
reveal v x = if is_encrypted x then decrypt v x else ok x

abbrev pub revealed : Aead → Option Text → Option Text
revealed v none = none
revealed v (some x) = elim (reveal v x) [ ok plain ↦ some plain | err e ↦ none ]

-- A value that stands for some text.
pub record IsReadable (v : Aead) (x : Text) : Type 0 where
  pub plain : Text
  pub reads : reveal v x ≡ ok plain

reveal-opens :
    (v : Aead) (x plain : Text)
    → is_encrypted x ≡ true
    → reveal v x ≡ ok plain
    → decrypt v x ≡ ok plain
unfolding reveal
reveal-opens v x plain b h = rw b at h

revealed-cons :
    (v : Aead) (k c x : Text) (m n : Dict Text)
    → reveal v c ≡ ok x
    → ((j : Text) → revealed v (get m j) ≡ get n j)
    → (j : Text) → revealed v (get ((k, c) ∷ m) j) ≡ get ((k, x) ∷ n) j
unfolding get
revealed-cons v k c x m n reads h j = elim (Bool-cases (k == j)) [
  | inl t ↦ rw t (rw (reads, revealed) refl)
  | inr f ↦ rw f (h j)
]

-- The nonces of a request, where there are some, fit the cipher.
pub record HasNonces (v : Aead) (nonces : ℕ → Option Text) : Type 0 where
  pub sized : (n : ℕ) (x : Text) → nonces n ≡ some x → length x ≡ v.nonce_size
  pub bytes_only : (n : ℕ) (x : Text) → nonces n ≡ some x → All IsByte x

module _ (v : Aead) (nonces : ℕ → Option Text) (a : IsAuthentic v) (h : HasNonces v nonces) where
  reveal-encrypt :
      (n : ℕ) (plain value : Text)
      → All IsByte plain
      → encrypt v (nonces n) plain ≡ ok value
      → reveal v value ≡ ok plain
  unfolding reveal encrypt
  reveal-encrypt n plain value bs e = go (nonces n) refl
    where
      go : (o : Option Text) → nonces n ≡ o → reveal v value ≡ ok plain
      go none eo = cc (rw (eo, encrypt) at e)
      go (some x) eo =
          let r =
            decrypt-encrypt v x plain value a (h.sized n x eo) (h.bytes_only n x eo) bs
              (rw eo at e) in
          rw (r.0, reveal) r.1

  -- The values that are stored stand for those of the request.
  pub encrypt_all_reads :
      (req : Dict Text) (n : ℕ) (m : Dict Text)
      → AllValues (All IsByte) req
      → encrypt_all v nonces n req ≡ some m
      → AllValues (IsReadable v) m × ((k : Text) → revealed v (get m k) ≡ get req k)
  unfolding encrypt_all get
  encrypt_all_reads [] n m bs e =
      let q : [] ≡ m = cc e in
      subst (λ m. AllValues (IsReadable v) m × ((k : Text) → revealed v (get m k) ≡ get [] k)) q
        (tt, λ k. refl)
  encrypt_all_reads ((k, x) ∷ req) n m bs e =
      go (encrypt v (nonces n) x) refl (encrypt_all v nonces (suc n) req) refl
        (λ m. encrypt_all_reads req (suc n) m bs.1) e
    where
      go :
          (c : Result VaultError Text)
          → encrypt v (nonces n) x ≡ c
          → (r : Option (Dict Text)) → encrypt_all v nonces (suc n) req ≡ r
          → ((m : Dict Text)
              → encrypt_all v nonces (suc n) req ≡ some m
              → AllValues (IsReadable v) m × ((k : Text) → revealed v (get m k) ≡ get req k))
          → encrypted_entry k c r ≡ some m
          → AllValues (IsReadable v) m × ((j : Text) → revealed v (get m j) ≡ get ((k, x) ∷ req) j)
      go (err y) ec r er later g = cc
      go (ok c) ec none er later g = cc
      go (ok c) ec (some rest) er later g =
          let l = later rest er in
          let reads = reveal-encrypt n x c bs.0 ec in
          let q : (k, c) ∷ rest ≡ m = cc g in
          subst
            (λ m.
              AllValues (IsReadable v) m
              × ((j : Text) → revealed v (get m j) ≡ get ((k, x) ∷ req) j))
            q ((record { plain = x; reads = reads }, l.0), revealed-cons v k c x rest req reads l.1)

pub AllValues-copy :
    (P : Text → Type 0) (dst src : Dict Text)
    → AllValues P dst
    → AllValues P src
    → AllValues P (copy dst src)
unfolding copy
AllValues-copy P dst [] h g = h
AllValues-copy P dst ((k, x) ∷ src) h g =
    AllValues-put P (copy dst src) k x (AllValues-copy P dst src h g.1) g.0

module _ (e : VaultEnv) (v : Aead) (f : Content) where
  -- The loop of `decryptEnv` where the vault is there, or can be made without a change of the file.
  pub decrypt_env_reads :
      (m : Dict Text) (o : Option Aead)
      → vault_or_init e o f ≡ (some v, f)
      → AllValues (IsReadable v) m
      → (shown : Dict Text) × (decrypt_env e m o f ≡ (some shown, f))
        × ((k : Text) → get shown k ≡ revealed v (get m k))
  unfolding decrypt_env get reveal
  decrypt_env_reads [] o i h = ([], refl, λ k. refl)
  decrypt_env_reads ((k, x) ∷ m) o i h =
      go (is_encrypted x) refl (decrypt_env_reads m o i h.1) (decrypt_env_reads m (some v) refl h.1)
    where
      go :
          (b : Bool)
          → is_encrypted x ≡ b
          → ((shown : Dict Text) × (decrypt_env e m o f ≡ (some shown, f))
              × ((k : Text) → get shown k ≡ revealed v (get m k)))
          → ((shown : Dict Text) × (decrypt_env e m (some v) f ≡ (some shown, f))
              × ((k : Text) → get shown k ≡ revealed v (get m k)))
          → (shown : Dict Text) × (decrypt_env e ((k, x) ∷ m) o f ≡ (some shown, f))
            × ((j : Text) → get shown j ≡ revealed v (get ((k, x) ∷ m) j))
      go false eb plain sealed =
          let reads : reveal v x ≡ ok x = rw (eb, reveal) refl in
          (
            (k, x) ∷ plain.0,
            rw (eb, plain.1) refl,
            λ j. sym (revealed-cons v k x x m plain.0 reads (λ j. sym (plain.2 j)) j),
          )
      go true eb plain sealed =
          let opens = reveal-opens v x h.0.plain eb h.0.reads in
          (
            (k, h.0.plain) ∷ sealed.0,
            rw (eb, ap (λ r. r.0) i, ap (λ r. r.1) i, opens, ap (λ r. r.0) i, sealed.1) refl,
            λ j. sym (revealed-cons v k x h.0.plain m sealed.0 h.0.reads (λ j. sym (sealed.2 j)) j),
          )
