-- ===== src/Manifest/Overlay.antt =====
-- What an environment overlays, and what the secrets of a manifest override.
use goship.Base.{
  Text, lit, Bool, true, false, List, [], ◌∷◌, Option, none, some, Dict, get, copy, get-copy,
  or_else, if◌then◌else◌, subst, ◌>>◌, ◌==◌, text_eq, text_beq_iff, Bool-cases, inl, inr, Result,
  ok, err, bind-eq-ok, ok_injective, ◌≡◌, ◌≢◌, refl, sym, ap, ◌∙◌,
}
use goship.Strings.{Content}
use goship.Manifest.{
  Manifest, Environment, ManifestError, resolve, overlay, overlay_map, overlay_secrets,
  overlay_domains, given_or, load_manifest, add_file_secrets, with_file, over_file, validate,
  with_secrets, load_secrets_file, secrets_path,
}

or_else-none : {A : Type 0} (a : Option A) → or_else a none ≡ a
or_else-none none = refl
or_else-none (some a) = refl

get-copied :
    (base over : Dict Text) (k : Text)
    → get (copy (copy [] base) over) k ≡ or_else (get over k) (get base k)
unfolding get
get-copied base over k =
    get-copy (copy [] base) over k
    ∙ ap (or_else (get over k)) (get-copy [] base k ∙ or_else-none (get base k))

get-overlay_map :
    (e base : Dict Text) (k : Text) → get (overlay_map e base) k ≡ or_else (get e k) (get base k)
unfolding get
get-overlay_map [] base k = refl
get-overlay_map (x ∷ m) base k = get-copied base (x ∷ m) k

get-overlay_secrets :
    (e : Dict Text) (base : Option (Dict Text)) (k : Text)
    → get (given_or [] (overlay_secrets e base)) k ≡ or_else (get e k) (get (given_or [] base) k)
unfolding get
get-overlay_secrets [] base k = refl
get-overlay_secrets (x ∷ m) base k = get-overlay_map (x ∷ m) (given_or [] base) k

-- The domains of the second, if it has some.
abbrev pub domains_over : List Text → List Text → List Text
domains_over [] base = base
domains_over (d ∷ ds) base = d ∷ ds

overlay_domains-domains :
    (ds : List Text) (m : Manifest) → (overlay_domains ds m).domains ≡ domains_over ds m.domains
overlay_domains-domains [] m = refl
overlay_domains-domains (d ∷ ds) m = refl

overlay_domains-names :
    (ds : List Text) (m : Manifest)
    → ((overlay_domains ds m).project ≡ m.project) × ((overlay_domains ds m).version ≡ m.version)
overlay_domains-names [] m = (refl, refl)
overlay_domains-names (d ∷ ds) m = (refl, refl)

-- Resolving for an environment that the manifest has gives a manifest of the same project and
-- version without environments. A variable or a secret has the value of the environment, or else
-- that of the manifest, and the domains are those of the environment if it has some.
pub resolve_exact :
    (m : Manifest) (name : Text) (e : Environment)
    → name ≢ lit ""
    → get m.environments name ≡ some e
    → (r : Manifest) × (resolve name m ≡ ok r)
      × ((k : Text) → get r.env k ≡ or_else (get e.env k) (get m.env k))
      × ((k : Text)
          → get (given_or [] r.secrets) k
            ≡ or_else (get e.secrets k) (get (given_or [] m.secrets) k))
      × (r.domains ≡ domains_over e.domains m.domains)
      × (r.project ≡ m.project)
      × (r.version ≡ m.version)
      × (r.environments ≡ [])
unfolding resolve overlay
resolve_exact m name e named there = elim (Bool-cases (name == lit "")) [
  | inl t ↦ absurd (named ((text_beq_iff _ _).0 t))
  | inr f ↦ (
    overlay e m,
    rw (f, resolve) (rw there refl),
    get-overlay_map e.env m.env,
    get-overlay_secrets e.secrets m.secrets,
    overlay_domains-domains e.domains m,
    (overlay_domains-names e.domains m).0,
    (overlay_domains-names e.domains m).1,
    refl,
  )
]

get-over_file :
    (base : Dict Text) (inline : Option (Dict Text)) (k : Text)
    → get (over_file base inline) k ≡ or_else (get (given_or [] inline) k) (get base k)
unfolding get
get-over_file base none k = refl
get-over_file base (some m) k = get-copied base m k

-- The secrets that a manifest has once it is loaded.
abbrev pub secret : Manifest → Text → Option Text
secret m k = get (given_or [] m.secrets) k

-- What a file of secrets adds.
abbrev pub Reads : Content → Manifest → Manifest → Type 0
Reads file m x =
    (base : Dict Text) × (load_secrets_file file ≡ ok base)
    × ((k : Text) → secret x k ≡ or_else (secret m k) (get base k))

with_file-Reads :
    (file : Content) (m x : Manifest) (b : Bool)
    → (if b then ok m else with_file m (load_secrets_file file)) ≡ ok x
    → b ≡ false
    → Reads file m x
with_file-Reads file m x true h e = cc
with_file-Reads file m x false h e = go (load_secrets_file file) refl h
  where
    go :
        (r : Result ManifestError (Dict Text))
        → load_secrets_file file ≡ r
        → with_file m r ≡ ok x
        → Reads file m x
    go (err y) er g = cc
    go (ok base) er g =
        let same : with_secrets m (over_file base m.secrets) ≡ x = ok_injective g in
        (base, er, λ k. rw (← same) (get-over_file base m.secrets k))

module _ (files : Text → Content) (path : Text) (m x : Manifest)
    (adds : add_file_secrets files path m ≡ ok x) where
  add_file_secrets-none : (m.secrets_file == lit "") ≡ true → x ≡ m
  unfolding add_file_secrets
  add_file_secrets-none t = sym (ok_injective (rw t at adds))

  add_file_secrets-Reads :
      (m.secrets_file == lit "") ≡ false → Reads (files (secrets_path path m.secrets_file)) m x
  unfolding add_file_secrets
  add_file_secrets-Reads f =
      with_file-Reads (files (secrets_path path m.secrets_file)) m x (m.secrets_file == lit "") adds
        f

-- A manifest that is loaded from what was decoded is valid. If it names no file of secrets it is what
-- was decoded. If it does, that file was read, and a secret has the value that the manifest gives it,
-- or else that of the file.
pub load_manifest_exact :
    (m n : Manifest) (files : Text → Content) (path : Text)
    → load_manifest (ok m) files path ≡ ok n
    → (validate n ≡ ok tt)
      × (m.secrets_file ≡ lit "" → n ≡ m)
      × (m.secrets_file ≢ lit "" → Reads (files (secrets_path path m.secrets_file)) m n)
unfolding load_manifest
load_manifest_exact m n files path h =
    let a = bind-eq-ok (add_file_secrets files path m) (λ n. validate n >> ok n) h in
    let b = bind-eq-ok (validate a.0) (λ _. ok a.0) a.2 in
    let same : a.0 ≡ n = ok_injective b.2 in
    (
      subst (λ x. validate x ≡ ok tt) same b.1,
      λ e.
          sym same
          ∙ add_file_secrets-none files path m a.0 a.1 ((text_beq_iff m.secrets_file (lit "")).1 e),
      λ ne.
          subst (Reads (files (secrets_path path m.secrets_file)) m) same
            (elim (Bool-cases (m.secrets_file == lit "")) [
              | inl t ↦ absurd (ne ((text_beq_iff m.secrets_file (lit "")).0 t))
              | inr f ↦ add_file_secrets-Reads files path m a.0 a.1 f
            ]),
    )
