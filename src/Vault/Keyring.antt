-- ===== src/Vault/Keyring.antt =====
-- internal/vault/keyring.go: the master key and its file.
use goship.Base.{
  Text, Bool, false, [], ◌∷◌, Option, none, some, Result, ok, err, if◌then◌else◌, All, ◌≡◌, refl,
  true, ap, subst, ok_injective,
}
use goship.Strings.{
  Content, no_file, broken, bytes, is_space, trim_space, trim_left, trim_right, cons_unless,
}
use goship.Vault.Hex.{IsByte, encode_hex, decode_hex, decode_hex-encode, encode_hex-has_no_space}

pub data KeyError : Type 0 where
  key_read_failed bad_hex no_random mkdir_failed key_write_failed : KeyError

-- What one call meets: the 32 bytes of `rand.Read`, whether the directory is there or is made,
-- whether the file is written, and what a failed write leaves.
pub record KeyEnv : Type 0 where
  pub random : Option Text
  pub mkdir_works : Bool
  pub write_works : Bool
  pub left : Content

abbrev pub or_bad_hex : Option Text → Result KeyError Text
or_bad_hex none = err bad_hex
or_bad_hex (some k) = ok k

abbrev pub write_key : KeyEnv → Text → Result KeyError Text × Content
write_key e key =
    if e.write_works then (ok key, bytes (encode_hex key)) else (err key_write_failed, e.left)

abbrev pub create_key : KeyEnv → Option Text → Result KeyError Text × Content
create_key e none = (err no_random, no_file)
create_key e (some key) = if e.mkdir_works then write_key e key else (err mkdir_failed, no_file)

-- `LoadOrCreateMasterKey`: the key, and the file after the call.
unfoldable pub load_or_create_master_key : KeyEnv → Content → Result KeyError Text × Content
unfolding encode_hex decode_hex trim_space
load_or_create_master_key e (bytes data') =
    (or_bad_hex (decode_hex (trim_space data')), bytes data')
load_or_create_master_key e broken = (err key_read_failed, broken)
load_or_create_master_key e no_file = create_key e e.random

abbrev HasNoSpace : Text → Type 0
HasNoSpace s = All (λ c. is_space c ≡ false) s

trim_right-keeps : (s : Text) → HasNoSpace s → trim_right s ≡ s
unfolding trim_right
trim_right-keeps [] h = refl
trim_right-keeps (c ∷ s) h = rw (trim_right-keeps s h.1) (go s)
  where
    go : (t : Text) → cons_unless c t ≡ c ∷ t
    go [] = rw h.0
    go (d ∷ t) = refl

trim_left-keeps : (s : Text) → HasNoSpace s → trim_left s ≡ s
unfolding trim_left
trim_left-keeps [] h = refl
trim_left-keeps (c ∷ s) h = rw h.0

trim_space-keeps : (s : Text) → HasNoSpace s → trim_space s ≡ s
unfolding trim_space
trim_space-keeps s h = rw (trim_left-keeps s h) (trim_right-keeps s h)

-- The bytes that the system gives are bytes.
abbrev pub IsRandom : KeyEnv → Type 0
IsRandom e = (k : Text) → e.random ≡ some k → All IsByte k

reload-written :
    (key : Text) (e' : KeyEnv)
    → All IsByte key
    → load_or_create_master_key e' (bytes (encode_hex key)) ≡ (ok key, bytes (encode_hex key))
unfolding load_or_create_master_key
reload-written key e' h =
    rw (trim_space-keeps (encode_hex key) (encode_hex-has_no_space key h))
      (rw (decode_hex-encode key h) refl)

-- A call that returns a master key leaves a file from which every later call returns the same key
-- and which it does not change, whatever the system answers then. The random bytes are bytes.
pub load_or_create_master_key-stays :
    (e : KeyEnv) (file : Content) (key : Text) (after : Content)
    → IsRandom e
    → load_or_create_master_key e file ≡ (ok key, after)
    → (e' : KeyEnv) → load_or_create_master_key e' after ≡ (ok key, after)
unfolding load_or_create_master_key
load_or_create_master_key-stays e (bytes d) key after h r e' =
    subst (λ a. load_or_create_master_key e' a ≡ (ok key, a)) (ap (λ x. x.1) r)
      (rw (ap (λ x. x.0) r) refl)
load_or_create_master_key-stays e broken key after h r e' = cc
load_or_create_master_key-stays e no_file key after h r e' =
    go e.random refl e.mkdir_works e.write_works r
  where
    go :
        (k : Option Text)
        → e.random ≡ k
        → (m w : Bool)
        → create_key (record e { mkdir_works = m; write_works = w }) k ≡ (ok key, after)
        → load_or_create_master_key e' after ≡ (ok key, after)
    go none ek m w g = cc
    go (some k) ek false w g = cc
    go (some k) ek true false g = cc
    go (some k) ek true true g =
        let same : k ≡ key = ok_injective (ap (λ x. x.0) g) in
        subst (λ a. load_or_create_master_key e' a ≡ (ok key, a)) (ap (λ x. x.1) g)
          (rw (← same) (reload-written k e' (h k ek)))
