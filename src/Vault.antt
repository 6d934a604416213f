-- ===== src/Vault.antt =====
-- internal/vault/vault.go: the encryption of secret values. The cipher of crypto/aes and
-- crypto/cipher and the digest of crypto/sha256 are parameters.
pub mod Hex
pub mod Base64
pub mod Keyring
pub mod Encryption
use goship.Base.{
  Text, lit, ℕ, Bool, ◌∷◌, [], ◌++◌, Option, none, some, ltb, length, take, drop, if◌then◌else◌,
  has_prefix, Result, ok, err,
}
use goship.Strings.{trim_prefix}
use Base64.{encode64, decode64}

-- cipher.AEAD for one key.
pub record Aead : Type 0 where
  pub nonce_size : ℕ
  pub seal : Text → Text → Text
  pub open_sealed : Text → Text → Option Text

-- sha256.Sum256, and `aes.NewCipher` with `cipher.NewGCM`.
pub record Cipher : Type 0 where
  pub sha256 : Text → Text
  pub new_aead : Text → Option Aead

pub data VaultError : Type 0 where
  empty_key cipher_failed no_nonce not_encrypted bad_base64 too_short open_failed : VaultError

abbrev pub encrypted_prefix : Text
encrypted_prefix = lit "encrypted:"

abbrev pub or_cipher_failed : Option Aead → Result VaultError Aead
or_cipher_failed none = err cipher_failed
or_cipher_failed (some a) = ok a

-- `New`; a vault is its cipher.
unfoldable pub new_vault : Cipher → Text → Result VaultError Aead
new_vault c [] = err empty_key
new_vault c (b ∷ key) = or_cipher_failed (c.new_aead (c.sha256 (b ∷ key)))

-- `Encrypt`; the nonce is what `rand.Read` gives, if it does not fail.
unfoldable pub encrypt : Aead → Option Text → Text → Result VaultError Text
unfolding encode64
encrypt v none plain = err no_nonce
encrypt v (some nonce) plain = ok (encrypted_prefix ++ encode64 (nonce ++ v.seal nonce plain))

unfoldable pub is_encrypted : Text → Bool
unfolding has_prefix
is_encrypted value = has_prefix value encrypted_prefix

abbrev pub or_open_failed : Option Text → Result VaultError Text
or_open_failed none = err open_failed
or_open_failed (some plain) = ok plain

abbrev pub open_data : Aead → Text → Result VaultError Text
open_data v data' =
    if ltb (length data') v.nonce_size
    then err too_short
    else or_open_failed (v.open_sealed (take v.nonce_size data') (drop v.nonce_size data'))

abbrev pub open_decoded : Aead → Option Text → Result VaultError Text
open_decoded v none = err bad_base64
open_decoded v (some d) = open_data v d

unfoldable pub decrypt : Aead → Text → Result VaultError Text
unfolding is_encrypted decode64 trim_prefix
decrypt v value =
    if is_encrypted value
    then open_decoded v (decode64 (trim_prefix value encrypted_prefix))
    else err not_encrypted
