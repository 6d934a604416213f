-- ===== src/Vault/Encryption.antt =====
-- That `Decrypt` undoes `Encrypt`.
use goship.Base.{
  Text, true, false, ◌∷◌, [], ◌++◌, some, ltb, length, take, drop, ok, All, All-append,
  length-append, ◌≡◌, refl, arith, nat_eq, ok_injective,
}
use goship.Vault.Hex.{IsByte}
use goship.Vault.Base64.{encode64, decode64, decode64-encode64}
use goship.Vault.{Aead, encrypted_prefix, encrypt, is_encrypted, decrypt, open_data}

drop-length_append : (p s : Text) → drop (length p) (p ++ s) ≡ s
drop-length_append [] s = refl
drop-length_append (c ∷ p) s = drop-length_append p s

take-length_append : (p s : Text) → take (length p) (p ++ s) ≡ p
take-length_append [] s = refl
take-length_append (c ∷ p) s = rw (take-length_append p s)

-- What is relied on of AES-GCM: `Open` undoes `Seal`, which makes bytes of bytes.
pub record IsAuthentic (v : Aead) : Type 0 where
  pub opens :
      (nonce plain : Text)
      → All IsByte plain
      → v.open_sealed nonce (v.seal nonce plain) ≡ some plain
  pub seals_bytes : (nonce plain : Text) → All IsByte plain → All IsByte (v.seal nonce plain)

open_data-seal :
    (v : Aead) (nonce plain : Text)
    → IsAuthentic v
    → All IsByte plain
    → length nonce ≡ v.nonce_size
    → open_data v (nonce ++ v.seal nonce plain) ≡ ok plain
open_data-seal v nonce plain a ps e =
    let long : ltb (length (nonce ++ v.seal nonce plain)) (length nonce) ≡ false =
      ground (arith, length-append nonce (v.seal nonce plain)) in
    rw (← e) (
      rw
        (
          long,
          take-length_append nonce (v.seal nonce plain),
          drop-length_append nonce (v.seal nonce plain),
          a.opens nonce plain ps,
        )
        refl)

-- A value that was encrypted under a nonce of the cipher's size is marked as encrypted, and the
-- same vault decrypts it to the text that it was made from. The nonce and the text are bytes,
-- of which `Seal` makes bytes and `Open` the text again.
pub decrypt-encrypt :
    (v : Aead) (nonce plain value : Text)
    → IsAuthentic v
    → length nonce ≡ v.nonce_size
    → All IsByte nonce
    → All IsByte plain
    → encrypt v (some nonce) plain ≡ ok value
    → (is_encrypted value ≡ true) × (decrypt v value ≡ ok plain)
unfolding encrypt decrypt is_encrypted decode64
decrypt-encrypt v nonce plain value a size bs ps e =
    let data' = nonce ++ v.seal nonce plain in
    let same : encrypted_prefix ++ encode64 data' ≡ value = ok_injective e in
    let coded : decode64 (encode64 data') ≡ some data' =
      decode64-encode64 data' (All-append IsByte nonce _ bs (a.seals_bytes nonce plain ps)) in
    rw (← same) (refl, rw coded (open_data-seal v nonce plain a ps size))
