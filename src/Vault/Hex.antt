-- ===== src/Vault/Hex.antt =====
-- Go's encoding/hex: `EncodeToString` and `DecodeString`, and that the second undoes the first.
use goship.Base.{
  Text, ℕ, ◌+◌, ◌-◌, ◌*◌, ◌/◌, ◌%◌, ◌<◌, [], ◌∷◌, Option, none, some, ltb, leb, ◌&&◌, if◌then◌else◌,
  All, ◌≡◌, refl, arith, false,
}
use goship.Strings.{is_space}

abbrev pub hex_digit : ℕ → ℕ
hex_digit n = if ltb n 10 then 48 + n else 87 + n

unfoldable pub encode_hex : Text → Text
encode_hex [] = []
encode_hex (b ∷ s) = hex_digit (b / 16) ∷ (hex_digit (b % 16) ∷ encode_hex s)

unfoldable pub hex_value : ℕ → Option ℕ
hex_value c =
    if leb 48 c && leb c 57
    then some (c - 48)
    else if leb 97 c && leb c 102
    then some (c - 87)
    else if leb 65 c && leb c 70
    then some (c - 55)
    else none

abbrev pub hex_byte : Option ℕ → Option ℕ → Option Text → Option Text
hex_byte (some h) (some l) (some s) = some ((16 * h + l) ∷ s)
hex_byte _ _ _ = none

unfoldable pub decode_hex : Text → Option Text
unfolding hex_value
decode_hex [] = some []
decode_hex (a ∷ []) = none
decode_hex (a ∷ (b ∷ s)) = hex_byte (hex_value a) (hex_value b) (decode_hex s)

-- A byte.
abbrev pub IsByte : ℕ → Type 0
IsByte b = b < 256

hex_value-digit : (n : ℕ) → n < 16 → hex_value (hex_digit n) ≡ some n
unfolding hex_value
hex_value-digit n h = ground arith

pub decode_hex-encode : (s : Text) → All IsByte s → decode_hex (encode_hex s) ≡ some s
unfolding decode_hex encode_hex
decode_hex-encode [] h = refl
decode_hex-encode (b ∷ s) h =
    let low : b % 16 < 16 = omega arith in
    let high : b / 16 < 16 = omega (arith, h.0) in
    let whole : 16 * (b / 16) + b % 16 ≡ b = omega arith in
    rw (hex_value-digit (b / 16) high, hex_value-digit (b % 16) low, decode_hex-encode s h.1, whole)

is_space-hex_digit : (n : ℕ) → n < 16 → is_space (hex_digit n) ≡ false
is_space-hex_digit n h = ground arith

pub encode_hex-has_no_space :
    (s : Text) → All IsByte s → All (λ c. is_space c ≡ false) (encode_hex s)
unfolding encode_hex
encode_hex-has_no_space [] h = tt
encode_hex-has_no_space (b ∷ s) h = (
  is_space-hex_digit (b / 16) (omega (arith, h.0)),
  (is_space-hex_digit (b % 16) (omega arith), encode_hex-has_no_space s h.1),
)
