-- ===== src/Vault/Base64.antt =====
-- Go's base64.StdEncoding: `EncodeToString` and `DecodeString`, and that the second undoes the first.
use goship.Base.{
  Text, ℕ, ◌+◌, ◌-◌, ◌*◌, ◌/◌, ◌%◌, ◌<◌, false, [], ◌∷◌, Option, none, some, ltb, leb, ◌&&◌, ◌||◌,
  ◌==◌, nat_eq, if◌then◌else◌, All, ◌≡◌, refl, arith,
}
use goship.Vault.Hex.{IsByte}

abbrev pub pad : ℕ
pad = 61

-- The character of a value below 64.
unfoldable pub symbol : ℕ → ℕ
symbol n =
    if ltb n 26
    then 65 + n
    else if ltb n 52
    then 71 + n
    else if ltb n 62
    then n - 4
    else if n == 62
    then 43
    else 47

unfoldable pub encode64 : Text → Text
unfolding symbol
encode64 [] = []
encode64 (a ∷ []) = symbol (a / 4) ∷ (symbol (a % 4 * 16) ∷ (pad ∷ (pad ∷ [])))
encode64 (a ∷ (b ∷ [])) =
    symbol (a / 4) ∷ (symbol (a % 4 * 16 + b / 16) ∷ (symbol (b % 16 * 4) ∷ (pad ∷ [])))
encode64 (a ∷ (b ∷ (c ∷ s))) =
    symbol (a / 4)
    ∷ (symbol (a % 4 * 16 + b / 16)
        ∷ (symbol (b % 16 * 4 + c / 64) ∷ (symbol (c % 64) ∷ encode64 s)))

unfoldable pub symbol_value : ℕ → Option ℕ
symbol_value c =
    if leb 65 c && leb c 90
    then some (c - 65)
    else if leb 97 c && leb c 122
    then some (c - 71)
    else if leb 48 c && leb c 57
    then some (c + 4)
    else if c == 43
    then some 62
    else if c == 47
    then some 63
    else none

abbrev pub one_byte : Option ℕ → Option ℕ → Option Text
one_byte (some a) (some b) = some ((a * 4 + b / 16) ∷ [])
one_byte _ _ = none

abbrev pub two_bytes : Option ℕ → Option ℕ → Option ℕ → Option Text
two_bytes (some a) (some b) (some c) = some ((a * 4 + b / 16) ∷ ((b % 16 * 16 + c / 4) ∷ []))
two_bytes _ _ _ = none

abbrev pub three_bytes : Option ℕ → Option ℕ → Option ℕ → Option ℕ → Option Text → Option Text
three_bytes (some a) (some b) (some c) (some d) (some s) =
    some ((a * 4 + b / 16) ∷ ((b % 16 * 16 + c / 4) ∷ ((c % 4 * 64 + d) ∷ s)))
three_bytes _ _ _ _ _ = none

abbrev pub padded : ℕ → ℕ → ℕ → Text → Option Text
padded a b c [] =
    if c == pad
    then one_byte (symbol_value a) (symbol_value b)
    else two_bytes (symbol_value a) (symbol_value b) (symbol_value c)
padded a b c (x ∷ s) = none

-- Four characters at a time; padding only in the last four.
unfoldable pub decode_quads : Text → Option Text
unfolding symbol_value
decode_quads [] = some []
decode_quads (a ∷ (b ∷ (c ∷ (d ∷ s)))) =
    let rest = decode_quads s in
    if d == pad
    then padded a b c s
    else three_bytes (symbol_value a) (symbol_value b) (symbol_value c) (symbol_value d) rest
decode_quads _ = none

-- The decoder passes over line ends.
unfoldable pub strip_lines : Text → Text
strip_lines [] = []
strip_lines (c ∷ s) = let rest = strip_lines s in if c == 10 || c == 13 then rest else c ∷ rest

unfoldable pub decode64 : Text → Option Text
unfolding decode_quads strip_lines
decode64 s = decode_quads (strip_lines s)

symbol_value-symbol : (n : ℕ) → n < 64 → symbol_value (symbol n) ≡ some n
unfolding symbol symbol_value
symbol_value-symbol n h = ground arith

-- A character of the encoding.
abbrev IsSymbol : ℕ → Type 0
IsSymbol c = ((c == pad) ≡ false) × (((c == 10) ≡ false) × ((c == 13) ≡ false))

symbol-IsSymbol : (n : ℕ) → n < 64 → IsSymbol (symbol n)
unfolding symbol
symbol-IsSymbol n h = ground arith

abbrev IsLine : ℕ → Type 0
IsLine c = (c == 10 || c == 13) ≡ false

symbol-IsLine : (n : ℕ) → n < 64 → IsLine (symbol n)
unfolding symbol
symbol-IsLine n h = ground arith

strip_lines-keeps : (s : Text) → All IsLine s → strip_lines s ≡ s
unfolding strip_lines
strip_lines-keeps [] h = refl
strip_lines-keeps (c ∷ s) h = rw (h.0, strip_lines-keeps s h.1)

encode64-IsLine : (s : Text) → All IsByte s → All IsLine (encode64 s)
unfolding encode64
encode64-IsLine [] h = tt
encode64-IsLine (a ∷ []) h = (
  symbol-IsLine (a / 4) (omega (arith, h.0)),
  (symbol-IsLine (a % 4 * 16) (omega arith), (refl, (refl, tt))),
)
encode64-IsLine (a ∷ (b ∷ [])) h = (
  symbol-IsLine (a / 4) (omega (arith, h.0)),
  (
    symbol-IsLine (a % 4 * 16 + b / 16) (omega (arith, h.1.0)),
    (symbol-IsLine (b % 16 * 4) (omega arith), (refl, tt)),
  ),
)
encode64-IsLine (a ∷ (b ∷ (c ∷ s))) h = (
  symbol-IsLine (a / 4) (omega (arith, h.0)),
  (
    symbol-IsLine (a % 4 * 16 + b / 16) (omega (arith, h.1.0)),
    (
      symbol-IsLine (b % 16 * 4 + c / 64) (omega (arith, h.1.1.0)),
      (symbol-IsLine (c % 64) (omega arith), encode64-IsLine s h.1.1.1),
    ),
  ),
)

decode_quads-encode64 : (s : Text) → All IsByte s → decode_quads (encode64 s) ≡ some s
unfolding decode_quads encode64
decode_quads-encode64 [] h = refl
decode_quads-encode64 (a ∷ []) h =
    let back : a / 4 * 4 + a % 4 * 16 / 16 ≡ a = omega arith in
    rw (
      symbol_value-symbol (a / 4) (omega (arith, h.0)),
      symbol_value-symbol (a % 4 * 16) (omega arith),
      back,
    )
decode_quads-encode64 (a ∷ (b ∷ [])) h =
    let first : a / 4 * 4 + (a % 4 * 16 + b / 16) / 16 ≡ a = omega (arith, h.1.0) in
    let second : (a % 4 * 16 + b / 16) % 16 * 16 + b % 16 * 4 / 4 ≡ b = omega (arith, h.1.0) in
    rw (
      (symbol-IsSymbol (b % 16 * 4) (omega arith)).0,
      symbol_value-symbol (a / 4) (omega (arith, h.0)),
      symbol_value-symbol (a % 4 * 16 + b / 16) (omega (arith, h.1.0)),
      symbol_value-symbol (b % 16 * 4) (omega arith),
      first,
      second,
    )
decode_quads-encode64 (a ∷ (b ∷ (c ∷ s))) h =
    let first : a / 4 * 4 + (a % 4 * 16 + b / 16) / 16 ≡ a = omega (arith, h.1.0) in
    let second : (a % 4 * 16 + b / 16) % 16 * 16 + (b % 16 * 4 + c / 64) / 4 ≡ b =
      omega (arith, h.1.0, h.1.1.0) in
    let third : (b % 16 * 4 + c / 64) % 4 * 64 + c % 64 ≡ c = omega (arith, h.1.1.0) in
    rw (
      (symbol-IsSymbol (c % 64) (omega arith)).0,
      symbol_value-symbol (a / 4) (omega (arith, h.0)),
      symbol_value-symbol (a % 4 * 16 + b / 16) (omega (arith, h.1.0)),
      symbol_value-symbol (b % 16 * 4 + c / 64) (omega (arith, h.1.1.0)),
      symbol_value-symbol (c % 64) (omega arith),
      decode_quads-encode64 s h.1.1.1,
      first,
      second,
      third,
    )

pub decode64-encode64 : (s : Text) → All IsByte s → decode64 (encode64 s) ≡ some s
unfolding decode64
decode64-encode64 s h =
    rw (strip_lines-keeps (encode64 s) (encode64-IsLine s h)) (decode_quads-encode64 s h)
