-- ===== src/Compose/Substitute.antt =====
-- internal/compose/substitute.go: `${VAR}`, `${VAR:-default}` and `$VAR` in values.
use goship.Base.{
  map_values, Text, lit, ℕ, zero, suc, ◌+◌, ◌-◌, Bool, ◌||◌, ◌&&◌, [], ◌∷◌, ◌++◌, Option, none,
  some, Dict, get, or_else, ◌==◌, nat_eq, text_eq, leb, if◌then◌else◌, length,
}
use goship.Strings.{cut, is_digit}

-- What the pattern matches: the text between the braces, or the name after the dollar sign.
pub data Reference : Type 0 where
  braced bare : Text → Reference

abbrev pub is_name_start : ℕ → Bool
is_name_start c = (leb b'A' c && leb c b'Z') || (leb b'a' c && leb c b'z') || c == b'_'

abbrev pub is_name_char : ℕ → Bool
is_name_char c = is_name_start c || is_digit c

-- The longest start of a text that goes on with a name.
unfoldable pub take_name : Text → Text
take_name [] = []
take_name (c ∷ s) = let rest = take_name s in if is_name_char c then c ∷ rest else []

abbrev pub braced_match : Option (Text × Text) → Option (Reference × ℕ)
braced_match none = none
braced_match (some ([], rest)) = none
braced_match (some (c ∷ inner, rest)) = some (braced (c ∷ inner), length (c ∷ inner) + 3)

abbrev pub after_dollar : Text → Option (Reference × ℕ)
after_dollar [] = none
after_dollar (d ∷ s) =
    if d == b'{'
    then braced_match (cut (lit "}") s)
    else if is_name_start d
    then some (bare (d ∷ take_name s), length (take_name s) + 2)
    else none

-- `varPattern` at the start of a text: what it matches, and how many bytes.
unfoldable pub match_start : Text → Option (Reference × ℕ)
unfolding take_name
match_start [] = none
match_start (c ∷ s) = if c == b'$' then after_dollar s else none

-- ReplaceAllStringFunc: the first `skip` bytes belong to the match before them.
unfoldable pub replace_all : (Reference → Text) → ℕ → Text → Text
unfolding match_start
replace_all f skip [] = []
replace_all f (suc skip) (c ∷ s) = replace_all f skip s
replace_all f zero (c ∷ s) = elim (match_start (c ∷ s)) [
  | none ↦ c ∷ replace_all f zero s
  | some m ↦ f m.0 ++ replace_all f (m.1 - 1) s
]

-- `host` is os.LookupEnv.
abbrev pub lookup_var : (Text → Option Text) → Dict Text → Text → Option Text
lookup_var host context name = or_else (get context name) (host name)

abbrev pub or_blank : Option Text → Text
or_blank none = lit ""
or_blank (some v) = v

abbrev pub or_default : Option Text → Text → Text
or_default none d = d
or_default (some v) d = if v == lit "" then d else v

abbrev pub braced_value : (Text → Option Text) → Dict Text → Text → Option (Text × Text) → Text
braced_value host context inner none = or_blank (lookup_var host context inner)
braced_value host context inner (some (name, d)) = or_default (lookup_var host context name) d

abbrev pub reference_value : (Text → Option Text) → Dict Text → Reference → Text
reference_value host context (braced inner) = braced_value host context inner (cut (lit ":-") inner)
reference_value host context (bare name) = or_blank (lookup_var host context name)

unfoldable pub resolve_value : (Text → Option Text) → Dict Text → Text → Text
unfolding replace_all
resolve_value host context s = replace_all (reference_value host context) 0 s

unfoldable pub substitute_vars : (Text → Option Text) → Dict Text → Dict Text → Dict Text
unfolding map_values resolve_value
substitute_vars host env context = map_values (resolve_value host context) env
