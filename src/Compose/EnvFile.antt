-- ===== src/Compose/EnvFile.antt =====
-- internal/compose/envfile.go: `LoadEnvFile`.
use goship.Base.{
  Text, lit, ℕ, ◌||◌, ◌&&◌, List, [], ◌∷◌, Option, none, some, Dict, put, ◌==◌, nat_eq, text_eq,
  has_prefix, leb, length, if◌then◌else◌, Result, ok, err,
}
use goship.Strings.{
  trim_space, trim_prefix, cut, unsnoc, raw_lines, drop_cr, max_line, Content, no_file, broken,
  bytes,
}

abbrev pub quoted_by : ℕ → ℕ → Option (Text × ℕ) → Option Text
quoted_by q c none = none
quoted_by q c (some (inner, d)) = if c == q && d == q then some inner else none

-- What stands between matching quotes around the whole text.
abbrev pub unquote : Text → Option Text
unquote [] = none
unquote (c ∷ s) = elim (quoted_by b'"' c (unsnoc s)) [
  | some inner ↦ some inner
  | none ↦ quoted_by 39 c (unsnoc s)
]

unfoldable pub strip_quotes : Text → Text
unfolding trim_space cut
strip_quotes s = elim (unquote s) [
  | some inner ↦ inner
  | none ↦ elim (cut (lit " #") s) [ none ↦ s | some r ↦ trim_space r.0 ]
]

abbrev pub put_value : Text → Text → Dict Text → Dict Text
put_value key value env =
    if key == lit "" then env else put env key (strip_quotes (trim_space value))

-- One line of the file.
unfoldable pub add_line : Text → Dict Text → Dict Text
unfolding trim_space trim_prefix cut strip_quotes
add_line raw env =
    let line = trim_space raw in
    if line == lit "" || has_prefix line (lit "#")
    then env
    else elim (cut (lit "=") (trim_prefix line (lit "export "))) [
      | none ↦ env
      | some r ↦ put_value (trim_space r.0) r.1 env
    ]

pub data EnvFileError : Type 0 where
  open_failed read_failed : EnvFileError

unfoldable pub add_lines : List Text → Dict Text → Result EnvFileError (Dict Text)
unfolding add_line
add_lines [] env = ok env
add_lines (line ∷ lines) env =
    let rest = add_lines lines (add_line (drop_cr line) env) in
    if leb max_line (length line) then err read_failed else rest

unfoldable pub load_env_file : Content → Result EnvFileError (Dict Text)
unfolding raw_lines add_lines
load_env_file no_file = err open_failed
load_env_file broken = err read_failed
load_env_file (bytes s) = add_lines (raw_lines s) []
