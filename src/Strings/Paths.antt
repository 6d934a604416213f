-- ===== src/Strings/Paths.antt =====
-- filepath.IsAbs and filepath.Join on the systems that the program is built for.
use goship.Base.{
  Text, lit, Bool, ◌||◌, List, [], ◌∷◌, ◌++◌, ◌==◌, text_eq, has_prefix, if◌then◌else◌,
}
use goship.Strings.Cutting.{split}

abbrev pub is_abs : Text → Bool
is_abs path = has_prefix path (lit "/")

-- A component `..` takes the last one away; at the root it stays there, and before it is kept.
abbrev pub go_up : Bool → List Text → List Text
go_up rooted [] = if rooted then [] else lit ".." ∷ []
go_up rooted (c ∷ cs) = if c == lit ".." then lit ".." ∷ (c ∷ cs) else cs

abbrev pub keep_component : Bool → List Text → Text → List Text
keep_component rooted kept c =
    if c == lit "" || c == lit "."
    then kept
    else if c == lit ".."
    then go_up rooted kept
    else c ∷ kept

-- The components that are kept, the last one first.
unfoldable pub keep_components : Bool → List Text → List Text → List Text
keep_components rooted kept [] = kept
keep_components rooted kept (c ∷ cs) = keep_components rooted (keep_component rooted kept c) cs

abbrev pub join_reversed : List Text → Text → Text
join_reversed [] path = path
join_reversed (c ∷ []) path = c ++ path
join_reversed (c ∷ d ∷ cs) path = join_reversed (d ∷ cs) (lit "/" ++ (c ++ path))

-- filepath.Clean
unfoldable pub clean : Text → Text
unfolding keep_components split has_prefix
clean path =
    let body = join_reversed (keep_components (is_abs path) [] (split b'/' path)) [] in
    if is_abs path then lit "/" ++ body else if body == lit "" then lit "." else body

-- filepath.Join of two texts of which the first is not empty.
unfoldable pub join_path : Text → Text → Text
unfolding clean
join_path dir path = if path == lit "" then clean dir else clean (dir ++ (lit "/" ++ path))
