-- ===== src/Entities/Name.antt =====
-- pkg/domain/entities/project.go: names that are used as directory names.
use goship.Base.{Text, lit, ◌||◌, ◌==◌, text_eq, contains_rune, Result, ok, err, if◌then◌else◌}

pub data NameError : Type 0 where
  required not_a_component : NameError

-- filepath.Separator is '/' on the systems that the program is built for.
unfoldable pub validate_path_component : Text → Result NameError (Unit {0})
validate_path_component name =
    if name == lit ""
    then err required
    else if name == lit "."
        || name == lit ".."
        || contains_rune name b'/'
        || contains_rune name b'/'
        || contains_rune name 0
    then err not_a_component
    else ok tt

unfoldable pub validate_project_name : Text → Result NameError (Unit {0})
validate_project_name name = validate_path_component name

unfoldable pub validate_app_name : Text → Result NameError (Unit {0})
validate_app_name name = validate_path_component name
