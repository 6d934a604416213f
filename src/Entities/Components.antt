-- ===== src/Entities/Components.antt =====
-- The names that the program accepts are those that are one component of a path.
use goship.Base.{
  Text, lit, false, ◌≡◌, ◌≢◌, ◌↔◌, refl, [], ◌∷◌, text_eq, text_beq_iff, contains_rune, All, ok,
  arith,
}
use goship.Entities.Name.{validate_path_component}

-- A name that a directory can hold under itself and no path separator or NUL splits.
abbrev pub IsComponent : Text → Type 0
IsComponent name =
    (name ≢ []) × (name ≢ lit ".") × (name ≢ lit "..") × All (λ c. (c ≢ b'/') × (c ≢ 0)) name

contains_rune-All :
    (s : Text)
    → contains_rune s b'/' ≡ false
    → contains_rune s 0 ≡ false
    → All (λ c. (c ≢ b'/') × (c ≢ 0)) s
unfolding contains_rune
contains_rune-All [] h g = tt
contains_rune-All (c ∷ s) h g =
    (((λ e. ground arith), (λ e. ground arith)), contains_rune-All s (ground arith) (ground arith))

All-contains_rune :
    (s : Text)
    → All (λ c. (c ≢ b'/') × (c ≢ 0)) s
    → (contains_rune s b'/' ≡ false) × (contains_rune s 0 ≡ false)
unfolding contains_rune
All-contains_rune [] h = (refl, refl)
All-contains_rune (c ∷ s) h = ground (arith, All-contains_rune s h.1, h.0)

-- The check accepts exactly the names that are one component of a path.
pub validate_path_component_iff :
    (name : Text) → (validate_path_component name ≡ ok tt) ↔ IsComponent name
unfolding validate_path_component
validate_path_component_iff name = (to, from)
  where
    to : validate_path_component name ≡ ok tt → IsComponent name
    to h = (
      (λ e. ground (arith, text_beq_iff name (lit ""))),
      (λ e. ground (arith, text_beq_iff name (lit "."))),
      (λ e. ground (arith, text_beq_iff name (lit ".."))),
      contains_rune-All name (ground arith) (ground arith),
    )

    from : IsComponent name → validate_path_component name ≡ ok tt
    from h =
        let c = All-contains_rune name h.3 in
        ground (
          arith,
          c,
          text_beq_iff name (lit ""),
          text_beq_iff name (lit "."),
          text_beq_iff name (lit ".."),
        )
