-- ===== src/Strings/Cutting.antt =====
-- Go's strings package: `TrimSpace`, `Cut`, `Split`, `SplitN`, `Fields`, `TrimPrefix`.
use goship.Base.{
  Text, ℕ, zero, suc, Bool, false, ◌||◌, ◌&&◌, List, [], ◌∷◌, ◌++◌, Option, none, some, ◌==◌,
  nat_eq, leb, has_prefix, length, drop, if◌then◌else◌, ◌≡◌, ◌≢◌, refl, All, arith, text_eq,
}
use mathlib.Core.Option

-- unicode.IsSpace of an ASCII byte; the white space beyond ASCII is not trimmed here.
abbrev pub is_space : ℕ → Bool
is_space c = c == 32 || (leb 9 c && leb c 13)

unfoldable pub trim_left : Text → Text
trim_left [] = []
trim_left (c ∷ s) = let rest = trim_left s in if is_space c then rest else c ∷ s

abbrev pub cons_unless : ℕ → Text → Text
cons_unless c [] = if is_space c then [] else c ∷ []
cons_unless c (d ∷ s) = c ∷ (d ∷ s)

unfoldable pub trim_right : Text → Text
trim_right [] = []
trim_right (c ∷ s) = cons_unless c (trim_right s)

unfoldable pub trim_space : Text → Text
unfolding trim_left trim_right
trim_space s = trim_right (trim_left s)

-- strings.TrimPrefix
unfoldable pub trim_prefix : Text → Text → Text
unfolding has_prefix
trim_prefix s p = if has_prefix s p then drop (length p) s else s

-- strings.Cut: what stands before the first occurrence of `sep`, and what stands after it.
unfoldable pub cut : Text → Text → Option (Text × Text)
unfolding has_prefix
cut sep [] = if has_prefix [] sep then some ([], []) else none
cut sep (c ∷ s) =
    let rest = cut sep s in
    if has_prefix (c ∷ s) sep
    then some ([], drop (length sep) (c ∷ s))
    else Option.map (λ r. (c ∷ r.0, r.1)) rest

abbrev pub cons_part : ℕ → List Text → List Text
cons_part c [] = (c ∷ []) ∷ []
cons_part c (p ∷ ps) = (c ∷ p) ∷ ps

-- strings.Split by one byte.
unfoldable pub split : ℕ → Text → List Text
split sep [] = [] ∷ []
split sep (c ∷ s) = let rest = split sep s in if c == sep then [] ∷ rest else cons_part c rest

-- strings.SplitN by one byte, for a positive count `suc n`.
unfoldable pub split_n : ℕ → ℕ → Text → List Text
split_n n sep [] = [] ∷ []
split_n zero sep (c ∷ s) = (c ∷ s) ∷ []
split_n (suc n) sep (c ∷ s) =
    let fewer = split_n n sep s in
    let rest = split_n (suc n) sep s in if c == sep then [] ∷ fewer else cons_part c rest

-- The words of a text: `true` if the text before goes on with this one.
unfoldable pub words : Text → List Text
words [] = []
words (c ∷ s) =
    let rest = words s in
    if is_space c then rest else elim s [
      | [] ↦ (c ∷ []) ∷ rest
      | d ∷ t ↦ if is_space d then (c ∷ []) ∷ rest else cons_part c rest
    ]

-- The text without its last byte, and that byte.
unfoldable pub unsnoc : Text → Option (Text × ℕ)
unsnoc [] = none
unsnoc (c ∷ s) = elim (unsnoc s) [ none ↦ some ([], c) | some r ↦ some (c ∷ r.0, r.1) ]

-- Lemmas.
pub trim_left-start : (c : ℕ) (s : Text) → is_space c ≡ false → trim_left (c ∷ s) ≡ c ∷ s
unfolding trim_left
trim_left-start c s h = rw h refl

pub trim_right-end :
    (s : Text) (c : ℕ) → is_space c ≡ false → trim_right (s ++ (c ∷ [])) ≡ s ++ (c ∷ [])
unfolding trim_right
trim_right-end [] c h = rw h refl
trim_right-end (d ∷ []) c h = rw h refl
trim_right-end (d ∷ e ∷ s) c h = rw (trim_right-end (e ∷ s) c h) refl

pub unsnoc-append : (s : Text) (c : ℕ) → unsnoc (s ++ (c ∷ [])) ≡ some (s, c)
unfolding unsnoc
unsnoc-append [] c = refl
unsnoc-append (d ∷ s) c = rw (unsnoc-append s c) refl

pub split-append :
    (sep : ℕ) (s t : Text) → All (λ c. c ≢ sep) s → split sep (s ++ (sep ∷ t)) ≡ s ∷ split sep t
unfolding split
split-append sep [] t h = ground arith
split-append sep (c ∷ s) t h = ground (arith, h.0, split-append sep s t h.1)

pub split-none : (sep : ℕ) (s : Text) → All (λ c. c ≢ sep) s → split sep s ≡ s ∷ []
unfolding split
split-none sep [] h = refl
split-none sep (c ∷ s) h = ground (arith, h.0, split-none sep s h.1)

pub cut-append :
    (sep : ℕ) (s t : Text) → All (λ c. c ≢ sep) s → cut (sep ∷ []) (s ++ (sep ∷ t)) ≡ some (s, t)
unfolding cut has_prefix
cut-append sep [] t h = ground arith
cut-append sep (c ∷ s) t h = ground (arith, h.0, cut-append sep s t h.1)

pub cut-none : (sep : ℕ) (s : Text) → All (λ c. c ≢ sep) s → cut (sep ∷ []) s ≡ none
unfolding cut has_prefix
cut-none sep [] h = refl
cut-none sep (c ∷ s) h = ground (arith, h.0, cut-none sep s h.1)
