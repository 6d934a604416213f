-- ===== src/Compose/Templates.antt =====
-- What the substitution does, against a grammar of templates: the pattern's matches are exactly the
-- references that were written.
use goship.Base.{
  Text, lit, ℕ, suc, ◌+◌, ◌-◌, true, false, List, [], ◌∷◌, ◌++◌, Option, some, Dict, ◌==◌, nat_eq,
  length, All, ◌≡◌, ◌≢◌, refl, ap, ◌∙◌, arith, length-append,
}
use mathlib.Core.List.{append_assoc}
use goship.Strings.{cut, cut-append}
use goship.Compose.Substitute.{
  Reference, braced, bare, is_name_start, is_name_char, take_name, braced_match, after_dollar,
  match_start, replace_all, reference_value, resolve_value,
}

pub data Piece : Type 0 where
  plain : Text → Piece
  reference : Reference → Piece

abbrev pub print_reference : Reference → Text
print_reference (braced inner) = b'$' ∷ b'{' ∷ (inner ++ lit "}")
print_reference (bare name) = b'$' ∷ name

abbrev pub print : List Piece → Text
print [] = []
print (plain s ∷ ps) = s ++ print ps
print (reference r ∷ ps) = print_reference r ++ print ps

-- Each reference stands for its value, and the rest stays as it is.
abbrev pub meaning : (Reference → Text) → List Piece → Text
meaning f [] = []
meaning f (plain s ∷ ps) = s ++ meaning f ps
meaning f (reference r ∷ ps) = f r ++ meaning f ps

-- A text that does not go on with a name.
abbrev pub IsBreak : Text → Type 0
IsBreak [] = Unit
IsBreak (c ∷ s) = is_name_char c ≡ false

-- A reference that may stand in front of a text.
abbrev pub IsReference : Reference → Text → Type 0
IsReference (braced []) rest = ⊥
IsReference (braced (c ∷ inner)) rest = All (λ d. d ≢ b'}') (c ∷ inner)
IsReference (bare []) rest = ⊥
IsReference (bare (c ∷ name)) rest =
    (is_name_start c ≡ true) × All (λ d. is_name_char d ≡ true) name × IsBreak rest

abbrev pub IsTemplate : List Piece → Type 0
IsTemplate [] = Unit
IsTemplate (plain s ∷ ps) = All (λ c. c ≢ b'$') s × IsTemplate ps
IsTemplate (reference r ∷ ps) = IsReference r (print ps) × IsTemplate ps

take_name-append :
    (name rest : Text)
    → All (λ d. is_name_char d ≡ true) name
    → IsBreak rest
    → take_name (name ++ rest) ≡ name
unfolding take_name
take_name-append [] [] h b = refl
take_name-append [] (c ∷ rest) h b = rw b refl
take_name-append (c ∷ name) rest h b = rw h.0 (ap (λ t. c ∷ t) (take_name-append name rest h.1 b))

braced-match :
    (c : ℕ) (inner t : Text)
    → All (λ d. d ≢ b'}') (c ∷ inner)
    → braced_match (cut (lit "}") (c ∷ ((inner ++ lit "}") ++ t)))
      ≡ some (braced (c ∷ inner), suc (length (b'{' ∷ ((c ∷ inner) ++ lit "}"))))
braced-match c inner t h =
    let e : length (c ∷ inner) + 3 ≡ suc (length (b'{' ∷ ((c ∷ inner) ++ lit "}"))) =
      omega (arith, length-append inner (lit "}")) in
    rw (append_assoc inner (lit "}") t)
      (rw (cut-append b'}' (c ∷ inner) t h) (ap (λ n. some (braced (c ∷ inner), n)) e))

bare-match :
    (c : ℕ) (name t : Text)
    → is_name_start c ≡ true
    → All (λ d. is_name_char d ≡ true) name
    → IsBreak t
    → after_dollar (c ∷ (name ++ t)) ≡ some (bare (c ∷ name), suc (length (c ∷ name)))
bare-match c name t s h b =
    let e : length name + 2 ≡ suc (length (c ∷ name)) = omega arith in
    let n : (c == b'{') ≡ false = ground (arith, s) in
    rw (n, s, take_name-append name t h b) (ap (λ k. some (bare (c ∷ name), k)) e)

module _ (f : Reference → Text) where
  replace_all-skip : (s t : Text) → replace_all f (length s) (s ++ t) ≡ replace_all f 0 t
  unfolding replace_all
  replace_all-skip [] t = refl
  replace_all-skip (c ∷ s) t = replace_all-skip s t

  replace_all-plain :
      (s t : Text) → All (λ c. c ≢ b'$') s → replace_all f 0 (s ++ t) ≡ s ++ replace_all f 0 t
  unfolding replace_all match_start
  replace_all-plain [] t h = refl
  replace_all-plain (c ∷ s) t h = ground (arith, h.0, replace_all-plain s t h.1)

  -- One match at the start.
  replace_all-match :
      (r : Reference) (s t : Text)
      → match_start (b'$' ∷ (s ++ t)) ≡ some (r, suc (length s))
      → replace_all f 0 (b'$' ∷ (s ++ t)) ≡ f r ++ replace_all f 0 t
  unfolding replace_all
  replace_all-match r s t e =
      let k : suc (length s) - 1 ≡ length s = omega arith in
      rw (e, replace_all) (rw k (ap (λ u. f r ++ u) (replace_all-skip s t)))

  match-reference :
      (r : Reference) (t : Text)
      → IsReference r t
      → replace_all f 0 (print_reference r ++ t) ≡ f r ++ replace_all f 0 t
  unfolding match_start
  match-reference (braced []) t h = absurd h
  match-reference (braced (c ∷ inner)) t h =
      replace_all-match (braced (c ∷ inner)) (b'{' ∷ ((c ∷ inner) ++ lit "}")) t
        (braced-match c inner t h)
  match-reference (bare []) t h = absurd h
  match-reference (bare (c ∷ name)) t h =
      replace_all-match (bare (c ∷ name)) (c ∷ name) t (bare-match c name t h.0 h.1 h.2)

-- Every template is substituted by its meaning.
pub resolve_value-print :
    (host : Text → Option Text) (context : Dict Text) (ps : List Piece)
    → IsTemplate ps
    → resolve_value host context (print ps) ≡ meaning (reference_value host context) ps
unfolding resolve_value replace_all
resolve_value-print host context [] h = refl
resolve_value-print host context (plain s ∷ ps) h =
    replace_all-plain _ s (print ps) h.0
    ∙ ap (λ t. s ++ t) (resolve_value-print host context ps h.1)
resolve_value-print host context (reference r ∷ ps) h =
    match-reference _ r (print ps) h.0
    ∙ ap (λ t. reference_value host context r ++ t) (resolve_value-print host context ps h.1)
