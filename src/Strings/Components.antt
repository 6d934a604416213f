-- ===== src/Strings/Components.antt =====
-- The components of a cleaned path.
use goship.Base.{
  Text, lit, text_beq, ℕ, Bool, true, false, List, [], ◌∷◌, ◌++◌, All, ◌==◌, text_eq, text_beq_iff,
  nat_eq, has_prefix, Bool-cases, inl, inr, ◌⊎◌, ◌≡◌, ◌≢◌, refl, arith, subst, text_ne,
}
use mathlib.Core.List.{append-nil}
use goship.Strings.Cutting.{split, cons_part, split-append, split-none}
use goship.Strings.Paths.{is_abs, go_up, keep_component, keep_components, join_reversed, clean}

-- A text without a slash.
abbrev pub IsPart : Text → Type 0
IsPart s = All (λ c. c ≢ b'/') s

-- A component that may stay in a cleaned path; in a rooted one `..` does not.
abbrev pub Stays : Bool → Text → Type 0
Stays rooted c = (c ≢ []) × (c ≢ lit ".") × (rooted ≡ true → c ≢ lit "..") × IsPart c

cons_part-IsPart : (c : ℕ) (ps : List Text) → c ≢ b'/' → All IsPart ps → All IsPart (cons_part c ps)
cons_part-IsPart c [] n h = ((n, tt), tt)
cons_part-IsPart c (p ∷ ps) n h = ((n, h.0), h.1)

split-IsPart : (s : Text) → All IsPart (split b'/' s)
unfolding split
split-IsPart [] = (tt, tt)
split-IsPart (c ∷ s) = elim (Bool-cases (c == b'/')) [
  | inl t ↦ rw (t, split) (tt, split-IsPart s)
  | inr f ↦
      let n : c ≢ b'/' = λ e. ground (arith, f, e) in
      rw (f, split) (cons_part-IsPart c (split b'/' s) n (split-IsPart s))
]

part_ne : (c d : Text) → (c == d) ≡ false → c ≢ d
part_ne c d f e = text_ne c d f e

go_up-Stays :
    (rooted : Bool) (kept : List Text)
    → All (Stays rooted) kept
    → All (Stays rooted) (go_up rooted kept)
unfolding text_beq
go_up-Stays true [] h = tt
go_up-Stays false [] h =
    (((λ e. text_ne _ _ refl e), (λ e. text_ne _ _ refl e), (λ e. cc), ground arith), tt)
go_up-Stays rooted (c ∷ kept) h = elim (Bool-cases (c == lit "..")) [
  | inl t ↦ rw (t, go_up) (subst (Stays rooted) ((text_beq_iff c (lit "..")).0 t) h.0, h)
  | inr f ↦ rw (f, go_up) h.1
]

keep_component-Stays :
    (rooted : Bool) (kept : List Text) (c : Text)
    → All (Stays rooted) kept
    → IsPart c
    → All (Stays rooted) (keep_component rooted kept c)
keep_component-Stays rooted kept c h p =
    go (c == lit "") refl (c == lit ".") refl (c == lit "..") refl
  where
    go :
        (x : Bool)
        → (c == lit "") ≡ x
        → (y : Bool) → (c == lit ".") ≡ y
        → (z : Bool) → (c == lit "..") ≡ z
        → All (Stays rooted) (keep_component rooted kept c)
    go true ex y ey z ez = rw (ex, keep_component) h
    go false ex true ey z ez = rw (ex, ey, keep_component) h
    go false ex false ey true ez = rw (ex, ey, ez, keep_component) (go_up-Stays rooted kept h)
    go false ex false ey false ez =
        rw (ex, ey, ez, keep_component)
          ((part_ne c (lit "") ex, part_ne c (lit ".") ey, (λ r. part_ne c (lit "..") ez), p), h)

keep_components-Stays :
    (rooted : Bool) (kept cs : List Text)
    → All (Stays rooted) kept
    → All IsPart cs
    → All (Stays rooted) (keep_components rooted kept cs)
unfolding keep_components
keep_components-Stays rooted kept [] h p = h
keep_components-Stays rooted kept (c ∷ cs) h p =
    keep_components-Stays rooted (keep_component rooted kept c) cs
      (keep_component-Stays rooted kept c h p.0) p.1

-- A text that goes on after a component: nothing, or a slash and components.
abbrev Tail : Bool → Text → Type 0
Tail rooted [] = Unit
Tail rooted (c ∷ s) = (c ≡ b'/') × All (Stays rooted) (split b'/' s)

split-component :
    (rooted : Bool) (c path : Text)
    → Stays rooted c
    → Tail rooted path
    → All (Stays rooted) (split b'/' (c ++ path))
split-component rooted c [] h t = rw (append-nil c) (rw (split-none b'/' c h.3) (h, tt))
split-component rooted c (d ∷ s) h t = rw t.0 (rw (split-append b'/' c s h.3) (h, t.1))

join_reversed-Stays :
    (rooted : Bool) (c : Text) (cs : List Text) (path : Text)
    → All (Stays rooted) (c ∷ cs)
    → Tail rooted path
    → All (Stays rooted) (split b'/' (join_reversed (c ∷ cs) path))
join_reversed-Stays rooted c [] path h t = split-component rooted c path h.0 t
join_reversed-Stays rooted c (d ∷ cs) path h t =
    join_reversed-Stays rooted d cs (lit "/" ++ (c ++ path)) h.1
      (refl, split-component rooted c path h.0 t)

abbrev body_of : Text → Text
body_of path = join_reversed (keep_components (is_abs path) [] (split b'/' path)) []

-- What follows the root in a cleaned path: nothing, or components that may stay.
abbrev IsBody : Bool → Text → Type 0
IsBody rooted s = (s ≡ []) ⊎ All (Stays rooted) (split b'/' s)

body_of-IsBody : (path : Text) → IsBody (is_abs path) (body_of path)
body_of-IsBody path =
    go _ (keep_components-Stays (is_abs path) [] (split b'/' path) tt (split-IsPart path))
  where
    go :
        (kept : List Text)
        → All (Stays (is_abs path)) kept
        → IsBody (is_abs path) (join_reversed kept [])
    go [] h = inl refl
    go (c ∷ cs) h = inr (join_reversed-Stays (is_abs path) c cs [] h tt)

pub prefix_rest : (s p : Text) → has_prefix s p ≡ true → (r : Text) × (s ≡ p ++ r)
unfolding has_prefix
prefix_rest s [] h = (s, refl)
prefix_rest [] (c ∷ p) h = cc
prefix_rest (d ∷ s) (c ∷ p) h =
    let e : d ≡ c = ground (arith, h) in
    let t : has_prefix s p ≡ true = ground (arith, h) in
    let (r, f) = prefix_rest s p t in (r, cc (e, f))

-- A cleaned path that begins with /var/log/ goes on with components of which none is empty, `.` or
-- `..`: it stays inside that directory.
pub clean-inside :
    (path rest : Text) → clean path ≡ lit "/var/log/" ++ rest → All (Stays true) (split b'/' rest)
unfolding clean split text_beq
clean-inside path rest e = go (is_abs path) refl (body_of-IsBody path)
  where
    go :
        (b : Bool)
        → is_abs path ≡ b
        → IsBody (is_abs path) (body_of path)
        → All (Stays true) (split b'/' rest)
    go true a (inl n) =
        let d : lit "var/log/" ++ rest ≡ [] = cc (rw (a, clean) at e, rw a at n) in
        let z : ⊥ = cc d in absurd z
    go true a (inr h) =
        let d : body_of path ≡ lit "var/log/" ++ rest = cc (rw (a, clean) at e) in
        let g : All (Stays true) (split b'/' (lit "var/log/" ++ rest)) =
          subst (λ t. All (Stays true) (split b'/' t)) d
            (subst (λ b. All (Stays b) (split b'/' (body_of path))) a h) in
        g.1.1
    go false a (inl n) =
        let m = rw a at n in
        let z : lit "." ≡ lit "/var/log/" ++ rest = cc (rw (a, m, clean) at e) in
        let y : ⊥ = cc z in absurd y
    go false a (inr h) = elim (Bool-cases (body_of path == lit "")) [
      | inl t ↦
          let n : body_of path ≡ [] = (text_beq_iff _ (lit "")).0 t in
          let g : All (Stays (is_abs path)) (split b'/' []) =
            subst (λ u. All (Stays (is_abs path)) (split b'/' u)) n h in
          absurd (g.0.0 refl)
      | inr f ↦
          let m = rw a at f in
          let x = rw (a, m, clean) at e in
          let d : body_of path ≡ lit "/var/log/" ++ rest = rw a x in
          let g : All (Stays (is_abs path)) (split b'/' (lit "/var/log/" ++ rest)) =
            subst (λ u. All (Stays (is_abs path)) (split b'/' u)) d h in
          absurd (g.0.0 refl)
    ]
