-- ===== src/Guest/Logs.antt =====
-- internal/init/init.go: `readLastNLines`.
use goship.Base.{
  Text, lit, ℕ, zero, suc, ◌-◌, ◌<◌, ◌≤◌, false, List, [], ◌∷◌, ◌++◌, Option, none, some, ltb,
  length, drop, length-append, length-drop, if◌then◌else◌, Result, ok, err, ◌≡◌, refl, sym, ap, ◌∙◌,
  arith, Bool-cases, inl, inr,
}
use mathlib.Core.List.{append_assoc, append-nil}
use goship.Strings.{Content, no_file, broken, bytes, raw_lines, scan}

-- The buffer of the last n lines takes one more.
unfoldable pub ring_push : ℕ → List Text → Text → List Text
ring_push n ring line =
    if ltb (length ring) n then ring ++ (line ∷ []) else drop 1 ring ++ (line ∷ [])

unfoldable pub fill : ℕ → List Text → List Text → List Text
unfolding ring_push
fill n ring [] = ring
fill n ring (line ∷ lines) = fill n (ring_push n ring line) lines

abbrev pub join_lines : List Text → Text
join_lines [] = []
join_lines (l ∷ []) = l
join_lines (l ∷ m ∷ ls) = l ++ (lit "\n" ++ join_lines (m ∷ ls))

pub data LogError : Type 0 where
  open_failed read_failed : LogError

abbrev pub last_of : ℕ → Option (List Text) → Result LogError Text
last_of n none = err read_failed
last_of n (some lines) = ok (join_lines (fill n [] lines))

unfoldable pub read_last_n_lines : Content → ℕ → Result LogError Text
unfolding raw_lines scan fill
read_last_n_lines no_file n = err open_failed
read_last_n_lines broken n = err read_failed
read_last_n_lines (bytes s) n = last_of n (scan (raw_lines s))

-- The last n of the lines.
abbrev pub last_n : ℕ → List Text → List Text
last_n n lines = drop (length lines - n) lines

drop-append :
    {A : Type 0} (k : ℕ) (xs ys : List A) → k ≤ length xs → drop k (xs ++ ys) ≡ drop k xs ++ ys
drop-append zero xs ys h = refl
drop-append (suc k) [] ys h = absurd (omega (arith, h))
drop-append (suc k) (x ∷ xs) ys h = drop-append k xs ys (omega (arith, h))

drop_one-drop : {A : Type 0} (k : ℕ) (xs : List A) → drop 1 (drop k xs) ≡ drop (suc k) xs
drop_one-drop zero xs = refl
drop_one-drop (suc k) [] = refl
drop_one-drop (suc k) (x ∷ xs) = drop_one-drop k xs

drop_nil : {A : Type 0} (k : ℕ) → drop {A = A} k [] ≡ []
drop_nil zero = refl
drop_nil (suc k) = refl

push-last_n :
    (n : ℕ) (seen : List Text) (line : Text)
    → 1 ≤ n
    → ring_push n (last_n n seen) line ≡ last_n n (seen ++ (line ∷ []))
unfolding ring_push
push-last_n n seen line pos = elim (Bool-cases (ltb (length seen) n)) [
  | inl t ↦
      let l : length seen < n = ground (arith, t) in
      let a : length seen - n ≡ 0 = omega (arith, l) in
      let b : length (seen ++ (line ∷ [])) - n ≡ 0 =
        omega (arith, l, length-append seen (line ∷ [])) in
      rw (a, b) (rw (t, ring_push) refl)
  | inr f ↦
      let l : n ≤ length seen = ground (arith, f) in
      let a : length (drop (length seen - n) seen) ≡ n =
        omega (arith, l, length-drop (length seen - n) seen) in
      let b : length (seen ++ (line ∷ [])) - n ≡ suc (length seen - n) =
        omega (arith, l, length-append seen (line ∷ [])) in
      let c : ltb (length (drop (length seen - n) seen)) n ≡ false = ground (arith, a) in
      rw (c, ring_push)
        (rw b (
          ap (λ r. r ++ (line ∷ [])) (drop_one-drop (length seen - n) seen)
          ∙ sym (drop-append (suc (length seen - n)) seen (line ∷ []) (omega (arith, l, pos)))))
]

fill-last_n :
    (n : ℕ) (seen lines : List Text)
    → 1 ≤ n
    → fill n (last_n n seen) lines ≡ last_n n (seen ++ lines)
unfolding fill
fill-last_n n seen [] pos = ap (last_n n) (sym (append-nil seen))
fill-last_n n seen (line ∷ lines) pos =
    ap (λ r. fill n r lines) (push-last_n n seen line pos)
    ∙ (fill-last_n n (seen ++ (line ∷ [])) lines pos
        ∙ ap (last_n n) (append_assoc seen (line ∷ []) lines))

-- The buffer holds exactly the last n lines, in their order, for a positive n.
pub read_last_n_lines_exact :
    (s : Text) (lines : List Text) (n : ℕ)
    → 1 ≤ n
    → scan (raw_lines s) ≡ some lines
    → read_last_n_lines (bytes s) n ≡ ok (join_lines (drop (length lines - n) lines))
unfolding read_last_n_lines
read_last_n_lines_exact s lines n pos e =
    let start : [] ≡ last_n n [] = sym (drop_nil (0 - n)) in
    rw (e, read_last_n_lines)
      (ap (λ r. ok (join_lines r)) (ap (λ r. fill n r lines) start ∙ fill-last_n n [] lines pos))
