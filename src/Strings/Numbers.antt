-- ===== src/Strings/Numbers.antt =====
-- strconv.ParseInt and Atoi in base 10, 64 bits, and their inverse Itoa.
use goship.Base.{
  Text, ℕ, zero, suc, ◌+◌, ◌-◌, ◌*◌, ◌/◌, ◌%◌, ◌^◌, ◌<◌, ◌≤◌, Bool, true, ◌&&◌, [], ◌∷◌, Option,
  none, some, ◌==◌, nat_eq, leb, ltb, if◌then◌else◌, ◌≡◌, refl, ◌∙◌, All, arith, ℤ, pos, negsuc,
  digits, itoa, Bool-cases, inl, inr, ap, subst,
}

abbrev pub is_digit : ℕ → Bool
is_digit c = leb 48 c && leb c 57

-- The value of the digits, from the value `acc` of those before.
unfoldable pub parse_digits : ℕ → Text → Option ℕ
parse_digits acc [] = some acc
parse_digits acc (c ∷ s) =
    let rest = parse_digits (acc * 10 + (c - 48)) s in if is_digit c then rest else none

-- strconv.ParseUint: at least one digit.
abbrev pub parse_unsigned : Text → Option ℕ
parse_unsigned [] = none
parse_unsigned (c ∷ s) = parse_digits 0 (c ∷ s)

abbrev pub positive : Option ℕ → Option ℤ
positive none = none
positive (some n) = if ltb n (2 ^ 63) then some (pos n) else none

abbrev pub negative : Option ℕ → Option ℤ
negative none = none
negative (some zero) = some (pos 0)
negative (some (suc n)) = if ltb n (2 ^ 63) then some (negsuc n) else none

-- Nothing stands for both errors, of syntax and of range.
unfoldable pub parse_int : Text → Option ℤ
unfolding parse_digits
parse_int [] = none
parse_int (c ∷ s) =
    if c == 43
    then positive (parse_unsigned s)
    else if c == 45
    then negative (parse_unsigned s)
    else positive (parse_unsigned (c ∷ s))

-- The value of int64 arithmetic that wraps, from a result that is not negative.
unfoldable pub wrap_int64 : ℕ → ℤ
wrap_int64 n = let r = n % 2 ^ 64 in if ltb r (2 ^ 63) then pos r else negsuc (2 ^ 64 - r - 1)

parse_digits-digit :
    (acc d : ℕ) (s : Text)
    → d < 10
    → parse_digits acc ((48 + d) ∷ s) ≡ parse_digits (acc * 10 + d) s
unfolding parse_digits
parse_digits-digit acc d s h = let e : (48 + d) - 48 ≡ d = omega arith in ground (arith, e, h)

parse_digits-digits :
    (fuel n : ℕ) (s : Text) → n < fuel → parse_digits 0 (digits fuel n s) ≡ parse_digits n s
unfolding digits
parse_digits-digits zero n s h = absurd (omega (arith, h))
parse_digits-digits (suc fuel) n s h = elim (Bool-cases (ltb n 10)) [
  | inl t ↦
      let l : n < 10 = ground (arith, t) in
      let e : 0 * 10 + n % 10 ≡ n = omega (arith, l) in
      rw t (parse_digits-digit 0 (n % 10) s (omega arith) ∙ ap (λ k. parse_digits k s) e)
  | inr f ↦
      let l : 10 ≤ n = ground (arith, f) in
      let e : n / 10 * 10 + n % 10 ≡ n = omega arith in
      rw f (
        parse_digits-digits fuel (n / 10) ((48 + n % 10) ∷ s) (omega (arith, h, l))
        ∙ (parse_digits-digit (n / 10) (n % 10) s (omega arith) ∙ ap (λ k. parse_digits k s) e))
]

-- The printed number begins with a digit.
pub record StartsWithDigit (s : Text) : Type 0 where
  pub first : ℕ
  pub rest : Text
  pub split_as : s ≡ first ∷ rest
  pub low : 48 ≤ first
  pub high : first ≤ 57

digits-StartsWithDigit : (fuel n : ℕ) (s : Text) → n < fuel → StartsWithDigit (digits fuel n s)
unfolding digits
digits-StartsWithDigit zero n s h = absurd (omega (arith, h))
digits-StartsWithDigit (suc fuel) n s h = elim (Bool-cases (ltb n 10)) [
  | inl t ↦ rw t (record {
    first = 48 + n % 10;
    rest = s;
    split_as = refl;
    low = omega arith;
    high = omega arith;
  })
  | inr f ↦
      let l : 10 ≤ n = ground (arith, f) in
      rw f (digits-StartsWithDigit fuel (n / 10) _ (omega (arith, h, l)))
]

pub itoa-StartsWithDigit : (n : ℕ) → StartsWithDigit (itoa n)
unfolding itoa
itoa-StartsWithDigit n = digits-StartsWithDigit (n + 1) n [] (omega arith)

digits-All :
    (fuel n : ℕ) (s : Text)
    → All (λ c. is_digit c ≡ true) s
    → All (λ c. is_digit c ≡ true) (digits fuel n s)
unfolding digits
digits-All zero n s h = h
digits-All (suc fuel) n s h = elim (Bool-cases (ltb n 10)) [
  | inl t ↦ rw t (ground (arith), h)
  | inr f ↦ rw f (digits-All fuel (n / 10) _ (ground (arith), h))
]

-- Only digits are printed.
pub itoa-All : (n : ℕ) → All (λ c. is_digit c ≡ true) (itoa n)
unfolding itoa
itoa-All n = digits-All (n + 1) n [] tt

parse_int-digits :
    (c : ℕ) (s : Text) (n : ℕ)
    → 48 ≤ c
    → parse_digits 0 (c ∷ s) ≡ some n
    → n < 2 ^ 63
    → parse_int (c ∷ s) ≡ some (pos n)
unfolding parse_int
parse_int-digits c s n low e l = ground (arith, low, e, l)

-- What Itoa prints is read back, in the range of int64.
pub parse_int-itoa : (n : ℕ) → n < 2 ^ 63 → parse_int (itoa n) ≡ some (pos n)
unfolding itoa parse_digits
parse_int-itoa n l =
    let d = itoa-StartsWithDigit n in
    let e : parse_digits 0 (itoa n) ≡ some n = parse_digits-digits (n + 1) n [] (omega arith) in
    rw d.split_as (
      parse_int-digits d.first d.rest n d.low (subst (λ t. parse_digits 0 t ≡ some n) d.split_as e)
        l)

pub wrap_int64_low : (n : ℕ) → n < 2 ^ 63 → wrap_int64 n ≡ pos n
unfolding wrap_int64
wrap_int64_low n l = let e : n % 2 ^ 64 ≡ n = omega (arith, l) in ground (arith, e, l)

pub wrap_int64_high : (n : ℕ) → 2 ^ 63 ≤ n → n < 2 ^ 64 → wrap_int64 n ≡ negsuc (2 ^ 64 - n - 1)
unfolding wrap_int64
wrap_int64_high n l h = let e : n % 2 ^ 64 ≡ n = omega (arith, h) in ground (arith, e, l)
