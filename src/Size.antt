-- ===== src/Size.antt =====
-- internal/shared/size/parse.go: `ParseSizeMB`.
use goship.Base.{
  Text, lit, ℕ, ◌-◌, ◌*◌, ◌^◌, ◌<◌, ◌≤◌, false, ◌||◌, [], ◌∷◌, ◌++◌, Option, none, some, ◌==◌,
  nat_eq, if◌then◌else◌, Result, ok, err, ℤ, pos, negsuc, itoa, ◌≡◌, refl, arith, ap,
}
use goship.Strings.{
  trim_left, trim_space, parse_int, unsnoc, wrap_int64, wrap_int64_low, wrap_int64_high,
  itoa-StartsWithDigit, parse_int-itoa, trim_left-start, trim_right-end, unsnoc-append, is_space,
}

pub data SizeError : Type 0 where
  empty invalid negative : SizeError

-- The number before the suffix.
abbrev pub megabytes : Option ℤ → Result SizeError ℤ
megabytes none = err invalid
megabytes (some (pos n)) = ok (pos n)
megabytes (some (negsuc n)) = err negative

-- `val * bytesPerGB` on int64.
abbrev pub gigabytes : Option ℤ → Result SizeError ℤ
gigabytes none = err invalid
gigabytes (some (pos n)) = ok (wrap_int64 (n * 1024))
gigabytes (some (negsuc n)) = err negative

abbrev pub by_suffix : Text → Option (Text × ℕ) → Result SizeError ℤ
by_suffix s none = err empty
by_suffix s (some (number, suffix)) =
    if suffix == b'm' || suffix == b'M'
    then megabytes (parse_int number)
    else if suffix == b'g' || suffix == b'G'
    then gigabytes (parse_int number)
    else megabytes (parse_int s)

unfoldable pub parse_size_mb : Text → Result SizeError ℤ
parse_size_mb s = by_suffix (trim_space s) (unsnoc (trim_space s))

trim_space-number :
    (n c : ℕ) → is_space c ≡ false → trim_space (itoa n ++ (c ∷ [])) ≡ itoa n ++ (c ∷ [])
unfolding trim_space
trim_space-number n c h =
    let d = itoa-StartsWithDigit n in
    let low = d.low in
    let e : trim_left (itoa n ++ (c ∷ [])) ≡ itoa n ++ (c ∷ []) =
      rw d.split_as (trim_left-start d.first _ (ground (arith, low))) in
    rw e (trim_right-end (itoa n) c h)

-- A number of megabytes with `M` is read as it is. A number of gigabytes with `G` is read as its
-- megabytes if they are below 2 ^ 63. Above that, up to 2 ^ 64, the result is a negative size, and
-- no error.
pub parse_size_mb_exact :
    (n : ℕ)
    → n < 2 ^ 63
    → (parse_size_mb (itoa n ++ lit "M") ≡ ok (pos n))
      × (n * 1024 < 2 ^ 63 → parse_size_mb (itoa n ++ lit "G") ≡ ok (pos (n * 1024)))
      × (2 ^ 63 ≤ n * 1024
          → n * 1024 < 2 ^ 64
          → parse_size_mb (itoa n ++ lit "G") ≡ ok (negsuc (2 ^ 64 - n * 1024 - 1)))
unfolding parse_size_mb
parse_size_mb_exact n l = (
  rw (trim_space-number n b'M' refl) (rw (unsnoc-append, parse_int-itoa n l) refl),
  (λ h.
      rw (trim_space-number n b'G' refl)
        (rw (unsnoc-append, parse_int-itoa n l) (ap ok (wrap_int64_low (n * 1024) h)))),
  (λ h k.
      rw (trim_space-number n b'G' refl)
        (rw (unsnoc-append, parse_int-itoa n l) (ap ok (wrap_int64_high (n * 1024) h k)))),
)
