-- ===== src/Base/Decimal.antt =====
-- Decimal digits: what `%d` and strconv.Itoa print of a number that is not negative.
use Prim.Native.Nat.{ℕ, zero, suc, ◌+◌, ◌/◌, ◌%◌}
use mathlib.Core.List.{[], ◌∷◌, ◌++◌}
use goship.Base.Tests.{ltb, if◌then◌else◌}
use goship.Base.Bytes.{Text, lit}
use goship.Base.Ints.{ℤ, pos, negsuc}

-- The digits of n in front of `acc`; fuel n + 1 is enough, since each round divides n by ten.
unfoldable pub digits : ℕ → ℕ → Text → Text
digits zero n acc = acc
digits (suc fuel) n acc =
    let next = (48 + n % 10) ∷ acc in
    let rest = digits fuel (n / 10) next in if ltb n 10 then next else rest

unfoldable pub itoa : ℕ → Text
unfolding digits
itoa n = digits (n + 1) n []

-- strconv.Itoa and `%d`
abbrev pub print_int : ℤ → Text
print_int (pos n) = itoa n
print_int (negsuc n) = lit "-" ++ itoa (suc n)
