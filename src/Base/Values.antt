-- ===== src/Base/Values.antt =====
-- Statements about every value of a map, and how the operations on maps keep them.
use mathlib.Core.Path.{◌≡◌, subst}
use mathlib.Core.Logic.{inl, inr}
use mathlib.Core.Option.{some}
use mathlib.Core.List.{[], ◌∷◌}
use goship.Base.Tests.{◌==◌, Bool-cases}
use goship.Base.Bytes.{Text, text_eq}
use goship.Base.Maps.{Dict, get, put, remove}

abbrev pub AllValues {ℓ κ} : {V : Type ℓ} → (V → Type κ) → Dict V → Type κ
AllValues P [] = Unit
AllValues P ((k, v) ∷ m) = P v × AllValues P m

module _ {ℓ κ} {V : Type ℓ} (P : V → Type κ) where
  pub AllValues-get : (m : Dict V) (k : Text) (v : V) → AllValues P m → get m k ≡ some v → P v
  unfolding get
  AllValues-get [] k v h e = cc
  AllValues-get ((j, w) ∷ m) k v h e = elim (Bool-cases (j == k)) [
    | inl t ↦ let q : w ≡ v = cc (rw t at e) in subst P q h.0
    | inr f ↦ AllValues-get m k v h.1 (rw f at e)
  ]

  pub AllValues-put :
      (m : Dict V) (k : Text) (v : V) → AllValues P m → P v → AllValues P (put m k v)
  unfolding put
  AllValues-put [] k v h p = (p, tt)
  AllValues-put ((j, w) ∷ m) k v h p = elim (Bool-cases (j == k)) [
    | inl t ↦ rw t (p, h.1)
    | inr f ↦ rw f (h.0, AllValues-put m k v h.1 p)
  ]

  pub AllValues-remove : (m : Dict V) (k : Text) → AllValues P m → AllValues P (remove m k)
  unfolding remove
  AllValues-remove [] k h = tt
  AllValues-remove ((j, w) ∷ m) k h = elim (Bool-cases (j == k)) [
    | inl t ↦ rw t (AllValues-remove m k h.1)
    | inr f ↦ rw f (h.0, AllValues-remove m k h.1)
  ]

module _ {ℓ κ μ} {V : Type ℓ} (P : V → Type κ) (Q : V → Type μ) where
  pub AllValues-imp : ((v : V) → P v → Q v) → (m : Dict V) → AllValues P m → AllValues Q m
  AllValues-imp f [] h = tt
  AllValues-imp f ((k, v) ∷ m) h = (f v h.0, AllValues-imp f m h.1)

  pub AllValues-both : (m : Dict V) → AllValues P m → AllValues Q m → AllValues (λ v. P v × Q v) m
  AllValues-both [] h g = tt
  AllValues-both ((k, v) ∷ m) h g = ((h.0, g.0), AllValues-both m h.1 g.1)
