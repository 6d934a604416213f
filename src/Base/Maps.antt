-- ===== src/Base/Maps.antt =====
-- Go's `map` with string keys, as an association list in the order in which the program iterates.
-- Go leaves that order open; a statement about every list is one about every order.
use mathlib.Core.Logic.{◌≢◌}
use mathlib.Core.Path.{◌≡◌, refl}
use mathlib.Core.Bool.{Bool, true, false}
use mathlib.Core.Option
use mathlib.Core.Option.{Option, none, some}
use mathlib.Core.List.{List, [], ◌∷◌}
use native.Mathlib.Omega.{arith}
use goship.Base.Tests.{◌==◌, if◌then◌else◌}
use goship.Base.Bytes.{Text, text_eq, text_beq_iff}

abbrev pub Dict {ℓ} : Type ℓ → Type ℓ
Dict V = List (Text × V)

abbrev pub or_else {ℓ} : {A : Type ℓ} → Option A → Option A → Option A
or_else none y = y
or_else (some x) y = some x

abbrev pub is_some {ℓ} : {A : Type ℓ} → Option A → Bool
is_some none = false
is_some (some x) = true

module _ {ℓ} {V : Type ℓ} where
  -- v, ok := m[k]
  unfoldable pub get : Dict V → Text → Option V
  get [] k = none
  get ((j, v) ∷ m) k = if j == k then some v else get m k

  -- m[k] = v
  unfoldable pub put : Dict V → Text → V → Dict V
  put [] k v = (k, v) ∷ []
  put ((j, w) ∷ m) k v = let rest = put m k v in if j == k then (k, v) ∷ m else (j, w) ∷ rest

  -- delete(m, k)
  unfoldable pub remove : Dict V → Text → Dict V
  remove [] k = []
  remove ((j, v) ∷ m) k = let rest = remove m k in if j == k then rest else (j, v) ∷ rest

  -- maps.Copy(dst, src)
  unfoldable pub copy : Dict V → Dict V → Dict V
  copy dst [] = dst
  copy dst ((k, v) ∷ src) = put (copy dst src) k v

  -- The first entry, in the order of iteration, whose value passes the test.
  unfoldable pub find : (V → Bool) → Dict V → Option (Text × V)
  find p [] = none
  find p ((k, v) ∷ m) = let rest = find p m in if p v then some (k, v) else rest

  abbrev pub values : Dict V → List V
  values [] = []
  values ((k, v) ∷ m) = v ∷ values m

  -- A Go map holds a key once.
  abbrev pub IsMap : Dict V → Type ℓ
  IsMap [] = Unit
  IsMap ((k, v) ∷ m) = (get m k ≡ none) × IsMap m

  pub get-put :
      (m : Dict V) (k j : Text) (v : V) → get (put m k v) j ≡ (if k == j then some v else get m j)
  unfolding get put
  get-put [] k j v = refl
  get-put ((i, w) ∷ m) k j v =
      ground (arith, text_beq_iff i k, text_beq_iff i j, text_beq_iff k j, get-put m k j v)

  pub get-remove :
      (m : Dict V) (k j : Text) → get (remove m k) j ≡ (if k == j then none else get m j)
  unfolding get remove
  get-remove [] k j = ground arith
  get-remove ((i, w) ∷ m) k j =
      ground (arith, text_beq_iff i k, text_beq_iff i j, text_beq_iff k j, get-remove m k j)

  pub get-copy :
      (dst src : Dict V) (j : Text) → get (copy dst src) j ≡ or_else (get src j) (get dst j)
  unfolding get copy
  get-copy dst [] j = refl
  get-copy dst ((k, v) ∷ src) j = ground (arith, get-put (copy dst src) k j v, get-copy dst src j)

  pub get-put_self : (m : Dict V) (k : Text) (v : V) → get (put m k v) k ≡ some v
  get-put_self m k v = ground (arith, get-put m k k v, text_beq_iff k k)

  pub get-put_ne : (m : Dict V) (k j : Text) (v : V) → j ≢ k → get (put m k v) j ≡ get m j
  get-put_ne m k j v d = ground (arith, get-put m k j v, text_beq_iff k j)

  pub get-remove_ne : (j k : Text) (m : Dict V) → k ≢ j → get (remove m k) j ≡ get m j
  get-remove_ne j k m d = ground (arith, get-remove m k j, text_beq_iff k j)

  pub put-IsMap : (m : Dict V) (k : Text) (v : V) → IsMap m → IsMap (put m k v)
  unfolding get put
  put-IsMap [] k v h = (refl, tt)
  put-IsMap ((i, w) ∷ m) k v h =
      ground (arith, text_beq_iff i k, text_beq_iff k i, get-put m k i v, put-IsMap m k v h.1)

  pub remove-IsMap : (m : Dict V) (k : Text) → IsMap m → IsMap (remove m k)
  unfolding get remove
  remove-IsMap [] k h = tt
  remove-IsMap ((i, w) ∷ m) k h =
      ground (arith, text_beq_iff k i, get-remove m k i, remove-IsMap m k h.1)

  pub copy-IsMap : (dst src : Dict V) → IsMap dst → IsMap (copy dst src)
  unfolding copy
  copy-IsMap dst [] h = h
  copy-IsMap dst ((k, v) ∷ src) h = put-IsMap (copy dst src) k v (copy-IsMap dst src h)

  -- What `find` returns is an entry that passes the test.
  pub find-some :
      (p : V → Bool) (m : Dict V) {k : Text} {v : V}
      → IsMap m
      → find p m ≡ some (k, v)
      → (p v ≡ true) × (get m k ≡ some v)
  unfolding find get
  find-some p [] h e = cc
  find-some p ((i, w) ∷ m) {k} {v} h e =
      ground (arith, text_beq_iff i k, find-some p m {k = k} {v = v} h.1)

  -- `find` fails only if no entry passes the test.
  pub find-none :
      (p : V → Bool) (m : Dict V) (k : Text) (v : V)
      → find p m ≡ none
      → get m k ≡ some v
      → p v ≡ false
  unfolding find get
  find-none p [] k v e g = cc
  find-none p ((i, w) ∷ m) k v e g = ground (arith, find-none p m k v)

module _ {ℓ} {A B : Type ℓ} where
  -- Every value of a map, its key kept.
  unfoldable pub map_values : (A → B) → Dict A → Dict B
  map_values f [] = []
  map_values f ((k, v) ∷ m) = (k, f v) ∷ map_values f m

  pub get-map_values :
      (f : A → B) (m : Dict A) (k : Text) → get (map_values f m) k ≡ Option.map f (get m k)
  unfolding get map_values
  get-map_values f [] k = refl
  get-map_values f ((j, v) ∷ m) k = ground (arith, get-map_values f m k)

pub ruleset dict_laws = (get-put, get-remove, get-copy)
