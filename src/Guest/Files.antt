-- ===== src/Guest/Files.antt =====
-- The files that the transfers of internal/init/init.go write, by path, and what the system answers.
use goship.Base.{
  Text, ◌≡◌, ◌++◌, none, some, Dict, get, put, remove, get-put, get-remove, text_beq_iff, text_eq,
  arith, ◌≢◌, Option-cases, inl, inr,
}

abbrev pub Files : Type 0
Files = Dict Text

-- os.Rename of a file that may be absent, where the system allows it.
unfoldable pub rename : Text → Text → Files → Files
rename src dst fs = elim (get fs src) [ none ↦ fs | some c ↦ put (remove fs src) dst c ]

-- A write at the end of an open file.
unfoldable pub append_to : Text → Text → Files → Files
append_to path bytes fs = elim (get fs path) [ none ↦ fs | some c ↦ put fs path (c ++ bytes) ]

module _ (src dst : Text) (fs : Files) where
  pub get-rename_other : (j : Text) → src ≢ j → dst ≢ j → get (rename src dst fs) j ≡ get fs j
  unfolding rename
  get-rename_other j a b = elim (Option-cases (get fs src)) [
    | inl e ↦ ground (arith, e)
    | inr e ↦ ground (
      arith,
      e.1,
      get-put (remove fs src) dst j e.0,
      get-remove fs src j,
      text_beq_iff src j,
      text_beq_iff dst j,
    )
  ]

  -- What stood at the source stands at the target, if nothing stood there.
  pub get-rename_dst : get fs dst ≡ none → get (rename src dst fs) dst ≡ get fs src
  unfolding rename
  get-rename_dst free = elim (Option-cases (get fs src)) [
    | inl e ↦ ground (arith, e, free)
    | inr e ↦ ground (arith, e.1, get-put (remove fs src) dst dst e.0, text_beq_iff dst dst)
  ]

  pub get-rename_full : (c : Text) → get fs src ≡ some c → get (rename src dst fs) dst ≡ some c
  unfolding rename
  get-rename_full c e = ground (arith, e, get-put (remove fs src) dst dst c, text_beq_iff dst dst)

  pub get-rename_src : src ≢ dst → get (rename src dst fs) src ≡ none
  unfolding rename
  get-rename_src d = elim (Option-cases (get fs src)) [
    | inl e ↦ ground (arith, e)
    | inr e ↦ ground (
      arith,
      e.1,
      get-put (remove fs src) dst src e.0,
      get-remove fs src src,
      text_beq_iff src src,
      text_beq_iff dst src,
    )
  ]

pub get-append_to :
    (path bytes : Text) (fs : Files) (c : Text)
    → get fs path ≡ some c
    → get (append_to path bytes fs) path ≡ some (c ++ bytes)
unfolding append_to
get-append_to path bytes fs c e =
    ground (arith, e, get-put fs path path (c ++ bytes), text_beq_iff path path)
