-- ===== src/Store/Loading.antt =====
-- What `load` makes of the document that `save` writes.
use goship.Base.{
  map_values, get-map_values, Text, false, ◌≡◌, refl, ap, ◌∙◌, [], ◌∷◌, none, some, Dict, get,
  AllValues, AllValues-imp, Result, ok, is_ok, arith, text_eq,
}
use goship.Entities.Name.{validate_project_name, validate_app_name}
use goship.Entities.App.{AppSpec}
use goship.Entities.Project.{Project}
use goship.Entities.Instance.{ProjectInstance, check_binding}
use goship.Entities.LocalState.{LocalState}
use goship.Store.Disk.{
  LoadError, omit_env, to_file, validate_instance_binding, check_values, load_project, load_app,
  load_apps, load_instance, load_file, bound_instance,
}

abbrev pub HasName : Project → Type 0
HasName p = validate_project_name p.name ≡ ok tt

abbrev pub HasAppName : AppSpec → Type 0
HasAppName a = validate_app_name a.name ≡ ok tt

abbrev pub IsBound : Dict Project → ProjectInstance → Type 0
IsBound projects i = validate_instance_binding projects (some i) ≡ ok tt

-- What `load` asks of a state.
pub record IsLoadable (s : LocalState) : Type 0 where
  pub named : AllValues HasName s.projects
  pub apps_named : AllValues (AllValues HasAppName) s.apps
  pub bound : AllValues (IsBound s.projects) s.instances

-- The state as a restart sees it: an empty environment of a project has become nil.
abbrev pub reloaded : LocalState → LocalState
reloaded s = record s { projects = map_values omit_env s.projects }

module _ {ℓ} {A B C : Type ℓ} where
  pub check_values-map_values :
      (f : A → Result LoadError B) (g : C → A) (h : C → B) (m : Dict C)
      → AllValues (λ c. f (g c) ≡ ok (h c)) m
      → check_values f (map_values g m) ≡ ok (map_values h m)
  unfolding check_values map_values
  check_values-map_values f g h [] all = refl
  check_values-map_values f g h ((k, c) ∷ m) all =
      rw all.0 (rw (check_values-map_values f g h m all.1))

module _ {ℓ} {A B : Type ℓ} where
  -- One value that does not pass is enough for the loop to fail.
  pub check_values-fails :
      (f : A → Result LoadError B) (m : Dict A) (k : Text) (v : A)
      → get m k ≡ some v
      → is_ok (f v) ≡ false
      → is_ok (check_values f m) ≡ false
  unfolding check_values get
  check_values-fails f [] k v e h = cc
  check_values-fails f ((j, w) ∷ m) k v e h = ground (arith, check_values-fails f m k v)

  pub get-check_values-none :
      (f : A → Result LoadError B) (m : Dict A) (w : Dict B) (k : Text)
      → check_values f m ≡ ok w
      → get m k ≡ none
      → get w k ≡ none
  unfolding check_values get
  get-check_values-none f [] w k e h = ground arith
  get-check_values-none f ((j, v) ∷ m) [] k e h = ground arith
  get-check_values-none f ((j, v) ∷ m) ((i, x) ∷ w) k e h =
      ground (arith, get-check_values-none f m w k)

module _ {ℓ} {A : Type ℓ} where
  pub map_values-id : (m : Dict A) → map_values (λ x. x) m ≡ m
  unfolding map_values
  map_values-id [] = refl
  map_values-id ((k, v) ∷ m) = rw (map_values-id m)

load-apps :
    (m : Dict AppSpec) → AllValues HasAppName m → load_apps (some (map_values some m)) ≡ ok m
load-apps m h =
    check_values-map_values load_app some (λ a. a) m (AllValues-imp _ _ (λ a e. rw e) m h)
    ∙ ap ok (map_values-id m)

IsBound-omit :
    (ps : Dict Project) (i : ProjectInstance) → IsBound ps i → IsBound (map_values omit_env ps) i
unfolding validate_instance_binding check_binding
IsBound-omit ps i h = ground (arith, get-map_values omit_env ps i.project_id)

-- A loadable state is read back from what `save` writes of it.
pub load_file-to_file : (s : LocalState) → IsLoadable s → load_file (to_file s) ≡ ok (reloaded s)
unfolding load_file to_file
load_file-to_file s h =
    let e1 =
      check_values-map_values load_project (λ p. some (omit_env p)) omit_env s.projects
        (AllValues-imp HasName _ (λ p e. rw e) s.projects h.named) in
    let e2 =
      check_values-map_values load_apps (λ m. some (map_values some m)) (λ m. m) s.apps
        (AllValues-imp (AllValues HasAppName) _ load-apps s.apps h.apps_named) in
    let e3 =
      check_values-map_values (load_instance (map_values omit_env s.projects)) some (λ i. i)
        s.instances
        (AllValues-imp (IsBound s.projects) _
          (λ i e. ap (bound_instance (some i)) (IsBound-omit s.projects i e)) s.instances
          h.bound) in
    rw e1 (rw e2 (rw e3 (rw (map_values-id s.apps, map_values-id s.instances))))
