-- ===== src/Store/Names.antt =====
-- Projects are found by ID or by name: with names unique, in any order of iteration.
use goship.Base.{
  Text, lit, ◌≡◌, ◌≢◌, refl, ap, [], Option, none, some, Dict, get, get-remove, find-none,
  find-some, IsMap, ok, arith, ◌==◌, text_eq, text_beq_iff, text_beq_refl, inl, inr, Bool-cases,
  ◌⊎◌,
}
use goship.Entities.Project.{Project}
use goship.Entities.LocalState.{get_project_apps}
use goship.Store.Disk.{Store, Env, save, saved}
use goship.Store.Projects.{get_project, delete_project, project_id_of, by_name, without_project}

-- What `CreateProject` keeps of the projects: each stands under its ID, and no two share a name.
pub record IsConsistent (ps : Dict Project) : Type 0 where
  pub is_map : IsMap ps
  pub keyed : (k : Text) (p : Project) → get ps k ≡ some p → p.id ≡ k
  pub unique :
      (j k : Text) (p q : Project) → get ps j ≡ some p → get ps k ≡ some q → p.name ≡ q.name → j ≡ k

module _ (s : Store) (c : IsConsistent s.state.projects) where
  by_name-some :
      (name : Text) (k : Text) (p : Project)
      → by_name name s ≡ some (k, p)
      → (p.name ≡ name) × (get s.state.projects k ≡ some p)
  by_name-some name k p e =
      let (t, g) = find-some (λ p. p.name == name) s.state.projects c.is_map e in
      ((text_beq_iff p.name name).0 t, g)

  by_name_exact :
      (k : Text) (p : Project) → get s.state.projects k ≡ some p → by_name p.name s ≡ some (k, p)
  by_name_exact k p g = go (by_name p.name s) refl
    where
      go : (o : Option (Text × Project)) → by_name p.name s ≡ o → by_name p.name s ≡ some (k, p)
      go none e =
          cc (find-none (λ q. q.name == p.name) s.state.projects k p e g, text_beq_refl p.name)
      go (some (j, q)) e =
          let (n, h) = by_name-some p.name j q e in
          let d : j ≡ k = c.unique j k q p h g n in ground (arith, d, h, g)

  -- A project is found under its ID, and under its name if that is no other project's ID: the
  -- order in which the map is iterated does not matter.
  pub get_project_exact :
      (k : Text) (p : Project)
      → get s.state.projects k ≡ some p
      → (get_project k s ≡ ok p)
        × (get s.state.projects p.name ≡ none → get_project p.name s ≡ ok p)
  unfolding get_project
  get_project_exact k p g =
      (rw (g, get_project), λ absent. rw (absent, by_name_exact k p g, get_project))

  -- What `GetProject` returns stands in the map under its own ID, and its ID or its name is the key
  -- that was asked for.
  pub get_project_sound :
      (key : Text) (p : Project)
      → get_project key s ≡ ok p
      → (get s.state.projects p.id ≡ some p) × ((p.id ≡ key) ⊎ (p.name ≡ key))
  unfolding get_project
  get_project_sound key p e = go (get s.state.projects key) refl (by_name key s) refl
    where
      go :
          (o : Option Project)
          → get s.state.projects key ≡ o
          → (n : Option (Text × Project)) → by_name key s ≡ n
          → (get s.state.projects p.id ≡ some p) × ((p.id ≡ key) ⊎ (p.name ≡ key))
      go (some q) eo n en =
          let d : q ≡ p = cc (rw (eo, get_project) at e) in
          let i = c.keyed key q eo in ground (arith, d, i, eo)
      go none eo none en = cc (rw (eo, en, get_project) at e)
      go none eo (some (j, q)) en =
          let (t, g) = by_name-some key j q en in
          let d : q ≡ p = cc (rw (eo, en, get_project) at e) in
          let i = c.keyed j q g in ground (arith, d, i, g, t)

  pub project_id_of-eq :
      (key : Text) (p : Project) → get_project key s ≡ ok p → project_id_of key s ≡ p.id
  unfolding get_project project_id_of
  project_id_of-eq key p e = go (get s.state.projects key) refl (by_name key s) refl
    where
      go :
          (o : Option Project)
          → get s.state.projects key ≡ o
          → (n : Option (Text × Project)) → by_name key s ≡ n
          → project_id_of key s ≡ p.id
      go (some q) eo n en =
          let d : q ≡ p = cc (rw (eo, get_project) at e) in
          let i = c.keyed key q eo in rw (eo, project_id_of) (ground (arith, d, i))
      go none eo none en = cc (rw (eo, en, get_project) at e)
      go none eo (some (j, q)) en =
          let d : q ≡ p = cc (rw (eo, en, get_project) at e) in
          rw (eo, en, project_id_of) (ap (λ (r : Project). r.id) d)

saved-state : (e : Env) (s : Store) → (saved (save e s)).1.state.projects ≡ s.state.projects
unfolding save
saved-state e s = ground arith

saved-get_project_apps :
    (e : Env) (s : Store) (id : Text)
    → get_project_apps (saved (save e s)).1.state id ≡ get_project_apps s.state id
unfolding save get_project_apps
saved-get_project_apps e s id = ground arith

get_project_apps-without_project :
    (s : Store) (id : Text) → get_project_apps (without_project id s).state id ≡ []
unfolding get_project_apps
get_project_apps-without_project s id =
    ground (arith, get-remove s.state.apps id id, text_beq_refl id)

pub delete_project-eq :
    (key id : Text) (e : Env) (s : Store)
    → project_id_of key s ≡ id
    → id ≢ lit ""
    → delete_project key e s ≡ saved (save e (without_project id s))
unfolding delete_project
delete_project-eq key id e s i has_id = rw i (elim (Bool-cases (id == lit "")) [
  | inl t ↦ absurd (has_id ((text_beq_iff _ _).0 t))
  | inr f ↦ rw f
])

module _ (s : Store) (c : IsConsistent s.state.projects) (key : Text) (p : Project) (e : Env)
    (known : get_project key s ≡ ok p) (has_id : p.id ≢ lit "") where
  pub delete_project_lem : delete_project key e s ≡ saved (save e (without_project p.id s))
  delete_project_lem = delete_project-eq key p.id e s (project_id_of-eq s c key p known) has_id

  -- Deleting by ID or by name, the project and its apps are gone, and every other project is as it
  -- was, also where the save failed.
  pub delete_project_exact :
      let t = (delete_project key e s).1 in
      (get t.state.projects p.id ≡ none)
      × (get_project_apps t.state p.id ≡ [])
      × ((j : Text) → j ≢ p.id → get t.state.projects j ≡ get s.state.projects j)
  delete_project_exact = rw delete_project_lem (
    rw saved-state (rw (get-remove, text_beq_refl)),
    rw saved-get_project_apps (get_project_apps-without_project s p.id),
    λ j d. rw saved-state (ground (arith, get-remove s.state.projects p.id j, text_beq_iff p.id j)),
  )
