-- ===== src/Store/Uniqueness.antt =====
-- `CreateProject` keeps names unique, and changes nothing where it returns an error.
use goship.Base.{
  Text, ◌≡◌, ◌≢◌, refl, sym, ◌∙◌, Option, none, some, get, put, remove, get-put, get-put_self,
  find-none, ap, ok_injective, put-IsMap, remove-IsMap, Result, ok, err, arith, ◌==◌, text_eq,
  text_beq_iff,
}
use goship.Entities.Name.{NameError, validate_project_name}
use goship.Entities.Resources.{Resources}
use goship.Entities.Project.{Project, RuntimeType}
use goship.Store.Disk.{Store, StoreError, Env, WriteOutcome, written, marshal_fails, write_fails}
use goship.Store.Projects.{create_project, with_projects, by_name, fresh_project}
use goship.Store.Creating.{get-undo}
use goship.Store.Names.{IsConsistent}

module _ (name : Text) (rt : RuntimeType) (res : Resources) (id : Text) (e : Env) (s : Store)
    (fresh : get s.state.projects id ≡ none) where
  p : Project
  p = fresh_project id name rt res e

  added : Store
  unfolding p
  added = with_projects s (put s.state.projects id p)

  -- The three ways a call goes.
  data Course : Result StoreError Project × Store → Type 0 where
    refused : {x : StoreError} → Course (err x, s)
    stored :
        validate_project_name name ≡ ok tt
        → by_name name s ≡ none
        → (t : Store) → t.state.projects ≡ put s.state.projects id p
        → Course (ok p, t)
    undone :
        {x : StoreError} (t : Store)
        → t.state.projects ≡ remove (put s.state.projects id p) id
        → Course (err x, t)

  course : Course (create_project name rt res id e s)
  unfolding create_project p
  course = go (validate_project_name name) refl (by_name name s) refl e.io
    where
      go :
          (v : Result NameError (Unit {0}))
          → validate_project_name name ≡ v
          → (o : Option (Text × Project)) → by_name name s ≡ o
          → (io : WriteOutcome) → Course (create_project name rt res id (record e { io = io }) s)
      go (err x) ev o eo io = rw (ev, create_project) refused
      go (ok u) ev (some q) eo io = rw (ev, eo, create_project) refused
      go (ok u) ev none eo written = rw (ev, eo, create_project) (stored ev eo _ refl)
      go (ok u) ev none eo marshal_fails = rw (ev, eo, create_project) (undone _ refl)
      go (ok u) ev none eo (write_fails f) = rw (ev, eo, create_project) (undone _ refl)

  Course-unchanged :
      {r : Result StoreError Project × Store} {x : StoreError}
      → Course r
      → r.0 ≡ err x
      → (j : Text) → get r.1.state.projects j ≡ get s.state.projects j
  Course-unchanged refused h j = refl
  Course-unchanged (stored v n t d) h j = cc
  Course-unchanged (undone t d) h j = rw d (get-undo s.state.projects id p fresh j)

  -- A call that returns an error, for the name or for the save, leaves every project as it was.
  pub create_project_unchanged :
      {x : StoreError}
      → (create_project name rt res id e s).0 ≡ err x
      → (j : Text)
      → get (create_project name rt res id e s).1.state.projects j ≡ get s.state.projects j
  create_project_unchanged = Course-unchanged course

  Course-added :
      {r : Result StoreError Project × Store} {q : Project}
      → Course r
      → r.0 ≡ ok q
      → (q.id ≡ id)
        × (get r.1.state.projects id ≡ some q)
        × ((j : Text) → j ≢ id → get r.1.state.projects j ≡ get s.state.projects j)
  unfolding p
  Course-added refused h = cc
  Course-added (stored v n t d) h = (
    ap (λ (q : Project). q.id) (sym (ok_injective h)),
    rw (d, get-put_self s.state.projects id p, ok_injective h) refl,
    λ j ne. rw (d, get-put s.state.projects id j p) (ground (arith, text_beq_iff id j, ne)),
  )
  Course-added (undone t d) h = cc

  -- A call that returns a project has added it under its ID, and nothing else.
  pub create_project-added :
      {q : Project}
      → (create_project name rt res id e s).0 ≡ ok q
      → let t = (create_project name rt res id e s).1 in
        (q.id ≡ id)
        × (get t.state.projects id ≡ some q)
        × ((j : Text) → j ≢ id → get t.state.projects j ≡ get s.state.projects j)
  create_project-added = Course-added course

  name_taken :
      (q : Project) (j : Text)
      → by_name name s ≡ none
      → get s.state.projects j ≡ some q
      → q.name ≢ name
  name_taken q j n g d =
      let f = find-none (λ p. p.name == name) s.state.projects j q n g in
      ground (arith, f, text_beq_iff q.name name)

  put-IsConsistent :
      by_name name s ≡ none
      → IsConsistent s.state.projects
      → IsConsistent (put s.state.projects id p)
  unfolding p
  put-IsConsistent n c = record {
    is_map = put-IsMap s.state.projects id p c.is_map;
    keyed =
        λ k q g. ground (arith, get-put s.state.projects id k p, text_beq_iff id k, c.keyed k q);
    unique = λ j k q r gj gk d. ground (
      arith,
      get-put s.state.projects id j p,
      get-put s.state.projects id k p,
      text_beq_iff id j,
      text_beq_iff id k,
      c.unique j k q r,
      name_taken q j n,
      name_taken r k n,
    );
  }

  undo-IsConsistent :
      IsConsistent s.state.projects → IsConsistent (remove (put s.state.projects id p) id)
  undo-IsConsistent c = record {
    is_map = remove-IsMap _ id (put-IsMap s.state.projects id p c.is_map);
    keyed = λ k q g. c.keyed k q (sym (get-undo s.state.projects id p fresh k) ∙ g);
    unique = λ j k q r gj gk.
        c.unique j k q r (sym (get-undo s.state.projects id p fresh j) ∙ gj)
          (sym (get-undo s.state.projects id p fresh k) ∙ gk);
  }

  Course-IsConsistent :
      {r : Result StoreError Project × Store}
      → Course r
      → IsConsistent s.state.projects
      → IsConsistent r.1.state.projects
  Course-IsConsistent refused c = c
  Course-IsConsistent (stored v n t d) c = rw d (put-IsConsistent n c)
  Course-IsConsistent (undone t d) c = rw d (undo-IsConsistent c)

  -- However the call ends, projects stand under their IDs and no two share a name.
  pub create_project-IsConsistent :
      IsConsistent s.state.projects
      → IsConsistent (create_project name rt res id e s).1.state.projects
  create_project-IsConsistent = Course-IsConsistent course
