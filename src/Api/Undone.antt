-- ===== src/Api/Undone.antt =====
-- A `handleProjectCreate` that fails leaves the projects as they were.
use goship.Base.{
  Text, lit, Bool, List, [], ◌∷◌, Option, none, some, get, subst, get-put_self, get-put_ne,
  get-remove, text_beq_iff, text_eq, Result, ok, err, ◌≡◌, ◌≢◌, refl, sym, ◌∙◌, arith,
}
use goship.Entities.Project.{Project, RuntimeType}
use goship.Entities.Instance.{ProjectInstance}
use goship.Store.Disk.{Store, StoreError, Env}
use goship.Store.Projects.{create_project, delete_project, project_id_of}
use goship.Store.Uniqueness.{create_project_unchanged, create_project-added}
use goship.Store.Names.{delete_project-eq}
use goship.Runtime.{ProjectRuntime}
use goship.Api.Projects.{assign_project}
use goship.Api.Replies.{ApiError, World, project_now}
use goship.Api.Creation.{
  CreateProjectRequest, Saves, default_of, give_domains, checked_request, created_project, made_vm,
  handle_project_create,
}
use goship.Api.Stored.{saved-projects, update_project-HasProject, update_project-others}

-- The second store has one project more, under this ID.
record HasOneMore (id : Text) (s t : Store) : Type 0 where
  project : Project
  there : get t.state.projects id ≡ some project
  keyed : project.id ≡ id
  others : (j : Text) → j ≢ id → get t.state.projects j ≡ get s.state.projects j

abbrev SameProjects : Store → Store → Type 0
SameProjects s t = (j : Text) → get t.state.projects j ≡ get s.state.projects j

give_domains-HasOneMore :
    (req : CreateProjectRequest) (p : Project) (e : Env) (s t : Store)
    → HasOneMore p.id s t
    → HasOneMore p.id s (give_domains req p e t)
unfolding give_domains assign_project
give_domains-HasOneMore req p e s t h = go req.domains
  where
    go : (ds : List Text) → HasOneMore p.id s (give_domains (record req { domains = ds }) p e t)
    go [] = h
    go (d ∷ ds) =
        let q = record p { domains = d ∷ ds; default_domain = default_of req.default_domain d } in
        let u = assign_project q t in
        let has =
          update_project-HasProject q e u
            (record { time = q.updated_at; there = get-put_self t.state.projects p.id q }) in
        record {
          project = record q { updated_at = has.time };
          there = has.there;
          keyed = refl;
          others = λ j ne.
              update_project-others q e u j ne
              ∙ (get-put_ne t.state.projects p.id j q ne ∙ h.others j ne);
        }

delete_project-undoes :
    (id : Text) (e : Env) (s t : Store)
    → id ≢ lit ""
    → get s.state.projects id ≡ none
    → HasOneMore id s t
    → SameProjects s (delete_project id e t).1
unfolding project_id_of
delete_project-undoes id e s t ne free h j =
    let found : project_id_of id t ≡ id = rw (h.there, project_id_of) refl in
    rw (delete_project-eq id id e t found ne) (
      rw saved-projects
        (ground (arith, get-remove t.state.projects id j, text_beq_iff id j, free, h.others j)))

project_now-id : (p : Project) (s t : Store) → HasOneMore p.id s t → (project_now p t).id ≡ p.id
project_now-id p s t h = rw h.there h.keyed

module _ {R : Type 0} (rt : ProjectRuntime R) (id : Text) (e : Saves) (s : Store) (ne : id ≢ lit "")
    (free : get s.state.projects id ≡ none) where
  made_vm_unchanged :
      (p : Project) (r : Result Text ProjectInstance × R) (w : World R) (x : ApiError)
      → p.id ≡ id
      → HasOneMore id s w.server.store
      → (made_vm p e r w).0 ≡ err x
      → SameProjects s (made_vm p e r w).1.server.store
  made_vm_unchanged p (err y, r) w x same h f =
      rw same (delete_project-undoes id (e 2) s w.server.store ne free h)
  made_vm_unchanged p (ok i, r) w x same h f = cc

  created_project_unchanged :
      (req : CreateProjectRequest) (r : Result StoreError Project × Store) (w : World R)
      (x : ApiError)
      → ((y : StoreError) → r.0 ≡ err y → SameProjects s r.1)
      → ((p : Project) → r.0 ≡ ok p → (p.id ≡ id) × HasOneMore id s r.1)
      → (created_project rt req e r w).0 ≡ err x
      → SameProjects s (created_project rt req e r w).1.server.store
  created_project_unchanged req (err y, t) w x bad good f = bad y refl
  created_project_unchanged req (ok p, t) w x bad good f =
      let added = good p refl in
      let h =
        give_domains-HasOneMore req p (e 1) s t
          (subst (λ k. HasOneMore k s t) (sym added.0) added.1) in
      made_vm_unchanged _ _ _ x (project_now-id p s _ h ∙ added.0)
        (subst (λ k. HasOneMore k s (give_domains req p (e 1) t)) added.0 h) f

-- A creation that ends with an error reply, be it for the request, for a name that is taken, for a
-- save or for the VM that cannot be made, leaves every project of the state as it was. The new ID
-- is not empty and no project has it.
pub handle_project_create_unchanged :
    {R : Type 0} (rt : ProjectRuntime R) (runtime : Bool) (req : Option CreateProjectRequest)
    (id : Text) (e : Saves) (w : World R) (x : ApiError)
    → id ≢ lit ""
    → get w.server.store.state.projects id ≡ none
    → (handle_project_create rt runtime req id e w).0 ≡ err x
    → (j : Text)
    → get (handle_project_create rt runtime req id e w).1.server.store.state.projects j
      ≡ get w.server.store.state.projects j
unfolding handle_project_create
handle_project_create_unchanged rt runtime req id e w x ne free f j =
    go (checked_request runtime req) refl
  where
    s : Store
    s = w.server.store

    go :
        (c : Result ApiError CreateProjectRequest)
        → checked_request runtime req ≡ c
        → get (handle_project_create rt runtime req id e w).1.server.store.state.projects j
          ≡ get s.state.projects j
    go (err y) ec = rw (ec, handle_project_create) refl
    go (ok r) ec =
        rw (ec, handle_project_create)
          (created_project_unchanged rt id e s ne free r
            (create_project r.name RuntimeType.qemu r.resources id (e 0) s) w x
            (λ y. create_project_unchanged r.name RuntimeType.qemu r.resources id (e 0) s free)
            (λ p h.
              let a = create_project-added r.name RuntimeType.qemu r.resources id (e 0) s free h in
              (a.0, record { project = p; there = a.1; keyed = a.0; others = a.2 }))
            (rw (ec, handle_project_create) at f) j)
