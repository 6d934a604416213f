-- ===== src/Api/Stored.antt =====
-- What `UpdateProject` and `UpdateInstance` leave of an object that stands in the store.
use goship.Base.{
  Text, ℕ, Bool, true, false, some, is_some, get, get-put_self, get-put_ne, ◌≢◌, Result, ok, err,
  ◌≡◌, refl, arith,
}
use goship.Entities.Name.{NameError, validate_project_name}
use goship.Entities.Project.{Project, ProjectState}
use goship.Entities.Instance.{ProjectInstance, BindingError}
use goship.Store.Disk.{Store, Env, save, saved, validate_instance_binding}
use goship.Store.Projects.{update_project}
use goship.Store.Records.{update_instance}
use goship.Api.Projects.{assign_project}
use goship.Api.Lifecycle.{mark_project}

-- The object stands under its ID, its time of change aside.
pub record HasProject (p : Project) (s : Store) : Type 0 where
  pub time : ℕ
  pub there : get s.state.projects p.id ≡ some (record p { updated_at = time })

pub record HasInstance (i : ProjectInstance) (s : Store) : Type 0 where
  pub time : ℕ
  pub there : get s.state.instances i.id ≡ some (record i { updated_at = time })

-- What a call that ends with a save does to the projects and the instances is what it did before.
pub saved-projects : (e : Env) (s : Store) → (saved (save e s)).1.state.projects ≡ s.state.projects
unfolding save
saved-projects e s = ground arith

pub saved-instances :
    (e : Env) (s : Store) → (saved (save e s)).1.state.instances ≡ s.state.instances
unfolding save
saved-instances e s = ground arith

pub update_project-HasProject :
    (p : Project) (e : Env) (s : Store)
    → HasProject p s
    → HasProject p (update_project (some p) e s).1
unfolding update_project
update_project-HasProject p e s h =
    go (validate_project_name p.name) refl (is_some (get s.state.projects p.id)) refl
  where
    go :
        (v : Result NameError (Unit {0}))
        → validate_project_name p.name ≡ v
        → (b : Bool) → is_some (get s.state.projects p.id) ≡ b
        → HasProject p (update_project (some p) e s).1
    go (err x) ev b eb = rw (ev, update_project) h
    go (ok u) ev false eb = rw (ev, eb, update_project) h
    go (ok u) ev true eb =
        rw (ev, eb, update_project)
          (record {
            time = e.now;
            there = rw saved-projects (get-put_self s.state.projects p.id _);
          })

pub update_project-instances :
    (p : Project) (e : Env) (s : Store)
    → (update_project (some p) e s).1.state.instances ≡ s.state.instances
unfolding update_project
update_project-instances p e s =
    go (validate_project_name p.name) refl (is_some (get s.state.projects p.id)) refl
  where
    go :
        (v : Result NameError (Unit {0}))
        → validate_project_name p.name ≡ v
        → (b : Bool) → is_some (get s.state.projects p.id) ≡ b
        → (update_project (some p) e s).1.state.instances ≡ s.state.instances
    go (err x) ev b eb = rw (ev, update_project) refl
    go (ok u) ev false eb = rw (ev, eb, update_project) refl
    go (ok u) ev true eb = rw (ev, eb, update_project) (rw saved-instances refl)

pub update_project-others :
    (p : Project) (e : Env) (s : Store) (j : Text)
    → j ≢ p.id
    → get (update_project (some p) e s).1.state.projects j ≡ get s.state.projects j
unfolding update_project
update_project-others p e s j ne =
    go (validate_project_name p.name) refl (is_some (get s.state.projects p.id)) refl
  where
    go :
        (v : Result NameError (Unit {0}))
        → validate_project_name p.name ≡ v
        → (b : Bool) → is_some (get s.state.projects p.id) ≡ b
        → get (update_project (some p) e s).1.state.projects j ≡ get s.state.projects j
    go (err x) ev b eb = rw (ev, update_project) refl
    go (ok u) ev false eb = rw (ev, eb, update_project) refl
    go (ok u) ev true eb =
        rw (ev, eb, update_project) (rw saved-projects (get-put_ne s.state.projects p.id j _ ne))

pub update_instance-HasInstance :
    (i : ProjectInstance) (e : Env) (s : Store)
    → HasInstance i s
    → HasInstance i (update_instance (some i) e s).1
unfolding update_instance
update_instance-HasInstance i e s h =
    go (is_some (get s.state.instances i.id)) refl
      (validate_instance_binding s.state.projects (some i)) refl
  where
    go :
        (b : Bool)
        → is_some (get s.state.instances i.id) ≡ b
        → (v : Result BindingError (Unit {0}))
        → validate_instance_binding s.state.projects (some i) ≡ v
        → HasInstance i (update_instance (some i) e s).1
    go false eb v ev = rw (eb, update_instance) h
    go true eb (err x) ev = rw (eb, ev, update_instance) h
    go true eb (ok u) ev =
        rw (eb, ev, update_instance)
          (record {
            time = e.now;
            there = rw saved-instances (get-put_self s.state.instances i.id _);
          })

-- The assignment to the state of a project, and its save.
pub mark_project-HasProject :
    (state : ProjectState) (p : Project) (e : Env) (s : Store)
    → HasProject (record p { state = state }) (mark_project state p e s)
unfolding mark_project assign_project
mark_project-HasProject state p e s =
    let q = record p { state = state } in
    update_project-HasProject q e (assign_project q s)
      (record { time = p.updated_at; there = get-put_self s.state.projects p.id q })

pub mark_project-HasInstance :
    (state : ProjectState) (p : Project) (e : Env) (i : ProjectInstance) (s : Store)
    → HasInstance i s
    → HasInstance i (mark_project state p e s)
unfolding mark_project assign_project
mark_project-HasInstance state p e i s h = record {
  time = h.time;
  there = rw update_project-instances h.there;
}
