-- ===== src/Store/Keeping.antt =====
-- The operations on projects and instances keep a state that `load` accepts.
use goship.Base.{
  Text, lit, Bool, true, false, ◌≡◌, ◌≢◌, refl, Option, none, some, Dict, get, put, remove, get-put,
  get-remove, AllValues, AllValues-put, AllValues-remove, AllValues-imp, AllValues-both, Result, ok,
  err, arith, ◌==◌, text_eq, text_beq_iff, Bool-cases, inl, inr, is_some,
}
use goship.Entities.Name.{validate_project_name}
use goship.Entities.Project.{Project}
use goship.Entities.Instance.{ProjectInstance, check_binding}
use goship.Store.Disk.{
  Store, StoreError, Env, WriteOutcome, written, marshal_fails, write_fails, finish_write, save,
  saved, validate_instance_binding,
}
use goship.Store.Projects.{
  update_project, delete_project, project_id_of, with_projects, without_project,
}
use goship.Store.Records.{
  set_instance, update_instance, delete_instance, put_instance, with_instances,
}
use goship.Store.Loading.{IsLoadable, HasName, HasAppName, IsBound}

abbrev pub Sound : Store → Type 0
Sound s = IsLoadable s.state

finish_write-Sound : (io : WriteOutcome) (s : Store) → Sound s → Sound (finish_write io s).1
finish_write-Sound written s h = h
finish_write-Sound marshal_fails s h = h
finish_write-Sound (write_fails f) s h = h

save-Sound : (e : Env) (s : Store) → Sound s → Sound (save e s).1
unfolding save
save-Sound e s h =
    finish_write-Sound e.io _
      (record { named = h.named; apps_named = h.apps_named; bound = h.bound })

saved-Sound : (r : Option StoreError × Store) → Sound r.1 → Sound (saved r).1
saved-Sound (none, s) h = h
saved-Sound (some x, s) h = h

pub stored-Sound : (e : Env) (s : Store) → Sound s → Sound (saved (save e s)).1
stored-Sound e s h = saved-Sound (save e s) (save-Sound e s h)

-- An instance stays bound if its project is there as before, up to what the check does not read.
module _ (ps : Dict Project) (k : Text) (p : Project) where
  pub IsBound-put_new :
      (i : ProjectInstance) → get ps k ≡ none → IsBound ps i → IsBound (put ps k p) i
  unfolding validate_instance_binding
  IsBound-put_new i e h = ground (arith, get-put ps k i.project_id p, text_beq_iff k i.project_id)

  IsBound-put_same :
      (i : ProjectInstance) (q : Project)
      → get ps k ≡ some q
      → q.name ≡ p.name
      → q.id ≡ p.id
      → IsBound ps i
      → IsBound (put ps k p) i
  unfolding validate_instance_binding check_binding
  IsBound-put_same i q e n d h =
      ground (arith, get-put ps k i.project_id p, text_beq_iff k i.project_id)

IsBound-remove :
    (ps : Dict Project) (k : Text) (i : ProjectInstance)
    → (i.project_id ≢ k) × IsBound ps i
    → IsBound (remove ps k) i
unfolding validate_instance_binding
IsBound-remove ps k i h =
    ground (arith, h.0, h.1, get-remove ps k i.project_id, text_beq_iff k i.project_id)

module _ (s : Store) (h : Sound s) where
  put_project-Sound :
      (k : Text) (p : Project)
      → HasName p
      → ((i : ProjectInstance) → IsBound s.state.projects i → IsBound (put s.state.projects k p) i)
      → Sound (with_projects s (put s.state.projects k p))
  put_project-Sound k p n keep = record {
    named = AllValues-put HasName s.state.projects k p h.named n;
    apps_named = h.apps_named;
    bound = AllValues-imp _ _ keep s.state.instances h.bound;
  }

  without_project-Sound :
      (k : Text)
      → AllValues (λ i. i.project_id ≢ k) (remove s.state.instances k)
      → Sound (without_project k s)
  without_project-Sound k free = record {
    named = AllValues-remove HasName s.state.projects k h.named;
    apps_named = AllValues-remove (AllValues HasAppName) s.state.apps k h.apps_named;
    bound = AllValues-imp _ _ (IsBound-remove s.state.projects k) (remove s.state.instances k) (
        AllValues-both _ _ (remove s.state.instances k) free
          (AllValues-remove (IsBound s.state.projects) s.state.instances k h.bound));
  }

  pub update_project-Sound :
      (p : Project) (e : Env)
      → ((q : Project) → get s.state.projects p.id ≡ some q → (q.name ≡ p.name) × (q.id ≡ p.id))
      → Sound (update_project (some p) e s).1
  unfolding update_project
  update_project-Sound p e same =
      go (validate_project_name p.name) refl (get s.state.projects p.id) refl
    where
      go :
          (v : Result _ (Unit {0}))
          → validate_project_name p.name ≡ v
          → (o : Option Project) → get s.state.projects p.id ≡ o
          → Sound (update_project (some p) e s).1
      go (err x) ev o eo = rw (ev, update_project) h
      go (ok u) ev none eo = rw (ev, eo, update_project) h
      go (ok u) ev (some q) eo =
          rw (ev, eo, update_project)
            (stored-Sound e _ (
              put_project-Sound p.id (record p { updated_at = e.now }) ev
                λ i b.
                  IsBound-put_same s.state.projects p.id _ i q eo (same q eo).0 (same q eo).1 b))

  pub delete_project-Sound :
      (key : Text) (e : Env)
      → AllValues
          (λ i. i.project_id ≢ project_id_of key s)
          (remove s.state.instances (project_id_of key s))
      → Sound (delete_project key e s).1
  unfolding delete_project
  delete_project-Sound key e free = elim (Bool-cases (project_id_of key s == lit "")) [
    | inl t ↦ rw (t, delete_project) h
    | inr f ↦
        rw (f, delete_project) (stored-Sound e _ (without_project-Sound (project_id_of key s) free))
  ]

  put_instance-Sound :
      (i : ProjectInstance) → IsBound s.state.projects i → Sound (put_instance (some i) s)
  put_instance-Sound i b = record {
    named = h.named;
    apps_named = h.apps_named;
    bound = AllValues-put _ s.state.instances i.id i h.bound b;
  }

  pub set_instance-Sound : (i : Option ProjectInstance) (e : Env) → Sound (set_instance i e s).1
  unfolding set_instance
  set_instance-Sound i e = go (validate_instance_binding s.state.projects i) refl
    where
      go :
          (v : Result _ (Unit {0}))
          → validate_instance_binding s.state.projects i ≡ v
          → Sound (set_instance i e s).1
      go (err x) ev = rw (ev, set_instance) h
      go (ok u) ev = rw (ev, set_instance) (stored-Sound e (put_instance i s) (put i ev))
        where
          put :
              (i : Option ProjectInstance)
              → validate_instance_binding s.state.projects i ≡ ok tt
              → Sound (put_instance i s)
          put none b = h
          put (some j) b = put_instance-Sound j b

  pub update_instance-Sound :
      (i : Option ProjectInstance) (e : Env) → Sound (update_instance i e s).1
  unfolding update_instance
  update_instance-Sound none e = h
  update_instance-Sound (some i) e =
      go (is_some (get s.state.instances i.id)) refl
        (validate_instance_binding s.state.projects (some i)) refl
    where
      go :
          (b : Bool)
          → is_some (get s.state.instances i.id) ≡ b
          → (v : Result _ (Unit {0})) → validate_instance_binding s.state.projects (some i) ≡ v
          → Sound (update_instance (some i) e s).1
      go false eb v ev = rw (eb, update_instance) h
      go true eb (err x) ev = rw (eb, ev, update_instance) h
      go true eb (ok u) ev =
          rw (eb, ev, update_instance)
            (stored-Sound e _ (
              put_instance-Sound (record i { updated_at = e.now })
                (unfold validate_instance_binding check_binding in ev)))

  pub delete_instance-Sound : (id : Text) (e : Env) → Sound (delete_instance id e s).1
  unfolding delete_instance
  delete_instance-Sound id e =
      stored-Sound e (with_instances s (remove s.state.instances id)) (record {
        named = h.named;
        apps_named = h.apps_named;
        bound = AllValues-remove _ s.state.instances id h.bound;
      })
