-- ===== src/Store/Creating.antt =====
-- `CreateProject`: what it refuses, what it adds, and that a failed save takes the project out.
use goship.Base.{
  Text, Bool, true, false, ◌≡◌, refl, none, Dict, get, put, remove, get-put, get-remove,
  AllValues-put, AllValues-remove, AllValues-imp, AllValues, Result, ok, err, arith, text_eq,
  text_beq_iff, is_some,
}
use goship.Entities.Name.{validate_project_name}
use goship.Entities.Resources.{Resources}
use goship.Entities.Project.{Project, RuntimeType}
use goship.Entities.Instance.{ProjectInstance}
use goship.Store.Disk.{
  Store, Env, WriteOutcome, written, marshal_fails, write_fails, stamped, save,
  validate_instance_binding,
}
use goship.Store.Projects.{create_project, with_projects, or_undo, by_name, fresh_project}
use goship.Store.Loading.{HasName, IsBound}
use goship.Store.Keeping.{Sound, IsBound-put_new}

module _ (ps : Dict Project) (k : Text) (p : Project) (fresh : get ps k ≡ none) where
  IsBound-undo : (i : ProjectInstance) → IsBound ps i → IsBound (remove (put ps k p) k) i
  unfolding validate_instance_binding
  IsBound-undo i h = ground (
    arith,
    get-remove (put ps k p) k i.project_id,
    get-put ps k i.project_id p,
    text_beq_iff k i.project_id,
  )

  pub get-undo : (j : Text) → get (remove (put ps k p) k) j ≡ get ps j
  get-undo j = ground (arith, get-remove (put ps k p) k j, get-put ps k j p, text_beq_iff k j)

module _ (s : Store) (h : Sound s) (id : Text) (p : Project) (named : HasName p) (same : p.id ≡ id)
    (fresh : get s.state.projects id ≡ none) where
  or_undo-Sound :
      (e : Env) → Sound (or_undo p (save e (with_projects s (put s.state.projects id p)))).1
  unfolding save
  or_undo-Sound e = go e.io
    where
      w : Store
      w = with_projects s (put s.state.projects id p)

      added : AllValues HasName (put s.state.projects id p)
      added = AllValues-put HasName s.state.projects id p h.named named

      undone :
          (t : Store)
          → t.state.projects ≡ put s.state.projects id p
          → t.state.apps ≡ s.state.apps
          → t.state.instances ≡ s.state.instances
          → Sound (with_projects t (remove t.state.projects p.id))
      undone t ep ea ei = record {
        named = rw (same, ep) (AllValues-remove HasName _ id added);
        apps_named = rw ea h.apps_named;
        bound =
            rw (same, ep, ei)
              (AllValues-imp _ _ (IsBound-undo s.state.projects id p fresh) s.state.instances
                h.bound);
      }

      go :
          (io : WriteOutcome)
          → Sound
              (or_undo p
                (save (record e { io = io }) (with_projects s (put s.state.projects id p)))).1
      go written = record {
        named = added;
        apps_named = h.apps_named;
        bound =
            AllValues-imp _ _ (λ i. IsBound-put_new s.state.projects id p i fresh) s.state.instances
              h.bound;
      }
      go marshal_fails = undone (stamped e w) refl refl refl
      go (write_fails f) = undone (record (stamped e w) { file = f }) refl refl refl

pub create_project-Sound :
    (name : Text) (rt : RuntimeType) (res : Resources) (id : Text) (e : Env) (s : Store)
    → Sound s
    → get s.state.projects id ≡ none
    → Sound (create_project name rt res id e s).1
unfolding create_project
create_project-Sound name rt res id e s h fresh =
    go (validate_project_name name) refl (is_some (by_name name s)) refl
  where
    go :
        (v : Result _ (Unit {0}))
        → validate_project_name name ≡ v
        → (b : Bool) → is_some (by_name name s) ≡ b
        → Sound (create_project name rt res id e s).1
    go (err x) ev b eb = rw (ev, create_project) h
    go (ok u) ev true eb = rw (ev, eb, create_project) h
    go (ok u) ev false eb =
        rw (ev, eb, create_project)
          (or_undo-Sound s h id (fresh_project id name rt res e) ev refl fresh e)
