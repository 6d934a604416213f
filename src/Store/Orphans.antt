-- ===== src/Store/Orphans.antt =====
-- `DeleteProject` takes out the instance that stands under the project's ID, but instances stand
-- under their own IDs: one that is left makes the state file unreadable for `load`.
use goship.Base.{
  map_values, get-map_values, Text, lit, false, ◌≡◌, ◌≢◌, refl, none, some, Dict, get, ℕ,
  get-remove, Result, ok, err, is_ok, arith, text_eq, text_beq_iff, text_beq_refl,
}
use goship.Entities.Project.{Project}
use goship.Entities.Instance.{ProjectInstance}
use goship.Entities.LocalState.{LocalState, new_local_state}
use goship.Store.Disk.{
  Store, Env, written, holds, StateFile, LoadError, omit_env, to_file, save,
  validate_instance_binding, check_values, load_project, load_instance, load_file, load, new_store,
}
use goship.Store.Projects.{get_project, delete_project, without_project}
use goship.Store.Loading.{check_values-fails, get-check_values-none}
use goship.Store.Names.{IsConsistent, delete_project_lem}

-- `load` refuses a document with an instance whose project is not in it.
load_file_orphan :
    (s : LocalState) (k : Text) (i : ProjectInstance)
    → get s.instances k ≡ some i
    → get s.projects i.project_id ≡ none
    → is_ok (load_file (to_file s)) ≡ false
unfolding load_file to_file
load_file_orphan s k i g free =
    go1 (check_values load_project (map_values (λ p. some (omit_env p)) s.projects)) refl
  where
    go2 :
        (ps : Dict Project)
        → get ps i.project_id ≡ none
        → is_ok (check_values (load_instance ps) (map_values some s.instances)) ≡ false
    go2 ps e =
        check_values-fails (load_instance ps) (map_values some s.instances) k (some i)
          (rw get-map_values (rw g))
          (unfold validate_instance_binding in rw (e, validate_instance_binding))

    go1 :
        (v : Result LoadError (Dict Project))
        → check_values load_project (map_values (λ p. some (omit_env p)) s.projects) ≡ v
        → is_ok (load_file (to_file s)) ≡ false
    go1 (err x) e = rw e
    go1 (ok ps) e =
        let h =
          go2 ps (
            get-check_values-none load_project _ ps i.project_id e (rw get-map_values (rw free))) in
        rw e (ground (arith, h))

new_store_refuses :
    (dir : Text) (now : ℕ) (d : StateFile)
    → is_ok (load_file d) ≡ false
    → is_ok (new_store dir (holds d) now) ≡ false
unfolding new_store load
new_store_refuses dir now d h = go (load_file d) refl
  where
    go :
        (r : Result LoadError LocalState)
        → load_file d ≡ r
        → is_ok (new_store dir (holds d) now) ≡ false
    go (ok st) e = cc (rw e at h)
    go (err x) e = rw e

-- If an instance of the project stands under another key than the project's ID, then after a
-- deletion whose save succeeded the control plane does not start again from its state file.
pub delete_project_orphans :
    (s : Store) (c : IsConsistent s.state.projects) (key : Text) (p : Project) (e : Env) (k : Text)
    (i : ProjectInstance) (dir : Text) (now : ℕ)
    → get_project key s ≡ ok p
    → p.id ≢ lit ""
    → e.io ≡ written
    → get s.state.instances k ≡ some i
    → i.project_id ≡ p.id
    → k ≢ p.id
    → ((delete_project key e s).0 ≡ ok tt)
      × (is_ok (new_store dir (delete_project key e s).1.file now) ≡ false)
unfolding new_store load save new_local_state
delete_project_orphans s c key p e k i dir now known has_id w g of_p other =
    rw (delete_project_lem s c key p e known has_id)
      (rw w (refl, new_store_refuses dir now _ (load_file_orphan _ k i there free)))
  where
    there : get (without_project p.id s).state.instances k ≡ some i
    there = ground (arith, get-remove s.state.instances p.id k, text_beq_iff p.id k)

    free : get (without_project p.id s).state.projects i.project_id ≡ none
    free = rw of_p (ground (arith, get-remove s.state.projects p.id p.id, text_beq_refl p.id))
