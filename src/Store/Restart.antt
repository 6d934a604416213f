-- ===== src/Store/Restart.antt =====
-- Whatever calls a store has had, its file holds its state after each call that succeeded, and
-- opening that file gives the state back.
use goship.Base.{
  Text, lit, ◌≡◌, ◌++◌, refl, ℕ, [], ◌∷◌, Dict, AllValues, Option, none, some, Result, ok, err,
  bind-eq-ok, ok_injective, subst, arith,
}
use goship.Entities.Name.{NameError, validate_project_name, validate_app_name}
use goship.Entities.App.{AppSpec}
use goship.Entities.LocalState.{LocalState, new_local_state}
use goship.Entities.Project.{Project}
use goship.Entities.Instance.{ProjectInstance, BindingError}
use goship.Store.Disk.{
  Store, StateFile, Env, File, absent, unreadable, unparsable, holds, LoadError, to_file, save,
  new_store, load, load_file, check_values, or_empty, load_project, load_app, load_apps,
  load_instance, validate_instance_binding,
}
use goship.Store.Projects.{create_project, update_project, delete_project}
use goship.Store.Records.{
  set_instance, update_instance, delete_instance, set_app, delete_app, set_node, delete_node,
  returns,
}
use goship.Store.Loading.{IsLoadable, HasName, HasAppName, IsBound, reloaded, load_file-to_file}
use goship.Store.Requests.{
  Request, create, update, delete, put_instance, renew_instance, drop_instance, put_app, drop_app,
  put_node, drop_node, perform, IsAdmissible, History,
}
use goship.Store.Keeping.{Sound}
use goship.Store.Histories.{perform-Sound, History-Sound}

-- The file holds the state.
abbrev pub IsSynced : Store → Type 0
IsSynced s = s.file ≡ holds (to_file s.state)

perform-IsSynced :
    (r : Request) (e : Env) (s : Store) {t : Store} → perform r e s ≡ returns (none, t) → IsSynced t
unfolding perform create_project update_project delete_project set_instance update_instance
    delete_instance set_app delete_app set_node delete_node save
perform-IsSynced (create name rt res id) e s p = ground arith
perform-IsSynced (update q) e s p = ground arith
perform-IsSynced (delete key) e s p = ground arith
perform-IsSynced (put_instance i) e s p = ground arith
perform-IsSynced (renew_instance i) e s p = ground arith
perform-IsSynced (drop_instance id) e s p = ground arith
perform-IsSynced (put_app pid app) e s p = ground arith
perform-IsSynced (drop_app pid name) e s p = ground arith
perform-IsSynced (put_node n) e s p = ground arith
perform-IsSynced (drop_node key) e s p = ground arith

AllValues-check_values {ℓ} :
    {A B : Type ℓ} (P : B → Type 0) (f : A → Result LoadError B)
    → ((a : A) (b : B) → f a ≡ ok b → P b)
    → (m : Dict A) (w : Dict B) → check_values f m ≡ ok w
    → AllValues P w
unfolding check_values
AllValues-check_values P f keep [] w e = let p : [] ≡ w = cc in subst (AllValues P) p tt
AllValues-check_values {B = B} P f keep ((k, a) ∷ m) w e =
    let (b, eb, e1) = bind-eq-ok (f a) _ e in
    let (rest, er, e2) = bind-eq-ok (check_values f m) _ e1 in
    let p : (k, b) ∷ rest ≡ w = cc in
    subst (AllValues P) p (keep a b eb, AllValues-check_values P f keep m rest er)

load_project-HasName : (a : Option Project) (p : Project) → load_project a ≡ ok p → HasName p
load_project-HasName none p e = cc
load_project-HasName (some q) p e = go (validate_project_name q.name) refl
  where
    go : (v : Result NameError (Unit {0})) → validate_project_name q.name ≡ v → HasName p
    go (ok u) ev = let d : q ≡ p = cc (rw ev at e) in rw (← d) ev
    go (err x) ev = cc (rw ev at e)

load_app-HasAppName : (a : Option AppSpec) (p : AppSpec) → load_app a ≡ ok p → HasAppName p
load_app-HasAppName none p e = cc
load_app-HasAppName (some q) p e = go (validate_app_name q.name) refl
  where
    go : (v : Result NameError (Unit {0})) → validate_app_name q.name ≡ v → HasAppName p
    go (ok u) ev = let d : q ≡ p = cc (rw ev at e) in rw (← d) ev
    go (err x) ev = cc (rw ev at e)

load_apps-named :
    (a : Option (Dict (Option AppSpec))) (m : Dict AppSpec)
    → load_apps a ≡ ok m
    → AllValues HasAppName m
load_apps-named none m e = let p : [] ≡ m = cc in subst (AllValues HasAppName) p tt
load_apps-named (some l) m e = AllValues-check_values HasAppName load_app load_app-HasAppName l m e

load_instance-IsBound :
    (ps : Dict Project) (a : Option ProjectInstance) (i : ProjectInstance)
    → load_instance ps a ≡ ok i
    → IsBound ps i
load_instance-IsBound ps none i e = cc
load_instance-IsBound ps (some j) i e = go (validate_instance_binding ps (some j)) refl
  where
    go :
        (v : Result BindingError (Unit {0}))
        → validate_instance_binding ps (some j) ≡ v
        → IsBound ps i
    go (ok u) ev = let d : j ≡ i = cc (rw ev at e) in rw (← d) ev
    go (err x) ev = cc (rw ev at e)

-- What `load` returns is a state that it accepts again.
load_file-IsLoadable : (d : StateFile) (s : LocalState) → load_file d ≡ ok s → IsLoadable s
unfolding load_file
load_file-IsLoadable d s e =
    let (ps, ep, e1) = bind-eq-ok (check_values load_project (or_empty d.projects)) _ e in
    let (as', ea, e2) = bind-eq-ok (check_values load_apps (or_empty d.apps)) _ e1 in
    let (is, ei, e3) = bind-eq-ok (check_values (load_instance ps) (or_empty d.instances)) _ e2 in
    let named = AllValues-check_values HasName _ load_project-HasName (or_empty d.projects) ps ep in
    let apps_named = AllValues-check_values _ _ load_apps-named (or_empty d.apps) as' ea in
    let bound =
      AllValues-check_values (IsBound ps) _ (load_instance-IsBound ps) (or_empty d.instances) is
        ei in
    subst IsLoadable (ok_injective e3)
      (record { named = named; apps_named = apps_named; bound = bound })

pub new_store-Sound :
    (dir : Text) (f : File) (now : ℕ) (s : Store) → new_store dir f now ≡ ok s → Sound s
unfolding new_store new_local_state load
new_store-Sound dir absent now s e =
    let d = ok_injective e in subst Sound d (record { named = tt; apps_named = tt; bound = tt })
new_store-Sound dir unreadable now s e = cc
new_store-Sound dir unparsable now s e = cc
new_store-Sound dir (holds doc) now s e = go (load_file doc) refl
  where
    go : (r : Result LoadError LocalState) → load_file doc ≡ r → Sound s
    go (ok st) er =
        let d = ok_injective (rw er at e) in subst Sound d (load_file-IsLoadable doc st er)
    go (err x) er = cc (rw er at e)

-- The state that a store has after a successful call is the one that a restart finds: from any
-- opened store, after any admissible calls, failed ones included, opening the file after a call
-- that returned no error gives that state, an empty environment of a project read as nil.
pub restart_after_call :
    (dir : Text) (f : File) (now later : ℕ) (s t u : Store) (r : Request) (e : Env)
    → new_store dir f now ≡ ok s
    → History s t
    → IsAdmissible r t
    → perform r e t ≡ returns (none, u)
    → new_store dir u.file later
      ≡ ok (record {
        data_dir = dir;
        path = dir ++ lit "/state.json";
        state = reloaded u.state;
        file = u.file;
      })
unfolding new_store load
restart_after_call dir f now later s t u r e opens past a p =
    let sound = perform-Sound r e t a (History-Sound (new_store-Sound dir f now s opens) past) p in
    let synced = perform-IsSynced r e t p in rw synced (rw (load_file-to_file u.state sound))
