-- ===== src/Store/Histories.antt =====
-- Whatever calls a store has had, its file holds its state after each call that succeeded, and
-- opening that file gives the state back.
use goship.Base.{◌≡◌, refl, Option, none, some, Result, ok, err}
use goship.Store.Disk.{Store, StoreError, Env}
use goship.Store.Projects.{update_project}
use goship.Store.Records.{delete_node, Outcome, returns, panic}
use goship.Store.Requests.{
  Request, create, update, delete, put_instance, renew_instance, drop_instance, put_app, drop_app,
  put_node, drop_node, perform, to_error, or_panic, IsAdmissible, History, start, call,
}
use goship.Store.Keeping.{
  Sound, update_project-Sound, delete_project-Sound, set_instance-Sound, update_instance-Sound,
  delete_instance-Sound,
}
use goship.Store.KeepingApps.{set_app-Sound, delete_app-Sound, set_node-Sound, delete_node-Sound}
use goship.Store.Creating.{create_project-Sound}

to_error-Sound :
    {A : Type 0} (r : Result StoreError A × Store) {x : Option StoreError} {t : Store}
    → Sound r.1
    → to_error r ≡ returns (x, t)
    → Sound t
to_error-Sound (ok a, s) {x} {t} h e = let p : s ≡ t = cc in rw (← p) h
to_error-Sound (err y, s) {x} {t} h e = let p : s ≡ t = cc in rw (← p) h

-- Every admissible call keeps a state that `load` accepts.
pub perform-Sound :
    (r : Request) (e : Env) (s : Store) {x : Option StoreError} {t : Store}
    → IsAdmissible r s
    → Sound s
    → perform r e s ≡ returns (x, t)
    → Sound t
unfolding perform
perform-Sound (create name rt res id) e s a h p =
    to_error-Sound _ (create_project-Sound name rt res id e s h a) p
perform-Sound (update none) e s a h p =
    to_error-Sound (update_project none e s) (unfold update_project in h) p
perform-Sound (update (some q)) e s a h p = to_error-Sound _ (update_project-Sound s h q e a) p
perform-Sound (delete key) e s a h p = to_error-Sound _ (delete_project-Sound s h key e a) p
perform-Sound (put_instance i) e s a h p = to_error-Sound _ (set_instance-Sound s h i e) p
perform-Sound (renew_instance i) e s a h p = to_error-Sound _ (update_instance-Sound s h i e) p
perform-Sound (drop_instance id) e s a h p = to_error-Sound _ (delete_instance-Sound s h id e) p
perform-Sound (put_app pid app) e s a h p = to_error-Sound _ (set_app-Sound s h pid app e) p
perform-Sound (drop_app pid name) e s a h p = to_error-Sound _ (delete_app-Sound s h pid name e) p
perform-Sound (put_node n) e s a h p = to_error-Sound _ (set_node-Sound s h n e) p
perform-Sound (drop_node key) e s {x} {t} a h p = go (delete_node key e s) refl p
  where
    go :
        (o : Outcome (Result StoreError (Unit {0}) × Store))
        → delete_node key e s ≡ o
        → or_panic o ≡ returns (x, t)
        → Sound t
    go (returns r) eq q = to_error-Sound r (delete_node-Sound s h key e r eq) q
    go panic eq q = cc

-- After any admissible calls the state is one that `load` accepts.
pub History-Sound : {s t : Store} → Sound s → History s t → Sound t
History-Sound h start = h
History-Sound h (call r e past a p) = perform-Sound r e _ a (History-Sound h past) p
