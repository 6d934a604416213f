-- ===== src/Store/KeepingApps.antt =====
-- The operations on apps and nodes keep a state that `load` accepts.
use goship.Base.{
  Text, Bool, true, false, ◌≡◌, refl, subst, ℕ, Option, none, some, Dict, get, put, remove,
  AllValues, AllValues-get, AllValues-put, AllValues-remove, Result, ok, err, text_eq, Option-cases,
  inl, inr, is_some,
}
use goship.Entities.Name.{validate_app_name}
use goship.Entities.App.{AppSpec}
use goship.Entities.Project.{Node}
use goship.Entities.LocalState
use goship.Entities.LocalState.{LocalState, get_project_apps, remove_app}
use goship.Store.Disk.{Store, StoreError, Env, save, saved}
use goship.Store.Records.{
  set_app, delete_app, set_node, delete_node, by_hostname, found, missing, panics, returns,
  with_nodes, NodeSearch,
}
use goship.Store.Loading.{IsLoadable, HasAppName}
use goship.Store.Keeping.{Sound, stored-Sound}

Sound-returns :
    {q r : Result StoreError (Unit {0}) × Store} → returns q ≡ returns r → Sound q.1 → Sound r.1
Sound-returns {q} {r} e h = let p : q ≡ r = cc in subst (λ x. Sound x.1) p h

module _ (s : Store) (h : Sound s) where
  apps_of-named : (pid : Text) → AllValues HasAppName (get_project_apps s.state pid)
  unfolding get_project_apps
  apps_of-named pid = elim (Option-cases (get s.state.apps pid)) [
    | inl e ↦ rw (e, get_project_apps) tt
    | inr e ↦ rw (e.1, get_project_apps) (AllValues-get _ s.state.apps pid e.0 h.apps_named e.1)
  ]

  pub set_app-Sound : (pid : Text) (a : Option AppSpec) (e : Env) → Sound (set_app pid a e s).1
  unfolding set_app
  set_app-Sound pid none e = h
  set_app-Sound pid (some a) e = go (validate_app_name a.name) refl
    where
      go :
          (v : Result _ (Unit {0}))
          → validate_app_name a.name ≡ v
          → Sound (set_app pid (some a) e s).1
      go (err x) ev = rw (ev, set_app) h
      go (ok u) ev =
          rw (ev, set_app)
            (stored-Sound e (record s { state = LocalState.set_app s.state pid a e.now })
              (record {
                named = h.named;
                apps_named =
                    AllValues-put _ s.state.apps pid _ h.apps_named
                      (AllValues-put HasAppName _ a.name a (apps_of-named pid) ev);
                bound = h.bound;
              }))

  with_nodes-Sound :
      (ns : Dict (Option Node)) (e : Env) → Sound (saved (save e (with_nodes s ns))).1
  with_nodes-Sound ns e =
      stored-Sound e (with_nodes s ns)
        (record { named = h.named; apps_named = h.apps_named; bound = h.bound })

  remove_app-IsLoadable : (pid name : Text) (now : ℕ) → IsLoadable (remove_app s.state pid name now)
  unfolding remove_app
  remove_app-IsLoadable pid name now = elim (Option-cases (get s.state.apps pid)) [
    | inl o ↦
        rw (o, remove_app) (record { named = h.named; apps_named = h.apps_named; bound = h.bound })
    | inr o ↦
        rw (o.1, remove_app)
          (record {
            named = h.named;
            apps_named = AllValues-put _ s.state.apps pid _ h.apps_named (
                AllValues-remove HasAppName o.0 name
                  (AllValues-get _ s.state.apps pid o.0 h.apps_named o.1));
            bound = h.bound;
          })
  ]

  pub delete_app-Sound : (pid name : Text) (e : Env) → Sound (delete_app pid name e s).1
  unfolding delete_app
  delete_app-Sound pid name e =
      stored-Sound e (record s { state = remove_app s.state pid name e.now })
        (remove_app-IsLoadable pid name e.now)

  pub set_node-Sound : (n : Node) (e : Env) → Sound (set_node n e s).1
  unfolding set_node
  set_node-Sound n e = with_nodes-Sound (put s.state.nodes n.id (some n)) e

  pub delete_node-Sound :
      (key : Text) (e : Env) (r : Result StoreError (Unit {0}) × Store)
      → delete_node key e s ≡ returns r
      → Sound r.1
  unfolding delete_node
  delete_node-Sound key e r eq =
      go (is_some (get s.state.nodes key)) refl (by_hostname key s.state.nodes) refl
    where
      go :
          (b : Bool)
          → is_some (get s.state.nodes key) ≡ b
          → (v : NodeSearch) → by_hostname key s.state.nodes ≡ v
          → Sound r.1
      go true eb v ev = Sound-returns (rw eb at eq) (with_nodes-Sound (remove s.state.nodes key) e)
      go false eb (found k n) ev =
          Sound-returns (rw (eb, ev) at eq) (with_nodes-Sound (remove s.state.nodes k) e)
      go false eb missing ev = Sound-returns (rw (eb, ev) at eq) h
      go false eb panics ev = cc (rw (eb, ev) at eq)
