-- ===== src/Reconciler.antt =====
-- internal/agent/reconciler.go: `Reconcile`, over the interface of internal/agent/runtime/runtime.go.
use goship.Base.{
  Text, true, List, [], ◌∷◌, none, some, is_some, Dict, get, put, get-put, text_beq_iff, Result, ok,
  err, is_ok, All, ◌≡◌, refl, arith, Option-cases, inl, inr,
}
use goship.Entities.Project.{Project}
use goship.Entities.Instance.{ProjectInstance}
use goship.Entities.App.{AppSpec}
use goship.Runtime.{ProjectRuntime}

pub record DesiredState : Type 0 where
  pub projects : List Project
  pub apps : Dict (List AppSpec)

-- The instance of each project that has one.
unfoldable pub existing_of : List ProjectInstance → Dict Text → Dict Text
existing_of [] m = m
existing_of (i ∷ is) m = existing_of is (put m i.project_id i.id)

module _ {R : Type 0} (rt : ProjectRuntime R) where
  abbrev pub created : Project → Result Text ProjectInstance × R → Dict Text → Dict Text × R
  created p (ok i, r) m = (put m p.id i.id, r)
  created p (err e, r) m = (m, r)

  abbrev pub create_if_missing : Project → Dict Text → R → Dict Text × R
  create_if_missing p m r = elim (get m p.id) [
    | some id ↦ (m, r)
    | none ↦ created p (rt.create_instance p r) m
  ]

  -- The loop over the desired projects.
  unfoldable pub create_missing : List Project → Dict Text → R → Dict Text × R
  create_missing [] m r = (m, r)
  create_missing (p ∷ ps) m r = let s = create_if_missing p m r in create_missing ps s.0 s.1

  -- The loop over a project's apps: each is deployed, and an error is only logged.
  unfoldable pub deploy_all : Text → List AppSpec → R → R
  deploy_all id [] r = r
  deploy_all id (a ∷ as') r = deploy_all id as' (rt.deploy_app id a r).1

  unfoldable pub deploy_apps : Dict (List AppSpec) → Dict Text → R → R
  unfolding deploy_all
  deploy_apps [] m r = r
  deploy_apps ((pid, apps) ∷ rest) m r = elim (get m pid) [
    | none ↦ deploy_apps rest m r
    | some id ↦ deploy_apps rest m (deploy_all id apps r)
  ]

  abbrev pub reconcile_with :
      DesiredState → Result Text (List ProjectInstance) × R → Result Text (Unit {0}) × R
  reconcile_with d (err e, r) = (err e, r)
  reconcile_with d (ok actual, r) =
      let s = create_missing d.projects (existing_of actual []) r in
      (ok tt, deploy_apps d.apps s.0 s.1)

  -- On a runtime that is there.
  unfoldable pub reconcile : DesiredState → R → Result Text (Unit {0}) × R
  unfolding existing_of create_missing deploy_apps
  reconcile d r = reconcile_with d (rt.list_instances r)

  -- A project has an instance.
  abbrev pub HasInstance : Dict Text → Project → Type 0
  HasInstance m p = is_some (get m p.id) ≡ true

  created-keeps :
      (p : Project) (x : Result Text ProjectInstance × R) (m : Dict Text) (k id : Text)
      → get m p.id ≡ none
      → get m k ≡ some id
      → get (created p x m).0 k ≡ some id
  created-keeps p (ok i, r) m k id free h =
      ground (arith, get-put m p.id k i.id, text_beq_iff p.id k, free, h)
  created-keeps p (err e, r) m k id free h = h

  create_if_missing-keeps :
      (p : Project) (m : Dict Text) (r : R) (k id : Text)
      → get m k ≡ some id
      → get (create_if_missing p m r).0 k ≡ some id
  create_if_missing-keeps p m r k id h = elim (Option-cases (get m p.id)) [
    | inl e ↦ rw (e, create_if_missing) (created-keeps p (rt.create_instance p r) m k id e h)
    | inr e ↦ rw (e.1, create_if_missing) h
  ]

  create_missing-keeps :
      (ps : List Project) (m : Dict Text) (r : R) (k id : Text)
      → get m k ≡ some id
      → get (create_missing ps m r).0 k ≡ some id
  unfolding create_missing
  create_missing-keeps [] m r k id h = h
  create_missing-keeps (p ∷ ps) m r k id h =
      create_missing-keeps ps _ _ k id (create_if_missing-keeps p m r k id h)

  created-HasInstance :
      (p : Project) (x : Result Text ProjectInstance × R) (m : Dict Text)
      → is_ok x.0 ≡ true
      → (id : Text) × (get (created p x m).0 p.id ≡ some id)
  created-HasInstance p (ok i, r) m h =
      (i.id, ground (arith, get-put m p.id p.id i.id, text_beq_iff p.id p.id))
  created-HasInstance p (err e, r) m h = cc

  create_if_missing-HasInstance :
      (p : Project) (m : Dict Text) (r : R)
      → is_ok (rt.create_instance p r).0 ≡ true
      → (id : Text) × (get (create_if_missing p m r).0 p.id ≡ some id)
  create_if_missing-HasInstance p m r h = elim (Option-cases (get m p.id)) [
    | inl e ↦ rw (e, create_if_missing) (created-HasInstance p (rt.create_instance p r) m h)
    | inr e ↦ rw (e.1, create_if_missing) e
  ]

  create_missing-HasInstance :
      ((p : Project) (s : R) → is_ok (rt.create_instance p s).0 ≡ true)
      → (ps : List Project) (m : Dict Text) (r : R) → All (HasInstance (create_missing ps m r).0) ps
  unfolding create_missing
  create_missing-HasInstance works [] m r = tt
  create_missing-HasInstance works (p ∷ ps) m r =
      let (id, e) = create_if_missing-HasInstance p m r (works p r) in
      let kept = create_missing-keeps ps _ (create_if_missing p m r).1 p.id id e in
      (rw kept refl, create_missing-HasInstance works ps _ _)

  create_missing-idle :
      (ps : List Project) (m : Dict Text) (r : R)
      → All (HasInstance m) ps
      → create_missing ps m r ≡ (m, r)
  unfolding create_missing
  create_missing-idle [] m r h = refl
  create_missing-idle (p ∷ ps) m r h = elim (Option-cases (get m p.id)) [
    | inl e ↦ cc (rw e at h.0)
    | inr e ↦ rw (e.1, create_if_missing) (create_missing-idle ps m r h.1)
  ]

  -- The loop over the desired projects, from the instances that exist. Those stay; if no creation
  -- fails, every desired project has an instance afterwards; and if all have one already, then
  -- nothing is created and the runtime is as it was.
  pub create_missing_exact :
      (ps : List Project) (m : Dict Text) (r : R)
      → ((k id : Text) → get m k ≡ some id → get (create_missing ps m r).0 k ≡ some id)
        × (((p : Project) (s : R) → is_ok (rt.create_instance p s).0 ≡ true)
            → All (HasInstance (create_missing ps m r).0) ps)
        × (All (HasInstance m) ps → create_missing ps m r ≡ (m, r))
  create_missing_exact ps m r = (
    (λ k id h. create_missing-keeps ps m r k id h),
    (λ works. create_missing-HasInstance works ps m r),
    create_missing-idle ps m r,
  )
