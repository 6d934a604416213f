-- ===== src/Api/Registering.antt =====
-- The nodes: hostnames stay unique, and a node gets the apps of every project.
use goship.Base.{
  Text, lit, Bool, true, false, List, [], ◌∷◌, Option, none, some, is_some, Dict, get, put, get-put,
  get-put_self, values, All, AllValues, AllValues-put, ◌==◌, text_eq, text_beq_iff, Result, ok, err,
  ◌≡◌, ◌≢◌, refl, arith, Bool-cases, inl, inr, subst,
}
use goship.Entities.Project.{Project, Node}
use goship.Entities.App.{AppSpec}
use goship.Reconciler.{DesiredState}
use goship.Store.Disk.{Store, StoreError, node_not_found, Env, save, saved}
use goship.Store.Projects.{list_projects}
use goship.Store.Records.{returns, get_node, set_node, list_nodes, get_apps, with_nodes}
use goship.Api.Replies.{ApiError, not_found}
use goship.Api.Nodes.{
  RegisterNodeRequest, hostname_taken, new_node, node_saved, register_new, register_read,
  handle_node_register, apps_by_project, desired_state, handle_node_desired_state,
}

-- No node is nil, and no two have the same hostname.
pub record HasUniqueHosts (ns : Dict (Option Node)) : Type 0 where
  pub there : AllValues (λ o. is_some o ≡ true) ns
  pub unique :
      (j k : Text) (a b : Node)
      → get ns j ≡ some (some a)
      → get ns k ≡ some (some b)
      → a.hostname ≡ b.hostname
      → j ≡ k

-- What the search for a hostname finds out.
hostname_taken_total :
    (h : Text) (ns : Dict (Option Node))
    → AllValues (λ o. is_some o ≡ true) ns
    → (b : Bool) × (hostname_taken h (values ns) ≡ returns b)
      × (b ≡ false → (k : Text) (n : Node) → get ns k ≡ some (some n) → n.hostname ≢ h)
unfolding hostname_taken get
hostname_taken_total h [] a = (false, refl, λ e k n g. cc)
hostname_taken_total h ((j, none) ∷ ns) a = cc
hostname_taken_total h ((j, some m) ∷ ns) a =
    let r = hostname_taken_total h ns a.1 in go (m.hostname == h) refl r.0 r.1 r.2
  where
    go :
        (t : Bool)
        → (m.hostname == h) ≡ t
        → (b : Bool) → hostname_taken h (values ns) ≡ returns b
        → (b ≡ false → (k : Text) (n : Node) → get ns k ≡ some (some n) → n.hostname ≢ h)
        → (b : Bool) × (hostname_taken h (values ((j, some m) ∷ ns)) ≡ returns b)
          × (b ≡ false
              → (k : Text) (n : Node) → get ((j, some m) ∷ ns) k ≡ some (some n)
              → n.hostname ≢ h)
    go true et b eb f = (true, rw et refl, λ e. cc)
    go false et b eb f = (
      b,
      rw et eb,
      λ e k n g. elim (Bool-cases (j == k)) [
        | inl t ↦
            let same : m ≡ n = cc (rw t at g) in
            subst (λ (x : Node). x.hostname ≢ h) same
              (λ q. cc (et, (text_beq_iff m.hostname h).1 q))
        | inr d ↦ f e k n (rw d at g)
      ],
    )

saved-nodes : (e : Env) (s : Store) → (saved (save e s)).1.state.nodes ≡ s.state.nodes
unfolding save
saved-nodes e s = ground arith

set_node-nodes :
    (n : Node) (e : Env) (s : Store)
    → (set_node n e s).1.state.nodes ≡ put s.state.nodes n.id (some n)
unfolding set_node
set_node-nodes n e s = saved-nodes e (with_nodes s (put s.state.nodes n.id (some n)))

put-HasUniqueHosts :
    (ns : Dict (Option Node)) (n : Node)
    → HasUniqueHosts ns
    → ((k : Text) (m : Node) → get ns k ≡ some (some m) → m.hostname ≢ n.hostname)
    → HasUniqueHosts (put ns n.id (some n))
put-HasUniqueHosts ns n h new = record {
  there = AllValues-put (λ o. is_some o ≡ true) ns n.id (some n) h.there refl;
  unique = λ j k a b gj gk e. ground (
    arith,
    get-put ns n.id j (some n),
    get-put ns n.id k (some n),
    text_beq_iff n.id j,
    text_beq_iff n.id k,
    h.unique j k a b,
    new j a,
    new k b,
  );
}

-- From a state whose nodes are not nil and have different hostnames, a registration returns, and
-- hostnames are different after it, also where the save fails.
pub handle_node_register-HasUniqueHosts :
    (req : Option RegisterNodeRequest) (id : Text) (e : Env) (s : Store)
    → HasUniqueHosts s.state.nodes
    → (r : Result ApiError Node × Store) × (handle_node_register req id e s ≡ returns r)
      × HasUniqueHosts r.1.state.nodes
unfolding handle_node_register list_nodes
handle_node_register-HasUniqueHosts none id e s h = (_, refl, h)
handle_node_register-HasUniqueHosts (some req) id e s h = named (req.hostname == lit "") refl
  where
    n : Node
    n = new_node req id e.now

    saves :
        (u : Result StoreError (Unit {0}) × Store)
        → HasUniqueHosts u.1.state.nodes
        → (r : Result ApiError Node × Store) × (node_saved n u ≡ returns r)
          × HasUniqueHosts r.1.state.nodes
    saves (err x, t) k = (_, refl, k)
    saves (ok u, t) k = (_, refl, k)

    registers :
        (b : Bool)
        → (b ≡ false
            → (k : Text) (m : Node) → get s.state.nodes k ≡ some (some m)
            → m.hostname ≢ req.hostname)
        → (r : Result ApiError Node × Store) × (register_new req id e (returns b) s ≡ returns r)
          × HasUniqueHosts r.1.state.nodes
    registers true f = (_, refl, h)
    registers false f =
        saves (set_node n e s)
          (rw (set_node-nodes n e s) (put-HasUniqueHosts s.state.nodes n h (f refl)))

    named :
        (b : Bool)
        → (req.hostname == lit "") ≡ b
        → (r : Result ApiError Node × Store) × (register_read req id e s ≡ returns r)
          × HasUniqueHosts r.1.state.nodes
    named true eb = rw eb (_, refl, h)
    named false eb =
        let t = hostname_taken_total req.hostname s.state.nodes h.there in
        rw eb (rw t.1 (registers t.0 t.2))

-- A project of the list has its apps in the map, and a key that is the ID of none has what the map
-- had before.
get-apps_by_project_none :
    (s : Store) (ps : List Project) (m : Dict (List AppSpec)) (k : Text)
    → All (λ p. p.id ≢ k) ps
    → get (apps_by_project s ps m) k ≡ get m k
unfolding apps_by_project
get-apps_by_project_none s [] m k h = refl
get-apps_by_project_none s (p ∷ ps) m k h = ground (
  arith,
  get-apps_by_project_none s ps (put m p.id (get_apps p.id s)) k h.1,
  get-put m p.id k (get_apps p.id s),
  text_beq_iff p.id k,
  h.0,
)

-- An entry of the map that holds the apps of its key stays.
apps_by_project-keeps :
    (s : Store) (ps : List Project) (m : Dict (List AppSpec)) (k : Text)
    → get m k ≡ some (get_apps k s)
    → get (apps_by_project s ps m) k ≡ some (get_apps k s)
unfolding apps_by_project
apps_by_project-keeps s [] m k h = h
apps_by_project-keeps s (p ∷ ps) m k h =
    apps_by_project-keeps s ps (put m p.id (get_apps p.id s)) k
      (ground (arith, get-put m p.id k (get_apps p.id s), text_beq_iff p.id k, h))

apps_by_project-All :
    (s : Store) (ps : List Project) (m : Dict (List AppSpec))
    → All (λ p. get (apps_by_project s ps m) p.id ≡ some (get_apps p.id s)) ps
unfolding apps_by_project
apps_by_project-All s [] m = tt
apps_by_project-All s (p ∷ ps) m = (
  apps_by_project-keeps s ps (put m p.id (get_apps p.id s)) p.id
      (get-put_self m p.id (get_apps p.id s)),
  apps_by_project-All s ps (put m p.id (get_apps p.id s)),
)

All-values {κ} : (P : Project → Type κ) (m : Dict Project) → All P (values m) → AllValues P m
All-values P [] h = tt
All-values P ((k, p) ∷ m) h = (h.0, All-values P m h.1)

AllValues-values {κ} : (P : Project → Type κ) (m : Dict Project) → AllValues P m → All P (values m)
AllValues-values P [] h = tt
AllValues-values P ((k, p) ∷ m) h = (h.0, AllValues-values P m h.1)

-- A desired state of everything that the store holds.
pub record IsComplete (s : Store) (d : DesiredState) : Type 0 where
  pub every_project : d.projects ≡ values s.state.projects
  pub every_app : AllValues (λ p. get d.apps p.id ≡ some (get_apps p.id s)) s.state.projects
  pub no_more : (k : Text) → AllValues (λ p. p.id ≢ k) s.state.projects → get d.apps k ≡ none

desired_state-IsComplete : (s : Store) → IsComplete s (desired_state s)
unfolding desired_state list_projects get
desired_state-IsComplete s = record {
  every_project = refl;
  every_app = All-values _ s.state.projects (apps_by_project-All s (values s.state.projects) []);
  no_more = λ k h.
      get-apps_by_project_none s (values s.state.projects) [] k
        (AllValues-values _ s.state.projects h);
}

-- A node that is there by its ID or its hostname gets every project of the store, each with exactly
-- the apps that the store holds for its ID, and no apps of other projects; a node that is not there
-- gets the reply that it is not found.
pub handle_node_desired_state_exact :
    (id : Text) (s : Store)
    → ((n : Option Node)
        → get_node id s ≡ returns (ok n)
        → (d : DesiredState) × (handle_node_desired_state id s ≡ returns (ok d)) × IsComplete s d)
      × (get_node id s ≡ returns (err node_not_found)
          → handle_node_desired_state id s ≡ returns (err not_found))
unfolding handle_node_desired_state
handle_node_desired_state_exact id s =
    ((λ n h. (desired_state s, rw h refl, desired_state-IsComplete s)), (λ h. rw h refl))
