-- ===== src/Guest/Containers.antt =====
-- The containers of a Docker daemon, and the loop of internal/init/docker.go that removes those of a
-- name.
use goship.Base.{
  Text, lit, Bool, true, false, List, [], ◌∷◌, ◌++◌, Option, none, some, Result, ok, err, ◌==◌,
  text_eq, text_beq_iff, All, All-imp, Option-cases, Bool-cases, inl, inr, ◌⊎◌, ◌≡◌, ◌≢◌, refl, ap,
  sym, subst, ◌∙◌,
}
use goship.Guest.Docker.{
  Container, ContainerSpec, ClientError, DockerClient, has_name, remove_existing,
}

-- What the daemon holds of a container.
pub record Held : Type 0 where
  pub names : List Text
  pub image : Text
  pub running : Bool

-- A list of containers has the ID with these names.
abbrev pub Lists : Text → List Text → List Container → Type 0
Lists j ns [] = true ≡ false
Lists j ns (k ∷ ks) = ((k.id ≡ j) × (k.names ≡ ns)) ⊎ Lists j ns ks

-- The documented effects of the client's calls on the containers, which have unique IDs.
pub record IsDaemon {D : Type 0} (c : DockerClient D) (held : D → Text → Option Held) : Type 0 where
  pub lists_all :
      (d : D) (ks : List Container) (j : Text) (h : Held)
      → c.container_list d ≡ ok ks
      → held d j ≡ some h
      → Lists j h.names ks
  pub lists_held :
      (d : D) (ks : List Container)
      → c.container_list d ≡ ok ks
      → All (λ k. (h : Held) × (held d k.id ≡ some h) × (h.names ≡ k.names)) ks
  pub removes :
      (i : Text) (d e : D)
      → c.container_remove i d ≡ (ok tt, e)
      → (held e i ≡ none) × ((j : Text) → j ≢ i → held e j ≡ held d j)
  pub creates :
      (spec : ContainerSpec) (id : Text) (d e : D)
      → c.container_create spec d ≡ (ok id, e)
      → (held d id ≡ none)
        × (held e id
            ≡ some (record {
              names = (lit "/" ++ spec.name) ∷ [];
              image = spec.image;
              running = false;
            }))
        × ((j : Text) → j ≢ id → held e j ≡ held d j)
  pub starts :
      (i : Text) (d e : D) (h : Held)
      → c.container_start i d ≡ (ok tt, e)
      → held d i ≡ some h
      → (held e i ≡ some (record h { running = true })) × ((j : Text) → j ≢ i → held e j ≡ held d j)
  pub pulls :
      (ref : Text) (d e : D) → c.image_pull ref d ≡ (ok tt, e) → (j : Text) → held e j ≡ held d j

-- None of the names is this one.
abbrev pub LacksName : Text → List Text → Type 0
LacksName n ns = All (λ m. m ≢ n) ns

has_name-LacksName : (n : Text) (ns : List Text) → has_name n ns ≡ false → LacksName n ns
unfolding has_name
has_name-LacksName n [] h = tt
has_name-LacksName n (m ∷ ms) h = elim (Bool-cases (m == n)) [
  | inl t ↦ cc (rw t at h)
  | inr f ↦ ((λ q. cc (f, (text_beq_iff m n).1 q)), has_name-LacksName n ms (rw f at h))
]

LacksName-has_name : (n : Text) (ns : List Text) → LacksName n ns → has_name n ns ≡ false
unfolding has_name
LacksName-has_name n [] h = refl
LacksName-has_name n (m ∷ ms) h = elim (Bool-cases (m == n)) [
  | inl t ↦ absurd (h.0 ((text_beq_iff m n).0 t))
  | inr f ↦ rw f (LacksName-has_name n ms h.1)
]

module _ {D : Type 0} (c : DockerClient D) (held : D → Text → Option Held)
    (daemon : IsDaemon c held) where
  -- What the loop over the listed containers has done.
  record HasRemoved (n : Text) (ks : List Container) (d f : D) : Type 0 where
    kept :
        (j : Text) (h : Held)
        → held d j ≡ some h
        → All (λ k. k.id ≡ j → has_name n k.names ≡ false) ks
        → held f j ≡ some h
    back : (j : Text) (h : Held) → held f j ≡ some h → held d j ≡ some h
    gone : All (λ k. has_name n k.names ≡ true → held f k.id ≡ none) ks

  -- One container is removed, and then the others.
  removed-HasRemoved :
      (n : Text) (k : Container) (ks : List Container) (d a f : D)
      → has_name n k.names ≡ true
      → c.container_remove k.id d ≡ (ok tt, a)
      → HasRemoved n ks a f
      → HasRemoved n (k ∷ ks) d f
  removed-HasRemoved n k ks d a f eb er s =
      let rm = daemon.removes k.id d a er in
      record {
        kept = λ j h g al.
            let other : j ≢ k.id = λ q. cc (al.0 (sym q), eb) in s.kept j h (rm.1 j other ∙ g) al.1;
        back = λ j h g. elim (Bool-cases (j == k.id)) [
          | inl t ↦
              let q : j ≡ k.id = (text_beq_iff j k.id).0 t in
              let z : held a j ≡ none = subst (λ i. held a i ≡ none) (sym q) rm.0 in
              cc (s.back j h g, z)
          | inr no_match ↦
              sym (rm.1 j (λ q. cc (no_match, (text_beq_iff j k.id).1 q))) ∙ s.back j h g
        ];
        gone = (
          (λ t. elim (Option-cases (held f k.id)) [
            | inl e ↦ e
            | inr e ↦ cc (s.back k.id e.0 e.1, rm.0)
          ]),
          s.gone,
        );
      }

  remove_existing-HasRemoved :
      (n : Text) (ks : List Container) (d f : D)
      → remove_existing c n ks d ≡ (ok tt, f)
      → HasRemoved n ks d f
  unfolding remove_existing
  remove_existing-HasRemoved n [] d f h =
      let e : d ≡ f = ap (λ r. r.1) h in
      record {
        kept = λ j x g a. subst (λ s. held s j ≡ some x) e g;
        back = λ j x g. subst (λ s. held s j ≡ some x) (sym e) g;
        gone = tt;
      }
  remove_existing-HasRemoved n (k ∷ ks) d f h =
      go (has_name n k.names) refl (c.container_remove k.id d) refl
        (λ a. remove_existing-HasRemoved n ks a f)
    where
      go :
          (b : Bool)
          → has_name n k.names ≡ b
          → (r : Result ClientError (Unit {0}) × D) → c.container_remove k.id d ≡ r
          → ((a : D) → remove_existing c n ks a ≡ (ok tt, f) → HasRemoved n ks a f)
          → HasRemoved n (k ∷ ks) d f
      go false eb r er later =
          let s = later d (rw eb at h) in
          record {
            kept = λ j x g a. s.kept j x g a.1;
            back = s.back;
            gone = ((λ t. cc (eb, t)), s.gone);
          }
      go true eb (err x, a) er later = cc (rw (eb, er) at h)
      go true eb (ok u, a) er later =
          removed-HasRemoved n k ks d a f eb er (later a (rw (eb, er) at h))

  same-LacksName :
      (n j : Text) (d : D) (x y : Held) (k : Container)
      → held d j ≡ some x
      → held d k.id ≡ some y
      → y.names ≡ k.names
      → k.id ≡ j
      → LacksName n x.names
      → LacksName n k.names
  same-LacksName n j d x y k g e en q lacks =
      let s : held d j ≡ some y = subst (λ i. held d i ≡ some y) q e in
      let same : x ≡ y = cc (g, s) in
      subst (LacksName n) (ap (λ (z : Held). z.names) same ∙ en) lacks

  -- A removal of all the containers that have the name, from a list of what the daemon holds.
  pub record HasCleared (n : Text) (d f : D) : Type 0 where
    pub kept : (j : Text) (h : Held) → held d j ≡ some h → LacksName n h.names → held f j ≡ some h
    pub back : (j : Text) (h : Held) → held f j ≡ some h → (held d j ≡ some h) × LacksName n h.names

  listed-LacksName :
      (n j : Text) (h : Held) (f : D) (ks : List Container)
      → Lists j h.names ks
      → All (λ k. has_name n k.names ≡ true → held f k.id ≡ none) ks
      → held f j ≡ some h
      → LacksName n h.names
  listed-LacksName n j h f [] l a g = cc l
  listed-LacksName n j h f (k ∷ ks) (inr l) a g = listed-LacksName n j h f ks l a.1 g
  listed-LacksName n j h f (k ∷ ks) (inl (ei, en)) a g = elim (Bool-cases (has_name n k.names)) [
    | inl t ↦ let z : held f j ≡ none = subst (λ i. held f i ≡ none) ei (a.0 t) in cc (g, z)
    | inr x ↦ subst (LacksName n) en (has_name-LacksName n k.names x)
  ]

  pub remove_existing-HasCleared :
      (n : Text) (ks : List Container) (d f : D)
      → c.container_list d ≡ ok ks
      → remove_existing c n ks d ≡ (ok tt, f)
      → HasCleared n d f
  remove_existing-HasCleared n ks d f el h =
      let s = remove_existing-HasRemoved n ks d f h in
      record {
        kept = λ j x g lacks. s.kept j x g (
            All-imp (λ k. (y : Held) × (held d k.id ≡ some y) × (y.names ≡ k.names))
              (λ k. k.id ≡ j → has_name n k.names ≡ false)
              (λ k y q.
                LacksName-has_name n k.names (same-LacksName n j d x y.0 k g y.1 y.2 q lacks))
              ks (daemon.lists_held d ks el));
        back = λ j x g.
            let b = s.back j x g in
            (b, listed-LacksName n j x f ks (daemon.lists_all d ks j x el b) s.gone g);
      }
