-- ===== src/Tests/DockerExamples.antt =====
-- A deployment to a Docker daemon that runs an older container of the app and another one.
use goship.Base.{
  Text, lit, ℕ, text_beq, true, false, List, [], ◌∷◌, ◌++◌, Option, none, some, Result, ok, err,
  ◌==◌, text_eq, text_beq_iff, if◌then◌else◌, All, inl, inr, ◌≡◌, ◌≢◌, refl, ap, sym, subst, ◌∙◌,
  arith, Bool-cases, ok_injective, ℤ, pos,
}
use goship.Guest.Docker.{
  Container, ContainerSpec, ClientError, failed, DockerClient, docker_deploy, image_reference,
}
use goship.Guest.Containers.{Held, Lists, IsDaemon}
use goship.Guest.Replacing.{IsRunning, docker_deploy-IsRunning}
use goship.Tests.Fixtures.{worker}

-- A daemon with room for three containers, whose IDs are a, b and c; it creates c.
record Slots : Type 0 where
  a : Option Held
  b : Option Held
  c : Option Held

abbrev held_in : Slots → Text → Option Held
held_in d j =
    if j == lit "a" then d.a else if j == lit "b" then d.b else if j == lit "c" then d.c else none

abbrev entry : Text → Option Held → List Container → List Container
entry id none ks = ks
entry id (some h) ks =
    record { id = id; names = h.names; image = h.image; state = []; status = []; ports = [] } ∷ ks

abbrev listed : Slots → List Container
listed d = entry (lit "a") d.a (entry (lit "b") d.b (entry (lit "c") d.c []))

-- A change of the container that has the ID.
abbrev at_id : (Option Held → Option Held) → Text → Slots → Slots
at_id f i d = record {
  a = if i == lit "a" then f d.a else d.a;
  b = if i == lit "b" then f d.b else d.b;
  c = if i == lit "c" then f d.c else d.c;
}

abbrev emptied : Option Held → Option Held
emptied h = none

abbrev run_held : Option Held → Option Held
run_held none = none
run_held (some h) = some (record h { running = true })

abbrev created_in : ContainerSpec → Option Held → Slots → Result ClientError Text × Slots
created_in spec (some h) d = (err (failed []), d)
created_in spec none d = (
  ok (lit "c"),
  record d {
    c = some (record { names = (lit "/" ++ spec.name) ∷ []; image = spec.image; running = false });
  },
)

abbrev client : DockerClient Slots
client = record {
  network_inspect = λ n d. ok tt;
  network_create = λ n d. (ok tt, d);
  image_load = λ i d. (ok tt, d);
  image_inspect = λ r d. ok tt;
  image_pull = λ r d. (ok tt, d);
  container_list = λ d. ok (listed d);
  container_remove = λ i d. (ok tt, at_id emptied i d);
  container_create = λ s d. created_in s d.c d;
  container_start = λ i d. (ok tt, at_id run_held i d);
  container_stop = λ i d. (ok tt, d);
  container_logs = λ i n d. ok ([], []);
  started_at = λ i d. none;
}

held-at_id_same :
    (f : Option Held → Option Held) (i : Text) (d : Slots)
    → f none ≡ none
    → held_in (at_id f i d) i ≡ f (held_in d i)
held-at_id_same f i d h = ground (arith, h)

held-at_id_other :
    (f : Option Held → Option Held) (i j : Text) (d : Slots)
    → j ≢ i
    → held_in (at_id f i d) j ≡ held_in d j
held-at_id_other f i j d n = ground (
  arith,
  n,
  text_beq_iff j (lit "a"),
  text_beq_iff i (lit "a"),
  text_beq_iff j (lit "b"),
  text_beq_iff i (lit "b"),
  text_beq_iff j (lit "c"),
  text_beq_iff i (lit "c"),
)

module _ (j : Text) (ns : List Text) where
  Lists-entry :
      (id : Text) (o : Option Held) (ks : List Container)
      → Lists j ns ks
      → Lists j ns (entry id o ks)
  Lists-entry id none ks l = l
  Lists-entry id (some h) ks l = inr l

Lists-here :
    (j id : Text) (o : Option Held) (h : Held) (ks : List Container)
    → (j == id) ≡ true
    → o ≡ some h
    → Lists j h.names (entry id o ks)
Lists-here j id none h ks t e = cc e
Lists-here j id (some g) h ks t e =
    let same : g ≡ h = cc e in inl (sym ((text_beq_iff j id).0 t), ap (λ (x : Held). x.names) same)

listed-all : (d : Slots) (j : Text) (h : Held) → held_in d j ≡ some h → Lists j h.names (listed d)
listed-all d j h e = elim (Bool-cases (j == lit "a")) [
  | inl t ↦ Lists-here j (lit "a") d.a h _ t (rw t at e)
  | inr f ↦ Lists-entry j h.names (lit "a") d.a _ (elim (Bool-cases (j == lit "b")) [
    | inl t ↦ Lists-here j (lit "b") d.b h _ t (rw (f, t) at e)
    | inr g ↦ Lists-entry j h.names (lit "b") d.b _ (elim (Bool-cases (j == lit "c")) [
      | inl t ↦ Lists-here j (lit "c") d.c h _ t (rw (f, g, t) at e)
      | inr k ↦ cc (rw (f, g, k) at e)
    ])
  ])
]

-- The daemon holds a listed container.
abbrev IsHeld : Slots → Container → Type 0
IsHeld d k = (h : Held) × (held_in d k.id ≡ some h) × (h.names ≡ k.names)

entry-IsHeld :
    (d : Slots) (id : Text) (o : Option Held) (ks : List Container)
    → held_in d id ≡ o
    → All (IsHeld d) ks
    → All (IsHeld d) (entry id o ks)
entry-IsHeld d id none ks e a = a
entry-IsHeld d id (some h) ks e a = ((h, e, refl), a)

listed-IsHeld : (d : Slots) → All (IsHeld d) (listed d)
unfolding text_beq
listed-IsHeld d =
    entry-IsHeld d (lit "a") d.a _ refl
      (entry-IsHeld d (lit "b") d.b _ refl (entry-IsHeld d (lit "c") d.c _ refl tt))

abbrev made : ContainerSpec → Held
made spec = record { names = (lit "/" ++ spec.name) ∷ []; image = spec.image; running = false }

abbrev IsCreated : ContainerSpec → Slots → Text → Slots → Type 0
IsCreated spec d id e =
    (held_in d id ≡ none)
    × (held_in e id ≡ some (made spec))
    × ((j : Text) → j ≢ id → held_in e j ≡ held_in d j)

created_in-IsCreated :
    (spec : ContainerSpec) (id : Text) (d e : Slots) (o : Option Held)
    → d.c ≡ o
    → created_in spec o d ≡ (ok id, e)
    → IsCreated spec d id e
unfolding text_beq
created_in-IsCreated spec id d e (some h) free q = cc
created_in-IsCreated spec id d e none free q =
    let full : Slots = record d { c = some (made spec) } in
    let new : IsCreated spec d (lit "c") full =
      (free, refl, λ j n. ground (arith, n, text_beq_iff j (lit "c"))) in
    let i : lit "c" ≡ id = ok_injective (ap (λ x. x.0) q) in
    let s : full ≡ e = ap (λ x. x.1) q in
    subst (λ x. IsCreated spec d id x) s (subst (λ x. IsCreated spec d x full) i new)

client-IsDaemon : IsDaemon client held_in
client-IsDaemon = record {
  lists_all = λ d ks j h e g. subst (Lists j h.names) (ok_injective e) (listed-all d j h g);
  lists_held = λ d ks e. subst (All (IsHeld d)) (ok_injective e) (listed-IsHeld d);
  removes = λ i d e q.
      let s : at_id emptied i d ≡ e = ap (λ x. x.1) q in
      (
        subst (λ x. held_in x i ≡ none) s (held-at_id_same emptied i d refl),
        λ j n. subst (λ x. held_in x j ≡ held_in d j) s (held-at_id_other emptied i j d n),
      );
  creates = λ spec id d e q. created_in-IsCreated spec id d e d.c refl q;
  starts = λ i d e h q g.
      let s : at_id run_held i d ≡ e = ap (λ x. x.1) q in
      (
        subst (λ x. held_in x i ≡ some (record h { running = true })) s
            (held-at_id_same run_held i d refl ∙ ap run_held g),
        λ j n. subst (λ x. held_in x j ≡ held_in d j) s (held-at_id_other run_held i j d n),
      );
  pulls = λ ref d e q j. ap (λ x. held_in x.1 j) (sym q);
}

abbrev old_worker : Held
old_worker = record { names = lit "/goship-worker" ∷ []; image = lit "old"; running = true }

abbrev registry : Held
registry = record { names = lit "/registry" ∷ []; image = lit "registry:2"; running = true }

abbrev before : Slots
before = record { a = some registry; b = some old_worker; c = none }

abbrev after : Slots
after = record {
  a = some registry;
  b = none;
  c = some (record {
    names = lit "/goship-worker" ∷ [];
    image = image_reference worker;
    running = true;
  });
}

abbrev no_cpu : ℕ → ℤ
no_cpu bits = pos 0

worker-deploys : docker_deploy client no_cpu worker before ≡ (ok tt, after)
unfolding docker_deploy text_beq
worker-deploys = refl

-- Witness.
docker_deploy-IsRunning_example : IsRunning client held_in client-IsDaemon worker before after
docker_deploy-IsRunning_example =
    docker_deploy-IsRunning client held_in client-IsDaemon no_cpu worker before after worker-deploys
