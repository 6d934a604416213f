-- ===== src/Guest/Replacing.antt =====
-- What a deployment to Docker (internal/init/docker.go) does to the containers of the daemon.
use goship.Base.{
  Text, lit, true, List, [], ◌∷◌, ◌++◌, Option, none, some, Result, ok, err, text_eq, ◌≡◌, ◌≢◌,
  refl, sym, subst, ◌∙◌, ℤ,
}
use goship.Entities.Resources.{Float64}
use goship.Entities.App.{AppSpec}
use goship.Guest.Docker.{
  Container, ContainerSpec, ClientError, DockerClient, image_reference, container_spec, pulled,
  remove_existing, started, create_and_start, replace_in, replace, docker_deploy,
}
use goship.Guest.Containers.{Held, IsDaemon, LacksName, HasCleared, remove_existing-HasCleared}

module _ {D : Type 0} (c : DockerClient D) (held : D → Text → Option Held)
    (daemon : IsDaemon c held) where
  -- The container of the app is new, it runs, no other has its name, and those without the name are
  -- as they were.
  pub record IsRunning (app : AppSpec) (d e : D) : Type 0 where
    pub id : Text
    pub stands :
        held e id
        ≡ some (record {
          names = (lit "/goship-" ++ app.name) ∷ [];
          image = image_reference app;
          running = true;
        })
    pub alone :
        (j : Text) (h : Held)
        → j ≢ id
        → held e j ≡ some h
        → (held d j ≡ some h) × LacksName (lit "/goship-" ++ app.name) h.names
    pub others :
        (j : Text) (h : Held)
        → held d j ≡ some h
        → LacksName (lit "/goship-" ++ app.name) h.names
        → held e j ≡ some h

  -- The two last calls, from a state without the name.
  created-IsRunning :
      (nano : Float64 → ℤ) (app : AppSpec) (d f a e : D) (id : Text)
      → HasCleared c held daemon (lit "/goship-" ++ app.name) d f
      → c.container_create (container_spec nano app) f ≡ (ok id, a)
      → c.container_start id a ≡ (ok tt, e)
      → IsRunning app d e
  unfolding container_spec
  created-IsRunning nano app d f a e id s made start =
      let m = daemon.creates (container_spec nano app) id f a made in
      let r = daemon.starts id a e _ start m.1 in
      record {
        id = id;
        stands = r.0;
        alone = λ j h n g. s.back j h (sym (r.1 j n ∙ m.2 j n) ∙ g);
        others = λ j h g lacks.
            let k : held f j ≡ some h = s.kept j h g lacks in
            let n : j ≢ id = λ q.
              let z : held f j ≡ none = subst (λ i. held f i ≡ none) (sym q) m.0 in cc (k, z) in
            r.1 j n ∙ m.2 j n ∙ k;
      }

  replace-IsRunning :
      (nano : Float64 → ℤ) (app : AppSpec) (d e : D)
      → replace c (container_spec nano app) (ok tt, d) ≡ (ok tt, e)
      → IsRunning app d e
  unfolding container_spec
  replace-IsRunning nano app d e h = go (c.container_list d) refl h
    where
      spec : ContainerSpec
      spec = container_spec nano app

      creating :
          (f : D)
          → HasCleared c held daemon (lit "/goship-" ++ app.name) d f
          → (n : Result ClientError Text × D) → c.container_create spec f ≡ n
          → started c n ≡ (ok tt, e)
          → IsRunning app d e
      creating f s (err x, a) en g = cc
      creating f s (ok id, a) en g = created-IsRunning nano app d f a e id s en g

      removing :
          (ks : List Container)
          → c.container_list d ≡ ok ks
          → (m : Result ClientError (Unit {0}) × D)
          → remove_existing c (lit "/goship-" ++ app.name) ks d ≡ m
          → create_and_start c spec m ≡ (ok tt, e)
          → IsRunning app d e
      removing ks el (err x, f) em g = cc
      removing ks el (ok u, f) em g =
          creating f
            (remove_existing-HasCleared c held daemon (lit "/goship-" ++ app.name) ks d f el em)
            (c.container_create spec f) refl g

      go :
          (l : Result ClientError (List Container))
          → c.container_list d ≡ l
          → replace_in c spec l d ≡ (ok tt, e)
          → IsRunning app d e
      go (err x) el g = cc
      go (ok ks) el g = removing ks el (remove_existing c (lit "/goship-" ++ app.name) ks d) refl g

  -- From a state with the same containers.
  same-IsRunning :
      (app : AppSpec) (d b e : D)
      → ((j : Text) → held b j ≡ held d j)
      → IsRunning app b e
      → IsRunning app d e
  same-IsRunning app d b e same r = record {
    id = r.id;
    stands = r.stands;
    alone = λ j h n g. (sym (same j) ∙ (r.alone j h n g).0, (r.alone j h n g).1);
    others = λ j h g lacks. r.others j h (same j ∙ g) lacks;
  }

  -- On a daemon whose calls do what they document: after a deployment that returns no error there is a
  -- running container with the name of the app and its image, no other container has that name, every
  -- other container was there before, and every container without the name is as it was.
  pub docker_deploy-IsRunning :
      (nano : Float64 → ℤ) (app : AppSpec) (d e : D)
      → docker_deploy c nano app d ≡ (ok tt, e)
      → IsRunning app d e
  unfolding docker_deploy container_spec
  docker_deploy-IsRunning nano app d e h = go (c.image_inspect (image_reference app) d) h
    where
      spec : ContainerSpec
      spec = container_spec nano app

      after :
          (r : Result ClientError (Unit {0}) × D)
          → c.image_pull (image_reference app) d ≡ r
          → replace c spec r ≡ (ok tt, e)
          → IsRunning app d e
      after (err x, b) er g = cc
      after (ok u, b) er g =
          same-IsRunning app d b e (daemon.pulls (image_reference app) d b er)
            (replace-IsRunning nano app b e g)

      go :
          (i : Result ClientError (Unit {0}))
          → replace c spec (pulled c i (image_reference app) d) ≡ (ok tt, e)
          → IsRunning app d e
      go (ok u) g = replace-IsRunning nano app d e g
      go (err x) g = after (c.image_pull (image_reference app) d) refl g
