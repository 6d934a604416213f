-- ===== src/Supervisor/Stopping.antt =====
-- A process whose stop was asked for is never started again, and how its state ends.
use goship.Base.{
  Text, ℕ, ◌<◌, Bool, true, false, ◌≡◌, ◌≢◌, refl, sym, ◌∙◌, List, [], ◌∷◌, Option, none, some,
  Dict, get, text_eq, text_beq_iff, nat_eq, if◌then◌else◌, Result, ok, err, arith, Option-cases,
  inl, inr,
}
use goship.Entities.Name.{NameError}
use goship.Entities.App.{AppSpec}
use goship.Entities.App.AppState.{stopped, failed}
use goship.Supervisor.Process.{
  Process, waiting, finished, after_exit, process_log_path, stop_process,
}
use goship.Supervisor.Manager.{
  Manager, change, DeployError, DeployEnv, validate_process_app, retire, launch, deploy, stop,
  close_log, remove_app, stop_all, close, exits, is_tracked, handles, wakes, Event, deploys, stops,
  removes, closes, asks, get_status, refresh_all, refresh, exit, handle, wake, step, run,
}
use goship.Supervisor.Safety.{IsSafe}

-- The object at the address is being stopped and not alive.
pub record IsDown (i : ℕ) (m : Manager) : Type 0 where
  pub inside : i < m.next
  pub down : (p : Process) → m.heap i ≡ some p → (p.stopping ≡ true) × (p.phase ≢ waiting)

module _ (i : ℕ) where
  -- A change that leaves a stopped object stopped.
  abbrev Leaves : (Process → Process) → Type 0
  Leaves f =
      (p : Process)
      → p.stopping ≡ true
      → p.phase ≢ waiting
      → ((f p).stopping ≡ true) × ((f p).phase ≢ waiting)

  change-IsDown :
      (f : Process → Process) (j : ℕ) (m : Manager)
      → Leaves f
      → IsDown i m
      → IsDown i (change f j m)
  unfolding change
  change-IsDown f j m keep h = elim (Option-cases (m.heap j)) [
    | inl e ↦ rw (e, change) h
    | inr e ↦
        rw (e.1, change)
          (record {
            inside = h.inside;
            down = λ p a. let d = h.down e.0 in ground (arith, e.1, h.down p, d, keep e.0);
          })
  ]

  stop_process-Leaves :
      (failure : Bool) (p : Process)
      → p.phase ≢ waiting
      → ((stop_process failure p).stopping ≡ true) × ((stop_process failure p).phase ≢ waiting)
  unfolding stop_process
  stop_process-Leaves failure p h = (refl, λ w. ground arith)

  retire-IsDown :
      (name : Text) (failure : Bool) (f : Process → Process) (m : Manager)
      → ((p : Process) → (f p).stopping ≡ p.stopping)
      → ((p : Process) → (f p).phase ≡ p.phase)
      → IsDown i m
      → IsDown i (retire name failure f m)
  unfolding retire
  retire-IsDown name failure f m st ph h = elim (Option-cases (get m.processes name)) [
    | inl e ↦ rw (e, retire) h
    | inr e ↦
        rw (e.1, retire)
          (let k =
              change-IsDown (λ p. f (stop_process failure p)) e.0 m
                (λ p a b.
                  let d = stop_process-Leaves failure p b in
                  (st _ ∙ d.0, λ w. d.1 (sym (ph _) ∙ w)))
                h in
            record { inside = k.inside; down = k.down })
  ]

  launch-IsDown :
      (app : AppSpec) (e : DeployEnv) (m : Manager) → IsDown i m → IsDown i (launch app e m).1
  unfolding launch
  launch-IsDown app e m h = go (process_log_path app.name) refl e.log_opens e.starts
    where
      go :
          (v : Result NameError Text)
          → process_log_path app.name ≡ v
          → (l : Bool) (st : Option ℕ)
          → IsDown i (launch app (record e { log_opens = l; starts = st }) m).1
      go (err x) ev l st = rw (ev, launch) h
      go (ok path) ev false st = rw (ev, launch) h
      go (ok path) ev true none = rw (ev, launch) h
      go (ok path) ev true (some pid) =
          rw (ev, launch)
            (record {
              inside = omega (arith, h.inside);
              down = λ p a. ground (arith, h.inside, h.down p);
            })

  deploy-IsDown :
      (app : Option AppSpec) (e : DeployEnv) (m : Manager)
      → IsDown i m
      → IsDown i (deploy app e m).1
  unfolding deploy
  deploy-IsDown none e m h = h
  deploy-IsDown (some app) e m h = go (validate_process_app app e.binary_exists) refl
    where
      go :
          (v : Result DeployError (Unit {0}))
          → validate_process_app app e.binary_exists ≡ v
          → IsDown i (deploy (some app) e m).1
      go (err x) ev = rw (ev, deploy) h
      go (ok u) ev =
          rw (ev, deploy)
            (launch-IsDown app e _
              (retire-IsDown app.name e.failure (λ p. p) m (λ p. refl) (λ p. refl) h))

  stop-IsDown :
      (name : Text) (failure : Bool) (m : Manager) → IsDown i m → IsDown i (stop name failure m)
  unfolding stop
  stop-IsDown name failure m h = elim (Option-cases (get m.processes name)) [
    | inl e ↦ rw (e, stop) h
    | inr e ↦
        rw (e.1, stop)
          (change-IsDown (λ p. record (stop_process failure p) { state = stopped }) e.0 m
            (λ p a b. stop_process-Leaves failure p b) h)
  ]

  stop_all-IsDown :
      (ps : Dict ℕ) (failures : ℕ → Bool) (m : Manager)
      → IsDown i m
      → IsDown i (stop_all ps failures m)
  unfolding stop_all
  stop_all-IsDown [] failures m h = h
  stop_all-IsDown ((k, j) ∷ ps) failures m h = stop_all-IsDown ps failures _ (
      change-IsDown (λ p. close_log (stop_process (failures j) p)) j m
        (λ p a b. stop_process-Leaves (failures j) p b) h)

  refresh_all-IsDown :
      (ps : Dict ℕ) (proc_status : ℕ → Text) (m : Manager)
      → IsDown i m
      → IsDown i (refresh_all ps proc_status m)
  unfolding refresh_all refresh
  refresh_all-IsDown [] proc_status m h = h
  refresh_all-IsDown ((k, j) ∷ ps) proc_status m h =
      refresh_all-IsDown ps proc_status _
        (change-IsDown _ j m (λ p a b. (ground arith, ground arith)) h)

  step-IsDown : (m : Manager) (x : Event) → IsDown i m → IsDown i (step m x)
  unfolding step remove_app get_status exits handles after_exit wakes close
  step-IsDown m (deploys app e) h = deploy-IsDown app e m h
  step-IsDown m (stops name failure) h = stop-IsDown name failure m h
  step-IsDown m (removes name failure) h =
      retire-IsDown name failure close_log m (λ p. refl) (λ p. refl) h
  step-IsDown m (closes failures) h =
      let k = stop_all-IsDown m.processes failures m h in
      record { inside = k.inside; down = k.down }
  step-IsDown m (asks proc_status) h = refresh_all-IsDown m.processes proc_status m h
  step-IsDown m (exit j failure) h = change-IsDown _ j m (λ p a b. (a, ground arith)) h
  step-IsDown m (handle j) h = change-IsDown _ j m (λ p a b. (ground arith, ground arith)) h
  step-IsDown m (wake j starts now) h =
      change-IsDown _ j m (λ p a b. (ground arith, ground arith)) h

  run-IsDown : (m : Manager) (xs : List Event) → IsDown i m → IsDown i (run m xs)
  unfolding run
  run-IsDown m [] h = h
  run-IsDown m (x ∷ xs) h = run-IsDown (step m x) xs (step-IsDown m x h)

-- After `Stop` the process that had the name is not alive, and no events whatever make it alive
-- again, the end of its backoff included.
pub stop_final :
    (m : Manager) (name : Text) (failure : Bool) (i : ℕ) (xs : List Event) (q : Process)
    → IsSafe m
    → get m.processes name ≡ some i
    → (p : Process) → m.heap i ≡ some p
    → (run (stop name failure m) xs).heap i ≡ some q
    → (q.stopping ≡ true) × (q.phase ≢ waiting)
unfolding stop change
stop_final m name failure i xs q safe tracked p there after =
    (run-IsDown i (stop name failure m) xs (
        rw (tracked, stop)
          (rw (there, change)
            (record {
              inside = ground (arith, safe.fresh i);
              down = λ r a. ground (arith, there, stop_process-Leaves i failure p);
            })))).down
      q after

-- `Stop` sets the state to `stopped`, and then the monitor sets it by the error of the exit: a
-- process that the signal has ended is left as `failed`.
pub stop_monitor_state :
    (m : Manager) (name : Text) (failure : Bool) (i : ℕ) (p : Process)
    → get m.processes name ≡ some i
    → m.heap i ≡ some p
    → p.name ≡ name
    → p.phase ≡ waiting
    → (q : Process) × ((handles i (stop name failure m)).heap i ≡ some q)
      × (q.state ≡ (if failure then failed else stopped))
unfolding handles stop after_exit is_tracked
stop_monitor_state m name failure i p tracked there n w = (
  record p { state = if failure then failed else stopped; stopping = true; phase = finished },
  ground (arith, text_beq_iff name p.name),
  refl,
)
