-- ===== src/Supervisor/Interleavings.antt =====
-- The invariant holds after any events, in any order.
use goship.Base.{
  Text, ℕ, Bool, true, false, ◌≡◌, ◌≢◌, refl, ◌∙◌, List, [], ◌∷◌, Option, none, some, Dict, get,
  get-put, ◌==◌, text_eq, nat_eq, text_beq_iff, Result, ok, err, arith, Option-cases, Bool-cases,
  inl, inr,
}
use goship.Entities.Name.{NameError}
use goship.Entities.App.{AppSpec}
use goship.Supervisor.Process.{
  Process, waiting, after_exit, restart_process, process_log_path, stop_process,
}
use goship.Supervisor.Manager.{
  Manager, new_process_manager, DeployError, DeployEnv, validate_process_app, change, track, launch,
  deploy, close_log, remove_app, stop_all, close, exits, is_tracked, handles, wakes, Event, deploys,
  stops, removes, closes, asks, get_status, refresh_all, refresh, exit, handle, wake, step, run,
  new_process,
}
use goship.Supervisor.Safety.{
  IsSafe, change-IsSafe, stopped-IsFair, stop-IsSafe, retire-IsSafe, change-processes, change_quiet,
  stop_phase-ne-waiting,
}

module _ (m : Manager) (h : IsSafe m) where
  track-IsSafe :
      (p : Process)
      → p.restart_count ≡ 0
      → p.stopping ≡ false
      → get m.processes p.name ≡ none
      → IsSafe (track p m)
  track-IsSafe p c st free = record {
    fresh = λ j l. ground (arith, h.fresh j);
    alive = λ j q a w. ground (
      arith,
      h.alive j q,
      h.fresh m.next,
      st,
      free,
      get-put m.processes p.name q.name m.next,
      text_beq_iff p.name q.name,
    );
    counted = λ j q a. ground (arith, h.counted j q, c);
  }

  launch-IsSafe :
      (app : AppSpec) (e : DeployEnv) → get m.processes app.name ≡ none → IsSafe (launch app e m).1
  unfolding launch
  launch-IsSafe app e free = go (process_log_path app.name) refl e.log_opens e.starts
    where
      go :
          (v : Result NameError Text)
          → process_log_path app.name ≡ v
          → (l : Bool) (st : Option ℕ)
          → IsSafe (launch app (record e { log_opens = l; starts = st }) m).1
      go (err x) ev l st = rw (ev, launch) h
      go (ok path) ev false st = rw (ev, launch) h
      go (ok path) ev true none = rw (ev, launch) h
      go (ok path) ev true (some pid) =
          rw (ev, launch) (track-IsSafe (new_process app e pid) refl refl free)

  exits-IsSafe : (i : ℕ) (failure : Bool) → IsSafe (exits i failure m)
  unfolding exits
  exits-IsSafe i failure = change-IsSafe m h _ i λ p e. record {
    name = refl;
    count = h.counted i p e;
    live = λ w. ground (arith, h.alive i p e);
  }

  handles-IsSafe : (i : ℕ) → IsSafe (handles i m)
  unfolding handles after_exit
  handles-IsSafe i = change-IsSafe m h _ i λ p e. record {
    name = ground arith;
    count = ground (arith, h.counted i p e);
    live = λ w. ground (arith, h.alive i p e);
  }

  wakes-IsSafe : (i : ℕ) (starts : Option ℕ) (now : ℕ) → IsSafe (wakes i starts now m)
  unfolding wakes restart_process is_tracked
  wakes-IsSafe i starts now = change-IsSafe m h _ i λ p e. record {
    name = ground arith;
    count = ground (arith, h.counted i p e);
    live = λ w. ground (arith, h.alive i p e);
  }

deploy-IsSafe :
    (m : Manager) (app : Option AppSpec) (e : DeployEnv) → IsSafe m → IsSafe (deploy app e m).1
unfolding deploy
deploy-IsSafe m none e h = h
deploy-IsSafe m (some app) e h = go (validate_process_app app e.binary_exists) refl
  where
    go :
        (v : Result DeployError (Unit {0}))
        → validate_process_app app e.binary_exists ≡ v
        → IsSafe (deploy (some app) e m).1
    go (err x) ev = rw (ev, deploy) h
    go (ok u) ev =
        let (safe, free) =
          retire-IsSafe m h app.name e.failure (λ p. p) (λ p. refl) (λ p. refl) (λ p. refl) in
        rw (ev, deploy) (launch-IsSafe _ safe app e free)

stop_all-IsSafe :
    (ps : Dict ℕ) (failures : ℕ → Bool) (m : Manager) → IsSafe m → IsSafe (stop_all ps failures m)
unfolding stop_all
stop_all-IsSafe [] failures m h = h
stop_all-IsSafe ((k, i) ∷ ps) failures m h = stop_all-IsSafe ps failures _ (
    change-IsSafe m h _ i
      (stopped-IsFair m h close_log (failures i) (λ p. refl) (λ p. refl) (λ p. refl) i))

stop_all-processes :
    (ps : Dict ℕ) (failures : ℕ → Bool) (m : Manager)
    → (stop_all ps failures m).processes ≡ m.processes
unfolding stop_all
stop_all-processes [] failures m = refl
stop_all-processes ((k, i) ∷ ps) failures m =
    stop_all-processes ps failures _ ∙ change-processes _ i m

-- No live process stands at the address.
abbrev Quiet : Manager → ℕ → Type 0
Quiet m j = (q : Process) → m.heap j ≡ some q → q.phase ≢ waiting

change-Quiet :
    (failure : Bool) (i j : ℕ) (m : Manager)
    → Quiet m j
    → Quiet (change (λ p. close_log (stop_process failure p)) i m) j
unfolding change stop_process
change-Quiet failure i j m quiet q e w = elim (Option-cases (m.heap i)) [
  | inl o ↦ ground (arith, o, quiet q)
  | inr o ↦ ground (arith, o.1, quiet q, stop_phase-ne-waiting failure o.0.phase)
]

stop_all-Quiet :
    (ps : Dict ℕ) (failures : ℕ → Bool) (m : Manager) (j : ℕ)
    → Quiet m j
    → Quiet (stop_all ps failures m) j
unfolding stop_all
stop_all-Quiet [] failures m j h = h
stop_all-Quiet ((k, i) ∷ ps) failures m j h =
    stop_all-Quiet ps failures _ j (change-Quiet (failures i) i j m h)

stop_all-stops :
    (ps : Dict ℕ) (failures : ℕ → Bool) (m : Manager) (j : ℕ) (name : Text)
    → get ps name ≡ some j
    → Quiet (stop_all ps failures m) j
unfolding stop_all get
stop_all-stops [] failures m j name e = cc
stop_all-stops ((k, i) ∷ ps) failures m j name e = elim (Bool-cases (k == name)) [
  | inl t ↦
      let d : i ≡ j = cc (rw t at e) in
      stop_all-Quiet ps failures _ j
        (rw (← d) (change_quiet close_log (failures i) (λ p. refl) i m))
  | inr f ↦ stop_all-stops ps failures _ j name (rw f at e)
]

close-IsSafe : (m : Manager) (failures : ℕ → Bool) → IsSafe m → IsSafe (close failures m)
unfolding close
close-IsSafe m failures h =
    let s = stop_all-IsSafe m.processes failures m h in
    record {
      fresh = s.fresh;
      alive = λ j q a w. absurd (
          stop_all-stops m.processes failures m j q.name
            (rw stop_all-processes at (s.alive j q a w).0) q a w);
      counted = s.counted;
    }

refresh_all-IsSafe :
    (ps : Dict ℕ) (proc_status : ℕ → Text) (m : Manager)
    → IsSafe m
    → IsSafe (refresh_all ps proc_status m)
unfolding refresh_all refresh
refresh_all-IsSafe [] proc_status m h = h
refresh_all-IsSafe ((k, i) ∷ ps) proc_status m h = refresh_all-IsSafe ps proc_status _ (
    change-IsSafe m h _ i λ p e. record {
      name = ground arith;
      count = ground (arith, h.counted i p e);
      live = λ w. ground (arith, h.alive i p e);
    })

step-IsSafe : (m : Manager) (x : Event) → IsSafe m → IsSafe (step m x)
unfolding step remove_app get_status
step-IsSafe m (deploys app e) h = deploy-IsSafe m app e h
step-IsSafe m (stops name failure) h = stop-IsSafe m h name failure
step-IsSafe m (removes name failure) h =
    (retire-IsSafe m h name failure close_log (λ p. refl) (λ p. refl) (λ p. refl)).0
step-IsSafe m (closes failures) h = close-IsSafe m failures h
step-IsSafe m (asks proc_status) h = refresh_all-IsSafe m.processes proc_status m h
step-IsSafe m (exit i failure) h = exits-IsSafe m h i failure
step-IsSafe m (handle i) h = handles-IsSafe m h i
step-IsSafe m (wake i starts now) h = wakes-IsSafe m h i starts now

pub run_from-IsSafe : (m : Manager) (xs : List Event) → IsSafe m → IsSafe (run m xs)
unfolding run
run_from-IsSafe m [] h = h
run_from-IsSafe m (x ∷ xs) h = run_from-IsSafe (step m x) xs (step-IsSafe m x h)

new-IsSafe : IsSafe new_process_manager
unfolding new_process_manager
new-IsSafe = record { fresh = λ i l. refl; alive = λ i p e w. cc; counted = λ i p e. cc }

-- After any events, in any order: a live process is the one that the map holds under its name, and
-- its removal or stop has not been asked for; and no process has been restarted more than five
-- times.
pub run-IsSafe : (xs : List Event) → IsSafe (run new_process_manager xs)
run-IsSafe xs = run_from-IsSafe new_process_manager xs new-IsSafe

-- Two live processes never share a name.
pub live_unique :
    (xs : List Event) (i j : ℕ) (p q : Process)
    → (run new_process_manager xs).heap i ≡ some p
    → (run new_process_manager xs).heap j ≡ some q
    → p.phase ≡ waiting
    → q.phase ≡ waiting
    → p.name ≡ q.name
    → i ≡ j
live_unique xs i j p q hp hq wp wq n =
    let s = run-IsSafe xs in
    let a = (s.alive i p hp wp).0 in let b = (s.alive j q hq wq).0 in ground (arith, a, b, n)
