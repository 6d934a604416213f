-- ===== src/Supervisor/Restarts.antt =====
-- How restarts end: a process that keeps failing is given up after five of them, and a process
-- that was stopped is never started again.
use goship.Base.{
  ℕ, zero, suc, ◌≤◌, ◌<◌, ◌+◌, ◌-◌, ◌^◌, true, false, ◌≡◌, refl, List, [], ◌∷◌, some, get, text_eq,
  nat_eq, arith, length,
}
use goship.Entities.App.AppState.{running, failed}
use goship.Supervisor.Process.{
  Process, waiting, exited, sleeping, finished, after_exit, restart_process, should_restart,
  backoff, max_backoff,
}
use goship.Supervisor.Manager.{Manager, exits, is_tracked, handles, wakes}

-- A round of the crash loop: the process fails, and its monitor starts it again.
abbrev pub crash : ℕ → ℕ → ℕ → Manager → Manager
crash i pid now m = wakes i (some pid) now (handles i (exits i true m))

-- The process fails once more, and its monitor sees it.
abbrev pub last_crash : ℕ → Manager → Manager
last_crash i m = handles i (exits i true m)

-- The rounds in turn, with the PIDs and the times of the restarts.
abbrev pub crashes : ℕ → List (ℕ × ℕ) → Manager → Manager
crashes i [] m = m
crashes i ((pid, now) ∷ rest) m = crashes i rest (crash i pid now m)

abbrev pub restarted : Process → ℕ → ℕ → Process
restarted p pid now = record p {
  pid = pid;
  started_at = now;
  state = running;
  restart_count = p.restart_count + 1;
  phase = waiting;
}

-- A live process that is tracked, not being stopped, and to be restarted when it fails.
pub record IsKept (m : Manager) (i : ℕ) (p : Process) : Type 0 where
  pub there : m.heap i ≡ some p
  pub tracked : get m.processes p.name ≡ some i
  pub live : p.phase ≡ waiting
  pub wanted : p.stopping ≡ false
  pub policy : should_restart p.restart_policy true ≡ true

exits-IsKept :
    (m : Manager) (i : ℕ) (p : Process)
    → IsKept m i p
    → ((exits i true m).heap i ≡ some (record p { phase = exited true }))
      × ((exits i true m).processes ≡ m.processes)
unfolding exits
exits-IsKept m i p h = ground arith

handles-sleeping :
    (m : Manager) (i : ℕ) (p : Process)
    → IsKept m i p
    → p.restart_count < 5
    → ((last_crash i m).heap i
        ≡ some (record p { restart_count = p.restart_count + 1; phase = sleeping }))
      × ((last_crash i m).processes ≡ m.processes)
unfolding handles after_exit should_restart
handles-sleeping m i p h l = ground (arith, exits-IsKept m i p h)

crash-IsKept :
    (m : Manager) (i : ℕ) (p : Process) (pid now : ℕ)
    → IsKept m i p
    → p.restart_count < 5
    → IsKept (crash i pid now m) i (restarted p pid now)
unfolding wakes restart_process is_tracked
crash-IsKept m i p pid now h l =
    let (here, same) = handles-sleeping m i p h l in
    record {
      there = ground (arith, here, same, h);
      tracked = ground (arith, here, same, h);
      live = refl;
      wanted = h.wanted;
      policy = h.policy;
    }

-- After the round with five restarts behind it the process is given up.
last_crash_gives_up :
    (m : Manager) (i : ℕ) (p : Process)
    → IsKept m i p
    → p.restart_count ≡ 5
    → (last_crash i m).heap i ≡ some (record p { state = failed; phase = finished })
unfolding handles after_exit should_restart is_tracked
last_crash_gives_up m i p h l = ground (arith, exits-IsKept m i p h)

-- A live process that its policy has restarted, `always` among them, and that fails every time is
-- restarted exactly up to five times in all; at the next failure its monitor ends, and its state is `failed`.
pub crashes_give_up :
    (rounds : List (ℕ × ℕ)) (m : Manager) (i : ℕ) (p : Process)
    → IsKept m i p
    → p.restart_count + length rounds ≡ 5
    → (q : Process) × ((last_crash i (crashes i rounds m)).heap i ≡ some q)
      × (q.state ≡ failed)
      × (q.phase ≡ finished)
      × (q.restart_count ≡ 5)
crashes_give_up [] m i p h c = (
  record p { state = failed; phase = finished },
  last_crash_gives_up m i p h (omega arith),
  refl,
  refl,
  omega arith,
)
crashes_give_up ((pid, now) ∷ rest) m i p h c =
    crashes_give_up rest (crash i pid now m) i (restarted p pid now)
      (crash-IsKept m i p pid now h (omega arith)) (omega arith)

-- The n-th restart waits 2 ^ (n - 1) seconds: up to the maximum of five restarts the cap of thirty
-- seconds is not reached.
pub backoff_exact :
    (n : ℕ)
    → 1 ≤ n
    → n ≤ 5
    → (backoff n ≡ 2 ^ (n - 1)) × (backoff n ≤ 16) × (backoff n < max_backoff)
unfolding backoff
backoff_exact zero l u = absurd (omega arith)
backoff_exact (suc zero) l u = (refl, omega arith, omega arith)
backoff_exact (suc (suc zero)) l u = (refl, omega arith, omega arith)
backoff_exact (suc (suc (suc zero))) l u = (refl, omega arith, omega arith)
backoff_exact (suc (suc (suc (suc zero)))) l u = (refl, omega arith, omega arith)
backoff_exact (suc (suc (suc (suc (suc zero))))) l u = (refl, omega arith, omega arith)
backoff_exact (suc (suc (suc (suc (suc (suc n)))))) l u = absurd (omega arith)
