-- ===== src/Supervisor/Safety.antt =====
-- Every live process is tracked under its name and not being stopped, and no process is restarted
-- more than five times, however the calls, the exits and the monitors interleave.
use goship.Base.{
  Text, ℕ, ◌≤◌, Bool, false, ◌≡◌, ◌≢◌, refl, sym, ◌∙◌, Option, none, some, get, remove, get-remove,
  text_eq, nat_eq, text_beq_iff, arith, Option-cases, inl, inr,
}
use goship.Entities.App.AppState.{stopped}
use goship.Supervisor.Process.{Process, Phase, waiting, stop_process, stop_phase}
use goship.Supervisor.Manager.{Manager, with_object, change, retire, stop}

pub record IsSafe (m : Manager) : Type 0 where
  pub fresh : (i : ℕ) → m.next ≤ i → m.heap i ≡ none
  pub alive :
      (i : ℕ) (p : Process)
      → m.heap i ≡ some p
      → p.phase ≡ waiting
      → (get m.processes p.name ≡ some i) × (p.stopping ≡ false)
  pub counted : (i : ℕ) (p : Process) → m.heap i ≡ some p → p.restart_count ≤ 5

-- What a change of an object owes to the invariant.
pub record IsFair (m : Manager) (i : ℕ) (p q : Process) : Type 0 where
  pub name : q.name ≡ p.name
  pub count : q.restart_count ≤ 5
  pub live : q.phase ≡ waiting → (get m.processes p.name ≡ some i) × (q.stopping ≡ false)

pub change-processes :
    (f : Process → Process) (i : ℕ) (m : Manager) → (change f i m).processes ≡ m.processes
unfolding change
change-processes f i m = ground arith

pub stop_phase-ne-waiting : (failure : Bool) (x : Phase) → stop_phase failure x ≢ waiting
stop_phase-ne-waiting failure x w = ground arith

pub change_quiet :
    (f : Process → Process) (failure : Bool)
    → ((p : Process) → (f p).phase ≡ p.phase)
    → (i : ℕ) (m : Manager) (q : Process)
    → (change (λ p. f (stop_process failure p)) i m).heap i ≡ some q
    → q.phase ≢ waiting
unfolding change stop_process
change_quiet f failure ph i m q e w = elim (Option-cases (m.heap i)) [
  | inl o ↦ ground (arith, o)
  | inr o ↦
      ground (arith, o.1, ph (stop_process failure o.0), stop_phase-ne-waiting failure o.0.phase)
]

module _ (m : Manager) (h : IsSafe m) where
  with_object-IsSafe :
      (i : ℕ) (p q : Process) → m.heap i ≡ some p → IsFair m i p q → IsSafe (with_object m i q)
  with_object-IsSafe i p q e f = record {
    fresh = λ j l. ground (arith, h.fresh j l, e);
    alive = λ j r g w. ground (arith, h.alive j r, f);
    counted = λ j r g. ground (arith, h.counted j r, f);
  }

  pub change-IsSafe :
      (f : Process → Process) (i : ℕ)
      → ((p : Process) → m.heap i ≡ some p → IsFair m i p (f p))
      → IsSafe (change f i m)
  unfolding change
  change-IsSafe f i fair = elim (Option-cases (m.heap i)) [
    | inl e ↦ rw (e, change) h
    | inr e ↦ rw (e.1, change) (with_object-IsSafe i e.0 (f e.0) e.1 (fair e.0 e.1))
  ]

  pub stopped-IsFair :
      (f : Process → Process) (failure : Bool)
      → ((p : Process) → (f p).name ≡ p.name)
      → ((p : Process) → (f p).restart_count ≡ p.restart_count)
      → ((p : Process) → (f p).phase ≡ p.phase)
      → (i : ℕ) (p : Process) → m.heap i ≡ some p
      → IsFair m i p (f (stop_process failure p))
  unfolding stop_process
  stopped-IsFair f failure n c ph i p e =
      let q = stop_process failure p in
      record {
        name = n q;
        count = rw (c q) (h.counted i p e);
        live = λ w. absurd (stop_phase-ne-waiting failure p.phase (sym (ph q) ∙ w));
      }

  pub stop-IsSafe : (name : Text) (failure : Bool) → IsSafe (stop name failure m)
  unfolding stop
  stop-IsSafe name failure = elim (Option-cases (get m.processes name)) [
    | inl e ↦ rw (e, stop) h
    | inr e ↦
        rw (e.1, stop)
          (change-IsSafe _ e.0 (
            stopped-IsFair (λ p. record p { state = stopped }) failure (λ p. refl) (λ p. refl)
              (λ p. refl) e.0))
  ]

  -- After `retire` no live process has the name.
  pub retire-IsSafe :
      (name : Text) (failure : Bool) (f : Process → Process)
      → ((p : Process) → (f p).name ≡ p.name)
      → ((p : Process) → (f p).restart_count ≡ p.restart_count)
      → ((p : Process) → (f p).phase ≡ p.phase)
      → IsSafe (retire name failure f m) × (get (retire name failure f m).processes name ≡ none)
  unfolding retire
  retire-IsSafe name failure f n c ph = go (get m.processes name) refl
    where
      g : Process → Process
      g p = f (stop_process failure p)

      removed :
          (i : ℕ) (k : Manager)
          → IsSafe k
          → k.processes ≡ m.processes
          → ((q : Process) → k.heap i ≡ some q → q.phase ≢ waiting)
          → get m.processes name ≡ some i
          → IsSafe (record k { processes = remove m.processes name })
      removed i k s same quiet e = record {
        fresh = s.fresh;
        alive = λ j q a w. ground (
          arith,
          s.alive j q a w,
          same,
          e,
          quiet q,
          get-remove m.processes name q.name,
          text_beq_iff name q.name,
        );
        counted = s.counted;
      }

      go :
          (o : Option ℕ)
          → get m.processes name ≡ o
          → IsSafe (retire name failure f m) × (get (retire name failure f m).processes name ≡ none)
      go none e = rw (e, retire) (h, e)
      go (some i) e =
          rw (e, retire)
            (
              removed i (change g i m) (change-IsSafe g i (stopped-IsFair f failure n c ph i))
                  (change-processes g i m) (change_quiet f failure ph i m) e,
              ground (arith, get-remove m.processes name name, text_beq_iff name name),
            )
