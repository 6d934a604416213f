-- ===== src/Supervisor/Manager/Heap.antt =====
-- internal/init/process.go: the type `ProcessManager` and its objects.
use goship.Base.{ℕ, [], Option, none, some, Dict, ◌==◌, text_eq, nat_eq, if◌then◌else◌}
use goship.Supervisor.Process.{Process}

-- The objects of type `managedProcess`, by address; `processes` holds addresses.
pub record Manager : Type 0 where
  pub processes : Dict ℕ
  pub heap : ℕ → Option Process
  pub next : ℕ

unfoldable pub new_process_manager : Manager
new_process_manager = record { processes = []; heap = λ i. none; next = 0 }

abbrev pub update : (ℕ → Option Process) → ℕ → Process → ℕ → Option Process
update h i p j = if i == j then some p else h j

abbrev pub with_object : Manager → ℕ → Process → Manager
with_object m i p = record m { heap = update m.heap i p }

-- Applies a change to the object at an address.
unfoldable pub change : (Process → Process) → ℕ → Manager → Manager
change f i m = elim (m.heap i) [ none ↦ m | some p ↦ with_object m i (f p) ]
