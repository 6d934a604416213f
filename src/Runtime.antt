-- ===== src/Runtime.antt =====
-- internal/agent/runtime/runtime.go: the interface `ProjectRuntime`, which the handlers of the API
-- and the reconciler call.
use goship.Base.{Text, Bool, List, Option, Result, ℤ}
use goship.Entities.Project.{Project}
use goship.Entities.Instance.{ProjectInstance}
use goship.Entities.App.{AppSpec}

-- What a command printed, and its exit code.
pub record ExecOutput : Type 0 where
  pub stdout : Text
  pub stderr : Text
  pub exit_code : ℤ

-- The states of a runtime are `R`, and a reader is the text that it gives. The runtime changes the
-- instance that `LoadInstance` has handed to it, which the store holds as well: `object` is that
-- instance as the calls so far have left it.
pub record ProjectRuntime (R : Type 0) : Type 0 where
  pub create_instance : Project → R → Result Text ProjectInstance × R
  pub destroy_instance : Text → R → Result Text (Unit {0}) × R
  pub stop_instance : Text → R → Result Text (Unit {0}) × R
  pub start_instance : Text → R → Result Text (Unit {0}) × R
  pub deploy_app : Text → AppSpec → R → Result Text (Unit {0}) × R
  pub stop_app : Text → Text → R → Result Text (Unit {0}) × R
  pub remove_app : Text → Text → R → Result Text (Unit {0}) × R
  pub get_instance_status : Text → R → Result Text ProjectInstance × R
  pub list_instances : R → Result Text (List ProjectInstance) × R
  pub upload_binary : Text → Text → Text → Text → ℤ → Text → R → Result Text (Unit {0}) × R
  pub upload_image : Text → Text → Text → ℤ → Text → R → Result Text (Unit {0}) × R
  pub get_app_logs : Text → Text → ℤ → R → Result Text Text × R
  pub get_vm_logs : Text → Text → Text → ℤ → R → Result Text Text × R
  pub stream_logs : Text → Text → Bool → R → Result Text Text × R
  pub exec_command : Text → Text → List Text → R → Result Text ExecOutput × R
  pub resize_instance : Text → Project → R → Result Text (Unit {0}) × R
  pub load_instance : ProjectInstance → R → R
  pub object : Text → R → Option ProjectInstance
