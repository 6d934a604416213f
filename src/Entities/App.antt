-- ===== src/Entities/App.antt =====
-- pkg/domain/entities/app.go: the specification of an app.
use goship.Base.{
  Text, lit, Bool, true, false, ℕ, ◌==◌, text_eq, List, Option, none, some, Dict, ℤ, if◌then◌else◌,
}
use goship.Entities.Resources.{Resources}

-- A Go string type with named constants: any other text is `other`.
pub data ExecutionMode : Type 0 where
  unset container process : ExecutionMode
  other : Text → ExecutionMode

pub data AppState : Type 0 where
  pending running stopped failed : AppState

pub data RestartPolicy : Type 0 where
  unset always on_failure never : RestartPolicy
  other : Text → RestartPolicy

pub record PortMapping : Type 0 where
  pub host_port : ℤ
  pub container_port : ℤ
  pub protocol : Text

pub record VolumeMount : Type 0 where
  pub source : Text
  pub destination : Text
  pub read_only : Bool

pub record HealthCheck : Type 0 where
  pub path : Text
  pub port : ℤ
  pub interval_seconds : ℤ
  pub timeout_seconds : ℤ
  pub retries : ℤ

pub record AppSpec : Type 0 where
  pub name : Text
  pub execution_mode : ExecutionMode
  pub image : Text
  pub tag : Text
  pub binary : Text
  pub replicas : ℤ
  pub command : List Text
  pub args : List Text
  pub env : Dict Text
  pub ports : List PortMapping
  pub volumes : List VolumeMount
  pub resources : Resources
  pub health_check : Option HealthCheck
  pub restart_policy : RestartPolicy
  pub working_dir : Text
  pub hostname : Text
  pub available : Option Bool
  pub description : Text
  pub tags : List Text
  pub created_at : ℕ

unfoldable pub is_available : AppSpec → Bool
is_available a = elim a.available [ none ↦ true | some b ↦ b ]

unfoldable pub get_hostname : AppSpec → Text
get_hostname a = if a.hostname == lit "" then a.name else a.hostname

abbrev pub container_mode : ExecutionMode → Bool
container_mode ExecutionMode.unset = true
container_mode ExecutionMode.container = true
container_mode _ = false

unfoldable pub is_container_mode : AppSpec → Bool
is_container_mode a = container_mode a.execution_mode

abbrev pub process_mode : ExecutionMode → Bool
process_mode ExecutionMode.process = true
process_mode _ = false

unfoldable pub is_process_mode : AppSpec → Bool
is_process_mode a = process_mode a.execution_mode
