-- ===== src/Entities/Project.antt =====
-- pkg/domain/entities/project.go and node.go: projects and nodes.
use goship.Base.{Text, ℕ, List, Option, Dict}
use goship.Entities.Resources.{Resources, VmTopology}

pub data RuntimeType : Type 0 where
  qemu kata firecracker : RuntimeType
  other : Text → RuntimeType

pub data ProjectState : Type 0 where
  pending creating running stopping stopped failed : ProjectState
  other : Text → ProjectState

pub record Project : Type 0 where
  pub id : Text
  pub name : Text
  pub runtime : RuntimeType
  pub resources : Resources
  pub topology : Option VmTopology
  pub state : ProjectState
  pub labels : Dict Text
  pub domains : List Text
  pub default_domain : Text
  pub env : Option (Dict Text)  -- `none` is the nil map
  pub created_at : ℕ
  pub updated_at : ℕ

pub data NodeStatus : Type 0 where
  online offline draining : NodeStatus
  other : Text → NodeStatus

pub record Node : Type 0 where
  pub id : Text
  pub hostname : Text
  pub endpoint : Text
  pub status : NodeStatus
  pub resources : Resources
  pub labels : Dict Text
  pub last_heartbeat : ℕ
  pub created_at : ℕ
  pub updated_at : ℕ
