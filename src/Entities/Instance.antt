-- ===== src/Entities/Instance.antt =====
-- pkg/domain/entities/instance.go: the VM of a project, and the check that it is that project's.
use goship.Base.{
  Text, lit, ℕ, ◌==◌, text_eq, ◌++◌, Option, none, some, Result, ok, err, if◌then◌else◌, ℤ, not,
}
use goship.Entities.Resources.{VmTopology}
use goship.Entities.Project.{Project}

pub data InstanceState : Type 0 where
  pending starting running stopping stopped failed : InstanceState
  other : Text → InstanceState

pub record ProjectInstance : Type 0 where
  pub id : Text
  pub project_id : Text
  pub node_id : Text
  pub state : InstanceState
  pub ip_address : Text
  pub ssh_port : ℤ
  pub domain_name : Text
  pub domain_uuid : Text
  pub topology : Option VmTopology
  pub error : Text
  pub created_at : ℕ
  pub updated_at : ℕ

pub data BindingError : Type 0 where
  no_project no_instance unknown_project other_project other_domain : BindingError

abbrev pub libvirt_domain_prefix : Text
libvirt_domain_prefix = lit "goship-"

-- The check on values that are not nil.
unfoldable pub check_binding : Project → ProjectInstance → Result BindingError (Unit {0})
check_binding project instance' =
    if not (instance'.project_id == project.id)
    then err other_project
    else if instance'.domain_name == lit ""
    then ok tt
    else if not (instance'.domain_name == (libvirt_domain_prefix ++ project.name))
    then err other_domain
    else ok tt

unfoldable pub validate_project_instance_binding :
    Option Project → Option ProjectInstance → Result BindingError (Unit {0})
validate_project_instance_binding none instance' = err no_project
validate_project_instance_binding (some project) none = err no_instance
validate_project_instance_binding (some project) (some instance') = check_binding project instance'
