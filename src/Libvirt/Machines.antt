-- ===== src/Libvirt/Machines.antt =====
-- internal/agent/runtime/libvirt/runtime.go: the VMs of the runtime and their states, over the
-- library of libvirt. What the library may change is `D`; a domain that was looked up is its name.
use goship.Base.{
  Text, lit, ℕ, List, Option, none, some, Dict, get, put, Result, ok, err, text_eq, if◌then◌else◌,
  has_prefix, drop, length, values, map,
}
use goship.Entities.Name.{NameError, validate_project_name}
use goship.Entities.Instance.{ProjectInstance, InstanceState, libvirt_domain_prefix}
use goship.Libvirt.{InstanceInfo}

-- The states of a domain.
pub data DomainState : Type 0 where
  no_state running blocked paused shutdown shutoff crashed pm_suspended unknown : DomainState

-- `mapLibvirtState`
abbrev pub map_libvirt_state : DomainState → InstanceState
map_libvirt_state running = InstanceState.running
map_libvirt_state blocked = InstanceState.running
map_libvirt_state paused = InstanceState.stopped
map_libvirt_state shutoff = InstanceState.stopped
map_libvirt_state pm_suspended = InstanceState.stopped
map_libvirt_state shutdown = InstanceState.stopping
map_libvirt_state crashed = InstanceState.failed
map_libvirt_state _ = InstanceState.pending

-- `FormatVMState`
abbrev pub format_vm_state : DomainState → Text
format_vm_state no_state = lit "no state"
format_vm_state running = lit "running"
format_vm_state blocked = lit "blocked"
format_vm_state paused = lit "paused"
format_vm_state shutdown = lit "shutting down"
format_vm_state shutoff = lit "shut off"
format_vm_state crashed = lit "crashed"
format_vm_state pm_suspended = lit "pm suspended"
format_vm_state unknown = lit "unknown"

pub data LookupError : Type 0 where
  no_domain : LookupError
  lookup_failed : Text → LookupError

-- The calls of the library: the connection, which is opened again where it is lost, and a domain.
pub record LibvirtApi (D : Type 0) : Type 0 where
  pub connection : D → Option Text × D
  pub find_domain : Text → D → Result LookupError (Unit {0}) × D
  pub get_state : Text → D → Result Text DomainState × D
  pub shut_down : Text → D → Option Text × D
  pub create : Text → D → Option Text × D

pub data MachineError : Type 0 where
  unknown_machine : Text → MachineError
  no_connection shutdown_failed start_failed wait_failed : Text → MachineError
  not_found : LookupError → MachineError
  not_ready : MachineError → MachineError
  not_managed : Text → MachineError
  bad_domain : NameError → MachineError
  timed_out : MachineError

-- `ProjectNameFromDomain`
unfoldable pub project_name_from_domain : Text → Result MachineError Text
unfolding has_prefix validate_project_name
project_name_from_domain domain =
    let name = drop (length libvirt_domain_prefix) domain in
    if has_prefix domain libvirt_domain_prefix
    then elim (validate_project_name name) [ err x ↦ err (bad_domain x) | ok u ↦ ok name ]
    else err (not_managed domain)

abbrev pub with_machine : (ProjectInstance → ProjectInstance) → InstanceInfo → InstanceInfo
with_machine f i = record i { machine = f i.machine }

-- A change of the instance that the table points to.
unfoldable pub change_machine :
    Text → (ProjectInstance → ProjectInstance) → Dict InstanceInfo → Dict InstanceInfo
unfolding get put
change_machine id f vms = elim (get vms id) [ none ↦ vms | some i ↦ put vms id (with_machine f i) ]

abbrev pub in_state : InstanceState → ℕ → ProjectInstance → ProjectInstance
in_state s now i = record i { state = s; updated_at = now }

-- `ListInstances`
unfoldable pub runtime_list_instances : Dict InstanceInfo → List ProjectInstance
runtime_list_instances vms = map (λ i. i.machine) (values vms)

pub record Machines (D : Type 0) : Type 0 where
  pub vms : Dict InstanceInfo
  pub domains : D

module _ {D : Type 0} (api : LibvirtApi D) where
  -- What `GetInstanceStatus` finds: a new state, or none where it does not know.
  abbrev pub state_found : Result Text DomainState × D → Option InstanceState × D
  state_found (ok s, d) = (some (map_libvirt_state s), d)
  state_found (err e, d) = (none, d)

  abbrev pub looked_up : Text → Result LookupError (Unit {0}) × D → Option InstanceState × D
  looked_up name (ok u, d) = state_found (api.get_state name d)
  looked_up name (err no_domain, d) = (some InstanceState.stopped, d)
  looked_up name (err (lookup_failed e), d) = (none, d)

  abbrev pub refreshed : Text → Option Text × D → Option InstanceState × D
  refreshed name (some e, d) = (none, d)
  refreshed name (none, d) = looked_up name (api.find_domain name d)

  abbrev pub found_state : Option InstanceState → ProjectInstance → ProjectInstance
  found_state none i = i
  found_state (some s) i = record i { state = s }

  -- `GetInstanceStatus`
  unfoldable pub runtime_instance_status :
      Text → ℕ → Machines D → Result MachineError ProjectInstance × Machines D
  unfolding get put
  runtime_instance_status id now m = elim (get m.vms id) [
    | none ↦ (err (unknown_machine id), m)
    | some i ↦
        let r = refreshed i.machine.domain_name (api.connection m.domains) in
        let j = record (found_state r.0 i.machine) { updated_at = now } in
        (ok j, record { vms = put m.vms id (record i { machine = j }); domains = r.1 })
  ]
