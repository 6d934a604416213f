-- ===== src/Libvirt/Stopping.antt =====
-- How a stop of a VM ends (internal/agent/runtime/libvirt/runtime.go).
use goship.Base.{Text, some, Dict, get, Result, ok, err, text_eq, ◌≡◌, ◌≢◌}
use goship.Entities.Instance.{InstanceState}
use goship.Libvirt.{InstanceInfo}
use goship.Libvirt.Machines.{
  shutoff, LibvirtApi, MachineError, wait_failed, with_machine, change_machine, in_state, Machines,
}
use goship.Libvirt.Powering.{Times}

module _ {W : Type 0} (api : LibvirtApi W) (name : Text) where
  -- The state of the domain was read as shut off, and nothing was done after that.
  pub record WasShutOff (after : W) : Type 0 where
    pub before : W
    pub seen : api.get_state name before ≡ (ok shutoff, after)

-- How a stop that has replied leaves the table.
pub record Leaves {W : Type 0} (api : LibvirtApi W) (id : Text) (t : Times) (i : InstanceInfo)
    (vms : Dict InstanceInfo) (r : Result MachineError (Unit {0}) × Machines W) : Type 0 where
  pub on_success :
      r.0 ≡ ok tt
      → (get r.1.vms id ≡ some (with_machine (in_state InstanceState.stopped t.last) i))
        × WasShutOff api i.machine.domain_name r.1.domains
  pub on_timeout :
      (e : Text)
      → r.0 ≡ err (wait_failed e)
      → get r.1.vms id ≡ some (with_machine (in_state InstanceState.stopping t.first) i)
  pub others : (k : Text) → id ≢ k → get r.1.vms k ≡ get vms k

module _ {W : Type 0} (api : LibvirtApi W) (id : Text) (t : Times) (i : InstanceInfo)
    (vms : Dict InstanceInfo) (known : get vms id ≡ some i) where
  stopping_vms : Dict InstanceInfo
  unfolding change_machine
  stopping_vms = change_machine id (in_state InstanceState.stopping t.first) vms
