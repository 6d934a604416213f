-- ===== src/Libvirt/Powering.antt =====
-- internal/agent/runtime/libvirt/runtime.go: stopping a VM, and the wait for it. The deadline
-- of a context is the count of ticks before it; `W` is the host with its domains and their agents.
use goship.Base.{
  Text, lit, ℕ, zero, suc, ◌++◌, Option, none, some, Dict, get, Result, ok, err, text_eq,
}
use goship.Entities.Instance.{InstanceState}
use goship.Libvirt.{InstanceInfo}
use goship.Libvirt.Machines.{
  DomainState, shutoff, LookupError, LibvirtApi, MachineError, unknown_machine, no_connection,
  not_found, shutdown_failed, wait_failed, change_machine, in_state, Machines,
}

-- The clock at the two assignments of a state.
pub record Times : Type 0 where
  pub first : ℕ
  pub last : ℕ

module _ {W : Type 0} (api : LibvirtApi W) where
  abbrev pub domain_found : Result LookupError (Unit {0}) × W → Result MachineError (Unit {0}) × W
  domain_found (ok u, w) = (ok tt, w)
  domain_found (err e, w) = (err (not_found e), w)

  abbrev pub domain_on : Text → Option Text × W → Result MachineError (Unit {0}) × W
  domain_on name (some e, w) = (err (no_connection e), w)
  domain_on name (none, w) = domain_found (api.find_domain name w)

  -- The connection and the domain of an instance.
  abbrev pub domain_of : Text → W → Result MachineError (Unit {0}) × W
  domain_of name w = domain_on name (api.connection w)

  -- What one tick of `waitForShutoff` sees, where `rest` is what the later ticks give.
  abbrev pub shutoff_seen :
      Result Text DomainState × W → Result Text (Unit {0}) × W → Result Text (Unit {0}) × W
  shutoff_seen (err e, w) rest = (err (lit "failed to get domain state: " ++ e), w)
  shutoff_seen (ok shutoff, w) rest = (ok tt, w)
  shutoff_seen (ok _, w) rest = rest

  -- `waitForShutoff`
  unfoldable pub wait_for_shutoff : Text → ℕ → W → Result Text (Unit {0}) × W
  wait_for_shutoff name zero w = (err (lit "context deadline exceeded"), w)
  wait_for_shutoff name (suc n) w =
      let r = api.get_state name w in let rest = wait_for_shutoff name n r.1 in shutoff_seen r rest

  abbrev pub stop_waited :
      Text
      → ℕ
      → Dict InstanceInfo
      → Result Text (Unit {0}) × W
      → Result MachineError (Unit {0}) × Machines W
  stop_waited id now vms (err e, w) = (err (wait_failed e), record { vms = vms; domains = w })
  stop_waited id now vms (ok u, w) = (
    ok tt,
    record { vms = change_machine id (in_state InstanceState.stopped now) vms; domains = w },
  )

  abbrev pub shutdown_sent :
      Text
      → Text
      → ℕ
      → Times
      → Dict InstanceInfo
      → Option Text × W
      → Result MachineError (Unit {0}) × Machines W
  shutdown_sent id name ticks t vms (some e, w) =
      (err (shutdown_failed e), record { vms = vms; domains = w })
  shutdown_sent id name ticks t vms (none, w) =
      stop_waited id t.last (change_machine id (in_state InstanceState.stopping t.first) vms)
        (wait_for_shutoff name ticks w)

  abbrev pub stop_domain :
      Text
      → Text
      → ℕ
      → Times
      → Dict InstanceInfo
      → Result MachineError (Unit {0}) × W
      → Result MachineError (Unit {0}) × Machines W
  stop_domain id name ticks t vms (err e, w) = (err e, record { vms = vms; domains = w })
  stop_domain id name ticks t vms (ok u, w) =
      shutdown_sent id name ticks t vms (api.shut_down name w)

  abbrev pub stop_known :
      Option InstanceInfo
      → Text
      → ℕ
      → Times
      → Machines W
      → Result MachineError (Unit {0}) × Machines W
  stop_known none id ticks t m = (err (unknown_machine id), m)
  stop_known (some i) id ticks t m =
      stop_domain id i.machine.domain_name ticks t m.vms (domain_of i.machine.domain_name m.domains)

  -- `StopInstance`
  unfoldable pub runtime_stop_instance :
      Text → ℕ → Times → Machines W → Result MachineError (Unit {0}) × Machines W
  unfolding get change_machine wait_for_shutoff
  runtime_stop_instance id ticks t m = stop_known (get m.vms id) id ticks t m
