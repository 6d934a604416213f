-- ===== src/Libvirt/Readiness.antt =====
-- internal/agent/runtime/libvirt/runtime.go: `waitReady` and `StartInstance`. The deadline of a context is
-- the count of ticks before it.
use goship.Base.{
  Text, lit, ℕ, zero, suc, List, ◌∷◌, Option, none, some, Dict, get, Result, ok, err, ◌==◌, text_eq,
  if◌then◌else◌, Bool,
}
use goship.Entities.Instance.{ProjectInstance, InstanceState}
use goship.Libvirt.{InitResponse, status_ok, Sockets, InstanceInfo, send_command}
use goship.Libvirt.Apps.{vm_command}
use goship.Libvirt.Machines.{
  DomainState, running, LibvirtApi, MachineError, unknown_machine, start_failed, not_ready,
  timed_out, change_machine, in_state, Machines,
}
use goship.Libvirt.Powering.{Times, domain_of}

module _ {W L : Type 0} (api : LibvirtApi W) (net : Sockets W L) where
  abbrev pub first_address : Option (List Text) → Option Text
  first_address (some (a ∷ as')) = some a
  first_address _ = none

  -- The reply to the status command is taken whatever its status.
  abbrev pub status_read : Result Text InitResponse × W → Option (Option Text) × W
  status_read (err e, w) = (none, w)
  status_read (ok r, w) = (some (first_address r.addresses), w)

  abbrev pub ask_logs : Bool → Text → W → W
  ask_logs stream path w =
      if stream
      then (send_command net path
          (record (vm_command (lit "logs")) { log_file = lit "/var/log/cloud-init-output.log" })
          w).1
      else w

  -- `Ping`, the logs of the first boot, and the status.
  abbrev pub pinged : Bool → Text → Result Text InitResponse × W → Option (Option Text) × W
  pinged stream path (err e, w) = (none, w)
  pinged stream path (ok r, w) =
      if r.status == status_ok
      then status_read (send_command net path (vm_command (lit "status")) (ask_logs stream path w))
      else (none, w)

  abbrev pub dialed_up : Bool → Text → Option Text × W → Option (Option Text) × W
  dialed_up stream path (some e, w) = (none, w)
  dialed_up stream path (none, w) =
      pinged stream path (send_command net path (vm_command (lit "ping")) w)

  abbrev pub running_seen : Bool → Text → Result Text DomainState × W → Option (Option Text) × W
  running_seen stream path (ok running, w) = dialed_up stream path (net.dial path w)
  running_seen stream path (_, w) = (none, w)

  abbrev pub on_domain :
      Bool → InstanceInfo → Result MachineError (Unit {0}) × W → Option (Option Text) × W
  on_domain stream i (err e, w) = (none, w)
  on_domain stream i (ok u, w) =
      running_seen stream i.socket_path (api.get_state i.machine.domain_name w)

  -- One round of the loop of `waitReady`: what the agent has replied, if the VM is up.
  unfoldable pub poll_ready : Bool → InstanceInfo → W → Option (Option Text) × W
  unfolding send_command
  poll_ready stream i w = on_domain stream i (domain_of api i.machine.domain_name w)

  abbrev pub made_ready : ℕ → Option Text → ProjectInstance → ProjectInstance
  made_ready now none i = in_state InstanceState.running now i
  made_ready now (some a) i = record (in_state InstanceState.running now i) { ip_address = a }

  abbrev pub polled :
      Text
      → ℕ
      → Dict InstanceInfo
      → Option (Option Text) × W
      → Result MachineError (Unit {0}) × Machines W
      → Result MachineError (Unit {0}) × Machines W
  polled id now vms (none, w) rest = rest
  polled id now vms (some a, w) rest =
      (ok tt, record { vms = change_machine id (made_ready now a) vms; domains = w })

  -- The loop of `waitReady`.
  unfoldable pub wait_ready_loop :
      Bool
      → Text
      → InstanceInfo
      → ℕ
      → ℕ
      → Dict InstanceInfo
      → W
      → Result MachineError (Unit {0}) × Machines W
  unfolding poll_ready change_machine
  wait_ready_loop stream id i zero now vms w = (err timed_out, record { vms = vms; domains = w })
  wait_ready_loop stream id i (suc n) now vms w =
      let r = poll_ready stream i w in
      let rest = wait_ready_loop stream id i n now vms r.1 in polled id now vms r rest

  abbrev pub wait_ready_for :
      Option InstanceInfo
      → Bool
      → Text
      → ℕ
      → ℕ
      → Dict InstanceInfo
      → W
      → Result MachineError (Unit {0}) × Machines W
  wait_ready_for none stream id ticks now vms w =
      (err (unknown_machine id), record { vms = vms; domains = w })
  wait_ready_for (some i) stream id ticks now vms w = wait_ready_loop stream id i ticks now vms w

  -- `waitReady`
  unfoldable pub wait_ready :
      Bool → Text → ℕ → ℕ → Dict InstanceInfo → W → Result MachineError (Unit {0}) × Machines W
  unfolding get wait_ready_loop
  wait_ready stream id ticks now vms w = wait_ready_for (get vms id) stream id ticks now vms w

  abbrev pub or_not_ready :
      Result MachineError (Unit {0}) × Machines W → Result MachineError (Unit {0}) × Machines W
  or_not_ready (err e, m) = (err (not_ready e), m)
  or_not_ready (ok u, m) = (ok tt, m)

  abbrev pub create_sent :
      Text
      → ℕ
      → Times
      → Dict InstanceInfo
      → Option Text × W
      → Result MachineError (Unit {0}) × Machines W
  create_sent id ticks t vms (some e, w) = (err (start_failed e), record { vms = vms; domains = w })
  create_sent id ticks t vms (none, w) = or_not_ready (
      wait_ready Bool.false id ticks t.last
        (change_machine id (in_state InstanceState.starting t.first) vms) w)

  abbrev pub start_domain :
      Text
      → Text
      → ℕ
      → Times
      → Dict InstanceInfo
      → Result MachineError (Unit {0}) × W
      → Result MachineError (Unit {0}) × Machines W
  start_domain id name ticks t vms (err e, w) = (err e, record { vms = vms; domains = w })
  start_domain id name ticks t vms (ok u, w) = create_sent id ticks t vms (api.create name w)

  abbrev pub start_known :
      Option InstanceInfo
      → Text
      → ℕ
      → Times
      → Machines W
      → Result MachineError (Unit {0}) × Machines W
  start_known none id ticks t m = (err (unknown_machine id), m)
  start_known (some i) id ticks t m =
      start_domain id i.machine.domain_name ticks t m.vms
        (domain_of api i.machine.domain_name m.domains)

  -- `StartInstance`
  unfoldable pub runtime_start_instance :
      Text → ℕ → Times → Machines W → Result MachineError (Unit {0}) × Machines W
  unfolding get change_machine wait_ready
  runtime_start_instance id ticks t m = start_known (get m.vms id) id ticks t m
