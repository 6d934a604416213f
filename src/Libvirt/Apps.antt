-- ===== src/Libvirt/Apps.antt =====
-- internal/agent/runtime/libvirt/runtime.go: the operations on the apps of a VM, and its logs.
use goship.Base.{
  Text, lit, [], ◌∷◌, Option, none, some, Dict, get, Result, ok, err, ◌==◌, text_eq, if◌then◌else◌,
  ◌&&◌, not, ℤ, pos,
}
use goship.Entities.Name.{validate_app_name}
use goship.Entities.App.{AppSpec}
use goship.Guest.Message.{InitCommand}
use goship.Libvirt.{
  InitResponse, Sockets, RuntimeError, app_spec_required, bad_app, unknown_instance, unknown_source,
  not_implemented, InstanceInfo, and_then, exchange, connect,
}

-- A command with only its action.
abbrev pub vm_command : Text → InitCommand
vm_command action = record {
  action = action;
  app = none;
  app_name = [];
  lines = pos 0;
  log_file = [];
  phase = [];
  chunk = [];
  size = pos 0;
  checksum = [];
  file_name = [];
  image_ref = [];
}

abbrev pub log_aliases : Dict Text
log_aliases =
    (lit "cloud-init", lit "/var/log/cloud-init-output.log")
    ∷ (lit "goship-init", lit "/var/log/goship-init.log")
    ∷ []

-- The file of a request for the logs of a VM.
unfoldable pub resolved_file : Text → Text → Result RuntimeError Text
unfolding get
resolved_file source log_file =
    if (log_file == lit "") && not (source == lit "")
    then elim (get log_aliases source) [ some path ↦ ok path | none ↦ err (unknown_source source) ]
    else ok log_file

abbrev pub dropped_reply : {H : Type 0} → InitResponse → H → Result RuntimeError (Unit {0}) × H
dropped_reply r h = (ok tt, h)

abbrev pub logs_of_reply : {H : Type 0} → InitResponse → H → Result RuntimeError Text × H
logs_of_reply r h = (ok r.output, h)

module _ {H L : Type 0} (net : Sockets H L) where
  -- One command to a VM, and what is taken of the reply.
  abbrev pub command_to :
      {A : Type 0}
      → Text
      → Text
      → InitCommand
      → (InitResponse → H → Result RuntimeError A × H)
      → Dict InstanceInfo
      → Text
      → H
      → Result RuntimeError A × H
  command_to sending answering cmd use_reply vms id h =
      and_then (connect net vms id h)
        (λ path h1. and_then (exchange net sending answering path cmd h1) use_reply)

  -- With the check of the app's name before it.
  abbrev pub for_app :
      {A : Type 0} → Text → (H → Result RuntimeError A × H) → H → Result RuntimeError A × H
  for_app name f h = elim (validate_app_name name) [ err x ↦ (err (bad_app x), h) | ok u ↦ f h ]

  -- `DeployApp`
  unfoldable pub runtime_deploy_app :
      Dict InstanceInfo → Text → Option AppSpec → H → Result RuntimeError (Unit {0}) × H
  unfolding exchange connect validate_app_name
  runtime_deploy_app vms id none h = (err app_spec_required, h)
  runtime_deploy_app vms id (some app) h =
      for_app app.name
        (command_to (lit "deploy command failed") (lit "deploy failed")
          (record (vm_command (lit "deploy")) { app = some app }) dropped_reply vms id)
        h

  -- `StopApp`
  unfoldable pub runtime_stop_app :
      Dict InstanceInfo → Text → Text → H → Result RuntimeError (Unit {0}) × H
  unfolding exchange connect validate_app_name
  runtime_stop_app vms id name h =
      for_app name
        (command_to (lit "stop command failed") (lit "stop failed")
          (record (vm_command (lit "stop")) { app_name = name }) dropped_reply vms id)
        h

  -- `RemoveApp`
  unfoldable pub runtime_remove_app :
      Dict InstanceInfo → Text → Text → H → Result RuntimeError (Unit {0}) × H
  unfolding exchange connect validate_app_name
  runtime_remove_app vms id name h =
      for_app name
        (command_to (lit "remove command failed") (lit "remove failed")
          (record (vm_command (lit "remove")) { app_name = name }) dropped_reply vms id)
        h

  -- `GetAppLogs`
  unfoldable pub runtime_app_logs :
      Dict InstanceInfo → Text → Text → ℤ → H → Result RuntimeError Text × H
  unfolding exchange connect validate_app_name
  runtime_app_logs vms id name lines h =
      for_app name
        (command_to (lit "logs command failed") (lit "logs error")
          (record (vm_command (lit "logs")) { app_name = name; lines = lines }) logs_of_reply vms
          id)
        h

  abbrev pub logs_from :
      Result RuntimeError Text → ℤ → Dict InstanceInfo → Text → H → Result RuntimeError Text × H
  logs_from (err e) lines vms id h = (err e, h)
  logs_from (ok file) lines vms id h =
      command_to (lit "logs command failed") (lit "logs error")
        (record (vm_command (lit "logs")) { lines = lines; log_file = file }) logs_of_reply vms id h

  -- `GetVMLogs`: an unknown instance comes before an unknown source.
  unfoldable pub runtime_vm_logs :
      Dict InstanceInfo → Text → Text → Text → ℤ → H → Result RuntimeError Text × H
  unfolding exchange connect resolved_file get
  runtime_vm_logs vms id source log_file lines h = elim (get vms id) [
    | none ↦ (err (unknown_instance id), h)
    | some i ↦ logs_from (resolved_file source log_file) lines vms id h
  ]

-- `StreamLogs` and `ExecCommand`
abbrev pub runtime_stream_logs : {H : Type 0} → H → Result RuntimeError Text × H
runtime_stream_logs h = (err not_implemented, h)
