-- ===== src/Libvirt.antt =====
-- internal/agent/runtime/libvirt: the runtime's table of VMs (runtime.go) and its exchanges with the
-- agent of a VM (comm.go), over the sockets and the JSON of the standard library.
pub mod Machines
pub mod Powering
pub mod Readiness
pub mod Stopping
pub mod Apps
pub mod Uploads
pub mod Uploading
pub mod Delivered
use goship.Base.{
  Text, lit, ◌++◌, List, Option, none, some, Dict, get, Result, ok, err, ◌==◌, text_eq,
  if◌then◌else◌,
}
use goship.Entities.Name.{NameError}
use goship.Entities.Instance.{ProjectInstance}
use goship.Guest.Message.{InitCommand}

-- What the host reads of a reply.
pub record InitResponse : Type 0 where
  pub status : Text
  pub failure : Text  -- the field Error
  pub output : Text  -- the field Logs
  pub addresses : Option (List Text)  -- VMInfo.IPAddresses

abbrev pub status_ok : Text
status_ok = lit "ok"

-- What the code uses of net and encoding/json: a connection to a socket by its path, one line each
-- way, and the documents `L` in them. `H` is the host with its VMs.
pub record Sockets (H L : Type 0) : Type 0 where
  pub dial : Text → H → Option Text × H
  pub set_deadline : Text → H → Option Text × H
  pub marshal : InitCommand → Result Text L
  pub write_line : Text → L → H → Option Text × H
  pub read_line : Text → H → Result Text L × H
  pub unmarshal : L → Result Text InitResponse

pub data RuntimeError : Type 0 where
  app_spec_required : RuntimeError
  bad_app : NameError → RuntimeError
  unknown_instance unknown_source no_socket : Text → RuntimeError
  send_failed : Text → Text → RuntimeError
  answered : Text → Text → RuntimeError
  unreadable_input : Text → RuntimeError
  not_implemented : RuntimeError

pub record InstanceInfo : Type 0 where
  pub machine : ProjectInstance
  pub socket_path : Text

-- A step that may fail, and then the rest.
abbrev pub and_then {ℓ κ μ} :
    {H : Type ℓ} {E : Type κ} {A B : Type μ}
    → Result E A × H
    → (A → H → Result E B × H)
    → Result E B × H
and_then (err e, h) f = (err e, h)
and_then (ok a, h) f = f a h

abbrev pub or_fail : {H : Type 0} → Text → Option Text × H → Result Text (Unit {0}) × H
or_fail what (some e, h) = (err (what ++ (lit ": " ++ e)), h)
or_fail what (none, h) = (ok tt, h)

abbrev pub with_prefix {ℓ} : {A : Type ℓ} → Text → Result Text A → Result Text A
with_prefix what (err e) = err (what ++ (lit ": " ++ e))
with_prefix what (ok a) = ok a

abbrev pub failing {ℓ κ} : {A : Type ℓ} {E : Type κ} → (Text → E) → Result Text A → Result E A
failing f (err e) = err (f e)
failing f (ok a) = ok a

module _ {H L : Type 0} (net : Sockets H L) where
  abbrev pub send_line : Text → L → H → Result Text InitResponse × H
  send_line path line h =
      and_then (or_fail (lit "failed to write command") (net.write_line path line h)) (λ u h1.
        let r = net.read_line path h1 in
        and_then (with_prefix (lit "failed to read response") r.0, r.1)
          (λ reply h2.
            (with_prefix (lit "failed to unmarshal response") (net.unmarshal reply), h2)))

  -- `SendCommand`
  unfoldable pub send_command : Text → InitCommand → H → Result Text InitResponse × H
  send_command path cmd h =
      and_then (or_fail (lit "failed to set deadline") (net.set_deadline path h)) (λ u h1.
        and_then (with_prefix (lit "failed to marshal command") (net.marshal cmd), h1)
          (λ line h2. send_line path line h2))

  -- The reply of an exchange, if its status is ok.
  abbrev pub checked : Text → Text → Result Text InitResponse → Result RuntimeError InitResponse
  checked sending answering (err e) = err (send_failed sending e)
  checked sending answering (ok r) =
      if r.status == status_ok then ok r else err (answered answering r.failure)

  -- One exchange with the errors of the runtime.
  unfoldable pub exchange :
      Text → Text → Text → InitCommand → H → Result RuntimeError InitResponse × H
  unfolding send_command
  exchange sending answering path cmd h =
      let r = send_command path cmd h in (checked sending answering r.0, r.1)

  abbrev pub dialed : Text → Option Text × H → Result RuntimeError Text × H
  dialed path (some e, h) = (err (no_socket e), h)
  dialed path (none, h) = (ok path, h)

  -- The VM of an instance, connected to.
  abbrev pub connected : Option InstanceInfo → Text → H → Result RuntimeError Text × H
  connected none id h = (err (unknown_instance id), h)
  connected (some i) id h = dialed i.socket_path (net.dial i.socket_path h)

  unfoldable pub connect : Dict InstanceInfo → Text → H → Result RuntimeError Text × H
  unfolding get
  connect vms id h = connected (get vms id) id h
