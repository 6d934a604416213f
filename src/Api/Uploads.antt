-- ===== src/Api/Uploads.antt =====
-- internal/api/upload_handlers.go: pushing an image, and updating the agent of a VM.
use goship.Base.{
  Text, lit, ℕ, Bool, true, false, Option, ◌==◌, text_eq, Result, ok, err, ℤ, if◌then◌else◌,
}
use goship.Runtime.{ProjectRuntime}
use goship.Api.Creation.{readable}
use goship.Api.Lifecycle.{wait_stopped}
use goship.Api.Replies.{
  ApiError, bad_request, server_error, gateway_timeout, World, then_do, Vm, known_vm, call_runtime,
  load_vm,
}

-- The file of a form, and its size as the header has it.
pub record UploadedFile : Type 0 where
  pub content : Text
  pub size : ℤ

-- A multipart form; the value of a field that is missing is empty.
pub record UploadForm : Type 0 where
  pub image_ref : Text
  pub restart : Text
  pub file : Option UploadedFile

-- strconv.ParseBool, an error read as false.
unfoldable pub parse_bool : Text → Bool
parse_bool s =
    if s == lit "1"
    then true
    else if s == lit "t"
    then true
    else if s == lit "T"
    then true
    else if s == lit "true"
    then true
    else if s == lit "TRUE"
    then true
    else s == lit "True"

abbrev pub image_file : UploadForm → Result ApiError UploadedFile
image_file form = if form.image_ref == lit "" then err bad_request else readable form.file

module _ {R : Type 0} (sha256 : Text → Text) where
  abbrev pub pushed : Text → Result Text (Unit {0}) × World R → Result ApiError Text × World R
  pushed content (err x, w) = (err server_error, w)
  pushed content (ok u, w) = (ok (sha256 content), w)

  abbrev pub started_again :
      Text → Result Text (Unit {0}) × World R → Result ApiError Text × World R
  started_again content (err x, w) = (err server_error, w)
  started_again content (ok u, w) = (ok (sha256 content), w)

module _ {R : Type 0} (rt : ProjectRuntime R) (sha256 : Text → Text) where
  abbrev pub push_to : UploadForm → Vm → UploadedFile → World R → Result ApiError Text × World R
  push_to form v f w = pushed sha256 f.content (
      call_runtime rt v.machine.id
        (rt.upload_image v.machine.id form.image_ref f.content f.size (lit ""))
        (load_vm rt v.machine w))

  -- `handlePushImage`: the SHA-256 of what was sent, all of which the runtime reads. The form is
  -- nothing if it cannot be parsed.
  unfoldable pub handle_push_image :
      Bool → Text → Option UploadForm → World R → Result ApiError Text × World R
  unfolding known_vm
  handle_push_image runtime id form w =
      then_do (known_vm runtime id w.server.store)
        (λ v u.
          then_do (readable form) (λ fm t. then_do (image_file fm) (λ f s. push_to fm v f s) t) u)
        w

  abbrev pub waited_again : Text → Text → Bool × World R → Result ApiError Text × World R
  waited_again id content (false, w) = (err gateway_timeout, w)
  waited_again id content (true, w) =
      started_again sha256 content (call_runtime rt id (rt.start_instance id) w)

  abbrev pub stopped_again :
      Text → Text → ℕ → Result Text (Unit {0}) × World R → Result ApiError Text × World R
  stopped_again id content ticks (err x, w) = (err server_error, w)
  stopped_again id content ticks (ok u, w) = waited_again id content (wait_stopped rt ticks id w)

  -- The restart that the form may ask for.
  abbrev pub restart_if : Bool → Text → Text → ℕ → World R → Result ApiError Text × World R
  restart_if b id content ticks w =
      let r = stopped_again id content ticks (call_runtime rt id (rt.stop_instance id) w) in
      if b then r else (ok (sha256 content), w)

  abbrev pub init_updated :
      Bool → Text → Text → ℕ → Result Text (Unit {0}) × World R → Result ApiError Text × World R
  init_updated b id content ticks (err x, w) = (err server_error, w)
  init_updated b id content ticks (ok u, w) = restart_if b id content ticks w

  abbrev pub update_init :
      UploadForm → Vm → ℕ → UploadedFile → World R → Result ApiError Text × World R
  update_init form v ticks f w =
      init_updated (parse_bool form.restart) v.machine.id f.content ticks (
        call_runtime rt v.machine.id
          (rt.upload_binary v.machine.id (lit "goship-init") (lit "goship-init") f.content f.size
            (lit ""))
          (load_vm rt v.machine w))

  -- `handleUpdateInit`; the deadline of ten minutes allows the ticker a count of ticks.
  unfoldable pub handle_update_init :
      Bool → Text → Option UploadForm → ℕ → World R → Result ApiError Text × World R
  unfolding known_vm parse_bool wait_stopped
  handle_update_init runtime id form ticks w =
      then_do (known_vm runtime id w.server.store)
        (λ v u.
          then_do (readable form)
            (λ fm t. then_do (readable fm.file) (λ f s. update_init fm v ticks f s) t) u)
        w
