-- ===== src/Libvirt/Uploads.antt =====
-- internal/agent/runtime/libvirt/runtime.go: `UploadBinary` and `UploadImage`, which send a file to
-- the agent of a VM in chunks.
use goship.Base.{Text, lit, ◌++◌, List, [], ◌∷◌, Dict, Result, ok, err, ℤ, text_eq}
use goship.Entities.Name.{validate_app_name}
use goship.Vault.Base64.{encode64}
use goship.Guest.Message.{InitCommand, phase_begin, phase_data, phase_finish}
use goship.Libvirt.{
  Sockets, RuntimeError, unreadable_input, InstanceInfo, and_then, exchange, connect,
}
use goship.Libvirt.Apps.{vm_command, for_app, dropped_reply}

-- What one Read of the input gives: bytes, at most 512 KB of them, and its error.
pub data ReadEnd : Type 0 where
  more at_end : ReadEnd
  broken : Text → ReadEnd

pub record Read : Type 0 where
  pub bytes : Text
  pub ending : ReadEnd

abbrev pub data_command : Text → Text → InitCommand
data_command action bytes = record (vm_command action) {
  phase = phase_data;
  chunk = encode64 bytes;
}

abbrev pub finish_command : Text → InitCommand
finish_command action = record (vm_command action) { phase = phase_finish }

abbrev pub binary_begin : Text → Text → ℤ → Text → InitCommand
binary_begin app file size sum = record (vm_command (lit "upload-binary")) {
  phase = phase_begin;
  app_name = app;
  file_name = file;
  size = size;
  checksum = sum;
}

module _ {H L : Type 0} (net : Sockets H L) where
  -- A chunk is sent where the read gave bytes.
  abbrev pub send_chunk : Text → Text → Text → Text → H → Result RuntimeError (Unit {0}) × H
  send_chunk action what path [] h = (ok tt, h)
  send_chunk action what path (b ∷ bs) h =
      and_then
        (exchange net (what ++ lit " data failed") (what ++ lit " data error") path
          (data_command action (b ∷ bs)) h)
        dropped_reply

  -- After a chunk: the loop ends at the end of the input.
  abbrev pub after_read :
      ReadEnd
      → Result RuntimeError (Unit {0}) × H
      → Result RuntimeError (Unit {0}) × H
      → Result RuntimeError (Unit {0}) × H
  after_read more sent rest = rest
  after_read at_end sent rest = sent
  after_read (broken e) sent rest = (err (unreadable_input e), sent.1)

  -- The loop over the reads; an input without more reads is at its end.
  unfoldable pub send_chunks :
      Text → Text → Text → List Read → H → Result RuntimeError (Unit {0}) × H
  unfolding exchange encode64
  send_chunks action what path [] h = (ok tt, h)
  send_chunks action what path (r ∷ rs) h =
      and_then (send_chunk action what path r.bytes h) (λ u h1.
        let rest = send_chunks action what path rs h1 in after_read r.ending (ok tt, h1) rest)

  -- The three phases.
  unfoldable pub send_file :
      Text → Text → InitCommand → List Read → Text → H → Result RuntimeError (Unit {0}) × H
  unfolding exchange send_chunks
  send_file action what begin reads path h =
      and_then
        (exchange net (what ++ lit " begin failed") (what ++ lit " begin error") path begin h)
        (λ r h1. and_then (send_chunks action what path reads h1) (λ u h2.
          and_then
            (exchange net (what ++ lit " finish failed") (what ++ lit " finish error") path
              (finish_command action) h2)
            dropped_reply))

  abbrev pub upload_binary_to :
      Text
      → Text
      → List Read
      → ℤ
      → Text
      → Dict InstanceInfo
      → Text
      → H
      → Result RuntimeError (Unit {0}) × H
  upload_binary_to app file reads size sum vms id h = and_then (connect net vms id h) (λ path h1.
      send_file (lit "upload-binary") (lit "upload") (binary_begin app file size sum) reads path h1)

  -- `UploadBinary`
  unfoldable pub runtime_upload_binary :
      Text
      → Text
      → List Read
      → ℤ
      → Text
      → Dict InstanceInfo
      → Text
      → H
      → Result RuntimeError (Unit {0}) × H
  unfolding connect send_file validate_app_name
  runtime_upload_binary app file reads size sum vms id h =
      for_app net app (upload_binary_to app file reads size sum vms id) h

  -- `UploadImage`
  unfoldable pub runtime_upload_image :
      Text
      → List Read
      → ℤ
      → Text
      → Dict InstanceInfo
      → Text
      → H
      → Result RuntimeError (Unit {0}) × H
  unfolding connect send_file
  runtime_upload_image image_ref reads size sum vms id h =
      and_then (connect net vms id h) (λ path h1.
        send_file (lit "upload-image") (lit "image upload")
          (record (vm_command (lit "upload-image")) {
            phase = phase_begin;
            image_ref = image_ref;
            size = size;
            checksum = sum;
          })
          reads path h1)
