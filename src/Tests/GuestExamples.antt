-- ===== src/Tests/GuestExamples.antt =====
-- An agent whose binary is replaced by an upload in two chunks.
use goship.Base.{
  Text, lit, text_beq, Bool, true, ◌≡◌, ◌≢◌, refl, List, [], ◌∷◌, none, some, get, pos,
}
use goship.Guest.State.{UpdateState, ok, error, checksum_mismatch}
use goship.Guest.Transfer.Update.{current_path, handle_update_finish}
use goship.Guest.Transfer.Swap.{handle_update_finish_atomic}
use goship.Guest.Transfer.Delivery.{decode_all}
use goship.Base.{text_ne, contains_rune}
use goship.Entities.Name.{validate_app_name, validate_path_component}
use goship.Guest.State.{UploadState}
use goship.Guest.Transfer.Upload.{
  dest_path, validate_upload_file_name, start_upload, handle_upload_begin, handle_upload_finish,
}
use goship.Guest.Transfer.Install.{
  IsConfined, handle_upload_begin-IsConfined, handle_upload_finish_atomic,
}
use goship.Guest.Message.{InitCommand}
use goship.Guest.State.{Agent}
use goship.Tests.Fixtures.{coding, all_work, agent, update_command}
use goship.Guest.Transfer.Sending.{Works, received, handle_update_delivers}

all_work-Works : Works all_work
all_work-Works = record {
  mkdirs = refl;
  opens = refl;
  writes = refl;
  closes = refl;
  reads = refl;
  backups = refl;
  installs = refl;
}

abbrev pending : UpdateState
pending = record {
  path = lit "/bin/goship-init.new";
  total_size = pos 3;
  checksum = lit "sha256:new";
  received = 3;
}

abbrev chunks : List Text
chunks = lit "-ne" ∷ lit "-w" ∷ []

chunks-decode : decode_all coding chunks ≡ some (lit "new")
unfolding decode_all
chunks-decode = refl

new-written : get agent.files pending.path ≡ some (lit "new")
unfolding get text_beq
new-written = refl

checksum-given : update_command.checksum ≢ []
checksum-given e = cc

-- Witnesses.
handle_update_finish_atomic_example :
    let r = handle_update_finish coding all_work (record agent { update = some pending }) in
    (r.1.update ≡ none)
    × (r.0 ≡ ok
        → (get r.1.files (lit "/bin/goship-init") ≡ some (lit "new"))
          × (lit "sha256:new" ≡ lit "sha256:new")
          × (get r.1.files (lit "/bin/goship-init.old") ≡ get agent.files (lit "/bin/goship-init")))
    × (r.0 ≢ ok
        → ◌≡◌ {A = Bool} true true
        → get r.1.files (lit "/bin/goship-init") ≡ get agent.files (lit "/bin/goship-init"))
handle_update_finish_atomic_example =
    handle_update_finish_atomic coding all_work (record agent { update = some pending }) pending
      (lit "new") refl refl new-written

handle_update_delivers_example :
    let b = received coding all_work all_work-Works update_command chunks agent in
    let r = handle_update_finish coding all_work b in
    (r.1.update ≡ none)
    × (lit "sha256:new" ≡ lit "sha256:new"
        → (r.0 ≡ ok) × (get r.1.files (current_path b) ≡ some (lit "new")))
    × (lit "sha256:new" ≢ lit "sha256:new"
        → (r.0 ≡ error checksum_mismatch)
          × (get r.1.files (current_path b) ≡ get b.files (current_path b)))
handle_update_delivers_example =
    handle_update_delivers coding all_work all_work-Works update_command chunks agent (lit "new")
      refl checksum-given chunks-decode refl

abbrev upload_command : InitCommand
upload_command = record update_command { app_name = lit "worker"; file_name = lit "run" }

upload-begins : (handle_upload_begin upload_command all_work agent).0 ≡ ok
unfolding handle_upload_begin validate_app_name validate_path_component validate_upload_file_name
    start_upload contains_rune text_beq
upload-begins = refl

abbrev uploading : UploadState
uploading = record {
  path = lit "/opt/goship/binaries/worker/run.new";
  dest_dir = lit "/opt/goship/binaries/worker";
  file_name = lit "run";
  size = pos 3;
  checksum = lit "sha256:new";
  received = 3;
}

abbrev uploader : Agent
uploader = record agent {
  files = (lit "/opt/goship/binaries/worker/run.new", lit "new") ∷ [];
  upload = some uploading;
}

uploading-apart : uploading.path ≢ dest_path uploading
unfolding text_beq
uploading-apart e = text_ne _ _ refl e

uploading-there : get uploader.files uploading.path ≡ some (lit "new")
unfolding get text_beq
uploading-there = refl

handle_upload_begin-IsConfined_example :
    IsConfined upload_command (handle_upload_begin upload_command all_work agent).1
handle_upload_begin-IsConfined_example =
    handle_upload_begin-IsConfined upload_command all_work agent upload-begins

handle_upload_finish_atomic_example :
    let r = handle_upload_finish coding all_work uploader in
    (r.1.upload ≡ none)
    × (r.0 ≡ ok
        → (get r.1.files (dest_path uploading) ≡ some (lit "new"))
          × (lit "sha256:new" ≡ lit "sha256:new"))
    × (r.0 ≢ ok → get r.1.files (dest_path uploading) ≡ get uploader.files (dest_path uploading))
handle_upload_finish_atomic_example =
    handle_upload_finish_atomic coding all_work uploader uploading (lit "new") refl uploading-apart
      uploading-there
