-- ===== src/Guest/Transfer/Image.antt =====
-- internal/init/init.go: `handleUploadImage`, which loads an image into Docker.
use goship.Base.{
  ◌&&◌, Text, lit, ◌+◌, not, [], ◌∷◌, none, some, get, put, remove, is_some, ◌==◌, text_eq,
  if◌then◌else◌, le_zero, length,
}
use goship.Guest.Message.{InitCommand, phase_begin, phase_data, phase_finish}
use goship.Guest.Files.{append_to}
use goship.Guest.Transfer.Update.{content}
use goship.Guest.State.{
  ImageUploadState, Agent, Reply, ok, progress, error, unknown_phase, size_not_positive,
  checksum_required, image_ref_required, no_transfer, open_failed, decode_failed, write_failed,
  close_failed, read_failed, checksum_mismatch, no_docker, open_image_failed, load_failed, System,
  Coding,
}

abbrev pub discard_image : Text → Agent → Agent
discard_image path a = record a { image_upload = none; files = remove a.files path }

unfoldable pub cleanup_image_upload : Agent → Agent
cleanup_image_upload a = elim a.image_upload [ none ↦ a | some u ↦ discard_image u.path a ]

abbrev pub image_path : Text
image_path = lit "/tmp/goship-image-upload.tar.gz"

unfoldable pub handle_image_upload_begin : InitCommand → System → Agent → Reply × Agent
unfolding cleanup_image_upload
handle_image_upload_begin cmd sys a =
    if cmd.image_ref == lit ""
    then (error image_ref_required, a)
    else if le_zero cmd.size
    then (error size_not_positive, a)
    else if cmd.checksum == lit ""
    then (error checksum_required, a)
    else let b = cleanup_image_upload a in
      if not sys.open_works then (error open_failed, b) else (
        ok,
        record b {
          files = put b.files image_path [];
          image_upload = some (record {
            path = image_path;
            image_ref = cmd.image_ref;
            size = cmd.size;
            checksum = cmd.checksum;
            received = 0;
          });
        },
      )

abbrev pub write_image : Text → ImageUploadState → Agent → Reply × Agent
write_image bytes u a = (
  progress (u.received + length bytes),
  record a {
    files = append_to u.path bytes a.files;
    image_upload = some (record u { received = u.received + length bytes });
  },
)

unfoldable pub handle_image_upload_data : Coding → InitCommand → System → Agent → Reply × Agent
unfolding cleanup_image_upload append_to
handle_image_upload_data code cmd sys a = elim a.image_upload [
  | none ↦ (error no_transfer, a)
  | some u ↦ elim (code.decode cmd.chunk) [
    | none ↦ (error decode_failed, cleanup_image_upload a)
    | some bytes ↦
        if sys.write_works
        then write_image bytes u a
        else (error write_failed, cleanup_image_upload a)
  ]
]

unfoldable pub handle_image_upload_finish : Coding → System → Agent → Reply × Agent
handle_image_upload_finish code sys a = elim a.image_upload [
  | none ↦ (error no_transfer, a)
  | some u ↦
      let c = content a.files u.path in
      let b = discard_image u.path a in
      if not sys.close_works
      then (error close_failed, b)
      else if not (sys.read_works && is_some (get a.files u.path))
      then (error read_failed, b)
      else if not (code.sha256 c == u.checksum)
      then (error checksum_mismatch, b)
      else if not a.docker
      then (error no_docker, b)
      else if not sys.image_opens
      then (error open_image_failed, b)
      else if not sys.image_loads
      then (error load_failed, b)
      else (ok, record b { loaded = c ∷ a.loaded })
]

unfoldable pub handle_upload_image : Coding → InitCommand → System → Agent → Reply × Agent
unfolding handle_image_upload_begin handle_image_upload_data handle_image_upload_finish
handle_upload_image code cmd sys a =
    if cmd.phase == phase_begin
    then handle_image_upload_begin cmd sys a
    else if cmd.phase == phase_data
    then handle_image_upload_data code cmd sys a
    else if cmd.phase == phase_finish
    then handle_image_upload_finish code sys a
    else (error unknown_phase, a)
