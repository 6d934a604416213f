-- ===== src/Guest/Transfer/Upload.antt =====
-- internal/init/init.go: `handleUploadBinary`, which stores a binary for a process app.
use goship.Base.{
  ◌&&◌, Text, lit, ◌+◌, not, ◌++◌, [], ◌||◌, none, some, get, put, remove, is_some, ◌==◌, text_eq,
  if◌then◌else◌, le_zero, length, contains_rune, Result, err,
}
use goship.Entities.Name.{NameError, required, not_a_component, validate_app_name}
use goship.Guest.Message.{InitCommand, phase_begin, phase_data, phase_finish}
use goship.Guest.Files.{rename, append_to}
use goship.Guest.Transfer.Update.{content}
use goship.Guest.State.{
  UploadState, Agent, Reply, ok, progress, error, unknown_phase, size_not_positive,
  checksum_required, bad_app_name, bad_file_name, no_transfer, mkdir_failed, open_failed,
  decode_failed, write_failed, close_failed, read_failed, checksum_mismatch, install_failed, System,
  Coding,
}

unfoldable pub validate_upload_file_name : Text → Result NameError (Unit {0})
validate_upload_file_name name =
    if name == lit ""
    then err required
    else if name == lit "."
        || name == lit ".."
        || contains_rune name b'/'
        || contains_rune name b'/'
        || contains_rune name 0
    then err not_a_component
    else Result.ok tt

abbrev pub default_binaries_dir : Text
default_binaries_dir = lit "/opt/goship/binaries"

abbrev pub discard_upload : Text → Agent → Agent
discard_upload path a = record a { upload = none; files = remove a.files path }

unfoldable pub cleanup_upload : Agent → Agent
cleanup_upload a = elim a.upload [ none ↦ a | some u ↦ discard_upload u.path a ]

-- `handleUploadBegin` from the cleanup on.
unfoldable pub start_upload : InitCommand → System → Agent → Reply × Agent
unfolding cleanup_upload
start_upload cmd sys a =
    let b = cleanup_upload a in
    let dest_dir = default_binaries_dir ++ (lit "/" ++ cmd.app_name) in
    let path = dest_dir ++ (lit "/" ++ (cmd.file_name ++ lit ".new")) in
    if not sys.mkdir_works
    then (error mkdir_failed, b)
    else if not sys.open_works
    then (error open_failed, b)
    else (
      ok,
      record b {
        files = put b.files path [];
        upload = some (record {
          path = path;
          dest_dir = dest_dir;
          file_name = cmd.file_name;
          size = cmd.size;
          checksum = cmd.checksum;
          received = 0;
        });
      },
    )

unfoldable pub handle_upload_begin : InitCommand → System → Agent → Reply × Agent
unfolding start_upload validate_upload_file_name
handle_upload_begin cmd sys a = elim (validate_app_name cmd.app_name) [
  | err x ↦ (error (bad_app_name x), a)
  | Result.ok _ ↦ elim (validate_upload_file_name cmd.file_name) [
    | err x ↦ (error (bad_file_name x), a)
    | Result.ok _ ↦
        if le_zero cmd.size
        then (error size_not_positive, a)
        else if cmd.checksum == lit ""
        then (error checksum_required, a)
        else start_upload cmd sys a
  ]
]

abbrev pub write_upload : Text → UploadState → Agent → Reply × Agent
write_upload bytes u a = (
  progress (u.received + length bytes),
  record a {
    files = append_to u.path bytes a.files;
    upload = some (record u { received = u.received + length bytes });
  },
)

unfoldable pub handle_upload_data : Coding → InitCommand → System → Agent → Reply × Agent
unfolding cleanup_upload append_to
handle_upload_data code cmd sys a = elim a.upload [
  | none ↦ (error no_transfer, a)
  | some u ↦ elim (code.decode cmd.chunk) [
    | none ↦ (error decode_failed, cleanup_upload a)
    | some bytes ↦
        if sys.write_works then write_upload bytes u a else (error write_failed, cleanup_upload a)
  ]
]

abbrev pub dest_path : UploadState → Text
dest_path u = u.dest_dir ++ (lit "/" ++ u.file_name)

unfoldable pub handle_upload_finish : Coding → System → Agent → Reply × Agent
unfolding rename
handle_upload_finish code sys a = elim a.upload [
  | none ↦ (error no_transfer, a)
  | some u ↦
      if not sys.close_works
      then (error close_failed, discard_upload u.path a)
      else if not (sys.read_works && is_some (get a.files u.path))
      then (error read_failed, discard_upload u.path a)
      else if not (code.sha256 (content a.files u.path) == u.checksum)
      then (error checksum_mismatch, discard_upload u.path a)
      else if sys.install_works
      then (ok, record a { files = rename u.path (dest_path u) a.files; upload = none })
      else (error install_failed, discard_upload u.path a)
]

unfoldable pub handle_upload_binary : Coding → InitCommand → System → Agent → Reply × Agent
unfolding handle_upload_begin handle_upload_data handle_upload_finish
handle_upload_binary code cmd sys a =
    if cmd.phase == phase_begin
    then handle_upload_begin cmd sys a
    else if cmd.phase == phase_data
    then handle_upload_data code cmd sys a
    else if cmd.phase == phase_finish
    then handle_upload_finish code sys a
    else (error unknown_phase, a)
