-- ===== src/Guest/Transfer/Update.antt =====
-- internal/init/init.go: `handleUpdateInit`, which replaces the agent's own binary.
use goship.Base.{
  Text, lit, ◌+◌, not, ◌++◌, [], none, some, get, put, remove, is_some, ◌&&◌, ◌==◌, text_eq,
  if◌then◌else◌, le_zero, length,
}
use goship.Guest.Message.{InitCommand, phase_begin, phase_data, phase_finish}
use goship.Guest.Files.{Files, rename, append_to}
use goship.Guest.State.{
  UpdateState, Agent, Reply, ok, progress, error, unknown_phase, size_not_positive,
  checksum_required, no_transfer, mkdir_failed, open_failed, decode_failed, write_failed,
  close_failed, read_failed, checksum_mismatch, backup_failed, install_failed, System, Coding,
}

abbrev pub discard_update : Text → Agent → Agent
discard_update path a = record a { update = none; files = remove a.files path }

unfoldable pub cleanup_update : Agent → Agent
cleanup_update a = elim a.update [ none ↦ a | some u ↦ discard_update u.path a ]

abbrev pub new_path : Agent → Text
new_path a = a.init_dir ++ lit "/goship-init.new"

abbrev pub current_path : Agent → Text
current_path a = a.init_dir ++ lit "/goship-init"

abbrev pub old_path : Agent → Text
old_path a = a.init_dir ++ lit "/goship-init.old"

unfoldable pub handle_update_begin : InitCommand → System → Agent → Reply × Agent
unfolding cleanup_update
handle_update_begin cmd sys a =
    if le_zero cmd.size
    then (error size_not_positive, a)
    else if cmd.checksum == lit ""
    then (error checksum_required, a)
    else let b = cleanup_update a in
      if not sys.mkdir_works
      then (error mkdir_failed, b)
      else if not sys.open_works
      then (error open_failed, b)
      else (
        ok,
        record b {
          files = put b.files (new_path b) [];
          update = some (record {
            path = new_path b;
            total_size = cmd.size;
            checksum = cmd.checksum;
            received = 0;
          });
        },
      )

abbrev pub write_update : Text → UpdateState → Agent → Reply × Agent
write_update bytes u a = (
  progress (u.received + length bytes),
  record a {
    files = append_to u.path bytes a.files;
    update = some (record u { received = u.received + length bytes });
  },
)

unfoldable pub handle_update_data : Coding → InitCommand → System → Agent → Reply × Agent
unfolding cleanup_update append_to
handle_update_data code cmd sys a = elim a.update [
  | none ↦ (error no_transfer, a)
  | some u ↦ elim (code.decode cmd.chunk) [
    | none ↦ (error decode_failed, cleanup_update a)
    | some bytes ↦
        if sys.write_works then write_update bytes u a else (error write_failed, cleanup_update a)
  ]
]

-- The file as fileSHA256 reads it.
abbrev pub content : Files → Text → Text
content fs path = elim (get fs path) [ none ↦ [] | some c ↦ c ]

-- The two renames of the swap, from the file system in which the old backup is gone.
unfoldable pub swap_binary : Text → System → Agent → Reply × Agent
unfolding rename
swap_binary path sys a =
    let current = current_path a in
    let old = old_path a in
    if is_some (get a.files current) && not sys.backup_works
    then (error backup_failed, discard_update path a)
    else let b = record a { files = rename current old a.files; update = none } in
      if sys.install_works then (ok, record b { files = rename path current b.files }) else (
        error install_failed,
        if sys.restore_works then record b { files = rename old current b.files } else b,
      )

unfoldable pub handle_update_finish : Coding → System → Agent → Reply × Agent
handle_update_finish code sys a = elim a.update [
  | none ↦ (error no_transfer, a)
  | some u ↦
      if not sys.close_works
      then (error close_failed, discard_update u.path a)
      else if not (sys.read_works && is_some (get a.files u.path))
      then (error read_failed, discard_update u.path a)
      else if not (code.sha256 (content a.files u.path) == u.checksum)
      then (error checksum_mismatch, discard_update u.path a)
      else swap_binary u.path sys (record a { files = remove a.files (old_path a) })
]

unfoldable pub handle_update_init : Coding → InitCommand → System → Agent → Reply × Agent
unfolding handle_update_begin handle_update_data handle_update_finish
handle_update_init code cmd sys a =
    if cmd.phase == phase_begin
    then handle_update_begin cmd sys a
    else if cmd.phase == phase_data
    then handle_update_data code cmd sys a
    else if cmd.phase == phase_finish
    then handle_update_finish code sys a
    else (error unknown_phase, a)
