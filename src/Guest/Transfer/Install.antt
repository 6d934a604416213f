-- ===== src/Guest/Transfer/Install.antt =====
-- internal/init/init.go: an uploaded binary stays in its app's directory, and its installation is
-- atomic.
use goship.Base.{
  Text, lit, Bool, true, false, ◌++◌, [], none, some, get, get-put_self, get-remove_ne, ◌==◌,
  text_eq, text_beq_iff, le_zero, Result, err, ◌≡◌, ◌≢◌, refl, sym, ◌∙◌, arith,
}
use goship.Entities.Name.{NameError, validate_app_name, validate_path_component}
use goship.Entities.Components.{IsComponent, validate_path_component_iff}
use goship.Guest.Message.{InitCommand}
use goship.Guest.Files.{get-rename_full}
use goship.Guest.State.{UploadState, Agent, ok, System, Coding}
use goship.Guest.Transfer.Upload.{
  validate_upload_file_name, default_binaries_dir, start_upload, cleanup_upload,
  handle_upload_begin, dest_path, handle_upload_finish,
}

-- What an upload that has begun writes to.
pub record IsConfined (cmd : InitCommand) (a : Agent) : Type 0 where
  pub state : UploadState
  pub busy : a.upload ≡ some state
  pub app_part : IsComponent cmd.app_name
  pub file_part : IsComponent cmd.file_name
  pub dir : state.dest_dir ≡ default_binaries_dir ++ (lit "/" ++ cmd.app_name)
  pub file : state.file_name ≡ cmd.file_name
  pub place : state.path ≡ state.dest_dir ++ (lit "/" ++ (state.file_name ++ lit ".new"))
  pub empty : get a.files state.path ≡ some []

-- The two checks of names are the same test.
upload_name-same : (name : Text) → validate_upload_file_name name ≡ validate_path_component name
unfolding validate_upload_file_name validate_path_component
upload_name-same name = refl

start_upload-IsConfined :
    (cmd : InitCommand) (sys : System) (a : Agent)
    → IsComponent cmd.app_name
    → IsComponent cmd.file_name
    → (start_upload cmd sys a).0 ≡ ok
    → IsConfined cmd (start_upload cmd sys a).1
unfolding start_upload
start_upload-IsConfined cmd sys a p q h = go sys.mkdir_works refl sys.open_works refl
  where
    go :
        (b : Bool)
        → sys.mkdir_works ≡ b
        → (c : Bool) → sys.open_works ≡ c
        → IsConfined cmd (start_upload cmd sys a).1
    go false eb c ec = cc (rw (eb, start_upload) at h)
    go true eb false ec = cc (rw (eb, ec, start_upload) at h)
    go true eb true ec =
        rw (eb, ec, start_upload)
          (record {
            state = record {
              path =
                  default_binaries_dir
                  ++ (lit "/" ++ cmd.app_name)
                  ++ (lit "/" ++ (cmd.file_name ++ lit ".new"));
              dest_dir = default_binaries_dir ++ (lit "/" ++ cmd.app_name);
              file_name = cmd.file_name;
              size = cmd.size;
              checksum = cmd.checksum;
              received = 0;
            };
            busy = refl;
            app_part = p;
            file_part = q;
            dir = refl;
            file = refl;
            place = refl;
            empty = get-put_self (cleanup_upload a).files _ [];
          })

-- An upload that begins writes to an empty file in the directory of the app, whose name, like the
-- file's, is one component of a path.
pub handle_upload_begin-IsConfined :
    (cmd : InitCommand) (sys : System) (a : Agent)
    → (handle_upload_begin cmd sys a).0 ≡ ok
    → IsConfined cmd (handle_upload_begin cmd sys a).1
unfolding handle_upload_begin validate_app_name
handle_upload_begin-IsConfined cmd sys a h =
    go (validate_path_component cmd.app_name) refl (validate_upload_file_name cmd.file_name) refl
      (le_zero cmd.size) refl (cmd.checksum == lit "") refl
  where
    go :
        (v : Result NameError (Unit {0}))
        → validate_path_component cmd.app_name ≡ v
        → (w : Result NameError (Unit {0})) → validate_upload_file_name cmd.file_name ≡ w
        → (b : Bool) → le_zero cmd.size ≡ b
        → (c : Bool) → (cmd.checksum == lit "") ≡ c
        → IsConfined cmd (handle_upload_begin cmd sys a).1
    go (err x) ev w ew b eb c ec = cc (rw (ev, handle_upload_begin) at h)
    go (Result.ok u) ev (err x) ew b eb c ec = cc (rw (ev, ew, handle_upload_begin) at h)
    go (Result.ok u) ev (Result.ok t) ew true eb c ec =
        cc (rw (ev, ew, eb, handle_upload_begin) at h)
    go (Result.ok u) ev (Result.ok t) ew false eb true ec =
        cc (rw (ev, ew, eb, ec, handle_upload_begin) at h)
    go (Result.ok u) ev (Result.ok t) ew false eb false ec =
        rw (ev, ew, eb, ec, handle_upload_begin)
          (start_upload-IsConfined cmd sys a ((validate_path_component_iff cmd.app_name).0 ev)
            ((validate_path_component_iff cmd.file_name).0
              (sym (upload_name-same cmd.file_name) ∙ ew))
            (rw (ev, ew, eb, ec, handle_upload_begin) at h))

-- For an upload whose file is there, beside its target: however `finish` ends, no upload is in
-- progress; if it replies ok, the target is what was written, with the announced SHA-256, and
-- otherwise the target is as it was.
pub handle_upload_finish_atomic :
    (code : Coding) (sys : System) (a : Agent) (u : UploadState) (c : Text)
    → a.upload ≡ some u
    → u.path ≢ dest_path u
    → get a.files u.path ≡ some c
    → ((handle_upload_finish code sys a).1.upload ≡ none)
      × ((handle_upload_finish code sys a).0 ≡ ok
          → (get (handle_upload_finish code sys a).1.files (dest_path u) ≡ some c)
            × (code.sha256 c ≡ u.checksum))
      × ((handle_upload_finish code sys a).0 ≢ ok
          → get (handle_upload_finish code sys a).1.files (dest_path u) ≡ get a.files (dest_path u))
unfolding handle_upload_finish
handle_upload_finish_atomic code sys a u c busy apart written = ground (
  arith,
  busy,
  written,
  get-rename_full u.path (dest_path u) a.files c written,
  get-remove_ne (dest_path u) u.path a.files apart,
  text_beq_iff (code.sha256 c) u.checksum,
)
