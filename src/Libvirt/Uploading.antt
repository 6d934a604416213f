-- ===== src/Libvirt/Uploading.antt =====
-- An upload in the agent of a VM (internal/init/init.go), step by step, where its system calls succeed.
use goship.Base.{
  Text, lit, ◌++◌, ◌+◌, false, [], none, some, get, put, get-put_self, ℕ, ok, ℤ, ◌≡◌, ◌≢◌, refl,
  sym, ap, ◌==◌, text_eq, text_beq, text_beq_iff, if◌then◌else◌, arith, le_zero, length,
  length-append, append_cancel, Bool-cases, inl, inr, subst, ◌∙◌,
}
use goship.Entities.Name.{validate_app_name, validate_path_component}
use goship.Vault.Base64.{encode64}
use goship.Guest.Files.{append_to, get-append_to}
use goship.Guest.State
use goship.Guest.State.{
  UploadState, Reply, Failure, System, Coding, progress, error, checksum_mismatch,
}
use goship.Guest.Transfer.Sending.{Works}
use goship.Guest.Transfer.Upload.{
  validate_upload_file_name, default_binaries_dir, start_upload, cleanup_upload,
  handle_upload_begin, handle_upload_data, handle_upload_finish, handle_upload_binary, dest_path,
}
use goship.Guest.Transfer.Install.{handle_upload_finish_atomic}
use goship.Libvirt.Uploads.{binary_begin, data_command, finish_command}

-- An upload to `path` for `dest` is in progress, and `c` has been received.
pub record IsUploading (path dest sum c : Text) (a : State.Agent) : Type 0 where
  pub state : UploadState
  pub busy : a.upload ≡ some state
  pub place : state.path ≡ path
  pub target : dest_path state ≡ dest
  pub announced : state.checksum ≡ sum
  pub written : get a.files path ≡ some c

abbrev pub dest_of : Text → Text → Text
dest_of app file = default_binaries_dir ++ (lit "/" ++ app) ++ (lit "/" ++ file)

abbrev pub temp_of : Text → Text → Text
temp_of app file = default_binaries_dir ++ (lit "/" ++ app) ++ (lit "/" ++ (file ++ lit ".new"))

pub temp-dest : (app file : Text) → temp_of app file ≢ dest_of app file
temp-dest app file e =
    let f = append_cancel (default_binaries_dir ++ (lit "/" ++ app)) _ _ e in
    let g : file ++ lit ".new" ≡ file = cc (f) in
    ground (arith, length-append file (lit ".new"), ap length g)

module _ (code : Coding) (sys : System) (w : Works sys) where
  pub begin_lem :
      (app file sum : Text) (size : ℤ) (a : State.Agent)
      → validate_app_name app ≡ ok tt
      → validate_upload_file_name file ≡ ok tt
      → le_zero size ≡ false
      → sum ≢ []
      → handle_upload_binary code (binary_begin app file size sum) sys a
        ≡ start_upload (binary_begin app file size sum) sys a
  unfolding handle_upload_binary handle_upload_begin text_beq validate_app_name put
      validate_path_component
  begin_lem app file sum size a va vf p n =
      rw (va, vf, p) (ground (arith, n, text_beq_iff sum (lit "")))

  pub start-IsUploading :
      (app file sum : Text) (size : ℤ) (a : State.Agent)
      → let r = start_upload (binary_begin app file size sum) sys a in
        (r.0 ≡ Reply.ok) × IsUploading (temp_of app file) (dest_of app file) sum [] r.1
  unfolding start_upload
  start-IsUploading app file sum size a =
      rw (w.mkdirs, w.opens)
        (
          refl,
          record {
            state = record {
              path = temp_of app file;
              dest_dir = default_binaries_dir ++ (lit "/" ++ app);
              file_name = file;
              size = size;
              checksum = sum;
              received = 0;
            };
            busy = refl;
            place = refl;
            target = refl;
            announced = refl;
            written = get-put_self (cleanup_upload a).files _ [];
          },
        )

  pub data-IsUploading :
      (path dest sum c bytes : Text) (a : State.Agent)
      → code.decode (encode64 bytes) ≡ some bytes
      → IsUploading path dest sum c a
      → let r = handle_upload_binary code (data_command (lit "upload-binary") bytes) sys a in
        (n : ℕ) × (r.0 ≡ progress n) × IsUploading path dest sum (c ++ bytes) r.1
  unfolding handle_upload_binary handle_upload_data text_beq
  data-IsUploading path dest sum c bytes a d h =
      rw (h.busy, handle_upload_data)
        (rw (d, w.writes)
          (
            _,
            refl,
            record {
              state = record (h.state) { received = h.state.received + length bytes };
              busy = refl;
              place = h.place;
              target = h.target;
              announced = h.announced;
              written =
                  subst (λ p. get (append_to p bytes a.files) path ≡ some (c ++ bytes))
                    (sym h.place) (get-append_to path bytes a.files c h.written);
            },
          ))

  finish-reply :
      (c : Text) (a : State.Agent) (u : UploadState)
      → a.upload ≡ some u
      → get a.files u.path ≡ some c
      → (handle_upload_finish code sys a).0
        ≡ (if code.sha256 c == u.checksum then Reply.ok else error checksum_mismatch)
  unfolding handle_upload_finish
  finish-reply c a u busy written = grind (arith, busy, written, w.closes, w.reads, w.installs)

  pub finish_lem :
      (path dest sum c : Text) (a : State.Agent)
      → path ≢ dest
      → IsUploading path dest sum c a
      → let r = handle_upload_binary code (finish_command (lit "upload-binary")) sys a in
        (r.0 ≡ (if code.sha256 c == sum then Reply.ok else error checksum_mismatch))
        × (r.1.upload ≡ none)
        × (get r.1.files dest ≡ (if code.sha256 c == sum then some c else get a.files dest))
  unfolding handle_upload_binary text_beq
  finish_lem path dest sum c a apart h =
      let there : get a.files h.state.path ≡ some c =
        subst (λ p. get a.files p ≡ some c) (sym h.place) h.written in
      let far : h.state.path ≢ dest_path h.state = (λ q. apart (sym h.place ∙ q ∙ h.target)) in
      let s = handle_upload_finish_atomic code sys a h.state c h.busy far there in
      let e : (handle_upload_finish code sys a).0
          ≡ (if code.sha256 c == sum then Reply.ok else error checksum_mismatch) =
        subst
          (λ t.
            (handle_upload_finish code sys a).0
            ≡ (if code.sha256 c == t then Reply.ok else error checksum_mismatch))
          h.announced (finish-reply c a h.state h.busy there) in
      elim (Bool-cases (code.sha256 c == sum)) [
        | inl t ↦
            let o : (handle_upload_finish code sys a).0 ≡ Reply.ok = rw t at e in
            rw t (
              o,
              s.0,
              subst (λ d. get (handle_upload_finish code sys a).1.files d ≡ some c) h.target
                  (s.1 o).0,
            )
        | inr f ↦
            let o : (handle_upload_finish code sys a).0 ≡ error checksum_mismatch = rw f at e in
            rw f (
              o,
              s.0,
              subst (λ d. get (handle_upload_finish code sys a).1.files d ≡ get a.files d) h.target
                  (s.2 (λ q. cc (o, q))),
            )
      ]
