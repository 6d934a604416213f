-- ===== src/Libvirt/Delivered.antt =====
-- An upload from the host to the agent of a VM (internal/init/init.go), where the socket and the
-- system calls of the VM succeed: what is installed is what was read.
use goship.Base.{
  Text, lit, ◌++◌, true, false, List, [], ◌∷◌, none, some, Dict, get, Result, ok, err, ℤ, ◌≡◌, ◌≢◌,
  refl, sym, ap, ◌==◌, text_eq, text_beq, text_beq_iff, if◌then◌else◌, le_zero, Bool-cases, inl,
  inr, All, subst, ◌∙◌,
}
use mathlib.Core.List.{append_assoc, append-nil}
use goship.Entities.Name.{validate_app_name}
use goship.Vault.Hex.{IsByte}
use goship.Vault.Base64.{encode64, decode64, decode64-encode64}
use goship.Guest.Message.{InitCommand}
use goship.Guest.State
use goship.Guest.State.{
  UploadState, Reply, Failure, System, Coding, progress, error, checksum_mismatch,
}
use goship.Guest.Transfer.Sending.{Works}
use goship.Guest.Transfer.Upload.{validate_upload_file_name, handle_upload_binary}
use goship.Libvirt.{
  InitResponse, status_ok, Sockets, RuntimeError, answered, InstanceInfo, and_then, checked,
  send_command, exchange, connect,
}
use goship.Libvirt.Apps.{dropped_reply, for_app}
use goship.Libvirt.Uploads.{
  ReadEnd, more, at_end, broken, Read, send_chunk, send_chunks, send_file, binary_begin,
  data_command, finish_command, upload_binary_to, runtime_upload_binary,
}
use goship.Libvirt.Uploading.{
  IsUploading, dest_of, temp_of, temp-dest, begin_lem, start-IsUploading, data-IsUploading,
  finish_lem,
}

-- The reply of the agent as the host reads it.
abbrev pub seen_reply : (Failure → Text) → Reply → InitResponse
seen_reply said (error f) = record {
  status = lit "error";
  failure = said f;
  output = [];
  addresses = none;
}
seen_reply said _ = record { status = status_ok; failure = []; output = []; addresses = none }

-- A socket that leads to an agent, whose state is in the host's; each command that is written is
-- handled, and its reply is the next line.
pub record Reaches {H L : Type 0} (net : Sockets H L) (path : Text) (code : Coding) (sys : System)
    (guest : H → State.Agent) : Type 0 where
  pub command_line : InitCommand → L
  pub reply_line : Reply → L
  pub said : Failure → Text
  pub dials : (h : H) → net.dial path h ≡ (none, h)
  pub deadlines : (h : H) → net.set_deadline path h ≡ (none, h)
  pub marshals : (cmd : InitCommand) → net.marshal cmd ≡ ok (command_line cmd)
  pub unmarshals : (r : Reply) → net.unmarshal (reply_line r) ≡ ok (seen_reply said r)
  pub serves :
      (cmd : InitCommand) (h : H)
      → cmd.action ≡ lit "upload-binary"
      → (h1 : H) × (h2 : H) × (net.write_line path (command_line cmd) h ≡ (none, h1))
        × (net.read_line path h1
            ≡ (ok (reply_line (handle_upload_binary code cmd sys (guest h)).0), h2))
        × (guest h2 ≡ (handle_upload_binary code cmd sys (guest h)).1)

-- The bytes up to the end of the input.
unfoldable pub input_of : List Read → Text
input_of [] = []
input_of (r ∷ rs) = elim r.ending [ more ↦ r.bytes ++ input_of rs | _ ↦ r.bytes ]

-- A read has no error, and if it is not the last, then the others are as `P` says.
abbrev pub EndsWell : ReadEnd → Type 0 → Type 0
EndsWell more P = P
EndsWell at_end P = Unit
EndsWell (broken e) P = (true ≡ false)

-- The reads give bytes and end without an error.
abbrev pub IsReadable : List Read → Type 0
IsReadable [] = Unit
IsReadable (r ∷ rs) = let rest = IsReadable rs in All IsByte r.bytes × EndsWell r.ending rest

module _ {H L : Type 0} (net : Sockets H L) (path : Text) (code : Coding) (sys : System)
    (guest : H → State.Agent) (w : Works sys) (c : Reaches net path code sys guest)
    (d : (s : Text) → code.decode s ≡ decode64 s) where
  exchange_lem :
      (s t : Text) (cmd : InitCommand) (h : H)
      → cmd.action ≡ lit "upload-binary"
      → let r = handle_upload_binary code cmd sys (guest h) in
        (k : H) × (exchange net s t path cmd h ≡ (checked net s t (ok (seen_reply c.said r.0)), k))
        × (guest k ≡ r.1)
  unfolding exchange send_command
  exchange_lem s t cmd h e =
      let (h1, h2, ew, er, eg) = c.serves cmd h e in
      (h2, rw (c.deadlines h, c.marshals cmd, ew, er, c.unmarshals _) refl, eg)

  send_chunk-IsUploading :
      (temp dest sum got bytes : Text) (h : H)
      → All IsByte bytes
      → IsUploading temp dest sum got (guest h)
      → (k : H) × (send_chunk net (lit "upload-binary") (lit "upload") path bytes h ≡ (ok tt, k))
        × IsUploading temp dest sum (got ++ bytes) (guest k)
  unfolding text_beq
  send_chunk-IsUploading temp dest sum got [] h b u =
      (h, refl, subst (λ t. IsUploading temp dest sum t (guest h)) (sym (append-nil got)) u)
  send_chunk-IsUploading temp dest sum got (x ∷ xs) h b u =
      let (k, ek, gk) =
        exchange_lem (lit "upload data failed") (lit "upload data error")
          (data_command (lit "upload-binary") (x ∷ xs)) h refl in
      let (n, er, v) =
        data-IsUploading code sys w temp dest sum got (x ∷ xs) (guest h)
          (d (encode64 (x ∷ xs)) ∙ decode64-encode64 (x ∷ xs) b) u in
      (k, rw (ek, er) refl, subst (IsUploading temp dest sum (got ++ (x ∷ xs))) (sym gk) v)

  send_chunks-IsUploading :
      (temp dest sum got : Text) (reads : List Read) (h : H)
      → IsReadable reads
      → IsUploading temp dest sum got (guest h)
      → (k : H) × (send_chunks net (lit "upload-binary") (lit "upload") path reads h ≡ (ok tt, k))
        × IsUploading temp dest sum (got ++ input_of reads) (guest k)
  unfolding send_chunks input_of
  send_chunks-IsUploading temp dest sum got [] h b u =
      (h, refl, subst (λ t. IsUploading temp dest sum t (guest h)) (sym (append-nil got)) u)
  send_chunks-IsUploading temp dest sum got (r ∷ rs) h b u =
      let (k, ek, v) = send_chunk-IsUploading temp dest sum got r.bytes h b.0 u in
      go r.ending b.1 k ek v (send_chunks-IsUploading temp dest sum (got ++ r.bytes) rs k)
    where
      go :
          (e : ReadEnd)
          → EndsWell e (IsReadable rs)
          → (k : H)
          → send_chunk net (lit "upload-binary") (lit "upload") path r.bytes h ≡ (ok tt, k)
          → IsUploading temp dest sum (got ++ r.bytes) (guest k)
          → (IsReadable rs
              → IsUploading temp dest sum (got ++ r.bytes) (guest k)
              → (j : H) × (send_chunks net (lit "upload-binary") (lit "upload") path rs k
                  ≡ (ok tt, j))
                × IsUploading temp dest sum ((got ++ r.bytes) ++ input_of rs) (guest j))
          → let reads = record { bytes = r.bytes; ending = e } ∷ rs in
            (j : H) × (send_chunks net (lit "upload-binary") (lit "upload") path reads h
              ≡ (ok tt, j))
            × IsUploading temp dest sum (got ++ input_of reads) (guest j)
      go more b k ek v next =
          let (j, ej, z) = next b v in
          (
            j,
            rw (send_chunks, ek) ej,
            subst (λ t. IsUploading temp dest sum t (guest j))
                (append_assoc got r.bytes (input_of rs)) z,
          )
      go at_end b k ek v next = (k, rw (send_chunks, ek) refl, v)
      go (broken x) b k ek v next = cc b

  -- The reply of the last phase.
  abbrev pub finished : Text → Text → Result RuntimeError (Unit {0})
  finished sum bytes =
      if code.sha256 bytes == sum
      then ok tt
      else err (answered (lit "upload finish error") (c.said checksum_mismatch))

  finish-delivers :
      (temp dest sum bytes : Text) (h : H)
      → temp ≢ dest
      → IsUploading temp dest sum bytes (guest h)
      → let x =
          exchange net
            (lit "upload finish failed")
            (lit "upload finish error")
            path
            (finish_command (lit "upload-binary"))
            h in
        let r = and_then x dropped_reply in
        (r.0 ≡ finished sum bytes)
        × ((guest r.1).upload ≡ none)
        × (code.sha256 bytes ≡ sum → get (guest r.1).files dest ≡ some bytes)
  unfolding text_beq
  finish-delivers temp dest sum bytes h apart u =
      let (k, ek, gk) =
        exchange_lem (lit "upload finish failed") (lit "upload finish error")
          (finish_command (lit "upload-binary")) h refl in
      let f = finish_lem code sys w temp dest sum bytes (guest h) apart u in
      elim (Bool-cases (code.sha256 bytes == sum)) [
        | inl t ↦ rw (ek, rw t at f.0, t, gk) (refl, f.1, λ q. rw t at f.2)
        | inr n ↦
            rw (ek, rw n at f.0, n, gk)
              (refl, f.1, λ q. cc (n, (text_beq_iff (code.sha256 bytes) sum).1 q))
      ]

  send_file-delivers :
      (app file sum : Text) (size : ℤ) (reads : List Read) (h : H)
      → validate_app_name app ≡ ok tt
      → validate_upload_file_name file ≡ ok tt
      → le_zero size ≡ false
      → sum ≢ []
      → IsReadable reads
      → let r =
          send_file net
            (lit "upload-binary")
            (lit "upload")
            (binary_begin app file size sum)
            reads
            path
            h in
        (r.0 ≡ finished sum (input_of reads))
        × ((guest r.1).upload ≡ none)
        × (code.sha256 (input_of reads) ≡ sum
            → get (guest r.1).files (dest_of app file) ≡ some (input_of reads))
  unfolding send_file text_beq
  send_file-delivers app file sum size reads h va vf p n b =
      let begin = binary_begin app file size sum in
      let (k, ek, gk) =
        exchange_lem (lit "upload begin failed") (lit "upload begin error") begin h refl in
      let eb = begin_lem code sys w app file sum size (guest h) va vf p n in
      let s = start-IsUploading code sys w app file sum size (guest h) in
      let u : IsUploading (temp_of app file) (dest_of app file) sum [] (guest k) =
        subst (IsUploading (temp_of app file) (dest_of app file) sum [])
          (sym (gk ∙ ap (λ r. r.1) eb)) s.1 in
      let (j, ej, v) =
        send_chunks-IsUploading (temp_of app file) (dest_of app file) sum [] reads k b u in
      rw (ek, eb, s.0, ej)
        (finish-delivers (temp_of app file) (dest_of app file) sum (input_of reads) j
          (temp-dest app file) v)

  for_app-valid :
      (app : Text) (f : H → Result RuntimeError (Unit {0}) × H) (h : H)
      → validate_app_name app ≡ ok tt
      → for_app net app f h ≡ f h
  for_app-valid app f h va = rw (for_app, va) refl

  connect-known :
      (vms : Dict InstanceInfo) (id : Text) (i : InstanceInfo) (h : H)
      → get vms id ≡ some i
      → i.socket_path ≡ path
      → connect net vms id h ≡ (ok path, h)
  unfolding connect
  connect-known vms id i h known at_path = rw (connect, known) (rw at_path (rw (c.dials h) refl))

  -- An upload to a VM that is known and whose socket leads to its agent, where the system calls of
  -- the agent succeed, for names that are one component each, a positive size, a checksum, and an
  -- input that ends without an error. It returns ok if the SHA-256 of the input is the checksum, and
  -- then the file of the app is exactly the input; otherwise it returns the agent's checksum error.
  -- Either way no upload is in progress afterwards.
  pub runtime_upload_binary_delivers :
      (app file sum : Text) (size : ℤ) (reads : List Read) (vms : Dict InstanceInfo) (id : Text)
      (i : InstanceInfo) (h : H)
      → get vms id ≡ some i
      → i.socket_path ≡ path
      → validate_app_name app ≡ ok tt
      → validate_upload_file_name file ≡ ok tt
      → le_zero size ≡ false
      → sum ≢ []
      → IsReadable reads
      → let r = runtime_upload_binary net app file reads size sum vms id h in
        (r.0 ≡ finished sum (input_of reads))
        × ((guest r.1).upload ≡ none)
        × (code.sha256 (input_of reads) ≡ sum
            → get (guest r.1).files (dest_of app file) ≡ some (input_of reads))
  unfolding runtime_upload_binary validate_app_name
  runtime_upload_binary_delivers app file sum size reads vms id i h known at_path va vf p n b =
      let e : runtime_upload_binary net app file reads size sum vms id h
          ≡ upload_binary_to net app file reads size sum vms id h =
        for_app-valid app (upload_binary_to net app file reads size sum vms id) h va in
      rw (e, connect-known vms id i h known at_path)
        (send_file-delivers app file sum size reads h va vf p n b)
