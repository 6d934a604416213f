-- ===== src/Guest/Transfer/Sending.antt =====
-- internal/init/init.go: the exchanges of `begin`, `data` and `finish` that update the agent, where
-- the calls of the system succeed.
use goship.Base.{
  Text, lit, true, false, List, [], none, some, get, ◌≡◌, ◌≢◌, ◌==◌, text_eq, text_beq_iff,
  if◌then◌else◌, arith, le_zero,
}
use goship.Guest.Message.{InitCommand}
use goship.Guest.State.{Agent, ok, error, System, Coding, checksum_mismatch}
use goship.Guest.Transfer.Update.{
  current_path, swap_binary, handle_update_begin, handle_update_finish,
}
use goship.Guest.Transfer.Swap.{handle_update_finish_atomic}
use goship.Guest.Transfer.Delivery.{
  IsReceiving, begin-IsReceiving, feed, feed-IsReceiving, decode_all,
}

pub record Works (sys : System) : Type 0 where
  pub mkdirs : sys.mkdir_works ≡ true
  pub opens : sys.open_works ≡ true
  pub writes : sys.write_works ≡ true
  pub closes : sys.close_works ≡ true
  pub reads : sys.read_works ≡ true
  pub backups : sys.backup_works ≡ true
  pub installs : sys.install_works ≡ true

module _ (code : Coding) (sys : System) (w : Works sys) where
  begin-ok :
      (cmd : InitCommand) (a : Agent)
      → le_zero cmd.size ≡ false
      → cmd.checksum ≢ []
      → (handle_update_begin cmd sys a).0 ≡ ok
  unfolding handle_update_begin
  begin-ok cmd a p n = ground (arith, p, n, w.mkdirs, w.opens, text_beq_iff cmd.checksum (lit ""))

  swap_binary-ok : (path : Text) (a : Agent) → (swap_binary path sys a).0 ≡ ok
  unfolding swap_binary
  swap_binary-ok path a = ground (arith, w.backups, w.installs)

  -- The state of the agent when every chunk has been sent.
  abbrev pub received : InitCommand → List Text → Agent → Agent
  received cmd chunks a = feed code sys w.writes cmd chunks (handle_update_begin cmd sys a).1

  -- `finish` installs what was written, or rejects it for its checksum.
  finish-ok :
      (a : Agent) (sum c : Text)
      → IsReceiving sum c a
      → (handle_update_finish code sys a).0
        ≡ (if code.sha256 c == sum then ok else error checksum_mismatch)
  unfolding handle_update_finish
  finish-ok a sum c h =
      grind (arith, h.busy, h.written, w.closes, w.reads, h.announced, swap_binary-ok)

  -- An update of a positive size with a checksum, whose chunks are valid base64 and whose system
  -- calls succeed. If the SHA-256 of the bytes sent is the checksum, `finish` replies `ok` and the
  -- agent's binary is exactly those bytes. Otherwise it replies with the checksum's error, and the
  -- binary is the one that stood there before `finish`. Either way no update is in progress.
  pub handle_update_delivers :
      (cmd : InitCommand) (chunks : List Text) (a : Agent) (image : Text)
      → le_zero cmd.size ≡ false
      → cmd.checksum ≢ []
      → decode_all code chunks ≡ some image
      → sys.restore_works ≡ true
      → let b = received cmd chunks a in
        let r = handle_update_finish code sys b in
        (r.1.update ≡ none)
        × (code.sha256 image ≡ cmd.checksum
            → (r.0 ≡ ok) × (get r.1.files (current_path b) ≡ some image))
        × (code.sha256 image ≢ cmd.checksum
            → (r.0 ≡ error checksum_mismatch)
              × (get r.1.files (current_path b) ≡ get b.files (current_path b)))
  handle_update_delivers cmd chunks a image p n d restore =
      let h : IsReceiving cmd.checksum image (received cmd chunks a) =
        feed-IsReceiving code sys w.writes cmd.checksum [] cmd chunks image _
          (begin-IsReceiving cmd sys a (begin-ok cmd a p n)) d in
      let r = finish-ok (received cmd chunks a) cmd.checksum image h in
      let s =
        handle_update_finish_atomic code sys (received cmd chunks a) h.state image h.busy h.place
          h.written in
      let t = text_beq_iff (code.sha256 image) cmd.checksum in
      let b = received cmd chunks a in
      (
        s.0,
        (λ e.
            let o : (handle_update_finish code sys b).0 ≡ ok = ground (arith, e, r, t) in
            (o, (s.1 o).0)),
        (λ e.
            let o : (handle_update_finish code sys b).0 ≡ error checksum_mismatch =
              ground (arith, e, r, t) in
            (o, s.2 (cc o) restore)),
      )
