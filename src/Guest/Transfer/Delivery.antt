-- ===== src/Guest/Transfer/Delivery.antt =====
-- A whole transfer of the agent's binary or of an app's: what is installed is what was sent.
use goship.Base.{
  Text, lit, ◌+◌, Bool, true, false, ◌++◌, List, [], ◌∷◌, Option, none, some, get, get-put_self,
  ◌≡◌, refl, sym, ap, ◌==◌, text_eq, length, length-append, le_zero, subst,
}
use mathlib.Core.List.{append_assoc, append-nil}
use goship.Guest.Message.{InitCommand}
use goship.Guest.Files.{get-append_to}
use goship.Guest.State.{UpdateState, Agent, ok, progress, System, Coding}
use goship.Guest.Transfer.Update.{new_path, cleanup_update, handle_update_begin, handle_update_data}

-- The bytes that the chunks stand for, if each is valid base64.
unfoldable pub decode_all : Coding → List Text → Option Text
decode_all code [] = some []
decode_all code (x ∷ xs) =
    let rest = decode_all code xs in
    elim (code.decode x) [
      | none ↦ none
      | some bytes ↦ elim rest [ none ↦ none | some r ↦ some (bytes ++ r) ]
    ]

-- An update is in progress that announced the checksum, and `c` has been received.
pub record IsReceiving (sum : Text) (c : Text) (a : Agent) : Type 0 where
  pub state : UpdateState
  pub busy : a.update ≡ some state
  pub place : state.path ≡ new_path a
  pub announced : state.checksum ≡ sum
  pub written : get a.files state.path ≡ some c
  pub count : state.received ≡ length c

pub begin-IsReceiving :
    (cmd : InitCommand) (sys : System) (a : Agent)
    → (handle_update_begin cmd sys a).0 ≡ ok
    → IsReceiving cmd.checksum [] (handle_update_begin cmd sys a).1
unfolding handle_update_begin
begin-IsReceiving cmd sys a h =
    go (le_zero cmd.size) refl (cmd.checksum == lit "") refl sys.mkdir_works refl sys.open_works
      refl
  where
    go :
        (b : Bool)
        → le_zero cmd.size ≡ b
        → (d : Bool) → (cmd.checksum == lit "") ≡ d
        → (f : Bool) → sys.mkdir_works ≡ f
        → (g : Bool) → sys.open_works ≡ g
        → IsReceiving cmd.checksum [] (handle_update_begin cmd sys a).1
    go true eb d ed f ef g eg = cc (rw (eb, handle_update_begin) at h)
    go false eb true ed f ef g eg = cc (rw (eb, ed, handle_update_begin) at h)
    go false eb false ed false ef g eg = cc (rw (eb, ed, ef, handle_update_begin) at h)
    go false eb false ed true ef false eg = cc (rw (eb, ed, ef, eg, handle_update_begin) at h)
    go false eb false ed true ef true eg =
        rw (eb, ed, ef, eg, handle_update_begin)
          (record {
            state = record {
              path = new_path (cleanup_update a);
              total_size = cmd.size;
              checksum = cmd.checksum;
              received = 0;
            };
            busy = refl;
            place = refl;
            announced = refl;
            written = get-put_self (cleanup_update a).files _ [];
            count = refl;
          })

-- One chunk: the reply counts every byte received so far.
module _ (code : Coding) (sys : System) (works : sys.write_works ≡ true) where
  pub data-IsReceiving :
      (sum : Text) (c : Text) (cmd : InitCommand) (bytes : Text) (a : Agent)
      → IsReceiving sum c a
      → code.decode cmd.chunk ≡ some bytes
      → ((handle_update_data code cmd sys a).0 ≡ progress (length (c ++ bytes)))
        × IsReceiving sum (c ++ bytes) (handle_update_data code cmd sys a).1
  unfolding handle_update_data
  data-IsReceiving sum c cmd bytes a h d =
      rw (h.busy, handle_update_data)
        (rw (d, works)
          (
            ap progress (rw h.count (sym (length-append c bytes))),
            record {
              state = record (h.state) { received = h.state.received + length bytes };
              busy = refl;
              place = h.place;
              announced = h.announced;
              written = get-append_to h.state.path bytes a.files c h.written;
              count = rw h.count (sym (length-append c bytes));
            },
          ))

  -- The chunks of a transfer in turn, as the host sends them.
  abbrev pub feed : InitCommand → List Text → Agent → Agent
  feed cmd [] a = a
  feed cmd (x ∷ xs) a = feed cmd xs (handle_update_data code (record cmd { chunk = x }) sys a).1

  pub feed-IsReceiving :
      (sum : Text) (c : Text) (cmd : InitCommand) (chunks : List Text) (rest : Text) (a : Agent)
      → IsReceiving sum c a
      → decode_all code chunks ≡ some rest
      → IsReceiving sum (c ++ rest) (feed cmd chunks a)
  unfolding decode_all
  feed-IsReceiving sum c cmd [] rest a h e = subst (λ t. IsReceiving sum t a) (cc (append-nil c)) h
  feed-IsReceiving sum c cmd (x ∷ xs) rest a h e =
      go (code.decode x) refl (decode_all code xs) refl (λ bytes r ed er.
        feed-IsReceiving sum (c ++ bytes) cmd xs r _
          (data-IsReceiving sum c (record cmd { chunk = x }) bytes a h ed).1 er)
    where
      go :
          (d : Option Text)
          → code.decode x ≡ d
          → (r : Option Text) → decode_all code xs ≡ r
          → ((bytes r : Text)
              → code.decode x ≡ some bytes
              → decode_all code xs ≡ some r
              → IsReceiving sum ((c ++ bytes) ++ r) (feed cmd (x ∷ xs) a))
          → IsReceiving sum (c ++ rest) (feed cmd (x ∷ xs) a)
      go none ed r er k = cc (rw (ed, decode_all) at e)
      go (some bytes) ed none er k = cc (rw (ed, er, decode_all) at e)
      go (some bytes) ed (some r) er k =
          subst (λ t. IsReceiving sum t (feed cmd (x ∷ xs) a))
            (cc (append_assoc c bytes r, rw (ed, er, decode_all) at e)) (k bytes r ed er)
