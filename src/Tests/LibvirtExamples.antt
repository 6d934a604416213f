-- ===== src/Tests/LibvirtExamples.antt =====
-- An upload to the VM of a project, over a socket that hands each command to the agent.
use goship.Base.{
  Bool, true, false, if◌then◌else◌, Text, text_beq, contains_rune, arith, lit, List, [], ◌∷◌, ◌++◌,
  Option, none, some, Dict, get, Result, ok, err, pos, ◌≡◌, refl,
}
use goship.Entities.Instance.{InstanceState}
use goship.Vault.Base64.{decode64}
use goship.Entities.Name.{validate_app_name, validate_path_component}
use goship.Guest.Message.{InitCommand}
use goship.Guest.State.{Agent, Reply, Coding}
use goship.Guest.Transfer.Sending.{Works}
use goship.Guest.Transfer.Upload.{validate_upload_file_name, handle_upload_binary}
use goship.Libvirt.{InitResponse, Sockets, RuntimeError, InstanceInfo}
use goship.Libvirt.Uploads.{Read, more, at_end, runtime_upload_binary}
use goship.Libvirt.Uploading.{dest_of}
use goship.Libvirt.Delivered.{
  seen_reply, Reaches, IsReadable, input_of, finished, runtime_upload_binary_delivers,
}
use goship.Libvirt.Machines.{LibvirtApi, shutoff, running, Machines}
use goship.Tests.Fixtures.{all_work, agent}

-- The lines that go over the socket, and the reply that waits to be read.
data Line : Type 0 where
  command_line : InitCommand → Line
  reply_line : Reply → Line

record Link : Type 0 where
  guest : Agent
  waiting : List Reply

abbrev plain : Coding
plain = record { decode = decode64; sha256 = λ s. lit "sha256:" ++ s }

abbrev put_line : Line → Link → Option Text × Link
put_line (reply_line r) h = (some (lit "not a command"), h)
put_line (command_line c) h =
    let r = handle_upload_binary plain c all_work h.guest in
    (none, record { guest = r.1; waiting = r.0 ∷ [] })

abbrev take_line : List Reply → Agent → Result Text Line × Link
take_line [] a = (err (lit "EOF"), record { guest = a; waiting = [] })
take_line (r ∷ rs) a = (ok (reply_line r), record { guest = a; waiting = rs })

abbrev reply_in : Line → Result Text Reply
reply_in (reply_line r) = ok r
reply_in (command_line c) = err (lit "not a reply")

abbrev as_response : Result Text Reply → Result Text InitResponse
as_response (ok r) = ok (seen_reply (λ f. lit "refused") r)
as_response (err e) = err e

abbrev socket : Text
socket = lit "/data/vms/web/goship.sock"

abbrev link : Sockets Link Line
link = record {
  dial = λ path h. (none, h);
  set_deadline = λ path h. (none, h);
  marshal = λ c. ok (command_line c);
  write_line = λ path l h. put_line l h;
  read_line = λ path h. take_line h.waiting h.guest;
  unmarshal = λ l. as_response (reply_in l);
}

link-Reaches : Reaches link socket plain all_work (λ h. h.guest)
link-Reaches = record {
  command_line = command_line;
  reply_line = reply_line;
  said = λ f. lit "refused";
  dials = λ h. refl;
  deadlines = λ h. refl;
  marshals = λ c. refl;
  unmarshals = λ r. refl;
  serves = λ c h e. (_, _, refl, refl, refl);
}

all_work-Works : Works all_work
all_work-Works = record {
  mkdirs = refl;
  opens = refl;
  writes = refl;
  closes = refl;
  reads = refl;
  backups = refl;
  installs = refl;
}

abbrev info : InstanceInfo
info = record {
  machine = record {
    id = lit "i1";
    project_id = lit "p1";
    node_id = lit "local";
    state = InstanceState.running;
    ip_address = lit "10.0.0.2";
    ssh_port = pos 0;
    domain_name = lit "goship-web";
    domain_uuid = [];
    topology = none;
    error = [];
    created_at = 1;
    updated_at = 1;
  };
  socket_path = socket;
}

abbrev reads : List Read
reads =
    record { bytes = lit "hel"; ending = more } ∷ record { bytes = lit "lo"; ending = at_end } ∷ []

abbrev machines : Dict InstanceInfo
machines = (lit "i1", info) ∷ []

abbrev before : Link
before = record { guest = agent; waiting = [] }

abbrev sum : Text
sum = lit "sha256:hello"

abbrev uploaded : Result RuntimeError (Unit {0}) × Link
uploaded =
    runtime_upload_binary link (lit "api") (lit "server") reads (pos 5) sum machines (lit "i1")
      before

api-valid : validate_app_name (lit "api") ≡ ok tt
unfolding validate_app_name text_beq validate_path_component contains_rune
api-valid = refl

server-valid : validate_upload_file_name (lit "server") ≡ ok tt
unfolding validate_upload_file_name text_beq contains_rune
server-valid = refl

reads-IsReadable : IsReadable reads
reads-IsReadable =
    ((omega arith, (omega arith, (omega arith, tt))), ((omega arith, (omega arith, tt)), tt))

-- Witness.
runtime_upload_binary_delivers_example :
    (uploaded.0
      ≡ finished link socket plain all_work
          (λ h. h.guest)
          all_work-Works
          link-Reaches
          (λ s. refl)
          sum
          (input_of reads))
    × (uploaded.1.guest.upload ≡ none)
    × (plain.sha256 (input_of reads) ≡ sum
        → get uploaded.1.guest.files (dest_of (lit "api") (lit "server")) ≡ some (input_of reads))
unfolding get text_beq
runtime_upload_binary_delivers_example =
    runtime_upload_binary_delivers link socket plain all_work (λ h. h.guest) all_work-Works
      link-Reaches (λ s. refl) (lit "api") (lit "server") sum (pos 5) reads machines (lit "i1") info
      before refl refl api-valid server-valid refl (λ e. cc e) reads-IsReadable

-- A host whose one domain is shut off as soon as it is asked to be.
abbrev host : LibvirtApi Bool
host = record {
  connection = λ w. (none, w);
  find_domain = λ name w. (ok tt, w);
  get_state = λ name w. (ok (if w then shutoff else running), w);
  shut_down = λ name w. (none, true);
  create = λ name w. (none, false);
}

abbrev up : Machines Bool
up = record { vms = machines; domains = false }
