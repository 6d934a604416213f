-- ===== src/Tests/Fixtures.antt =====
-- The app, the agent and the answers of the system that several examples use.
use goship.Base.{Text, lit, true, false, [], ◌∷◌, ◌++◌, Option, none, some, pos}
use goship.Entities.App.{AppSpec, ExecutionMode, RestartPolicy}
use goship.Supervisor.Manager.{DeployEnv}
use goship.Guest.Message.{InitCommand}
use goship.Guest.State.{Agent, System, Coding}
use goship.Entities.Resources.{Resources}
use goship.Entities.Project.{Project, RuntimeType, ProjectState}
use goship.Store.Disk.{Store, Env, File, absent, written, marshal_fails, to_file}

abbrev pub worker : AppSpec
worker = record {
  name = lit "worker";
  execution_mode = ExecutionMode.process;
  image = [];
  tag = [];
  binary = lit "/opt/goship/binaries/worker/run";
  replicas = pos 1;
  command = [];
  args = [];
  env = [];
  ports = [];
  volumes = [];
  resources = record { cpu = 0; memory_mb = pos 64; disk_mb = pos 64 };
  health_check = none;
  restart_policy = RestartPolicy.on_failure;
  working_dir = [];
  hostname = [];
  available = none;
  description = [];
  tags = [];
  created_at = 3;
}

abbrev pub machine : DeployEnv
machine = record {
  now = 5;
  failure = true;
  binary_exists = true;
  log_opens = true;
  starts = some 101;
  environ = [];
}

-- A decoder that drops a mark, and a digest that puts one.
abbrev pub unmark : Text → Option Text
unmark [] = none
unmark (c ∷ s) = some s

abbrev pub coding : Coding
coding = record { decode = unmark; sha256 = λ s. lit "sha256:" ++ s }

abbrev pub all_work : System
all_work = record {
  mkdir_works = true;
  open_works = true;
  write_works = true;
  close_works = true;
  read_works = true;
  backup_works = true;
  install_works = true;
  restore_works = true;
  image_opens = true;
  image_loads = true;
}

abbrev pub agent : Agent
agent = record {
  init_dir = lit "/bin";
  files = (lit "/bin/goship-init", lit "old") ∷ (lit "/bin/goship-init.new", lit "new") ∷ [];
  update = none;
  upload = none;
  image_upload = none;
  docker = false;
  loaded = [];
}

abbrev pub update_command : InitCommand
update_command = record {
  action = lit "update-init";
  app = none;
  app_name = [];
  lines = pos 0;
  log_file = [];
  phase = lit "begin";
  chunk = [];
  size = pos 3;
  checksum = lit "sha256:new";
  file_name = [];
  image_ref = [];
}

abbrev pub small : Resources
small = record { cpu = 0; memory_mb = pos 512; disk_mb = pos 4096 }

abbrev pub works : Env
works = record { now = 7; io = written }

abbrev pub fails : Env
fails = record { now = 8; io = marshal_fails }

abbrev pub dir : Text
dir = lit "/var/lib/goship"

abbrev pub empty_store : Store
empty_store = record {
  data_dir = dir;
  path = lit "/var/lib/goship/state.json";
  state = record {
    version = lit "v1";
    projects = [];
    instances = [];
    apps = [];
    nodes = [];
    updated_at = 0;
  };
  file = absent;
}

abbrev pub web : Project
web = record {
  id = lit "p1";
  name = lit "web";
  runtime = RuntimeType.qemu;
  resources = small;
  topology = none;
  state = ProjectState.pending;
  labels = [];
  domains = [];
  default_domain = [];
  env = none;
  created_at = 7;
  updated_at = 7;
}

-- The store after the project `web` was made.
abbrev pub one_project : Store
one_project = record empty_store {
  state = record empty_store.state { projects = (lit "p1", web) ∷ []; updated_at = 7 };
  file =
      File.holds
        (to_file (record empty_store.state { projects = (lit "p1", web) ∷ []; updated_at = 7 }));
}
