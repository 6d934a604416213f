-- ===== src/Tests/CommandExamples.antt =====
-- Commands to an agent without Docker, its log files, and the paths that it reads.
use goship.Base.{
  Text, lit, text_beq, has_prefix, ℕ, ◌-◌, true, [], ◌∷◌, ◌++◌, none, some, All, drop, ok, ◌≡◌,
  refl, arith,
}
use goship.Strings.{no_file, bytes, raw_lines, scan, unsnoc, split, keep_components, clean, Stays}
use goship.Supervisor.Manager.{new_process_manager}
use goship.Guest.Message.{InitCommand}
use goship.Guest.Logs.{read_last_n_lines, join_lines, read_last_n_lines_exact}
use goship.Guest.Executor.{AppExecutor, Answers}
use goship.Guest.Commands.{Machine, log_path}
use goship.Guest.LogPaths.{log_path_inside}
use goship.Tests.Fixtures.{machine, agent, update_command}

-- Docker that answers every call.
abbrev docker_ops : AppExecutor ℕ
docker_ops = record {
  deploy_app = λ app d. (ok tt, d);
  stop_app = λ name d. (ok tt, d);
  remove_app = λ name d. (ok tt, d);
  status = λ d. ok [];
  logs = λ name n d. ok [];
}

abbrev answers : Answers
answers = record {
  deployment = machine;
  failure = true;
  proc_status = λ i. lit "sleeping";
  read = λ path. no_file;
}

abbrev host : Machine ℕ
host = record {
  agent = agent;
  executors = record { docker = none; process = some new_process_manager };
}

abbrev stop_worker : InitCommand
stop_worker = record update_command { action = lit "stop"; app_name = lit "worker" }

three-scan : scan (raw_lines (lit "a\nb\nc\n")) ≡ some (lit "a" ∷ lit "b" ∷ lit "c" ∷ [])
unfolding scan raw_lines unsnoc
three-scan = refl

cloud_init-path :
    log_path (lit "/var/log/x/../cloud-init.log") ≡ some (lit "/var/log/cloud-init.log")
unfolding log_path clean keep_components split has_prefix text_beq
cloud_init-path = refl

read_last_n_lines_exact_example :
    read_last_n_lines (bytes (lit "a\nb\nc\n")) 2
    ≡ ok (join_lines (drop (3 - 2) (lit "a" ∷ lit "b" ∷ lit "c" ∷ [])))
read_last_n_lines_exact_example =
    read_last_n_lines_exact (lit "a\nb\nc\n") (lit "a" ∷ lit "b" ∷ lit "c" ∷ []) 2 (omega arith)
      three-scan

log_path_inside_example :
    (rest : Text) × (lit "/var/log/cloud-init.log" ≡ lit "/var/log/" ++ rest)
    × All (Stays true) (split b'/' rest)
log_path_inside_example =
    log_path_inside (lit "/var/log/x/../cloud-init.log") (lit "/var/log/cloud-init.log")
      cloud_init-path
