-- ===== src/Guest/Dispatch.antt =====
-- What each command does to the executors of the agent (internal/init/init.go, dispatched by
-- internal/init/comm.go).
use goship.Base.{lit, [], some, text_eq, if◌then◌else◌, ◌≡◌, ◌≢◌}
use goship.Entities.Name.{NameError}
use goship.Entities.App.{AppSpec, ExecutionMode}
use goship.Entities.Components.{IsComponent}
use goship.Supervisor.Manager.{deploys, stops, removes, asks}
use goship.Guest.Message.{InitCommand}
use goship.Guest.Executor.{AppExecutor, Answers}
use goship.Guest.Commands.{Machine, Response, done, refused, bad_name}
use goship.Guest.Acting.{acted, docker_stops, docker_removes}

module _ {D : Type 0} (ops : AppExecutor D) (ans : Answers) where
  -- The command is refused for its name, and nothing is done.
  abbrev pub IsRefused : Machine D → Response × Machine D → Type 0
  IsRefused m r = (e : NameError) × (r ≡ (refused (bad_name e), m))

  -- What the commands do, by their action.
  pub record Acts (cmd : InitCommand) (m : Machine D) (r : Response × Machine D) : Type 0 where
    pub deploys_process :
        (app : AppSpec)
        → cmd.action ≡ lit "deploy"
        → cmd.app ≡ some app
        → IsComponent app.name
        → app.execution_mode ≡ ExecutionMode.process
        → app.binary ≢ []
        → (r.1.executors.process ≡ acted (deploys (some app) ans.deployment) m.executors.process)
          × (r.1.executors.docker ≡ m.executors.docker)
    pub deploys_container :
        (app : AppSpec) (d : D)
        → cmd.action ≡ lit "deploy"
        → cmd.app ≡ some app
        → IsComponent app.name
        → app.execution_mode ≡ ExecutionMode.container
        → app.image ≢ []
        → m.executors.docker ≡ some d
        → (r.1.executors.process ≡ m.executors.process)
          × (r.1.executors.docker ≡ some (ops.deploy_app app d).1)
    pub deploys_unnamed :
        (app : AppSpec)
        → cmd.action ≡ lit "deploy"
        → cmd.app ≡ some app
        → (IsComponent app.name → ⊥)
        → IsRefused m r
    pub stops_app :
        cmd.action ≡ lit "stop"
        → IsComponent cmd.app_name
        → (r.0 ≡ done)
          × (r.1.executors.process ≡ (
              if docker_stops ops ans cmd.app_name m.executors.docker
              then m.executors.process
              else acted (stops cmd.app_name ans.failure) m.executors.process))
    pub stops_unnamed : cmd.action ≡ lit "stop" → (IsComponent cmd.app_name → ⊥) → IsRefused m r
    pub removes_app :
        cmd.action ≡ lit "remove"
        → IsComponent cmd.app_name
        → (r.0 ≡ done)
          × (r.1.executors.process ≡ acted (removes cmd.app_name ans.failure) m.executors.process)
          × (r.1.executors.docker ≡ docker_removes ops ans cmd.app_name m.executors.docker)
    pub removes_unnamed : cmd.action ≡ lit "remove" → (IsComponent cmd.app_name → ⊥) → IsRefused m r
    pub asks_status :
        cmd.action ≡ lit "status"
        → (r.1.executors.process ≡ acted (asks ans.proc_status) m.executors.process)
          × (r.1.executors.docker ≡ m.executors.docker)
    pub others :
        cmd.action ≢ lit "deploy"
        → cmd.action ≢ lit "stop"
        → cmd.action ≢ lit "remove"
        → cmd.action ≢ lit "status"
        → r.1.executors ≡ m.executors
