-- ===== src/Lib.antt =====
-- goship: models and proofs for the Go program of this repository, a control plane that runs
-- projects in virtual machines and an agent that runs apps inside each of them.
--
-- The program's parts. The control plane (internal/api, cmd/goship) keeps its projects, instances,
-- apps and nodes in a store with one JSON file (internal/shared/state) and sends commands to the
-- agent of a project's VM. The agent (internal/init, cmd/goship-init) answers them: it runs apps as
-- Docker containers or as processes that it restarts, and it receives binaries and images in
-- chunks. The CLI turns docker-compose files into app specifications (internal/compose).
--
-- The files here:
--   Base         tests, texts, maps, integers and results that the others share;
--   Strings      what the program uses of Go's strings (Cutting), strconv (Numbers), bufio.Scanner
--                (Scanning) and path/filepath (Paths, Components);
--   Size         internal/shared/size/parse.go: `ParseSizeMB`;
--   Entities     pkg/domain/entities: the structs (Resources, Project, Instance, App, LocalState),
--                the checks of names (Name, `ValidateProjectName`, `ValidateAppName`) and of
--                bindings (`ValidateProjectInstanceBinding`), and the accepted names (Components);
--   Store        internal/shared/state/local.go: `NewStore`, `load` and `save` (Disk), the methods
--                on projects (Projects) and on the other records (Records), the calls as data and
--                the histories of a store (Requests); what is kept (Loading, Keeping, KeepingApps,
--                Creating, Histories), restarts (Restart), names (Names, Uniqueness) and deletions
--                (Orphans);
--   Supervisor   internal/init/process.go: a process and its exits (Process), `ProcessManager`
--                with `Deploy`, `Stop`, `Remove`, `GetStatus`, `Close`, and the critical sections
--                of `monitorProcess` as events (Manager); what holds in every interleaving
--                (Safety, Interleavings), restarts (Restarts) and stops (Stopping);
--   Guest        internal/init/init.go: the commands (Message), the files and the state of the
--                agent (Files, State), and its transfers: `handleUpdateInit` (Update),
--                `handleUploadBinary` (Upload), `handleUploadImage` (Image), the swap of the binary
--                (Swap), whole transfers (Delivery, Sending) and the installation of an upload
--                (Install); `readLastNLines` (Logs),
--                internal/init/docker.go (Docker) and its deployments (Containers, Replacing),
--                internal/init/executor.go (Executor), the other handlers and the dispatch of
--                internal/init/comm.go (Commands), what they do to the executors (Acting, Dispatch) and
--                which files they read (LogPaths); the device of internal/init/comm.go and its loop
--                (Serial, Listening);
--   Compose      internal/compose: a decoded file (Service), `LoadEnvFile` (EnvFile), the
--                substitution (Substitute) and its templates (Templates), the fields of a service
--                (Fields, Ports), `resolveServiceEnv` and `ParseBytes` (Parsing, Merging);
--   Runtime      internal/agent/runtime/runtime.go: the interface `ProjectRuntime`;
--   Mock         internal/agent/runtime/mock/runtime.go: the runtime that the examples use;
--   Vault        internal/vault: `New`, `Encrypt`, `Decrypt`, `IsEncrypted`, over the encodings of
--                the standard library (Base64, Hex), what they undo (Encryption), and
--                `LoadOrCreateMasterKey` (Keyring);
--   Manifest     internal/manifest: `Load`, `Validate`, `Resolve`, and what they give (Overlay);
--   Api          internal/proxy: `RouteTable` and the backend of a request, and the routes of an app
--                in internal/api/app_handlers.go (Routes, Reconciling); `handleAppUpdate` (Apps,
--                Updates); `handleProjectUpdate` (Projects, Resizing); the replies and the state
--                that the other handlers share (Replies); internal/api/project_handlers.go: stop,
--                start and restart (Lifecycle), create, delete, get and list (Creation), domains
--                (Domains), and logs, also of apps (Logs); the other handlers of apps (Deploying);
--                internal/api/env_handlers.go (Environments); node_handlers.go (Nodes);
--                upload_handlers.go (Uploads). What they leave: Stored, Stopping, Waiting, Undone,
--                Removing, Serving, Registering, and Revealing with Secrets for the environments;
--                the listed routes (Listing);
--   Reconciler   internal/agent/reconciler.go: `Reconcile` over a runtime;
--   Agent        internal/agent/agent.go: the agent of a node, over net/http as an interface, and a
--                tick of it against the handlers of the control plane (Ticking);
--   Libvirt      internal/agent/runtime/libvirt: the exchanges with the agent of a VM, `SendCommand`
--                (Libvirt), apps and logs (Apps), `UploadBinary` and `UploadImage` (Uploads) and
--                what arrives in the VM (Uploading, Delivered), the states of the VMs (Machines),
--                `StopInstance` (Powering, Stopping) and `StartInstance` (Readiness) with their waits;
--   Tests        the theorems at concrete values.
--
-- How code becomes definitions. A text is the list of its bytes, valid UTF-8. A map is an
-- association list, in the order in which a loop would visit it, whichever that is. A nil pointer
-- is `none`. A pair of a value and an error is a `Result`; a panic is an outcome of its own. The
-- clock, new UUIDs, PIDs and what the system answers to a call are arguments: `Env` for a call of
-- the store, `DeployEnv` for a deployment, `System` for a command of the agent. A float64 is its
-- bits. A string type with named constants is a data type with `other` for the rest. SHA-256 and the
-- cipher are parameters (`Cipher`), and so is the decoding of chunks in the agent (`Coding`). The mutex of the store makes its calls atomic; the goroutines
-- of the supervisor are events between the lock's critical sections, over objects with addresses.
-- The state file holds what encoding/json would read back: `omitempty` on `Project.Env` is the one
-- difference between the state and the file.
--
-- The handlers change objects that the store holds, and the runtime changes the instance that was
-- loaded into it, which is the same object: `shared` puts it back after each call. The deadline of a
-- request that waits is the count of ticks that come before it.
--
-- Nothing runs on fuel but `itoa`, whose fuel, the number and one more, is enough
-- (`parse_int-itoa`); the other loops are over lists, or over the ticks of a ticker before a deadline: a
-- context without a deadline, for which the code need not end, is left aside.
--
-- The executors get Docker's manager by the interface `AppExecutor`, and it the Docker client
-- (`DockerClient`); arguments are also time.ParseDuration, strconv.ParseFloat,
-- the host's environment and the files that a parser reads (`Outside`, `Answers`).
--
-- `readLastNLines` is called for a positive count of lines; for none the code would panic on a
-- first line, and the model returns.
--
-- Not modelled: the table of routes and the JSON of the HTTP API, how the libvirt runtime makes and
-- destroys VMs (disks, XML, cloud-init), the Docker client, writing to the serial device,
-- the HTTP transport and the CLI, mostly calls of systems outside. White space beyond ASCII is not
-- trimmed. Memory suffices. Errors that the code ignores (removing a temporary file, closing a log)
-- do not happen. `NewStore` gets its directory after `~` has been replaced and the directory made.

pub mod Base
pub mod Runtime
pub mod Mock
pub mod Reconciler
pub mod Agent
pub mod Libvirt
pub mod Strings
pub mod Vault
pub mod Manifest
pub mod Size
pub mod Entities
pub mod Store
pub mod Supervisor
pub mod Guest
pub mod Compose
pub mod Api
pub mod Tests
