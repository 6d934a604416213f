-- ===== src/Mock.antt =====
-- internal/agent/runtime/mock/runtime.go: the runtime of the tests, which records its calls and
-- replies by functions that can be replaced.
use goship.Base.{
  Text, lit, ℕ, Bool, true, false, List, [], ◌∷◌, ◌++◌, Option, none, some, ◌==◌, text_eq, Result,
  ok, ℤ, pos, if◌then◌else◌,
}
use goship.Entities.Project.{Project}
use goship.Entities.Instance.{ProjectInstance, InstanceState}
use goship.Entities.App.{AppSpec}
use goship.Runtime.{ExecOutput, ProjectRuntime}

-- What a call was made with.
pub data Arg : Type 0 where
  text : Text → Arg
  texts : List Text → Arg
  flag : Bool → Arg
  number : ℤ → Arg
  project : Project → Arg
  app : AppSpec → Arg
  machine : ProjectInstance → Arg

-- `Call`
pub record MockCall : Type 0 where
  pub method : Text
  pub args : List Arg

-- `Runtime`, without the functions.
pub record Mock : Type 0 where
  pub calls : List MockCall
  pub loaded_instances : List ProjectInstance
  pub stopped : Bool

abbrev pub MockReply : Type 0 → Type 0
MockReply A = Mock → Result Text A × Mock

-- The fields that set what the methods return.
pub record MockFns : Type 0 where
  pub create_instance_fn : Project → MockReply ProjectInstance
  pub destroy_instance_fn : Text → MockReply (Unit {0})
  pub stop_instance_fn : Text → MockReply (Unit {0})
  pub start_instance_fn : Text → MockReply (Unit {0})
  pub deploy_app_fn : Text → AppSpec → MockReply (Unit {0})
  pub stop_app_fn : Text → Text → MockReply (Unit {0})
  pub remove_app_fn : Text → Text → MockReply (Unit {0})
  pub get_instance_status_fn : Text → MockReply ProjectInstance
  pub list_instances_fn : MockReply (List ProjectInstance)
  pub upload_binary_fn : Text → Text → Text → Text → ℤ → Text → MockReply (Unit {0})
  pub upload_image_fn : Text → Text → Text → ℤ → Text → MockReply (Unit {0})
  pub get_app_logs_fn : Text → Text → ℤ → MockReply Text
  pub get_vm_logs_fn : Text → Text → Text → ℤ → MockReply Text
  pub stream_logs_fn : Text → Text → Bool → MockReply Text
  pub exec_command_fn : Text → Text → List Text → MockReply ExecOutput
  pub resize_instance_fn : Text → Project → MockReply (Unit {0})

abbrev pub new_mock : Mock
new_mock = record { calls = []; loaded_instances = []; stopped = false }

abbrev pub with_stopped : Bool → Mock → Mock
with_stopped b m = record m { stopped = b }

abbrev pub nothing_done : MockReply (Unit {0})
nothing_done m = (ok tt, m)

abbrev pub blank_instance : Text → InstanceState → ProjectInstance
blank_instance id state = record {
  id = id;
  project_id = [];
  node_id = [];
  state = state;
  ip_address = [];
  ssh_port = pos 0;
  domain_name = [];
  domain_uuid = [];
  topology = none;
  error = [];
  created_at = 0;
  updated_at = 0;
}

abbrev pub state_of : Bool → InstanceState
state_of true = InstanceState.stopped
state_of false = InstanceState.running

-- `setLifecycleDefaults` and `setIODefaults`; `id` and `now` are the new UUID and the clock.
abbrev pub default_fns : Text → ℕ → MockFns
default_fns id now = record {
  create_instance_fn = λ p m. (
    ok (record (blank_instance id InstanceState.running) {
      project_id = p.id;
      ip_address = lit "10.0.0.42";
      created_at = now;
      updated_at = now;
    }),
    m,
  );
  destroy_instance_fn = λ i. nothing_done;
  stop_instance_fn = λ i m. (ok tt, with_stopped true m);
  start_instance_fn = λ i m. (ok tt, with_stopped false m);
  deploy_app_fn = λ i a. nothing_done;
  stop_app_fn = λ i a. nothing_done;
  remove_app_fn = λ i a. nothing_done;
  get_instance_status_fn = λ i m. (ok (blank_instance i (state_of m.stopped)), m);
  list_instances_fn = λ m. (ok [], m);
  upload_binary_fn = λ i a f c n s. nothing_done;
  upload_image_fn = λ i r c n s. nothing_done;
  get_app_logs_fn = λ i a n m.
      (ok (lit "mock app log line 1" ++ (10 ∷ (lit "mock app log line 2" ++ (10 ∷ [])))), m);
  get_vm_logs_fn = λ i s f n m.
      (ok (lit "mock vm log line 1" ++ (10 ∷ (lit "mock vm log line 2" ++ (10 ∷ [])))), m);
  stream_logs_fn = λ i a b m. (ok [], m);
  exec_command_fn = λ i a c m. (ok (record { stdout = []; stderr = []; exit_code = pos 0 }), m);
  resize_instance_fn = λ i p. nothing_done;
}

-- `record`
unfoldable pub record_call : Text → List Arg → Mock → Mock
record_call name args m = record m {
  calls = m.calls ++ (record { method = name; args = args } ∷ []);
}

-- `CallsFor`
unfoldable pub calls_for : Text → List MockCall → List MockCall
calls_for name [] = []
calls_for name (c ∷ cs) =
    let rest = calls_for name cs in if c.method == name then c ∷ rest else rest

-- `Reset`
abbrev pub reset : Mock → Mock
reset m = new_mock

abbrev pub with_loaded : ProjectInstance → Mock → Mock
with_loaded i m = record m { loaded_instances = m.loaded_instances ++ (i ∷ []) }

-- The instance that was loaded last under an ID, which the mock leaves as it is.
unfoldable pub last_loaded : Text → List ProjectInstance → Option ProjectInstance
last_loaded id [] = none
last_loaded id (i ∷ is) = elim (last_loaded id is) [
  | some j ↦ some j
  | none ↦ if i.id == id then some i else none
]

-- The methods: each records its call and calls its function.
unfoldable pub mock_runtime : MockFns → ProjectRuntime Mock
unfolding record_call last_loaded
mock_runtime f = record {
  create_instance =
      λ p m. f.create_instance_fn p (record_call (lit "CreateInstance") (project p ∷ []) m);
  destroy_instance =
      λ i m. f.destroy_instance_fn i (record_call (lit "DestroyInstance") (text i ∷ []) m);
  stop_instance = λ i m. f.stop_instance_fn i (record_call (lit "StopInstance") (text i ∷ []) m);
  start_instance = λ i m. f.start_instance_fn i (record_call (lit "StartInstance") (text i ∷ []) m);
  deploy_app =
      λ i a m. f.deploy_app_fn i a (record_call (lit "DeployApp") (text i ∷ (app a ∷ [])) m);
  stop_app = λ i a m. f.stop_app_fn i a (record_call (lit "StopApp") (text i ∷ (text a ∷ [])) m);
  remove_app =
      λ i a m. f.remove_app_fn i a (record_call (lit "RemoveApp") (text i ∷ (text a ∷ [])) m);
  get_instance_status =
      λ i m. f.get_instance_status_fn i (record_call (lit "GetInstanceStatus") (text i ∷ []) m);
  list_instances = λ m. f.list_instances_fn (record_call (lit "ListInstances") [] m);
  upload_binary = λ i a n c s h m.
      f.upload_binary_fn i a n c s h
        (record_call (lit "UploadBinary") (text i ∷ (text a ∷ (text n ∷ []))) m);
  upload_image = λ i r c s h m.
      f.upload_image_fn i r c s h (record_call (lit "UploadImage") (text i ∷ (text r ∷ [])) m);
  get_app_logs = λ i a n m.
      f.get_app_logs_fn i a n
        (record_call (lit "GetAppLogs") (text i ∷ (text a ∷ (number n ∷ []))) m);
  get_vm_logs = λ i s l n m.
      f.get_vm_logs_fn i s l n
        (record_call (lit "GetVMLogs") (text i ∷ (text s ∷ (text l ∷ (number n ∷ [])))) m);
  stream_logs = λ i a b m.
      f.stream_logs_fn i a b (record_call (lit "StreamLogs") (text i ∷ (text a ∷ (flag b ∷ []))) m);
  exec_command = λ i a c m.
      f.exec_command_fn i a c
        (record_call (lit "ExecCommand") (text i ∷ (text a ∷ (texts c ∷ []))) m);
  resize_instance = λ i p m.
      f.resize_instance_fn i p (record_call (lit "ResizeInstance") (text i ∷ (project p ∷ [])) m);
  load_instance = λ i m. with_loaded i (record_call (lit "LoadInstance") (machine i ∷ []) m);
  object = λ id m. last_loaded id m.loaded_instances;
}
