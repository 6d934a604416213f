-- ===== src/Tests/AgentExamples.antt =====
-- A tick of an agent whose node the control plane has.
use goship.Base.{Text, lit, [], ◌∷◌, Option, some, get, Result, ok, err, itoa}
use goship.Entities.Project.{Node, NodeStatus}
use goship.Store.Disk.{Store}
use goship.Api.Replies.{ApiError}
use goship.Api.Nodes.{handle_node_heartbeat, handle_node_desired_state}
use goship.Reconciler.{DesiredState}
use goship.Runtime.{ProjectRuntime}
use goship.Mock.{Mock, new_mock, default_fns, mock_runtime}
use goship.Agent.{Http, Method, NodeAgent, AgentState}
use goship.Agent.Ticking.{over_wire, answer, unchanged}
use goship.Tests.Fixtures.{small, works, one_project}

abbrev mock : ProjectRuntime Mock
mock = mock_runtime (default_fns (lit "i1") 1)

abbrev home : NodeAgent
home = record { node_id = lit "n1"; server_url = lit "http://cp:8080" }

-- The documents that go over the network.
data Doc : Type 0 where
  of_node : Node → Doc
  of_desired : DesiredState → Doc
  of_error : ApiError → Doc
  of_registration : Text → Text → Doc

abbrev desired_in : Doc → Result Text DesiredState
desired_in (of_desired d) = ok (over_wire d)
desired_in _ = err (lit "not a desired state")

abbrev error_in : Doc → Result Text Text
error_in (of_error x) = ok (lit "refused")
error_in _ = ok []

abbrev direct : Http Doc Store
direct = record {
  bad_url = λ u. Option.none;
  send = λ q s. elim q.method [
    | Method.post ↦ answer of_node of_error itoa (handle_node_heartbeat (lit "n1") works s) s
    | Method.get ↦
        answer of_desired of_error itoa (unchanged s (handle_node_desired_state (lit "n1") s)) s
  ];
  encode_registration = λ h p. ok (of_registration h p);
  decode_error = error_in;
  decode_desired = desired_in;
}

abbrev alpha : Node
alpha = record {
  id = lit "n1";
  hostname = lit "alpha";
  endpoint = [];
  status = NodeStatus.draining;
  resources = small;
  labels = [];
  last_heartbeat = 1;
  created_at = 1;
  updated_at = 1;
}

abbrev with_node : Store
with_node = record one_project {
  state = record one_project.state { nodes = (lit "n1", some alpha) ∷ [] };
}

abbrev start : AgentState Store Mock
start = record { network = with_node; machines = new_mock; failures = [] }
