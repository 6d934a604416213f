-- ===== src/Api/Nodes.antt =====
-- internal/api/node_handlers.go: the nodes. A nil node that stands in the store makes a handler
-- panic where it reads a field. The nodes that are changed in place stand under their IDs.
use goship.Base.{
  Text, lit, ℕ, Bool, true, List, [], ◌∷◌, Option, none, some, Dict, put, ◌==◌, text_eq, Result, ok,
  err, if◌then◌else◌,
}
use goship.Entities.Resources.{Resources}
use goship.Entities.Project.{Project, Node, NodeStatus}
use goship.Entities.App.{AppSpec}
use goship.Store.Disk.{Store, StoreError, node_not_found, Env}
use goship.Store.Projects.{list_projects}
use goship.Store.Records.{
  Outcome, returns, panic, get_node, set_node, delete_node, list_nodes, get_apps,
}
use goship.Reconciler.{DesiredState}
use goship.Api.Replies.{ApiError, bad_request, not_found, conflict, server_error}

pub record RegisterNodeRequest : Type 0 where
  pub hostname : Text
  pub endpoint : Text
  pub resources : Resources
  pub labels : Option (Dict Text)

-- Whether a node has the hostname; the loop reads the field of each.
unfoldable pub hostname_taken : Text → List (Option Node) → Outcome Bool
hostname_taken h [] = returns Bool.false
hostname_taken h (none ∷ ns) = panic
hostname_taken h (some n ∷ ns) =
    let rest = hostname_taken h ns in if n.hostname == h then returns true else rest

abbrev pub new_node : RegisterNodeRequest → Text → ℕ → Node
new_node req id now = record {
  id = id;
  hostname = req.hostname;
  endpoint = req.endpoint;
  status = NodeStatus.online;
  resources = req.resources;
  labels = elim req.labels [ none ↦ [] | some m ↦ m ];
  last_heartbeat = now;
  created_at = now;
  updated_at = now;
}

abbrev pub node_saved :
    Node → Result StoreError (Unit {0}) × Store → Outcome (Result ApiError Node × Store)
node_saved n (err x, s) = returns (err server_error, s)
node_saved n (ok u, s) = returns (ok n, s)

abbrev pub register_new :
    RegisterNodeRequest → Text → Env → Outcome Bool → Store → Outcome (Result ApiError Node × Store)
register_new req id e panic s = panic
register_new req id e (returns b) s =
    let n = new_node req id e.now in
    if b then returns (err conflict, s) else node_saved n (set_node n e s)

abbrev pub register_read :
    RegisterNodeRequest → Text → Env → Store → Outcome (Result ApiError Node × Store)
register_read req id e s =
    if req.hostname == lit ""
    then returns (err bad_request, s)
    else register_new req id e (hostname_taken req.hostname (list_nodes s)) s

-- `handleNodeRegister`; `id` is the new UUID.
unfoldable pub handle_node_register :
    Option RegisterNodeRequest → Text → Env → Store → Outcome (Result ApiError Node × Store)
unfolding hostname_taken list_nodes set_node
handle_node_register none id e s = returns (err bad_request, s)
handle_node_register (some req) id e s = register_read req id e s

-- The reply to an error of `GetNode` and `DeleteNode`, by what its text says.
abbrev pub node_error : StoreError → ApiError
node_error node_not_found = not_found
node_error _ = server_error

abbrev pub node_reply :
    Outcome (Result StoreError (Option Node)) → Outcome (Result ApiError (Option Node))
node_reply panic = panic
node_reply (returns (err x)) = returns (err (node_error x))
node_reply (returns (ok n)) = returns (ok n)

-- `handleNodeGet`
unfoldable pub handle_node_get : Text → Store → Outcome (Result ApiError (Option Node))
unfolding get_node
handle_node_get id s = node_reply (get_node id s)

unfoldable pub handle_node_list : Store → List (Option Node)
unfolding list_nodes
handle_node_list s = list_nodes s

abbrev pub node_deleted :
    Outcome (Result StoreError (Unit {0}) × Store) → Outcome (Result ApiError (Unit {0}) × Store)
node_deleted panic = panic
node_deleted (returns (err x, s)) = returns (err (node_error x), s)
node_deleted (returns (ok u, s)) = returns (ok tt, s)

-- `handleNodeDelete`
unfoldable pub handle_node_delete :
    Text → Env → Store → Outcome (Result ApiError (Unit {0}) × Store)
unfolding delete_node
handle_node_delete id e s = node_deleted (delete_node id e s)

-- A change of the object that `GetNode` returns, which is the store's, and `SetNode`.
abbrev pub change_node :
    (Node → Node)
    → Outcome (Result StoreError (Option Node))
    → Env
    → Store
    → Outcome (Result ApiError Node × Store)
change_node f panic e s = panic
change_node f (returns (err x)) e s = returns (err (node_error x), s)
change_node f (returns (ok none)) e s = panic
change_node f (returns (ok (some n))) e s = node_saved (f n) (set_node (f n) e s)

abbrev pub beat : ℕ → Node → Node
beat now n = record n { last_heartbeat = now; status = NodeStatus.online; updated_at = now }

-- `handleNodeHeartbeat`
unfoldable pub handle_node_heartbeat : Text → Env → Store → Outcome (Result ApiError Node × Store)
unfolding get_node set_node
handle_node_heartbeat id e s = change_node (beat e.now) (get_node id s) e s

abbrev pub drained : ℕ → Node → Node
drained now n = record n { status = NodeStatus.draining; updated_at = now }

-- `handleNodeDrain`
unfoldable pub handle_node_drain : Text → Env → Store → Outcome (Result ApiError Node × Store)
unfolding get_node set_node
handle_node_drain id e s = change_node (drained e.now) (get_node id s) e s

-- The apps of each project, under its ID.
unfoldable pub apps_by_project : Store → List Project → Dict (List AppSpec) → Dict (List AppSpec)
unfolding get_apps put
apps_by_project s [] m = m
apps_by_project s (p ∷ ps) m = apps_by_project s ps (put m p.id (get_apps p.id s))

unfoldable pub desired_state : Store → DesiredState
unfolding list_projects apps_by_project
desired_state s =
    let ps = list_projects s in record { projects = ps; apps = apps_by_project s ps [] }

abbrev pub desired_reply :
    Store → Outcome (Result StoreError (Option Node)) → Outcome (Result ApiError DesiredState)
desired_reply s panic = panic
desired_reply s (returns (err x)) = returns (err (node_error x))
desired_reply s (returns (ok n)) = returns (ok (desired_state s))

-- `handleNodeDesiredState`
unfoldable pub handle_node_desired_state : Text → Store → Outcome (Result ApiError DesiredState)
unfolding get_node desired_state
handle_node_desired_state id s = desired_reply s (get_node id s)
