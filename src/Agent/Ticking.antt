-- ===== src/Agent/Ticking.antt =====
-- What a tick of an agent does to the control plane that it is connected to and to its runtime.
use goship.Base.{Text, lit, ℕ, none, text_eq, Result, ok, err, map, ◌≡◌}
use goship.Entities.Project.{Node}
use goship.Store.Disk.{Store, Env, omit_env}
use goship.Store.Records.{Outcome, returns, panic}
use goship.Api.Replies.{ApiError, status_code}
use goship.Api.Nodes.{handle_node_heartbeat, handle_node_desired_state}
use goship.Reconciler.{DesiredState}
use goship.Agent.{HttpResponse, Http, NodeAgent, node_url, heartbeat_request, desired_request}

-- The desired state as it arrives: `omitempty` drops an empty environment.
abbrev pub over_wire : DesiredState → DesiredState
over_wire d = record d { projects = map omit_env d.projects }

-- The reply that net/http makes of what a handler does; a panic closes the connection.
abbrev pub answer :
    {A J : Type 0}
    → (A → J)
    → (ApiError → J)
    → (ℕ → Text)
    → Outcome (Result ApiError A × Store)
    → Store
    → Result Text (HttpResponse J) × Store
answer doc said line panic s = (err (lit "EOF"), s)
answer doc said line (returns (ok x, t)) s =
    (ok (record { status = 200; status_line = line 200; document = doc x }), t)
answer doc said line (returns (err x, t)) s = (
  ok (record { status = status_code x; status_line = line (status_code x); document = said x }),
  t,
)

abbrev pub unchanged {ℓ} :
    {A : Type ℓ} → Store → Outcome (Result ApiError A) → Outcome (Result ApiError A × Store)
unchanged s panic = panic
unchanged s (returns r) = returns (r, s)

-- The network leads to a control plane: an exchange on one of the two URLs runs the handler of that
-- route, and encoding/json reads back what it has written.
pub record Serves {J : Type 0} (http : Http J Store) (a : NodeAgent) (e : Env) : Type 0 where
  pub node_doc : Node → J
  pub desired_doc : DesiredState → J
  pub error_doc : ApiError → J
  pub line : ℕ → Text
  pub usable : (action : Text) → http.bad_url (node_url http a action) ≡ none
  pub beats :
      (s : Store)
      → http.send (heartbeat_request http a) s
        ≡ answer node_doc error_doc line (handle_node_heartbeat a.node_id e s) s
  pub pulls :
      (s : Store)
      → http.send (desired_request http a) s
        ≡ answer desired_doc error_doc line (unchanged s (handle_node_desired_state a.node_id s)) s
  pub decodes : (d : DesiredState) → http.decode_desired (desired_doc d) ≡ ok (over_wire d)
