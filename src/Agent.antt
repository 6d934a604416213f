-- ===== src/Agent.antt =====
-- internal/agent/agent.go: the agent of a node, over the HTTP client of the standard library and a
-- runtime. A line of the log is kept where it is about a failure of a tick.
pub mod Agreement
pub mod Ticking
use goship.Base.{
  Text, lit, ℕ, ◌++◌, List, [], ◌∷◌, Option, none, some, Result, ok, err, itoa, ltb, ◌==◌, text_eq,
  if◌then◌else◌, ◌>>=◌,
}
use goship.Reconciler.{DesiredState, reconcile}
use goship.Runtime.{ProjectRuntime}

pub data Method : Type 0 where
  get post : Method

pub record HttpRequest (J : Type 0) : Type 0 where
  pub method : Method
  pub url : Text
  pub body : Option J

pub record HttpResponse (J : Type 0) : Type 0 where
  pub status : ℕ
  pub status_line : Text
  pub document : J

-- What the code uses of net/http and encoding/json, over documents `J`: the error of NewRequest for
-- a URL, the exchange, and the encoding of the bodies. `N` is all that the exchange may change.
pub record Http (J N : Type 0) : Type 0 where
  pub bad_url : Text → Option Text
  pub send : HttpRequest J → N → Result Text (HttpResponse J) × N
  pub encode_registration : Text → Text → Result Text J
  pub decode_error : J → Result Text Text
  pub decode_desired : J → Result Text DesiredState

pub record NodeAgent : Type 0 where
  pub node_id : Text
  pub server_url : Text

pub data TickFailure : Type 0 where
  heartbeat_failed reconcile_failed : Text → TickFailure

-- What the select of `Run` receives.
pub data Received : Type 0 where
  ticked canceled : Received

-- What a tick works on: the network, the runtime, and the failures that were logged.
pub record AgentState (N R : Type 0) : Type 0 where
  pub network : N
  pub machines : R
  pub failures : List TickFailure

abbrev pub wrap_error {ℓ} : {A : Type ℓ} → Text → Result Text A → Result Text A
wrap_error said (ok a) = ok a
wrap_error said (err e) = err (said ++ (lit ": " ++ e))

-- The error of a reply with a status of 400 or more.
unfoldable pub reply_error : Text → ℕ → Text → Result Text Text → Text
reply_error what status line (err e) = what ++ (lit " error: " ++ line)
reply_error what status line (ok said) =
    if said == []
    then what ++ (lit " error: " ++ line)
    else what ++ (lit " error (" ++ (itoa status ++ (lit "): " ++ said)))

module _ {J N : Type 0} (http : Http J N) where
  -- The reply if its status is below 400.
  abbrev pub accepted : Text → Result Text (HttpResponse J) → Result Text J
  accepted what (err e) = err (what ++ (lit " request failed: " ++ e))
  accepted what (ok r) =
      if ltb r.status 400
      then ok r.document
      else err (reply_error what r.status r.status_line (http.decode_error r.document))

  -- A request of the agent: it is made, sent, and its reply checked.
  abbrev pub exchanged : Text → HttpRequest J → Option Text → N → Result Text J × N
  exchanged what q (some e) n =
      (err (lit "failed to create " ++ (what ++ (lit " request: " ++ e))), n)
  exchanged what q none n = let r = http.send q n in (accepted what r.0, r.1)

  unfoldable pub agent_request : Text → HttpRequest J → N → Result Text J × N
  unfolding reply_error itoa
  agent_request what q n = exchanged what q (http.bad_url q.url) n

  abbrev pub node_url : NodeAgent → Text → Text
  node_url a action = a.server_url ++ (lit "/api/v1/nodes/" ++ (a.node_id ++ (lit "/" ++ action)))

  abbrev pub heartbeat_request : NodeAgent → HttpRequest J
  heartbeat_request a = record { method = post; url = node_url a (lit "heartbeat"); body = none }

  abbrev pub desired_request : NodeAgent → HttpRequest J
  desired_request a = record { method = get; url = node_url a (lit "desired-state"); body = none }

  -- The reply to a heartbeat is not read.
  abbrev pub dropped {ℓ} : {A : Type ℓ} → Result Text A → Result Text (Unit {0})
  dropped (err e) = err e
  dropped (ok a) = ok tt

  unfoldable pub heartbeat : NodeAgent → N → Result Text (Unit {0}) × N
  unfolding agent_request
  heartbeat a n =
      let r = agent_request (lit "heartbeat") (heartbeat_request a) n in (dropped r.0, r.1)

  unfoldable pub register : NodeAgent → Text → Text → N → Result Text (Unit {0}) × N
  unfolding agent_request
  register a hostname endpoint n =
      elim (wrap_error (lit "failed to encode register request")
        (http.encode_registration hostname endpoint)) [
          | err e ↦ (err e, n)
          | ok b ↦
              let r =
                agent_request (lit "register")
                  (record {
                    method = post;
                    url = a.server_url ++ lit "/api/v1/nodes";
                    body = some b;
                  })
                  n in
              (dropped r.0, r.1)
        ]

module _ {J N R : Type 0} (http : Http J N) (rt : ProjectRuntime R) where
  abbrev pub reconcile_decoded : Result Text DesiredState → N → R → Result Text (Unit {0}) × (N × R)
  reconcile_decoded (err e) n r = (err e, (n, r))
  reconcile_decoded (ok d) n r = let x = reconcile rt d r in (x.0, (n, x.1))

  unfoldable pub pull_and_reconcile : NodeAgent → N → R → Result Text (Unit {0}) × (N × R)
  unfolding agent_request reconcile
  pull_and_reconcile a n r =
      let got = agent_request http (lit "desired-state") (desired_request http a) n in
      reconcile_decoded
        (do j ← got.0; wrap_error (lit "failed to decode desired state") (http.decode_desired j))
        got.1 r

  abbrev pub logged :
      (Text → TickFailure) → Result Text (Unit {0}) → List TickFailure → List TickFailure
  logged f (ok u) log = log
  logged f (err e) log = f e ∷ log

  -- `tick`: an error is logged, and the desired state is pulled whether the heartbeat arrived or not.
  unfoldable pub tick : NodeAgent → AgentState N R → AgentState N R
  unfolding heartbeat pull_and_reconcile
  tick a s =
      let h = heartbeat http a s.network in
      let p = pull_and_reconcile a h.1 s.machines in
      record {
        network = p.1.0;
        machines = p.1.1;
        failures = logged reconcile_failed p.0 (logged heartbeat_failed h.0 s.failures);
      }

  -- The loop of `Run`, up to the end of the list.
  unfoldable pub run_loop : NodeAgent → List Received → AgentState N R → AgentState N R
  unfolding tick
  run_loop a [] s = s
  run_loop a (canceled ∷ rs) s = s
  run_loop a (ticked ∷ rs) s = run_loop a rs (tick a s)

  -- `Run`: a tick at once, and then the loop.
  unfoldable pub run_agent : NodeAgent → List Received → AgentState N R → AgentState N R
  unfolding tick run_loop
  run_agent a rs s = run_loop a rs (tick a s)
