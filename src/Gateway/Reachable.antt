-- ===== src/Gateway/Reachable.antt =====
-- The gateway's runs: requests and Kafka messages, one after the other, each with readings of its
-- own and with the provider in any state. What the primitive steps keep holds in every state of a run.
use flux_lens.Base.{String, Option, none, List, arith}
use flux_lens.Base.Signed.{pos}
use flux_lens.Canonical.{Event}
use flux_lens.Curation.{Result}
use flux_lens.Llm.{Provider}
use flux_lens.Orchestrator.{Decision}
use flux_lens.HttpAuth.{Answer, http_error, served}
use flux_lens.Gateway.{Runtime, Readings, Gateway, Server, new_server}
use flux_lens.Gateway.Live.{System, new_live_state, on_decision, on_curated, on_raw_event}
use flux_lens.Gateway.Routes.{
  HttpRequest, Operation, on_server, handle_stream, finish_answer, serve,
}
use flux_lens.Gateway.Routes.Answers.{HoldsBehind, wired_answers}
use flux_lens.Gateway.Closed.{
  IsClosed, broadcast_keeps, health_keeps, audit_keeps, export_keeps, alerts_keeps, events_keeps,
  digest_keeps, webhook_keeps, ingest_keeps, again_keeps, add_all_keeps,
}
use flux_lens.Gateway.Closed.Operators.{
  HasOneLog, suggest_keeps_server, precedents_keeps, resolve_keeps,
}

-- The gateway when its provider is in another state.
abbrev pub with_provider : {S : Type 0} → Gateway S → Option Provider → Gateway S
with_provider gate p = record gate { orch = record gate.orch { provider = p } }

-- A request or a message.
pub data Step {S : Type 0} (rt : Runtime) (gate : Gateway S) (keys entries : List String)
    : System S → System S → Type 0 where
  request :
      (p : Option Provider) (at : Readings) (req : HttpRequest) (x : System S)
      → Step rt gate keys entries x (serve rt (with_provider gate p) keys entries at req x).0
  decision_read :
      (at : Readings) (d : Decision) (x : System S)
      → Step rt gate keys entries x (on_decision rt gate at d x)
  digest_read :
      (at : Readings) (r : Result) (x : System S)
      → Step rt gate keys entries x (on_curated rt gate at r x)
  event_read :
      (at : Readings) (e : Event) (x : System S)
      → Step rt gate keys entries x (on_raw_event rt gate at e x)

-- The states that a run from a fresh server with this log comes through.
pub data Reachable {S : Type 0} (rt : Runtime) (gate : Gateway S) (keys entries : List String)
    (log : S) : System S → Type 0 where
  start :
      Reachable rt gate keys entries log
        (record { server = new_server log; live = new_live_state (pos 500) })
  next :
      (x y : System S)
      → Reachable rt gate keys entries log x
      → Step rt gate keys entries x y
      → Reachable rt gate keys entries log y

-- What the answer does to the state keeps it.
abbrev Safe : {S : Type 0} → (System S → Type 0) → Answer (Operation S) → Type 0
Safe {S} P (http_error code text) = Unit
Safe {S} P (served f) = (x : System S) → P x → P (f x).0

module _ {S : Type 0} (rt : Runtime) (gate : Gateway S) (one : HasOneLog gate)
    (P : Server S → Type 0) (closed : IsClosed rt gate P) where
  abbrev OfServer : System S → Type 0
  OfServer x = P x.server

  stream_keeps :
      (at : Readings) (req : HttpRequest) (allowed : Option (List String)) (x : System S)
      → OfServer x
      → OfServer (handle_stream rt gate at req allowed x).0
  unfolding handle_stream
  stream_keeps at req allowed x h = ground arith

  routes-Safe : (at : Readings) (req : HttpRequest) → HoldsBehind rt gate at req (Safe OfServer)
  unfolding on_server
  routes-Safe at req = record {
    errors = λ code text. tt;
    health = λ x h. health_keeps rt gate P closed at x.server h;
    events = λ x h. events_keeps rt gate P closed at req.method req.event x.server h;
    digest = λ x h. digest_keeps rt gate P closed at req.query x.server h;
    audit = λ x h. audit_keeps rt gate P closed at x.server h;
    alerts = λ x h. alerts_keeps rt gate P closed at req.method x.server h;
    suggest = λ x h. suggest_keeps_server rt gate one P closed at req.method req.suggest x.server h;
    precedents =
        λ x h. precedents_keeps rt gate one P closed at req.method req.precedents x.server h;
    resolve = λ x h. resolve_keeps rt gate one P closed at req.method req.resolve x.server h;
    export = λ x h. export_keeps rt gate P closed at req.method x.server h;
    stream = stream_keeps at req;
    webhook = λ x h. webhook_keeps rt gate P closed at req.method req.webhook x.server h;
    decisions = λ x h. h;
    metrics_page = λ x h. h;
    openapi_page = λ x h. h;
  }

  finish_keeps :
      (a : Answer (Operation S)) (x : System S)
      → Safe OfServer a
      → OfServer x
      → OfServer (finish_answer a x).0
  unfolding finish_answer
  finish_keeps (http_error code text) x safe h = h
  finish_keeps (served f) x safe h = safe x h

  pub serve_keeps :
      (keys entries : List String) (at : Readings) (req : HttpRequest) (x : System S)
      → OfServer x
      → OfServer (serve rt gate keys entries at req x).0
  unfolding serve
  serve_keeps keys entries at req x h =
      finish_keeps _ x
        (wired_answers rt gate at req (Safe OfServer) (routes-Safe at req) keys entries req.auth
          none)
        h

module _ {S : Type 0} (rt : Runtime) (gate : Gateway S) (keys entries : List String) (log : S)
    (P : Server S → Type 0) (one : HasOneLog gate)
    (closed : ((p : Option Provider) → IsClosed rt (with_provider gate p) P)) where
  step_keeps : (x y : System S) → Step rt gate keys entries x y → P x.server → P y.server
  unfolding on_decision on_curated on_raw_event
  step_keeps _ _ (request p at req x) h =
      serve_keeps rt (with_provider gate p) one P (closed p) keys entries at req x h
  step_keeps _ _ (decision_read at d x) h =
      let own = closed gate.orch.provider in
      again_keeps rt gate P own at _ _ (broadcast_keeps rt gate P own gate.has_hub _ x.server h)
  step_keeps _ _ (digest_read at r x) h =
      let own = closed gate.orch.provider in
      broadcast_keeps rt gate P own gate.has_hub _ _
        (add_all_keeps rt gate P own at r.selected x.server h)
  step_keeps _ _ (event_read at e x) h =
      ingest_keeps rt gate P (closed gate.orch.provider) at gate.has_hub e x.server h

  -- What a fresh server satisfies and the primitive steps keep, with the provider in any state,
  -- holds in every state that the gateway can reach by requests and messages.
  pub reachable_keeps :
      P (new_server log) → (x : System S) → Reachable rt gate keys entries log x → P x.server
  reachable_keeps first _ start = first
  reachable_keeps first _ (next x y run step) = step_keeps x y step (reachable_keeps first x run)
