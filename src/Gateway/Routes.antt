-- ===== src/Gateway/Routes.antt =====
-- The routes of cmd/api-gateway/main.go and the middlewares around them: one request, from its
-- arrival to its answer.
pub mod Answers
use flux_lens.Base.{
  ℕ, String, Bool, true, false, not, ◌&&◌, Option, none, some, List, [], ◌∷◌, ◌==◌, if◌then◌else◌,
}
use flux_lens.Base.Dict.{Dict}
use flux_lens.Canonical.{Event}
use flux_lens.HttpAuth as HttpAuth
use flux_lens.HttpAuth.{
  Principal, Answer, http_error, served, Handler, api_key_middleware, extract_key, keys_to_set,
  is_allowed,
}
use flux_lens.HttpAuth.Roles.{
  rbac_middleware, require_roles, configured, role_operator, role_reviewer, role_admin,
  role_auditor,
}
use flux_lens.Gateway.{Runtime, Readings, Gateway, Server}
use flux_lens.Gateway.Bodies.{
  Parsed, DigestQuery, SuggestBody, PrecedentsBody, ResolveBody, WebhookBody, Reply, reply, failed,
  metrics, openapi, upgraded, unauthorized, not_upgraded, method_not_allowed,
}
use flux_lens.Gateway.Handlers.{
  handle_health, handle_events, handle_digest, handle_operator_export, handle_audit, handle_alerts,
}
use flux_lens.Gateway.Operator.{
  quiet, handle_operator_suggest, handle_operator_suggest_precedents, handle_operator_resolve,
}
use flux_lens.Gateway.Live.{System, handle_decisions, handle_webhook}

-- A request with what the standard library makes of its query and of its body, for each type that
-- a handler decodes the body to; `upgrades` tells whether the WebSocket handshake succeeds.
pub record HttpRequest : Type 0 where
  pub method : String
  pub auth : HttpAuth.Request
  pub query : DigestQuery
  pub event : Parsed Event
  pub suggest : Parsed SuggestBody
  pub precedents : Parsed PrecedentsBody
  pub resolve : Parsed ResolveBody
  pub webhook : Parsed WebhookBody
  pub upgrades : Bool

-- What a handler does once it is reached.
abbrev pub Operation : Type 0 → Type 0
Operation S = System S → System S × Reply

unfoldable pub on_server : {S : Type 0} → (Server S → Server S × Reply) → Operation S
on_server f x = let (s, r) = f x.server in (record x { server = s }, r)

unfoldable pub operators : List String
operators = role_operator ∷ role_reviewer ∷ role_admin ∷ []

unfoldable pub auditors : List String
auditors = role_auditor ∷ role_admin ∷ []

-- `len(allowedKeys) > 0`, and the key is not among them
unfoldable pub lacks_key : Option (List String) → String → Bool
lacks_key none key = false
lacks_key (some []) key = false
lacks_key (some (k ∷ keys)) key = not (is_allowed (k ∷ keys) key)

module _ {S : Type 0} (rt : Runtime) (gate : Gateway S) (at : Readings) (req : HttpRequest) where
  -- handleStream, up to the registration of the connection at the hub.
  unfoldable pub handle_stream : Option (List String) → System S → System S × Reply
  unfolding lacks_key
  handle_stream allowed_keys x =
      if not (req.method == "GET")
      then (x, failed 405 method_not_allowed)
      else if lacks_key allowed_keys (extract_key rt.tables req.auth)
      then (x, failed 401 unauthorized)
      else if req.upgrades
      then (x, reply 101 upgraded)
      else (x, failed 400 not_upgraded)

  unfoldable pub operator_route : (Server S → Server S × Reply) → Handler (Operation S)
  unfolding operators
  operator_route f = require_roles operators (λ r p. served (on_server f))

  unfoldable pub auditor_route : (Server S → Server S × Reply) → Handler (Operation S)
  unfolding auditors
  auditor_route f = require_roles auditors (λ r p. served (on_server f))

  -- The mux. Its own redirects of paths that are not clean are left out.
  unfoldable pub routes : Option (List String) → Handler (Operation S)
  unfolding operator_route auditor_route
  routes allowed_keys r p =
      if r.path == "/api/v1/health"
      then served (on_server (handle_health rt gate at))
      else if r.path == "/api/v1/events"
      then served (on_server (handle_events rt gate at req.method req.event))
      else if r.path == "/api/v1/digest"
      then served (on_server (handle_digest rt gate at req.query))
      else if r.path == "/api/v1/audit"
      then served (on_server (handle_audit rt gate at))
      else if r.path == "/api/v1/alerts"
      then served (on_server (handle_alerts rt gate at req.method))
      else if r.path == "/api/v1/operator/suggest"
      then operator_route
          (handle_operator_suggest rt gate at (quiet rt gate at) req.method req.suggest) r p
      else if r.path == "/api/v1/operator/suggest-precedents"
      then operator_route
          (handle_operator_suggest_precedents rt gate at (quiet rt gate at) req.method
            req.precedents)
          r p
      else if r.path == "/api/v1/operator/resolve"
      then operator_route (handle_operator_resolve rt gate at req.method req.resolve) r p
      else if r.path == "/api/v1/operator/export"
      then auditor_route (handle_operator_export rt gate at req.method) r p
      else if r.path == "/api/v1/stream"
      then served (handle_stream allowed_keys)
      else if r.path == "/api/v1/webhook"
      then served (on_server (handle_webhook rt gate at req.method req.webhook))
      else if r.path == "/api/v1/decisions"
      then served (λ x. (x, handle_decisions req.method x.live))
      else if r.path == "/metrics"
      then served (λ x. (x, reply 200 metrics))
      else if r.path == "/api/openapi.yaml"
      then served (λ x. (x, reply 200 openapi))
      else http_error 404 "404 page not found"

  -- The handler that main wires up, for the lists of keys and of entries for roles.
  unfoldable pub wired : List String → List String → Handler (Operation S)
  unfolding routes
  wired keys entries =
      let (api_keys, key_roles) = configured keys entries in
      api_key_middleware rt.tables api_keys
        (rbac_middleware rt.tables key_roles (routes (keys_to_set api_keys)))

-- The answer to a request: of a middleware or the mux, or of the operation.
pub data Served : Type 0 where
  refused : ℕ → String → Served
  answered : Reply → Served

unfoldable pub finish_answer : {S : Type 0} → Answer (Operation S) → System S → System S × Served
finish_answer (http_error code text) x = (x, refused code text)
finish_answer (served f) x = let (x', r) = f x in (x', answered r)

unfoldable pub serve :
    {S : Type 0}
    → Runtime
    → Gateway S
    → List String
    → List String
    → Readings
    → HttpRequest
    → System S
    → System S × Served
unfolding finish_answer wired
serve rt gate keys entries at req x =
    finish_answer (wired rt gate at req keys entries req.auth none) x
