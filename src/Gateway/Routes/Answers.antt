-- ===== src/Gateway/Routes/Answers.antt =====
-- What holds of an error and of every operation behind the routes holds of what the wired handler
-- answers, whatever the keys, the roles and the request.
use flux_lens.Base.{ℕ, String, Bool, true, false, Option, List, ◌==◌, if◌then◌else◌}
use flux_lens.HttpAuth as HttpAuth
use flux_lens.HttpAuth.{Principal, Answer, http_error, served, keys_to_set}
use flux_lens.HttpAuth.Roles.{rbac_middleware, configured}
use flux_lens.HttpAuth.Pass.{
  api_key_middleware_answers, rbac_middleware_answers, require_roles_answers,
}
use flux_lens.Gateway.{Runtime, Readings, Gateway, Server}
use flux_lens.Gateway.Bodies.{Reply, reply, metrics, openapi}
use flux_lens.Gateway.Handlers.{
  handle_health, handle_events, handle_digest, handle_operator_export, handle_audit, handle_alerts,
}
use flux_lens.Gateway.Operator.{
  quiet, handle_operator_suggest, handle_operator_suggest_precedents, handle_operator_resolve,
}
use flux_lens.Gateway.Live.{handle_decisions, handle_webhook}
use flux_lens.Gateway.Routes.{
  HttpRequest, Operation, on_server, operator_route, auditor_route, handle_stream, routes, wired,
}

module _ {S : Type 0} (rt : Runtime) (gate : Gateway S) (at : Readings) (req : HttpRequest)
    (Q : Answer (Operation S) → Type 0) where
  -- It holds of every operation.
  pub record HoldsBehind : Type 0 where
    pub errors : (code : ℕ) (text : String) → Q (http_error code text)
    pub health : Q (served (on_server (handle_health rt gate at)))
    pub events : Q (served (on_server (handle_events rt gate at req.method req.event)))
    pub digest : Q (served (on_server (handle_digest rt gate at req.query)))
    pub audit : Q (served (on_server (handle_audit rt gate at)))
    pub alerts : Q (served (on_server (handle_alerts rt gate at req.method)))
    pub suggest : Q (
        served (
          on_server (handle_operator_suggest rt gate at (quiet rt gate at) req.method req.suggest)))
    pub precedents : Q (
        served (
          on_server (
            handle_operator_suggest_precedents rt gate at
              (quiet rt gate at)
              req.method
              req.precedents)))
    pub resolve : Q (served (on_server (handle_operator_resolve rt gate at req.method req.resolve)))
    pub export : Q (served (on_server (handle_operator_export rt gate at req.method)))
    pub stream :
        (allowed : Option (List String)) → Q (served (handle_stream rt gate at req allowed))
    pub webhook : Q (served (on_server (handle_webhook rt gate at req.method req.webhook)))
    pub decisions : Q (served (λ x. (x, handle_decisions req.method x.live)))
    pub metrics_page : Q (served (λ x. (x, reply 200 metrics)))
    pub openapi_page : Q (served (λ x. (x, reply 200 openapi)))

  Q-if : (b : Bool) (f g : Answer (Operation S)) → Q f → Q g → Q (if b then f else g)
  Q-if true f g h k = h
  Q-if false f g h k = k

  module _ (behind : HoldsBehind) where
    operator_answers :
        (r : HttpAuth.Request) (p : Option Principal) (f : (Server S → Server S × Reply))
        → Q (served (on_server f))
        → Q (operator_route rt gate at req f r p)
    unfolding operator_route
    operator_answers r p f h =
        require_roles_answers rt.tables (λ r p. served (on_server f)) r Q behind.errors (λ p. h) _ p

    auditor_answers :
        (r : HttpAuth.Request) (p : Option Principal) (f : (Server S → Server S × Reply))
        → Q (served (on_server f))
        → Q (auditor_route rt gate at req f r p)
    unfolding auditor_route
    auditor_answers r p f h =
        require_roles_answers rt.tables (λ r p. served (on_server f)) r Q behind.errors (λ p. h) _ p

    routes_answers :
        (allowed : Option (List String)) (r : HttpAuth.Request) (p : Option Principal)
        → Q (routes rt gate at req allowed r p)
    unfolding routes
    routes_answers allowed r p = Q-if (r.path == "/api/v1/health") _ _ behind.health (
        Q-if (r.path == "/api/v1/events") _ _ behind.events (
          Q-if (r.path == "/api/v1/digest") _ _ behind.digest (
            Q-if (r.path == "/api/v1/audit") _ _ behind.audit (
              Q-if (r.path == "/api/v1/alerts") _ _ behind.alerts (
                Q-if (r.path == "/api/v1/operator/suggest") _ _
                  (operator_answers r p _ behind.suggest)
                  (Q-if (r.path == "/api/v1/operator/suggest-precedents") _ _
                    (operator_answers r p _ behind.precedents)
                    (Q-if (r.path == "/api/v1/operator/resolve") _ _
                      (operator_answers r p _ behind.resolve)
                      (Q-if (r.path == "/api/v1/operator/export") _ _
                        (auditor_answers r p _ behind.export)
                        (Q-if (r.path == "/api/v1/stream") _ _ (behind.stream allowed) (
                          Q-if (r.path == "/api/v1/webhook") _ _ behind.webhook (
                            Q-if (r.path == "/api/v1/decisions") _ _ behind.decisions (
                              Q-if (r.path == "/metrics") _ _ behind.metrics_page (
                                Q-if (r.path == "/api/openapi.yaml") _ _ behind.openapi_page
                                  (behind.errors _ _))))))))))))))

    pub wired_answers :
        (keys entries : List String) (r : HttpAuth.Request) (p : Option Principal)
        → Q (wired rt gate at req keys entries r p)
    unfolding wired
    wired_answers keys entries r p =
        let (api_keys, key_roles) = configured keys entries in
        let next = routes rt gate at req (keys_to_set api_keys) in
        api_key_middleware_answers rt.tables (rbac_middleware rt.tables key_roles next) r Q
          behind.errors
          (rbac_middleware_answers rt.tables next r Q behind.errors
            (routes_answers (keys_to_set api_keys) r) key_roles)
          api_keys p
