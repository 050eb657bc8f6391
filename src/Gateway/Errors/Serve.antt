-- ===== src/Gateway/Errors/Serve.antt =====
-- A request that is answered with an error, from its arrival to the answer.
use flux_lens.Base.{ℕ, String, not, ◌≡◌, refl, ap, Option, none, List, ◌==◌, inl, inr, Bool-cases}
use flux_lens.HttpAuth.{Answer, http_error, served, extract_key}
use flux_lens.Gateway.{Runtime, Readings, Gateway, Server}
use flux_lens.Gateway.Bodies.{Reason, Reply, reply, failed}
use flux_lens.Gateway.Handlers.{handle_health, handle_audit}
use flux_lens.Gateway.Live.{System, handle_decisions}
use flux_lens.Gateway.Routes.{
  HttpRequest, Operation, on_server, handle_stream, lacks_key, Served, refused, answered,
  finish_answer, serve,
}
use flux_lens.Gateway.Routes.Answers.{HoldsBehind, wired_answers}
use flux_lens.Gateway.Errors.{
  UndoesFailure, Untouched, events-Untouched, digest-Untouched, export-Untouched, alerts-Untouched,
  webhook-Untouched,
}
use flux_lens.Gateway.Errors.Operators.{suggest-Untouched, precedents-Untouched, resolve-Untouched}

-- An error: a refusal by a middleware or the mux, or a handler's error.
pub data IsError : Served → Type 0 where
  of_middleware : (code : ℕ) (text : String) → IsError (refused code text)
  of_handler : (code : ℕ) (reason : Reason) → IsError (answered (failed code reason))

-- The answer's operation leaves the state untouched when it answers with an error.
abbrev Harmless : {S : Type 0} → Answer (Operation S) → Type 0
Harmless {S} (http_error code text) = Unit
Harmless {S} (served f) = (x : System S) → Untouched x (f x)

Untouched-server :
    {S : Type 0} (x : System S) (y : Server S × Reply)
    → Untouched x.server y
    → Untouched x (record x { server = y.0 }, y.1)
Untouched-server x (s, reply code body) h = tt
Untouched-server x (s, failed code reason) h = ap (λ (s : Server _). record x { server = s }) h

module _ {S : Type 0} (rt : Runtime) (gate : Gateway S) (undoes : UndoesFailure gate.orch.chain)
    (at : Readings) (req : HttpRequest) where
  stream-Untouched :
      (allowed : Option (List String)) (x : System S)
      → Untouched x (handle_stream rt gate at req allowed x)
  unfolding handle_stream
  stream-Untouched allowed x = elim (Bool-cases (not (req.method == "GET"))) [
    | inl other ↦ rw other refl
    | inr get ↦ elim (Bool-cases (lacks_key allowed (extract_key rt.tables req.auth))) [
      | inl stranger ↦ rw (get, stranger) refl
      | inr known ↦ elim (Bool-cases req.upgrades) [
        | inl fine ↦ rw (get, known, fine) tt
        | inr broken ↦ rw (get, known, broken) refl
      ]
    ]
  ]

  decisions-Untouched : (x : System S) → Untouched x (x, handle_decisions req.method x.live)
  unfolding handle_decisions
  decisions-Untouched x = elim (Bool-cases (req.method == "GET")) [
    | inl get ↦ rw get tt
    | inr other ↦ rw other refl
  ]

  routes-Harmless : HoldsBehind rt gate at req Harmless
  unfolding on_server handle_health handle_audit
  routes-Harmless = record {
    errors = λ code text. tt;
    health = λ x. tt;
    events = λ x. Untouched-server x _ (events-Untouched rt gate at req.method req.event x.server);
    digest = λ x. Untouched-server x _ (digest-Untouched rt gate at req.query x.server);
    audit = λ x. tt;
    alerts = λ x. Untouched-server x _ (alerts-Untouched rt gate at req.method x.server);
    suggest =
        λ x. Untouched-server x _ (suggest-Untouched rt gate at req.method req.suggest x.server);
    precedents = λ x.
        Untouched-server x _ (precedents-Untouched rt gate at req.method req.precedents x.server);
    resolve = λ x.
        Untouched-server x _ (resolve-Untouched rt gate at undoes req.method req.resolve x.server);
    export = λ x. Untouched-server x _ (export-Untouched rt gate at req.method x.server);
    stream = stream-Untouched;
    webhook =
        λ x. Untouched-server x _ (webhook-Untouched rt gate at req.method req.webhook x.server);
    decisions = decisions-Untouched;
    metrics_page = λ x. tt;
    openapi_page = λ x. tt;
  }

  finish_error :
      (a : Answer (Operation S)) (x : System S)
      → Harmless a
      → IsError (finish_answer a x).1
      → (finish_answer a x).0 ≡ x
  unfolding finish_answer
  finish_error (http_error code text) x h e = refl
  finish_error (served f) x h e = from_reply (f x) (h x) e
    where
      from_reply : (y : System S × Reply) → Untouched x y → IsError (answered y.1) → y.0 ≡ x
      from_reply (y, reply code body) h e = elim e [ ]
      from_reply (y, failed code reason) h e = h

  -- On a store whose failing Append leaves its state as it was: a request that is answered with an error,
  -- be it by a middleware, the mux or a handler, leaves the whole state of the gateway as it was.
  pub serve_error :
      (keys entries : List String) (x : System S)
      → IsError (serve rt gate keys entries at req x).1
      → (serve rt gate keys entries at req x).0 ≡ x
  unfolding serve
  serve_error keys entries x e =
      finish_error _ x
        (wired_answers rt gate at req Harmless routes-Harmless keys entries req.auth none) e
