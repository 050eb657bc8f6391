-- ===== src/Gateway/Live.antt =====
-- cmd/api-gateway/gateway_live.go: the live state, the callbacks of the Kafka bridge, the webhook
-- and the list of decisions.
use flux_lens.Base.{
  ℕ, String, false, Option, none, some, List, [], ◌∷◌, ◌++◌, ◌==◌, ◌||◌, length, if◌then◌else◌,
}
use flux_lens.Base.Signed.{ℤ, positive_or}
use flux_lens.Base.Json.{Json, obj, object}
use flux_lens.Base.Text.{trim_space}
use flux_lens.Canonical.{
  Event, EventError, Made, event, failed as unmade, new_event, validate, source_webhook,
  severity_info,
}
use flux_lens.Curation.{Result}
use flux_lens.Orchestrator.{Decision}
use flux_lens.KafkaBridge.{Config, Handlers}
use flux_lens.Gateway.{
  Runtime, Readings, Gateway, Server, decision_message, digest_message, keep_newest, add_recent,
  find_event, broadcast, ingest_event, verify_and_observe,
}
use flux_lens.Gateway.Bodies.{
  Parsed, malformed, parsed, WebhookBody, Reply, reply, failed, accepted, decision_list,
  method_not_allowed, fields_required, bad_json, bad_event,
}

pub record LiveState : Type 0 where
  pub decisions : List Decision
  pub last_digest : Option Result
  pub max_decisions : ℕ

unfoldable pub new_live_state : ℤ → LiveState
new_live_state max = record {
  decisions = [];
  last_digest = none;
  max_decisions = positive_or max 500;
}

unfoldable pub add_decision : Decision → LiveState → LiveState
unfolding keep_newest
add_decision d ls = record ls { decisions = keep_newest ls.max_decisions (ls.decisions ++ d ∷ []) }

unfoldable pub set_digest : Result → LiveState → LiveState
set_digest res ls = record ls { last_digest = some res }

abbrev pub snapshot_decisions : LiveState → List Decision
snapshot_decisions ls = ls.decisions

abbrev pub snapshot_digest : LiveState → Option Result
snapshot_digest ls = ls.last_digest

unfoldable pub handle_decisions : String → LiveState → Reply
handle_decisions method ls =
    if method == "GET"
    then reply 200 (decision_list (snapshot_decisions ls) (length (snapshot_decisions ls)))
    else failed 405 method_not_allowed

-- The server, and the live state beside it.
pub record System (S : Type 0) : Type 0 where
  pub server : Server S
  pub live : LiveState

severity_or_info : String → String
severity_or_info sev = if sev == "" then severity_info else sev

payload_or_empty : Option Json → Json
payload_or_empty none = obj (object [])
payload_or_empty (some payload) = payload

unfoldable pub with_time : Option ℕ → Event → Event
with_time none e = e
with_time (some t) e = record e { timestamp = t }

module _ {S : Type 0} (rt : Runtime) (gate : Gateway S) (at : Readings) where
  unfoldable pub ingest_again : Option Event → Server S → Server S
  ingest_again none s = s
  ingest_again (some e) s = ingest_event rt gate at false e s

  -- The callback OnDecision: the decision is kept, and its event is ingested where it is known.
  unfoldable pub on_decision : Decision → System S → System S
  unfolding ingest_again
  on_decision d x =
      let told = broadcast rt gate gate.has_hub (decision_message d) x.server in
      record {
        server = ingest_again (find_event rt gate d.event_id told) told;
        live = add_decision d x.live;
      }

  unfoldable pub add_all_recent : List Event → Server S → Server S
  add_all_recent [] s = s
  add_all_recent (e ∷ more) s = add_all_recent more (add_recent rt gate e s)

  unfoldable pub on_curated : Result → System S → System S
  unfolding add_all_recent
  on_curated res x = record {
    server =
        broadcast rt gate gate.has_hub (digest_message res) (add_all_recent res.selected x.server);
    live = set_digest res x.live;
  }

  unfoldable pub on_raw_event : Event → System S → System S
  on_raw_event e x = record x { server = ingest_event rt gate at gate.has_hub e x.server }

  -- handleWebhook, from its last step to its first.
  unfoldable pub webhook_checked : Event → Option EventError → Server S → Server S × Reply
  webhook_checked e (some reason) s = (s, failed 400 (bad_event reason))
  webhook_checked e none s = (
    verify_and_observe rt gate at (ingest_event rt gate at gate.has_hub e s),
    reply 202 (accepted e.event_id),
  )

  unfoldable pub webhook_made : Option ℕ → Made → Server S → Server S × Reply
  unfolding webhook_checked with_time
  webhook_made time (unmade reason) s = (s, failed 400 (bad_event reason))
  webhook_made time (event e) s = webhook_checked (with_time time e) (validate (with_time time e)) s

  unfoldable pub webhook_parsed : Parsed WebhookBody → Server S → Server S × Reply
  unfolding webhook_made severity_or_info payload_or_empty
  webhook_parsed (malformed text) s = (s, failed 400 (bad_json text))
  webhook_parsed (parsed b) s =
      if b.source_id == "" || b.event_type == ""
      then (s, failed 400 fields_required)
      else webhook_made b.timestamp
          (new_event b.source_id source_webhook b.event_type (severity_or_info b.severity)
            (payload_or_empty b.payload) (at.clock 10) at.event_id)
          s

  unfoldable pub handle_webhook : String → Parsed WebhookBody → Server S → Server S × Reply
  unfolding webhook_parsed
  handle_webhook method body s =
      if method == "POST" then webhook_parsed body s else (s, failed 405 method_not_allowed)

-- What startKafkaBridge gives to the consumers; it starts none without brokers. The readings are
-- those of the call at hand.
unfoldable pub bridge_handlers :
    {S : Type 0} → Runtime → Gateway S → Readings → Config → Option (Handlers (System S))
bridge_handlers rt gate at cfg =
    if trim_space cfg.brokers == ""
    then none
    else some (record {
      on_decision = some (on_decision rt gate at);
      on_curated = some (on_curated rt gate at);
      on_raw_event = some (on_raw_event rt gate at);
    })
