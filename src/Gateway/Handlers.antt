-- ===== src/Gateway/Handlers.antt =====
-- The handlers of cmd/api-gateway/main.go for health, events, digests, the audit log and alerts. A
-- handler takes what the standard library makes of the request, and is one step on the state.
use flux_lens.Base.{ℕ, String, ◌||◌, Option, none, some, [], ◌∷◌, ◌==◌, length, if◌then◌else◌}
use flux_lens.Base.Signed.{ℤ, pos, negsuc, lt_ℤ, positive_or}
use Prim.Native.Nat.{◌*◌, ◌^◌}
use flux_lens.Base.Float.{Float64, fin}
use flux_lens.Base.Json.{Json, nat, float, obj, object}
use flux_lens.AuditLog.Factory.{backend_label}
use flux_lens.Canonical.{Event, EventError, validate}
use flux_lens.Alerts.Store as Alerts
use flux_lens.Alerts.Rules.{from_digest_quality}
use flux_lens.Curation as Curation
use flux_lens.Curation.{Result, select}
use flux_lens.Gateway.Bodies.{
  Parsed, malformed, parsed, DigestQuery, health, accepted, digest, export, audit, alert_list,
  cleared, method_not_allowed, bad_json, bad_event, bad_digest, Reply, reply, failed,
}
use flux_lens.Gateway.{
  Runtime, Readings, Gateway, Server, digest_message, stamp, is_verified, error_of, snapshot_recent,
  with_alerts, append_log, broadcast, observe_audit, verify_and_observe, ingest_event,
}

-- The strategy of a digest: StrategyGuaranteedMinDiversity for a value that is none of the six.
unfoldable pub digest_strategy : ℤ → ℤ
digest_strategy n = if lt_ℤ n (pos 1) || lt_ℤ (pos 6) n then pos 4 else n

f_eighty : Float64
f_eighty = fin (pos (80 * 2 ^ 1074))

unfoldable pub diversity_or_default : Option Float64 → Float64
unfolding f_eighty
diversity_or_default none = f_eighty
diversity_or_default (some d) = d

unfoldable pub size_or_default : Option ℤ → ℕ
size_or_default none = 20
size_or_default (some k) = positive_or k 20

unfoldable pub digest_payload : Float64 → ℕ → ℕ → ℕ → Json
digest_payload diversity k selected_n strategy = obj (
    object (
      ("diversity", float diversity)
      ∷ ("k", nat k)
      ∷ ("selected_n", nat selected_n)
      ∷ ("strategy", nat strategy)
      ∷ []))

-- An int that is not negative, as the digest's strategy is.
unfoldable pub nat_of : ℤ → ℕ
nat_of (pos n) = n
nat_of (negsuc n) = 0

module _ {S : Type 0} (rt : Runtime) (gate : Gateway S) (at : Readings) where
  unfoldable pub handle_health : Server S → Server S × Reply
  handle_health s =
      let result = gate.chain.verify s.log in
      let observed = observe_audit rt gate at result s in
      (
        observed,
        reply 200 (
            health (record {
              audit_backend = backend_label gate.backend;
              audit_chain_length = gate.chain.len observed.log;
              audit_chain_head = gate.chain.head_hash observed.log;
              audit_chain_valid = is_verified result;
              audit_chain_error = error_of result;
              recent_events = length (snapshot_recent rt gate observed);
              alerts_buffered = Alerts.len observed.alerts;
              build_time = at.clock 0;
            })),
      )

  -- handleEvents, from its last step to its first.
  unfoldable pub events_checked : Event → Option EventError → Server S → Server S × Reply
  events_checked e (some reason) s = (s, failed 400 (bad_event reason))
  events_checked e none s = (
    verify_and_observe rt gate at (ingest_event rt gate at gate.has_hub e s),
    reply 202 (accepted e.event_id),
  )

  unfoldable pub events_parsed : Parsed Event → Server S → Server S × Reply
  unfolding events_checked
  events_parsed (malformed text) s = (s, failed 400 (bad_json text))
  events_parsed (parsed e) s = events_checked e (validate e) s

  unfoldable pub handle_events : String → Parsed Event → Server S → Server S × Reply
  unfolding events_parsed
  handle_events method body s =
      if method == "POST" then events_parsed body s else (s, failed 405 method_not_allowed)

  unfoldable pub digest_request : DigestQuery → Server S → Curation.Request
  unfolding digest_strategy diversity_or_default size_or_default
  digest_request q s = record {
    strategy = digest_strategy q.strategy;
    events = snapshot_recent rt gate s;
    k = pos (size_or_default q.k);
    diversity_percent = diversity_or_default q.diversity;
    preferred_sources = [];
    suppression_set = [];
    now = at.clock 0;
  }

  -- The rest of handleDigest, once Select has returned.
  unfoldable pub digest_served : Curation.Request → Curation.Outcome → Server S → Server S × Reply
  unfolding digest_payload nat_of
  digest_served req (Curation.ok res) s =
      let n = length res.selected in
      let logged =
        append_log rt gate (at.clock 2) "digest_selection"
          (digest_payload req.diversity_percent (nat_of req.k) n (nat_of req.strategy)) s in
      let alerted =
        with_alerts rt gate at 6
          (from_digest_quality rt.fmt (stamp at 3, stamp at 4, stamp at 5) res.freshness_score
            res.diversity_score req.strategy req.k (pos n))
          logged in
      (
        broadcast rt gate gate.has_hub (digest_message res) (verify_and_observe rt gate at alerted),
        reply 200 (digest res),
      )
  digest_served req o s = (s, failed 400 (bad_digest o))

  unfoldable pub handle_digest : DigestQuery → Server S → Server S × Reply
  unfolding digest_served digest_request
  handle_digest q s =
      let req = digest_request q s in
      digest_served req (select rt.world rt.arith64 req (at.clock 1)) s

  unfoldable pub handle_operator_export : String → Server S → Server S × Reply
  handle_operator_export method s =
      if method == "GET"
      then (let result = gate.chain.verify s.log in
          let observed = observe_audit rt gate at result s in
          (
            observed,
            reply 200 (
                export (record {
                  exported_at = at.clock 0;
                  audit_verified = is_verified result;
                  verify_err = error_of result;
                  chain_head_hash = gate.chain.head_hash observed.log;
                  records = gate.chain.snapshot observed.log;
                })),
          ))
      else (s, failed 405 method_not_allowed)

  unfoldable pub handle_audit : Server S → Server S × Reply
  handle_audit s =
      let result = gate.chain.verify s.log in
      let observed = observe_audit rt gate at result s in
      (
        observed,
        reply 200 (
            audit (record {
              verified = is_verified result;
              verify_err = error_of result;
              head_hash = gate.chain.head_hash observed.log;
              records = gate.chain.snapshot observed.log;
            })),
      )

  unfoldable pub handle_alerts : String → Server S → Server S × Reply
  handle_alerts method s =
      if method == "GET"
      then (s, reply 200 (alert_list (Alerts.snapshot s.alerts) (Alerts.len s.alerts)))
      else if method == "DELETE"
      then (record s { alerts = Alerts.clear s.alerts }, reply 200 cleared)
      else (s, failed 405 method_not_allowed)
