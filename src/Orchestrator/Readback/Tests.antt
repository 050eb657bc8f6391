-- ===== src/Orchestrator/Readback/Tests.antt =====
-- The payloads of a decision and of its acceptance, read back.
use flux_lens.Base.{ℕ, ◌≡◌, refl, some}
use flux_lens.Base.Float.{f_one}
use flux_lens.Precedents.Decode.{decode_decision}
use flux_lens.Precedents.Decode.Names.{KeepsNames}
use flux_lens.Orchestrator.{response_of}
use flux_lens.Orchestrator.Decide.{decision_payload}
use flux_lens.Orchestrator.Readback.{decision_payload-decode_decision}
use flux_lens.Orchestrator.Tests.{tables, plain, alone, event, certain, provider, reply}
use flux_lens.Llm.{answered}
use flux_lens.Base.{false}
use flux_lens.Orchestrator.{event_tenant}

abbrev same : ℕ → ℕ
same c = c

same-KeepsNames : KeepsNames same
same-KeepsNames c h = refl

decision_payload-decode_decision_example :
    decode_decision same (
      decision_payload tables plain alone certain
        (provider (answered (reply f_one false)))
        event
        "digest"
        (response_of (reply f_one false)))
    ≡ some (record {
      event_id = "e1";
      event_type = "alarm";
      source_id = "plc";
      severity = "warn";
      tenant = event_tenant event "acme";
      guardrails_status = "pass";
      response = some (record { classification = "elevated"; suggestion = "look" });
    })
decision_payload-decode_decision_example =
    decision_payload-decode_decision certain same same-KeepsNames tables plain alone
      (provider (answered (reply f_one false))) event "digest" (response_of (reply f_one false))
