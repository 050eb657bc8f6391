-- ===== src/Orchestrator/Readback.antt =====
-- What FindMatches reads back from the records of the orchestrator.
pub mod Tests
use flux_lens.Base.{
  ℕ, String, Bool, true, ◌≡◌, refl, ◌∙◌, Option, none, some, List, [], ◌∷◌, ◌==◌, ◌&&◌,
  if◌then◌else◌,
}
use flux_lens.Base.Text.{equal_fold}
use flux_lens.Base.Json.{Json, obj}
use flux_lens.Base.Pattern.{CaseTables}
use flux_lens.AuditLog.Record.{Encoding}
use flux_lens.Canonical.{Event}
use flux_lens.Llm.{Provider}
use flux_lens.Precedents.Decode.{
  Answer, DecisionPayload, ActionPayload, decode_decision, decode_action, text_value, answer_or_new,
  text_field, answer_value, answer_field, decode_decision_fields, decode_action_fields,
}
use flux_lens.Precedents.Decode.Names.{
  KeepsNames, exact, decode_decision-exact, decode_action-exact,
}
use flux_lens.Orchestrator.{Orchestrator, Surroundings, response_json, reasons_field, event_tenant}
use flux_lens.Orchestrator.Guards.{Response}
use flux_lens.Orchestrator.Decide.{decision_payload, action_payload}

module _ {S : Type 0} (o : Orchestrator S) (fold : ℕ → ℕ) (keeps : KeepsNames fold) where
  -- If case folding keeps lower-case names, then FindMatches decodes the payload that Decide recorded
  -- for a decision that passed to the event, the tenant and the answer that it was recorded with.
  pub decision_payload-decode_decision :
      (tables : CaseTables) (enc : Encoding) (around : Surroundings S) (p : Provider) (e : Event)
      (hash : String) (r : Response)
      → decode_decision fold (decision_payload tables enc around o p e hash r)
        ≡ some (record {
          event_id = e.event_id;
          event_type = e.event_type;
          source_id = e.source_id;
          severity = e.severity;
          tenant = event_tenant e o.tenant;
          guardrails_status = "pass";
          response = some (record { classification = r.classification; suggestion = r.suggestion });
        })
  unfolding decision_payload response_json reasons_field decode_decision decode_decision_fields
      text_field answer_field answer_value text_value answer_or_new equal_fold
  decision_payload-decode_decision tables enc around p e hash r = by_reasons r.reasons
    where
      by_reasons :
          (reasons : List String)
          → decode_decision fold
              (decision_payload tables enc around o p e hash (record r { reasons = reasons }))
            ≡ some (record {
              event_id = e.event_id;
              event_type = e.event_type;
              source_id = e.source_id;
              severity = e.severity;
              tenant = event_tenant e o.tenant;
              guardrails_status = "pass";
              response =
                  some (record { classification = r.classification; suggestion = r.suggestion });
            })
      by_reasons [] =
          decode_decision-exact fold keeps
            (decision_payload tables enc around o p e hash (record r { reasons = [] })) refl
      by_reasons (x ∷ more) =
          decode_decision-exact fold keeps
            (decision_payload tables enc around o p e hash (record r { reasons = x ∷ more })) refl

  -- If case folding keeps lower-case names, then FindMatches decodes the payload that
  -- RecordOperatorAction recorded to the decision, the action and the annotation of the call.
  pub action_payload-decode_action :
      (clock : ℕ) (decision_id operator_id action annotation : String)
      → decode_action fold (action_payload clock o decision_id operator_id action annotation)
        ≡ some (record { decision_id = decision_id; action = action; annotation = annotation })
  unfolding action_payload decode_action decode_action_fields text_field text_value equal_fold
  action_payload-decode_action clock decision_id operator_id action annotation =
      decode_action-exact fold keeps
        (action_payload clock o decision_id operator_id action annotation) refl
