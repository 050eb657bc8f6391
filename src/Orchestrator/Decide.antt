-- ===== src/Orchestrator/Decide.antt =====
-- Decide and RecordOperatorAction. A map is written with its keys in order, as json.Marshal does.
use Prim.Native.String.{◌++◌ as join}
use flux_lens.Base.{
  ℕ, String, Bool, true, not, ◌||◌, Option, none, some, [], ◌∷◌, ◌==◌, if◌then◌else◌,
}
use flux_lens.Base.Pattern.{CaseTables}
use flux_lens.Base.Json.{Json, str, bool, obj, object}
use flux_lens.AuditLog.Record.{Record, Encoding, Outcome, ok, err, Error}
use flux_lens.Canonical.{Event, EventError, validate}
use flux_lens.Llm.{Provider, Reply, answered, failed}
use flux_lens.Orchestrator.{
  Orchestrator, Decision, Decided, decided, no_provider, invalid_event, no_response, response_of,
  response_json, text_or_empty, prompt_hash, event_tenant, Surroundings, audit,
}
use flux_lens.Orchestrator.Guards.{Response, validate_input, validate_output}

-- The context of the prompt. Marshal refuses a time after the year 9999; such times are left out.
unfoldable pub context_json : Encoding → Event → Json
context_json enc e = obj (
    object (
      ("event_id", str e.event_id)
      ∷ ("event_type", str e.event_type)
      ∷ ("payload", e.payload)
      ∷ ("severity", str e.severity)
      ∷ ("source_id", str e.source_id)
      ∷ ("timestamp", str (enc.rfc3339_nano e.timestamp))
      ∷ []))

-- A decision before its audit.
abbrev pub draft : Provider → Event → String → Response → String → Bool → Decision
draft p e hash response status review = record {
  event_id = e.event_id;
  provider = p.name;
  model_id = p.model_id;
  prompt_hash = hash;
  response = response;
  guardrails = status;
  operator_review = review;
  audit_chain_hash = "";
  audit_chain_prev = "";
}

module _ {S : Type 0} (tables : CaseTables) (enc : Encoding) (around : Surroundings S)
    (o : Orchestrator S) where
  -- The payload of the record of a refusal whose only detail is one text.
  unfoldable pub refusal : Provider → Event → String → String → String → Json
  refusal p e hash name detail = obj (
      object (
        ("event_id", str e.event_id)
        ∷ ("model_id", str p.model_id)
        ∷ ("prompt_hash", str hash)
        ∷ ("provider", str p.name)
        ∷ (name, str detail)
        ∷ ("tenant", str o.tenant)
        ∷ []))

  -- The payload when the provider failed: "error" stands first in the order of the keys.
  unfoldable pub failure : Provider → Event → String → String → Json
  failure p e hash detail = obj (
      object (
        ("error", str detail)
        ∷ ("event_id", str e.event_id)
        ∷ ("model_id", str p.model_id)
        ∷ ("prompt_hash", str hash)
        ∷ ("provider", str p.name)
        ∷ ("tenant", str o.tenant)
        ∷ []))

  unfoldable pub rejection : Provider → Event → String → Response → String → Json
  rejection p e hash resp reason = obj (
      object (
        ("event_id", str e.event_id)
        ∷ ("model_id", str p.model_id)
        ∷ ("prompt_hash", str hash)
        ∷ ("provider", str p.name)
        ∷ ("reason", str reason)
        ∷ ("response", response_json resp)
        ∷ ("tenant", str o.tenant)
        ∷ []))

  unfoldable pub decision_payload : Provider → Event → String → Response → Json
  decision_payload p e hash resp = obj (
      object (
        ("event_id", str e.event_id)
        ∷ ("event_type", str e.event_type)
        ∷ ("guardrails_status", str "pass")
        ∷ ("model_id", str p.model_id)
        ∷ ("operator_review", bool resp.requires_review)
        ∷ ("prompt_hash", str hash)
        ∷ ("provider", str p.name)
        ∷ ("response", response_json resp)
        ∷ ("severity", str e.severity)
        ∷ ("source_id", str e.source_id)
        ∷ ("tenant", str (event_tenant e o.tenant))
        ∷ []))

  -- The pipeline from its last step to its first; each takes what the step before it returned.
  unfoldable pub after_output :
      Provider → Event → String → Response → Option String → S → S × Decision
  after_output p e hash resp (some reason) s =
      audit around o.chain "decision_rejected_output" (rejection p e hash resp reason)
        (draft p e hash resp "rejected_output" true) s
  after_output p e hash resp none s =
      audit around o.chain "decision" (decision_payload p e hash resp)
        (draft p e hash resp "pass" resp.requires_review) s

  unfoldable pub after_reply : Provider → Event → String → Reply → S → S × Decision
  unfolding after_output
  after_reply p e hash (failed detail) s =
      audit around o.chain "decision_provider_error" (failure p e hash detail)
        (draft p e hash no_response "provider_error" true) s
  after_reply p e hash (answered r) s =
      after_output p e hash (response_of r) (validate_output o.guardrails (response_of r)) s

  unfoldable pub after_input : Provider → Event → String → String → Option String → S → S × Decision
  unfolding after_reply
  after_input p e ctx instruction (some reason) s =
      let hash = prompt_hash enc ctx instruction in
      audit around o.chain "decision_rejected_input" (refusal p e hash "reason" reason)
        (draft p e hash no_response "rejected_input" true) s
  after_input p e ctx instruction none s =
      after_reply p e (prompt_hash enc ctx instruction)
        (p.decide (record { context = ctx; instruction = instruction })) s

  unfoldable pub decide_valid : Provider → Event → String → S → S × Decision
  unfolding after_input
  decide_valid p e instruction s =
      let ctx = text_or_empty enc (context_json enc e) in
      after_input p e ctx instruction
        (validate_input tables o.guardrails (join (join ctx "\n") instruction)) s

  unfoldable pub wrap : S × Decision → S × Decided
  wrap (s, d) = (s, decided d)

  unfoldable pub decide_with :
      Option Provider → Option EventError → Event → String → S → S × Decided
  unfolding wrap
  decide_with none invalid e instruction s = (s, no_provider)
  decide_with (some p) (some reason) e instruction s = (s, invalid_event reason)
  decide_with (some p) none e instruction s = wrap (decide_valid p e instruction s)

  unfoldable pub decide : Event → String → S → S × Decided
  unfolding decide_with
  decide e instruction s = decide_with o.provider (validate e) e instruction s

-- What RecordOperatorAction returns: the hash of the record, or an error.
pub data Recorded : Type 0 where
  recorded : String → Recorded
  invalid_action : Recorded
  append_failed : Error → Recorded

abbrev pub is_action : String → Bool
is_action action = (action == "accept") || (action == "override") || (action == "annotate")

module _ {S : Type 0} (clock : ℕ) (o : Orchestrator S) where
  unfoldable pub action_payload : String → String → String → String → Json
  action_payload decision_id operator_id action annotation = obj (
      object (
        ("action", str action)
        ∷ ("annotation", str annotation)
        ∷ ("decision_id", str decision_id)
        ∷ ("operator_id", str operator_id)
        ∷ ("tenant", str o.tenant)
        ∷ []))

  unfoldable pub recorded_of : S × Outcome Record → S × Recorded
  recorded_of (s, ok rec) = (s, recorded rec.hash)
  recorded_of (s, err e) = (s, append_failed e)

  unfoldable pub record_operator_action : String → String → String → String → S → S × Recorded
  unfolding recorded_of
  record_operator_action decision_id operator_id action annotation s =
      if not (is_action action)
      then (s, invalid_action)
      else recorded_of (
          o.chain.append clock "operator_action"
            (action_payload decision_id operator_id action annotation) s)
