-- ===== src/Orchestrator/Suggest.antt =====
-- internal/orchestrator/precedents.go: SuggestWithPrecedents. Maps are written with their keys in
-- order, as json.Marshal does.
pub mod Laws
pub mod Tests
use Prim.Native.String.{◌++◌ as join}
use flux_lens.Base.{
  ℕ, String, Bool, true, false, Option, none, some, List, [], ◌∷◌, ◌++◌, ◌==◌, if◌then◌else◌,
  length, map,
}
use flux_lens.Base.Signed.{ℤ}
use flux_lens.Base.Pattern.{CaseTables}
use flux_lens.Base.Json.{Json, null, nat, str, bool, arr, obj, Items, nil, cons, object, texts}
use flux_lens.AuditLog.Record.{Encoding}
use flux_lens.Canonical.{Event, EventError, validate}
use flux_lens.Llm.{Provider, Reply, answered, failed}
use flux_lens.Precedents.{Criteria, Resolved, SortSlice, find_matches}
use flux_lens.Orchestrator.{
  Orchestrator, Decision, no_response, response_of, response_json, text_or_empty, prompt_hash,
  event_tenant, Surroundings, audit,
}
use flux_lens.Orchestrator.Guards.{Response, validate_input, validate_output}
use flux_lens.Orchestrator.Decide.{draft}

abbrev pub default_precedent_instruction : String
default_precedent_instruction =
    "You are assisting a manufacturing line supervisor.\nSimilar past operator resolutions are provided as precedents.\nClassify the current event (routine / elevated / critical) and propose concrete operator steps.\nNever recommend autonomous operational moves; bias toward human review when evidence is ambiguous."

pub record PrecedentStep : Type 0 where
  pub text : String
  pub cited_precedent_hash : String

pub record PrecedentSuggestion : Type 0 where
  pub steps : List PrecedentStep
  pub precedents_used : List Resolved
  pub decision : Decision

pub data Suggested : Type 0 where
  suggested : PrecedentSuggestion → Suggested
  no_provider : Suggested
  invalid_event : EventError → Suggested

-- A field with `omitempty`
optional_field : String → String → List (String × Json)
optional_field name v = if v == "" then [] else (name, str v) ∷ []

resolved_json : Resolved → Json
unfolding optional_field
resolved_json r = obj (
    object (
      ("decision_hash", str r.decision_hash) ∷ optional_field "event_id" r.event_id
      ++ ("event_type", str r.event_type)
        ∷ ("source_id", str r.source_id)
        ∷ ("severity", str r.severity)
        ∷ ("tenant", str r.tenant)
        ∷ optional_field "classification" r.classification
      ++ optional_field "suggestion" r.suggestion
      ++ ("operator_action", str r.operator_action) ∷ optional_field "annotation" r.annotation
      ++ optional_field "operator_audit_hash" r.operator_audit_hash))

resolved_items : List Resolved → Items
unfolding resolved_json
resolved_items [] = nil
resolved_items (r ∷ more) = cons (resolved_json r) (resolved_items more)

-- A nil slice encodes as null; FindMatches returns nil when nothing matches.
matched_json : List Resolved → Json
unfolding resolved_items
matched_json [] = null
matched_json (r ∷ more) = arr (resolved_items (r ∷ more))

unfoldable pub precedent_hashes : List Resolved → List String
precedent_hashes [] = []
precedent_hashes (r ∷ more) = r.decision_hash ∷ precedent_hashes more

annotation_text : Resolved → String
annotation_text r = if r.annotation == "" then "" else join " — " r.annotation

suggestion_text : Resolved → String
suggestion_text r =
    if r.suggestion == "" then "" else join (join " (AI had suggested: " r.suggestion) ")"

prior_text : Resolved → String
unfolding annotation_text suggestion_text
prior_text r = join "Prior " (
    join r.classification (
      join " on similar " (
        join r.event_type (
          join "/" (
            join r.severity (
              join ": operator "
                (join r.operator_action (join (annotation_text r) (suggestion_text r)))))))))

unfoldable pub prior_steps : List Resolved → List PrecedentStep
unfolding prior_text
prior_steps [] = []
prior_steps (r ∷ more) =
    record { text = prior_text r; cited_precedent_hash = r.decision_hash } ∷ prior_steps more

unfoldable pub build_steps : Response → List Resolved → List PrecedentStep
build_steps resp matched =
    record {
      text = join resp.classification (join " — " resp.suggestion);
      cited_precedent_hash = "";
    }
    ∷ prior_steps matched

unfoldable pub steps_from_rejected : Decision → List PrecedentStep
steps_from_rejected dec =
    let msg = if dec.response.suggestion == "" then dec.guardrails else dec.response.suggestion in
    record {
      text = join (join "Suggestion blocked by guardrails (" msg) "); review manually.";
      cited_precedent_hash = "";
    }
    ∷ []

response_or_zero : Option Response → Response
response_or_zero none = no_response
response_or_zero (some r) = r

response_field : Option Response → List (String × Json)
response_field none = []
response_field (some r) = ("response", response_json r) ∷ []

unfoldable pub suggest_context : Encoding → Event → List Resolved → Json
unfolding matched_json
suggest_context enc e matched = obj (
    object (
      ("event_id", str e.event_id)
      ∷ ("event_type", str e.event_type)
      ∷ ("payload", e.payload)
      ∷ ("precedents", matched_json matched)
      ∷ ("severity", str e.severity)
      ∷ ("source_id", str e.source_id)
      ∷ ("timestamp", str (enc.rfc3339_nano e.timestamp))
      ∷ []))

unfoldable pub instruction_or_default : String → String
instruction_or_default i = if i == "" then default_precedent_instruction else i

module _ {S : Type 0} (tables : CaseTables) (enc : Encoding) (sort_slice : SortSlice)
    (around : Surroundings S) (o : Orchestrator S) where
  unfoldable pub criteria_of : Event → Criteria
  criteria_of e = record {
    event_type = e.event_type;
    source_id = e.source_id;
    severity = e.severity;
    tenant_id = event_tenant e o.tenant;
  }

  unfoldable pub rejection_payload :
      Provider → Event → String → String → String → Option Response → List Resolved → Json
  unfolding response_field
  rejection_payload p e hash status reason resp matched = obj (
      object (
        ("event_id", str e.event_id)
          ∷ ("event_type", str e.event_type)
          ∷ ("guardrails_status", str status)
          ∷ ("model_id", str p.model_id)
          ∷ ("precedent_count", nat (length matched))
          ∷ ("prompt_hash", str hash)
          ∷ ("provider", str p.name)
          ∷ ("reason", str reason)
          ∷ response_field resp
        ++ ("severity", str e.severity)
          ∷ ("source_id", str e.source_id)
          ∷ ("tenant", str (event_tenant e o.tenant))
          ∷ []))

  unfoldable pub audit_precedent_rejected :
      Provider
      → Event
      → String
      → String
      → String
      → Option Response
      → List Resolved
      → S
      → S × Decision
  unfolding response_or_zero
  audit_precedent_rejected p e hash status reason resp matched s =
      audit around o.chain (join "decision_" status)
        (rejection_payload p e hash status reason resp matched)
        (draft p e hash (response_or_zero resp) status true) s

  unfoldable pub suggestion_payload : Provider → Event → String → Response → List Resolved → Json
  suggestion_payload p e hash resp matched = obj (
      object (
        ("event_id", str e.event_id)
        ∷ ("event_type", str e.event_type)
        ∷ ("guardrails_status", str "pass")
        ∷ ("model_id", str p.model_id)
        ∷ ("operator_review", bool resp.requires_review)
        ∷ ("precedent_count", nat (length matched))
        ∷ ("precedent_hashes", arr (texts (precedent_hashes matched)))
        ∷ ("prompt_hash", str hash)
        ∷ ("provider", str p.name)
        ∷ ("response", response_json resp)
        ∷ ("severity", str e.severity)
        ∷ ("source_id", str e.source_id)
        ∷ ("tenant", str (event_tenant e o.tenant))
        ∷ []))

  -- The end of a refusal, and of a suggestion that passed.
  unfoldable pub refuse : List Resolved → S × Decision → S × PrecedentSuggestion
  refuse matched (s, d) =
      (s, record { steps = steps_from_rejected d; precedents_used = matched; decision = d })

  unfoldable pub suggest : Response → List Resolved → S × Decision → S × PrecedentSuggestion
  suggest resp matched (s, d) =
      (s, record { steps = build_steps resp matched; precedents_used = matched; decision = d })

  unfoldable pub suggest_output :
      Provider
      → Event
      → String
      → Response
      → List Resolved
      → Option String
      → S
      → S × PrecedentSuggestion
  unfolding refuse suggest
  suggest_output p e hash resp matched (some reason) s =
      refuse matched
        (audit_precedent_rejected p e hash "rejected_output" reason (some resp) matched s)
  suggest_output p e hash resp matched none s = suggest resp matched (
      audit around o.chain "decision_with_precedents" (suggestion_payload p e hash resp matched)
        (draft p e hash resp "pass" resp.requires_review) s)

  unfoldable pub suggest_reply :
      Provider → Event → String → List Resolved → Reply → S → S × PrecedentSuggestion
  unfolding refuse
  suggest_reply p e hash matched (failed detail) s =
      refuse matched (audit_precedent_rejected p e hash "provider_error" detail none matched s)
  suggest_reply p e hash matched (answered r) s =
      suggest_output p e hash (response_of r) matched (validate_output o.guardrails (response_of r))
        s

  unfoldable pub suggest_input :
      Provider
      → Event
      → String
      → String
      → List Resolved
      → Option String
      → S
      → S × PrecedentSuggestion
  unfolding refuse
  suggest_input p e ctx instruction matched (some reason) s = refuse matched (
      audit_precedent_rejected p e (prompt_hash enc ctx instruction) "rejected_input" reason none
        matched s)
  suggest_input p e ctx instruction matched none s =
      suggest_reply p e (prompt_hash enc ctx instruction) matched
        (p.decide (record { context = ctx; instruction = instruction })) s

  unfoldable pub matched_for : Event → ℤ → S → List Resolved
  matched_for e max s = find_matches tables.fold sort_slice (o.chain.snapshot s) (criteria_of e) max

  unfoldable pub suggest_valid : Provider → Event → String → ℤ → S → S × PrecedentSuggestion
  suggest_valid p e instruction max s =
      let matched = matched_for e max s in
      let ctx = text_or_empty enc (suggest_context enc e matched) in
      suggest_input p e ctx instruction matched
        (validate_input tables o.guardrails (join (join ctx "\n") instruction)) s

  unfoldable pub wrap_suggestion : S × PrecedentSuggestion → S × Suggested
  wrap_suggestion (s, x) = (s, suggested x)

  unfoldable pub suggest_with :
      Option Provider → Option EventError → Event → String → ℤ → S → S × Suggested
  unfolding wrap_suggestion instruction_or_default
  suggest_with none invalid e instruction max s = (s, no_provider)
  suggest_with (some p) (some reason) e instruction max s = (s, invalid_event reason)
  suggest_with (some p) none e instruction max s =
      wrap_suggestion (suggest_valid p e (instruction_or_default instruction) max s)

  unfoldable pub suggest_with_precedents : Event → String → ℤ → S → S × Suggested
  suggest_with_precedents e instruction max s =
      suggest_with o.provider (validate e) e instruction max s
