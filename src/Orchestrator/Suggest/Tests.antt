-- ===== src/Orchestrator/Suggest/Tests.antt =====
-- A suggestion for an event like one that an operator has resolved, and the theorems on it.
use flux_lens.Base.{false, ◌≡◌, ◌⊎◌, refl, [], ◌∷◌, All, length}
use flux_lens.Base.Float.{f_zero, f_one, f_point_six, lt_f}
use flux_lens.Base.Signed.{pos}
use flux_lens.Base.Dict.{find, assign}
use flux_lens.Base.Text.{equal_fold, trim_space}
use flux_lens.Base.Sorting.{sort}
use flux_lens.Base.Json.{encodable}
use flux_lens.Base.Pattern.{to_lower, matches, byte_length}
use flux_lens.AuditLog.Record.{
  Record, hashable, canonical_bytes, compute_hash, compute_hash_with_prev,
}
use flux_lens.AuditLog.Chain.{Chain, new_chain, append}
use flux_lens.AuditLog.Store.{chain_store, chain_store-IsLog}
use flux_lens.Canonical.{validate, rank}
use flux_lens.Precedents.{newer, matches_criteria, resolved, find_matches}
use flux_lens.Precedents.Decode.{decode_decision, decode_action, normalize_tenant}
use flux_lens.Precedents.Scan.{scan, decision_row, is_decision_kind}
use flux_lens.Precedents.Sound.{IsPrecedent}
use flux_lens.Precedents.Tests.{stable, stable-IsSortSlice}
use flux_lens.Orchestrator.{
  audit, no_response, response_json, text_or_empty, prompt_hash, event_tenant,
}
use flux_lens.Orchestrator.Guards.{validate_input, validate_output, new_default_guardrails}
use flux_lens.Orchestrator.Decide.{
  decide, decide_valid, context_json, decision_payload, action_payload, record_operator_action,
}
use flux_lens.Orchestrator.Audited.{IsAudited, IsUnaudited}
use flux_lens.Orchestrator.Suggest.{
  PrecedentSuggestion, Suggested, suggested, build_steps, prior_steps, precedent_hashes,
  steps_from_rejected, suggest_context, criteria_of, rejection_payload, audit_precedent_rejected,
  suggestion_payload, suggest_output, suggest_reply, suggest_input, matched_for, suggest_valid,
  suggest_with, suggest_with_precedents,
}
use flux_lens.Orchestrator.Suggest.Laws.{cited, suggest-IsAudited, suggest_cites}
use flux_lens.Orchestrator.Tests.{tables, plain, alone, event, certain}

run : Unit {0}
unfolding decide decide_valid validate rank audit validate_input validate_output
    new_default_guardrails to_lower matches byte_length append compute_hash compute_hash_with_prev
    canonical_bytes hashable encodable response_json text_or_empty prompt_hash event_tenant
    context_json decision_payload action_payload record_operator_action lt_f f_zero f_one
    f_point_six find_matches scan decode_decision decode_action normalize_tenant trim_space
    equal_fold matches_criteria resolved newer find assign sort decision_row is_decision_kind
    build_steps prior_steps precedent_hashes steps_from_rejected suggest_context criteria_of
    rejection_payload audit_precedent_rejected suggestion_payload suggest_output suggest_reply
    suggest_input matched_for suggest_valid suggest_with suggest_with_precedents
run = tt

-- A decision and its acceptance.
abbrev resolved_log : Chain
unfolding run
resolved_log =
    (record_operator_action 9 certain "digest" "kim" "accept" "fine"
      (decide tables plain alone certain event "classify" new_chain).0).0

abbrev suggestion_of : Suggested → PrecedentSuggestion
suggestion_of (suggested x) = x
suggestion_of _ = record {
  steps = [];
  precedents_used = [];
  decision = record {
    event_id = "";
    provider = "";
    model_id = "";
    prompt_hash = "";
    response = no_response;
    guardrails = "";
    operator_review = false;
    audit_chain_hash = "";
    audit_chain_prev = "";
  };
}

abbrev outcome : Chain × Suggested
unfolding run
outcome = suggest_with_precedents tables plain stable alone certain event "" (pos 0) resolved_log

abbrev found : PrecedentSuggestion
unfolding run
found = suggestion_of outcome.1

found_suggestion :
    suggest_with_precedents tables plain stable alone certain event "" (pos 0) resolved_log
    ≡ (outcome.0, suggested found)
unfolding run
found_suggestion = refl

cites_decision : cited found.steps ≡ "" ∷ "digest" ∷ []
unfolding run
cites_decision = refl

three_records : length outcome.0.records ≡ 3
unfolding run
three_records = refl

suggest-IsAudited_example :
    ((rec : Record) × IsAudited
        (chain_store plain)
        alone
        "decision_with_precedents"
        resolved_log
        outcome.0
        found.decision
        rec)
    ⊎ IsUnaudited (chain_store plain) alone resolved_log outcome.0 found.decision
suggest-IsAudited_example =
    suggest-IsAudited tables plain stable alone certain event "" (pos 0) resolved_log outcome.0
      found (chain_store-IsLog plain) found_suggestion

suggest_cites_example :
    All
      (IsPrecedent tables.fold resolved_log.records
        (criteria_of tables plain stable alone certain event))
      found.precedents_used
    × ((cited found.steps ≡ "" ∷ [])
        ⊎ (cited found.steps ≡ "" ∷ precedent_hashes found.precedents_used))
suggest_cites_example =
    suggest_cites tables plain stable alone certain event "" (pos 0) resolved_log outcome.0 found
      stable-IsSortSlice found_suggestion
