-- ===== src/Orchestrator/Branches.antt =====
-- The four ways through Decide, as an indexed family: each carries what the steps before it returned.
use Prim.Native.String.{◌++◌ as join}
use flux_lens.Base.{String, true, ◌≡◌, refl, Option, none, some}
use flux_lens.Base.Pattern.{CaseTables}
use flux_lens.Base.Json.{Json}
use flux_lens.AuditLog.Record.{Encoding}
use flux_lens.Canonical.{Event}
use flux_lens.Llm.{Provider, DecisionRequest, DecisionResponse, Reply, answered, failed}
use flux_lens.Orchestrator.{
  Orchestrator, Decision, no_response, response_of, text_or_empty, prompt_hash, Surroundings, audit,
}
use flux_lens.Orchestrator.Guards.{validate_input, validate_output}
use flux_lens.Orchestrator.Decide.{
  context_json, draft, refusal, failure, rejection, decision_payload, after_output, after_reply,
  after_input, decide_valid,
}

module _ {S : Type 0} (tables : CaseTables) (enc : Encoding) (around : Surroundings S)
    (o : Orchestrator S) (p : Provider) (e : Event) (instruction : String) where
  abbrev pub context_text : String
  context_text = text_or_empty enc (context_json enc e)

  abbrev pub request : DecisionRequest
  request = record { context = context_text; instruction = instruction }

  abbrev pub checked_input : Option String
  checked_input = validate_input tables o.guardrails (join (join context_text "\n") instruction)

  abbrev pub hash_of_prompt : String
  hash_of_prompt = prompt_hash enc context_text instruction

  -- The kind and the payload of the audit record, and the decision before its audit.
  pub data IsBranch : String → Json → Decision → Type 0 where
    rejected_input :
        (reason : String)
        → checked_input ≡ some reason
        → IsBranch "decision_rejected_input"
            (refusal tables enc around o p e hash_of_prompt "reason" reason)
            (draft p e hash_of_prompt no_response "rejected_input" true)
    provider_error :
        (detail : String)
        → checked_input ≡ none
        → p.decide request ≡ failed detail
        → IsBranch "decision_provider_error"
            (failure tables enc around o p e hash_of_prompt detail)
            (draft p e hash_of_prompt no_response "provider_error" true)
    rejected_output :
        (r : DecisionResponse) (reason : String)
        → checked_input ≡ none
        → p.decide request ≡ answered r
        → validate_output o.guardrails (response_of r) ≡ some reason
        → IsBranch "decision_rejected_output"
            (rejection tables enc around o p e hash_of_prompt (response_of r) reason)
            (draft p e hash_of_prompt (response_of r) "rejected_output" true)
    pass :
        (r : DecisionResponse)
        → checked_input ≡ none
        → p.decide request ≡ answered r
        → validate_output o.guardrails (response_of r) ≡ none
        → IsBranch "decision"
            (decision_payload tables enc around o p e hash_of_prompt (response_of r))
            (draft p e hash_of_prompt (response_of r) "pass" r.requires_review)

  -- One of the ways, with its audit as the only step on the log.
  unfoldable pub TakesBranch : S → S × Decision → Type 0
  TakesBranch s result =
      (kind : String) × (payload : Json) × (dec : Decision) × IsBranch kind payload dec
      × (result ≡ audit around o.chain kind payload dec s)

  output_branch :
      (r : DecisionResponse) (checked : Option String) (s : S)
      → checked_input ≡ none
      → p.decide request ≡ answered r
      → validate_output o.guardrails (response_of r) ≡ checked
      → TakesBranch s
          (after_output tables enc around o p e hash_of_prompt (response_of r) checked s)
  unfolding after_output TakesBranch
  output_branch r (some reason) s h a v = (_, _, _, rejected_output r reason h a v, refl)
  output_branch r none s h a v = (_, _, _, pass r h a v, refl)

  reply_branch :
      (reply : Reply) (s : S)
      → checked_input ≡ none
      → p.decide request ≡ reply
      → TakesBranch s (after_reply tables enc around o p e hash_of_prompt reply s)
  unfolding after_reply TakesBranch
  reply_branch (failed detail) s h a = (_, _, _, provider_error detail h a, refl)
  reply_branch (answered r) s h a = output_branch r _ s h a refl

  input_branch :
      (checked : Option String) (s : S)
      → checked_input ≡ checked
      → TakesBranch s (after_input tables enc around o p e context_text instruction checked s)
  unfolding after_input TakesBranch
  input_branch (some reason) s h = (_, _, _, rejected_input reason h, refl)
  input_branch none s h = reply_branch _ s h refl

  -- For a valid event and a provider, Decide goes one of the four ways.
  pub decide_branches : (s : S) → TakesBranch s (decide_valid tables enc around o p e instruction s)
  unfolding decide_valid
  decide_branches s = input_branch _ s refl
