-- ===== src/Orchestrator.antt =====
-- internal/orchestrator/orchestrator.go: the decision pipeline, over the interface of the audit log.
pub mod Guards
pub mod Decide
pub mod Branches
pub mod Safety
pub mod Audited
pub mod Suggest
pub mod Closed
pub mod Readback
pub mod Tests
use Prim.Native.String.{◌++◌ as join}
use flux_lens.Base.{
  ℕ, String, Bool, true, false, not, ◌&&◌, Option, none, some, List, [], ◌∷◌, ◌++◌, ◌==◌,
  if◌then◌else◌,
}
use flux_lens.Base.Float.{f_zero}
use flux_lens.Base.Pattern.{CaseTables}
use flux_lens.Base.Json.{Json, null, bool, float, str, arr, obj, Fields, object, texts, encodable}
use flux_lens.AuditLog.Record.{Record, Encoding, Outcome, ok, err, Error}
use flux_lens.AuditLog.Store.{Store}
use flux_lens.Canonical.{Event, EventError}
use flux_lens.Llm.{Provider, DecisionResponse}
use flux_lens.Orchestrator.Guards.{Guardrails, Response, new_default_guardrails}

-- The log is held by reference: its state is passed to each operation.
pub record Orchestrator (S : Type 0) : Type 0 where
  pub provider : Option Provider
  pub guardrails : Guardrails
  pub chain : Store S
  pub tenant : String

guardrails_or_default : Option Guardrails → Guardrails
guardrails_or_default none = new_default_guardrails
guardrails_or_default (some g) = g

-- New, for a store that is not nil; in place of a nil store it puts the in-memory chain, freshly made.
unfoldable pub new :
    {S : Type 0} → Option Provider → Option Guardrails → Store S → String → Orchestrator S
unfolding guardrails_or_default
new provider guardrails chain tenant = record {
  provider = provider;
  guardrails = guardrails_or_default guardrails;
  chain = chain;
  tenant = if tenant == "" then "default" else tenant;
}

pub record Decision : Type 0 where
  pub event_id : String
  pub provider : String
  pub model_id : String
  pub prompt_hash : String
  pub response : Response
  pub guardrails : String
  pub operator_review : Bool
  pub audit_chain_hash : String
  pub audit_chain_prev : String

-- What Decide returns: a decision, or one of its two errors.
pub data Decided : Type 0 where
  decided : Decision → Decided
  no_provider : Decided
  invalid_event : EventError → Decided

-- The zero value of a response.
abbrev pub no_response : Response
no_response = record {
  classification = "";
  suggestion = "";
  confidence = f_zero;
  requires_review = false;
  reasons = [];
}

abbrev pub response_of : DecisionResponse → Response
response_of r = record {
  classification = r.classification;
  suggestion = r.suggestion;
  confidence = r.confidence;
  requires_review = r.requires_review;
  reasons = r.reasons;
}

-- A nil or empty list of reasons is left out.
unfoldable pub reasons_field : List String → List (String × Json)
reasons_field [] = []
reasons_field (r ∷ more) = ("reasons", arr (texts (r ∷ more))) ∷ []

unfoldable pub response_json : Response → Json
unfolding reasons_field
response_json r = obj (
    object (
      ("classification", str r.classification)
      ∷ ("suggestion", str r.suggestion)
      ∷ ("confidence", float r.confidence)
      ∷ ("requires_review", bool r.requires_review)
      ∷ reasons_field r.reasons))

-- string(contextBytes); when json.Marshal fails, its error is dropped and the bytes are nil.
unfoldable pub text_or_empty : Encoding → Json → String
text_or_empty enc v = if encodable v then enc.json_text v else ""

unfoldable pub prompt_hash : Encoding → String → String → String
prompt_hash enc ctx instruction = enc.sha256_hex (join (join ctx "\0") instruction)

unfoldable pub event_tenant : Event → String → String
event_tenant event fallback =
    if not (event.metadata.tenant_id == "")
    then event.metadata.tenant_id
    else if not (fallback == "")
    then fallback
    else "default"

-- What happens beside a call: the clock that Append reads, and what other callers do to the log
-- before the call reads HeadHash and between that and Append.
pub record Surroundings (S : Type 0) : Type 0 where
  pub clock : ℕ
  pub before : S → S
  pub between : S → S

-- The hash of the returned record; Append's error is dropped, and the record is then the zero one.
unfoldable pub hash_or_empty : Outcome Record → String
hash_or_empty (ok rec) = rec.hash
hash_or_empty (err e) = ""

-- The end of every branch: HeadHash, Append, and the two hashes in the decision.
unfoldable pub audit :
    {S : Type 0} → Surroundings S → Store S → String → Json → Decision → S → S × Decision
unfolding hash_or_empty
audit around chain kind payload dec s =
    let head = around.before s in
    let (s', result) = chain.append around.clock kind payload (around.between head) in
    (
      s',
      record dec {
        audit_chain_prev = chain.head_hash head;
        audit_chain_hash = hash_or_empty result;
      },
    )
