-- ===== src/Gateway/Bodies.antt =====
-- What the handlers of cmd/api-gateway take, and what they answer with: a status and a body, or an error.
-- Errors are data here, not texts.
use flux_lens.Base.{ℕ, String, Bool, Option, List}
use flux_lens.Base.Signed.{ℤ}
use flux_lens.Base.Json.{Json}
use flux_lens.Base.Float.{Float64}
use flux_lens.AuditLog.Record.{Error, Record}
use flux_lens.Canonical.{EventError}
use flux_lens.Alerts.{Alert}
use flux_lens.Curation as Curation
use flux_lens.Curation.{Result}
use flux_lens.Orchestrator.{Decision, Decided}
use flux_lens.Orchestrator.Decide.{Recorded}
use flux_lens.Orchestrator.Suggest.{PrecedentSuggestion, Suggested}

-- What json.Decoder makes of a body for the type of the handler.
pub data Parsed (A : Type 0) : Type 0 where
  malformed : String → Parsed A
  parsed : A → Parsed A

-- The query of a digest after strconv: Atoi's value for the strategy, whose error is dropped, and
-- the other two where they parse.
pub record DigestQuery : Type 0 where
  pub strategy : ℤ
  pub diversity : Option Float64
  pub k : Option ℤ

pub record SuggestBody : Type 0 where
  pub event_id : String
  pub instruction : String

pub record PrecedentsBody : Type 0 where
  pub event_id : String
  pub instruction : String
  pub max_precedents : ℤ

pub record ResolveBody : Type 0 where
  pub event_id : String
  pub decision_audit_hash : String
  pub operator_id : String
  pub action : String
  pub annotation : String

-- A payload that is absent is `none`; a timestamp is one that decodes.
pub record WebhookBody : Type 0 where
  pub source_id : String
  pub event_type : String
  pub severity : String
  pub payload : Option Json
  pub timestamp : Option ℕ

pub record Health : Type 0 where
  pub audit_backend : String
  pub audit_chain_length : ℕ
  pub audit_chain_head : String
  pub audit_chain_valid : Bool
  pub audit_chain_error : Option Error
  pub recent_events : ℕ
  pub alerts_buffered : ℕ
  pub build_time : ℕ

pub record AuditView : Type 0 where
  pub verified : Bool
  pub verify_err : Option Error
  pub head_hash : String
  pub records : List Record

pub record ExportView : Type 0 where
  pub exported_at : ℕ
  pub audit_verified : Bool
  pub verify_err : Option Error
  pub chain_head_hash : String
  pub records : List Record

pub data Body : Type 0 where
  health : Health → Body
  accepted : String → Body
  digest : Result → Body
  decision : Decision → Body
  suggestion : PrecedentSuggestion → Body
  operator_hash : String → Body
  export : ExportView → Body
  audit : AuditView → Body
  alert_list : List Alert → ℕ → Body
  cleared : Body
  decision_list : List Decision → ℕ → Body
  metrics openapi upgraded : Body

pub data Reason : Type 0 where
  not_upgraded method_not_allowed fields_required unknown_event bad_action not_found unauthorized :
      Reason
  bad_json : String → Reason
  bad_event : EventError → Reason
  bad_digest : Curation.Outcome → Reason
  not_decided : Decided → Reason
  not_suggested : Suggested → Reason
  not_recorded : Recorded → Reason

-- writeJSON with its status, or http.Error with its status.
pub data Reply : Type 0 where
  reply : ℕ → Body → Reply
  failed : ℕ → Reason → Reply
