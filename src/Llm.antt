-- ===== src/Llm.antt =====
-- The interface of internal/llm/provider.go.
pub mod Mock
use flux_lens.Base.{String, Bool, List}
use flux_lens.Base.Float.{Float64}

-- The few-shot examples of a request are never set by the callers, and are left out.
pub record DecisionRequest : Type 0 where
  pub context : String
  pub instruction : String

pub record DecisionResponse : Type 0 where
  pub classification : String
  pub suggestion : String
  pub confidence : Float64
  pub requires_review : Bool
  pub reasons : List String

-- What a call returns: a response, or an error with its text.
pub data Reply : Type 0 where
  answered : DecisionResponse → Reply
  failed : String → Reply

-- Each call of the service behind a provider is one use of `decide`.
pub record Provider : Type 0 where
  pub name : String
  pub model_id : String
  pub decide : DecisionRequest → Reply
