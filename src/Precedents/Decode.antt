-- ===== src/Precedents/Decode.antt =====
-- The payloads that match.go reads back with json.Unmarshal. A field's name is matched up to case,
-- a later field overwrites an earlier one, null changes nothing, and a value of another type makes
-- the whole decoding fail.
pub mod Names
use flux_lens.Base.{ℕ, String, Option, none, some, ◌==◌, if◌then◌else◌}
use flux_lens.Base.Text.{equal_fold, trim_space}
use flux_lens.Base.Json.{Json, null, str, obj, Fields, end, field}

infixl 5 ◌>>=◌
abbrev ◌>>=◌ {ℓ κ} : {A : Type ℓ} {B : Type κ} → Option A → (A → Option B) → Option B
none >>= k = none
some a >>= k = k a

unfoldable pub text_value : String → Json → Option String
text_value old (str s) = some s
text_value old null = some old
text_value old _ = none

pub record Answer : Type 0 where
  pub classification : String
  pub suggestion : String

pub record DecisionPayload : Type 0 where
  pub event_id : String
  pub event_type : String
  pub source_id : String
  pub severity : String
  pub tenant : String
  pub guardrails_status : String
  pub response : Option Answer

pub record ActionPayload : Type 0 where
  pub decision_id : String
  pub action : String
  pub annotation : String

-- The struct that a nil pointer is given before it is filled.
unfoldable pub answer_or_new : Option Answer → Answer
answer_or_new none = record { classification = ""; suggestion = "" }
answer_or_new (some a) = a

module _ (fold : ℕ → ℕ) where
  -- The string field `name` after the fields of an object have been read.
  unfoldable pub text_field : String → String → Fields → Option String
  unfolding text_value
  text_field name old end = some old
  text_field name old (field k v more) =
      if equal_fold fold k name
      then (text_value old v >>= λ new. text_field name new more)
      else text_field name old more

  unfoldable pub answer_value : Option Answer → Json → Option (Option Answer)
  unfolding text_field answer_or_new
  answer_value old null = some none
  answer_value old (obj fs) = do
    let start = answer_or_new old
    classification ← text_field "classification" start.classification fs
    suggestion ← text_field "suggestion" start.suggestion fs
    some (some (record { classification = classification; suggestion = suggestion }))
  answer_value old _ = none

  unfoldable pub answer_field : Option Answer → Fields → Option (Option Answer)
  unfolding answer_value
  answer_field old end = some old
  answer_field old (field k v more) =
      if equal_fold fold k "response"
      then (answer_value old v >>= λ new. answer_field new more)
      else answer_field old more

  unfoldable pub decode_decision_fields : Fields → Option DecisionPayload
  unfolding text_field answer_field
  decode_decision_fields fs = do
    event_id ← text_field "event_id" "" fs
    event_type ← text_field "event_type" "" fs
    source_id ← text_field "source_id" "" fs
    severity ← text_field "severity" "" fs
    tenant ← text_field "tenant" "" fs
    guardrails_status ← text_field "guardrails_status" "" fs
    response ← answer_field none fs
    some (record {
      event_id = event_id;
      event_type = event_type;
      source_id = source_id;
      severity = severity;
      tenant = tenant;
      guardrails_status = guardrails_status;
      response = response;
    })

  unfoldable pub decode_decision : Json → Option DecisionPayload
  unfolding decode_decision_fields
  decode_decision (obj fs) = decode_decision_fields fs
  decode_decision null = decode_decision_fields end
  decode_decision _ = none

  unfoldable pub decode_action_fields : Fields → Option ActionPayload
  unfolding text_field
  decode_action_fields fs = do
    decision_id ← text_field "decision_id" "" fs
    action ← text_field "action" "" fs
    annotation ← text_field "annotation" "" fs
    some (record { decision_id = decision_id; action = action; annotation = annotation })

  unfoldable pub decode_action : Json → Option ActionPayload
  unfolding decode_action_fields
  decode_action (obj fs) = decode_action_fields fs
  decode_action null = decode_action_fields end
  decode_action _ = none

unfoldable pub normalize_tenant : String → String
normalize_tenant t = if trim_space t == "" then "default" else trim_space t
