-- ===== src/Precedents/Scan.antt =====
-- The scan of the audit log in FindMatches, which collects decisions and operator actions.
pub mod Source
use flux_lens.Base.{
  ℕ, String, Bool, not, ◌&&◌, ◌||◌, Option, none, some, List, [], ◌∷◌, ◌++◌, ◌==◌, if◌then◌else◌,
}
use flux_lens.Base.Dict.{Dict, assign}
use flux_lens.AuditLog.Record.{Record}
use flux_lens.Precedents.Decode.{
  Answer, DecisionPayload, ActionPayload, decode_decision, decode_action, normalize_tenant,
}

pub record DecisionRow : Type 0 where
  pub hash : String
  pub event_id : String
  pub event_type : String
  pub source_id : String
  pub severity : String
  pub tenant : String
  pub classification : String
  pub suggestion : String
  pub sequence : ℕ

pub record ActionRow : Type 0 where
  pub decision_id : String
  pub action : String
  pub annotation : String
  pub hash : String
  pub sequence : ℕ

-- decisionKinds
unfoldable pub is_decision_kind : String → Bool
is_decision_kind kind = kind == "decision" || kind == "decision_with_precedents"

pub record Scanned : Type 0 where
  pub decisions : Dict DecisionRow
  pub actions : List ActionRow

class_of : Option Answer → String
class_of none = ""
class_of (some a) = a.classification

suggestion_of : Option Answer → String
suggestion_of none = ""
suggestion_of (some a) = a.suggestion

unfoldable pub decision_row : Record → DecisionPayload → DecisionRow
unfolding class_of suggestion_of
decision_row rec p = record {
  hash = rec.hash;
  event_id = p.event_id;
  event_type = p.event_type;
  source_id = p.source_id;
  severity = p.severity;
  tenant = normalize_tenant p.tenant;
  classification = class_of p.response;
  suggestion = suggestion_of p.response;
  sequence = rec.sequence;
}

abbrev pub action_row : Record → ActionPayload → ActionRow
action_row rec p = record {
  decision_id = p.decision_id;
  action = p.action;
  annotation = p.annotation;
  hash = rec.hash;
  sequence = rec.sequence;
}

-- A status other than "pass" means that guardrails turned the decision down.
is_rejected : DecisionPayload → Bool
is_rejected p = not (p.guardrails_status == "") && not (p.guardrails_status == "pass")

add_decision : Record → Option DecisionPayload → Scanned → Scanned
add_decision rec none s = s
add_decision rec (some p) s =
    if is_rejected p
    then s
    else record s { decisions = assign s.decisions rec.hash (decision_row rec p) }

add_action : Record → Option ActionPayload → Scanned → Scanned
add_action rec none s = s
add_action rec (some p) s =
    if p.decision_id == "" then s else record s { actions = s.actions ++ action_row rec p ∷ [] }

module _ (fold : ℕ → ℕ) where
  scan_record : Scanned → Record → Scanned
  unfolding add_decision add_action is_decision_kind is_rejected
  scan_record s rec =
      if is_decision_kind rec.kind
      then add_decision rec (decode_decision fold rec.payload) s
      else if rec.kind == "operator_action"
      then add_action rec (decode_action fold rec.payload) s
      else s

  scan_from : Scanned → List Record → Scanned
  unfolding scan_record
  scan_from s [] = s
  scan_from s (rec ∷ rest) = scan_from (scan_record s rec) rest

  unfoldable pub scan : List Record → Scanned
  unfolding scan_from
  scan records = scan_from (record { decisions = []; actions = [] }) records
