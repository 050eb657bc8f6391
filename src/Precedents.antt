-- ===== src/Precedents.antt =====
-- internal/precedents/match.go: past operator resolutions, found in the audit log.
pub mod Decode
pub mod Scan
pub mod Sound
pub mod Complete
pub mod Tests
use flux_lens.Base.{
  ℕ, String, Bool, true, false, not, ◌&&◌, ◌||◌, Option, none, some, List, [], ◌∷◌, ◌++◌, ◌==◌, ltb,
  take, if◌then◌else◌,
}
use flux_lens.Base.Signed.{ℤ, positive_or}
use flux_lens.Base.Dict.{Dict, find}
use flux_lens.Base.Text.{equal_fold, trim_space}
use flux_lens.AuditLog.Record.{Record}
use flux_lens.Precedents.Decode.{normalize_tenant}
use flux_lens.Precedents.Scan.{DecisionRow, ActionRow, Scanned, scan}

pub record Criteria : Type 0 where
  pub event_type : String
  pub source_id : String
  pub severity : String
  pub tenant_id : String

pub record Resolved : Type 0 where
  pub decision_hash : String
  pub event_id : String
  pub event_type : String
  pub source_id : String
  pub severity : String
  pub tenant : String
  pub classification : String
  pub suggestion : String
  pub operator_action : String
  pub annotation : String
  pub operator_audit_hash : String

-- sort.Slice may order equal elements at will: it is known by what it promises.
abbrev pub SortSlice : Type 0
SortSlice = (Resolved → Resolved → Bool) → List Resolved → List Resolved

unfoldable pub resolved : DecisionRow → ActionRow → Resolved
resolved d act = record {
  decision_hash = d.hash;
  event_id = d.event_id;
  event_type = d.event_type;
  source_id = d.source_id;
  severity = d.severity;
  tenant = d.tenant;
  classification = d.classification;
  suggestion = d.suggestion;
  operator_action = act.action;
  annotation = act.annotation;
  operator_audit_hash = act.hash;
}

row_sequence : Option DecisionRow → ℕ
row_sequence none = 0
row_sequence (some d) = d.sequence

-- The comparison handed to sort.Slice: the later decision first.
unfoldable pub newer : Dict DecisionRow → Resolved → Resolved → Bool
unfolding row_sequence
newer decisions a b =
    ltb (row_sequence (find decisions b.decision_hash))
      (row_sequence (find decisions a.decision_hash))

module _ (fold : ℕ → ℕ) where
  unfoldable pub matches_criteria : DecisionRow → Criteria → String → Bool
  matches_criteria d c tenant =
      if c.event_type == "" || c.source_id == "" || c.severity == ""
      then false
      else if not (equal_fold fold d.event_type c.event_type)
      then false
      else if not (d.source_id == c.source_id)
      then false
      else if not (equal_fold fold d.severity c.severity)
      then false
      else if not (tenant == "") && not (normalize_tenant d.tenant == tenant)
      then false
      else true

  add_match : Criteria → String → Option DecisionRow → ActionRow → List Resolved → List Resolved
  unfolding matches_criteria resolved
  add_match c tenant none act rest = rest
  add_match c tenant (some d) act rest =
      if matches_criteria d c tenant then resolved d act ∷ rest else rest

  -- The loop over the collected actions.
  join : Dict DecisionRow → Criteria → String → List ActionRow → List Resolved
  unfolding add_match
  join decisions c tenant [] = []
  join decisions c tenant (act ∷ acts) =
      add_match c tenant (find decisions act.decision_id) act (join decisions c tenant acts)

  module _ (sort_slice : SortSlice) where
    unfoldable pub find_matches : List Record → Criteria → ℤ → List Resolved
    unfolding join
    find_matches snapshot c max =
        let scanned = scan fold snapshot in
        let out = join scanned.decisions c (normalize_tenant c.tenant_id) scanned.actions in
        take (positive_or max 5) (sort_slice (newer scanned.decisions) out)
