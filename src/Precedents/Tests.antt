-- ===== src/Precedents/Tests.antt =====
-- A log with a decision, a turned-down decision and two operator actions, and the theorems on it.
use mathlib.Core.List.{Memᴰ}
use flux_lens.Base.{ℕ, ◌+◌, String, ◌≡◌, refl, ◌&&◌, List, [], ◌∷◌, arith, leb, if◌then◌else◌, All}
use flux_lens.Base.Json.{Json, str, obj, object}
use flux_lens.Base.Signed.{pos}
use flux_lens.Base.Dict.{find, assign}
use flux_lens.Base.Text.{equal_fold, trim_space}
use flux_lens.Base.Sorting.{sort, sort-perm, sort-IsSorted}
use flux_lens.AuditLog.Record.{Record}
use flux_lens.Precedents.{
  Criteria, Resolved, SortSlice, resolved, newer, matches_criteria, find_matches,
}
use flux_lens.Precedents.Decode.{decode_decision, decode_action, normalize_tenant}
use flux_lens.Precedents.Scan.{DecisionRow, ActionRow, scan, decision_row}
use flux_lens.Precedents.Sound.{IsSortSlice, IsPrecedent, find_matches-IsPrecedent}
use flux_lens.Precedents.Complete.{find_matches_complete}

-- Case folding on ASCII.
abbrev ascii_fold : ℕ → ℕ
ascii_fold c = if leb 65 c && leb c 90 then c + 32 else c

abbrev pub stable : SortSlice
stable less xs = sort less xs

pub stable-IsSortSlice : IsSortSlice stable
stable-IsSortSlice = record {
  permutes = λ less xs. sort-perm less xs;
  orders = λ less xs order. sort-IsSorted less order xs;
}

abbrev entry : ℕ → String → List (String × Json) → String → Record
entry n kind fields hash = record {
  sequence = n;
  timestamp = n;
  kind = kind;
  payload = obj (object fields);
  prev_hash = "";
  hash = hash;
}

abbrev sample_log : List Record
sample_log =
    entry 0 "decision"
      (("event_type", str "Alarm")
        ∷ ("source_id", str "plc")
        ∷ ("severity", str "warn")
        ∷ ("tenant", str " acme ")
        ∷ ("guardrails_status", str "pass")
        ∷ ("response", obj (object (("classification", str "elevated") ∷ [])))
        ∷ [])
      "h0"
    ∷ entry 1 "decision"
        (("event_type", str "alarm")
          ∷ ("source_id", str "plc")
          ∷ ("severity", str "warn")
          ∷ ("tenant", str "acme")
          ∷ ("guardrails_status", str "rejected_output")
          ∷ [])
        "h1"
    ∷ entry 2 "operator_action" (("decision_id", str "h0") ∷ ("action", str "accept") ∷ []) "h2"
    ∷ entry 3 "operator_action" (("decision_id", str "h1") ∷ ("action", str "accept") ∷ []) "h3"
    ∷ []

abbrev asked : Criteria
asked = record { event_type = "alarm"; source_id = "plc"; severity = "WARN"; tenant_id = "acme" }

abbrev expected : Resolved
expected = record {
  decision_hash = "h0";
  event_id = "";
  event_type = "Alarm";
  source_id = "plc";
  severity = "warn";
  tenant = "acme";
  classification = "elevated";
  suggestion = "";
  operator_action = "accept";
  annotation = "";
  operator_audit_hash = "h2";
}

run : Unit {0}
unfolding find_matches scan decode_decision decode_action normalize_tenant trim_space equal_fold
    matches_criteria resolved newer find assign sort decision_row
run = tt

found : find_matches ascii_fold stable sample_log asked (pos 0) ≡ expected ∷ []
unfolding run
found = refl

find_matches-IsPrecedent_example :
    All
      (IsPrecedent ascii_fold sample_log asked)
      (find_matches ascii_fold stable sample_log asked (pos 0))
find_matches-IsPrecedent_example =
    find_matches-IsPrecedent ascii_fold sample_log asked stable (pos 0) stable-IsSortSlice

abbrev found_action : ActionRow
found_action = record {
  decision_id = "h0";
  action = "accept";
  annotation = "";
  hash = "h2";
  sequence = 2;
}

abbrev found_decision : DecisionRow
found_decision = record {
  hash = "h0";
  event_id = "";
  event_type = "Alarm";
  source_id = "plc";
  severity = "warn";
  tenant = "acme";
  classification = "elevated";
  suggestion = "";
  sequence = 0;
}

find_matches_complete_example :
    Memᴰ
      (resolved found_decision found_action)
      (find_matches ascii_fold stable sample_log asked (pos 0))
unfolding run
find_matches_complete_example =
    find_matches_complete ascii_fold sample_log asked stable (pos 0) found_action found_decision
      stable-IsSortSlice (Memᴰ.head refl) refl refl (omega arith)
