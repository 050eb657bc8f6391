-- ===== src/Alerts/Tests.antt =====
-- A store that takes, drops and forgets alerts, and the theorems on concrete alerts.
use Prim.Native.String.{◌++◌ as join}
use flux_lens.Base.{ℕ, ◌*◌, String, ◌≡◌, ◌≢◌, refl, none, some, List, [], ◌∷◌, take, arith, eq_iff}
use flux_lens.Base.Signed.{pos, negsuc}
use flux_lens.Base.Time.{second, sub_time}
use flux_lens.Base.Format.{Format}
use flux_lens.Base.Float.{f_zero, f_one, lt_f}
use flux_lens.Base.Dict.{find, assign}
use flux_lens.Base.Json.{null}
use flux_lens.Canonical.{Event, schema_version, severity_info, severity_critical, source_kafka}
use flux_lens.Alerts.{Alert}
use flux_lens.Alerts.Store.{dedupe_key, add, snapshot, new_store}
use flux_lens.Alerts.Store.History.{Call, alerts_of, add_all, taken, snapshot-add_all}
use flux_lens.Alerts.Rules.{Stamp, from_digest_quality, freshness_floor, diversity_floor}

abbrev alert : String → String → Alert
alert id rule = record {
  id = id;
  title = "";
  body = "";
  severity = severity_info;
  rule_id = rule;
  created_at = 0;
  ref = none;
}

abbrev call : ℕ → String → String → Call
call seconds id rule = record {
  since = seconds * second;
  now = seconds * second;
  alert = alert id rule;
}

-- The second alert of rule r is 44 seconds after the first one, and is dropped.
abbrev calls : List Call
calls =
    call 100 "a" "r"
    ∷ call 110 "b" "q"
    ∷ call 144 "c" "r"
    ∷ call 145 "d" "r"
    ∷ call 150 "e" "p"
    ∷ []

run : Unit {0}
unfolding sub_time snapshot add_all new_store add dedupe_key find assign
run = tt

-- Room for two alerts: the ones of the times 145 and 150.
newest_two : snapshot (add_all calls (new_store (pos 2))) ≡ alert "e" "p" ∷ alert "d" "r" ∷ []
unfolding run
newest_two = refl

all_taken :
    snapshot (add_all calls (new_store (negsuc 0)))
    ≡ alert "e" "p" ∷ alert "d" "r" ∷ alert "b" "q" ∷ alert "a" "r" ∷ []
unfolding run
all_taken = refl

snapshot-add_all_example :
    snapshot (add_all calls (new_store (pos 2))) ≡ take 2 (alerts_of (taken [] calls))
snapshot-add_all_example = snapshot-add_all (pos 2) calls

abbrev event : String → String → Event
event id severity = record {
  event_id = id;
  source_id = "s";
  source_type = source_kafka;
  event_type = "alarm";
  severity = severity;
  timestamp = 7;
  ingested_at = 7;
  payload = null;
  metadata = record { trace_id = ""; ingestion_pod = ""; schema = schema_version; tenant_id = "" };
}

abbrev stamp : Stamp
stamp = record { id = "a1"; now = 9 }

abbrev raised : String → Alert
raised id = record {
  id = "a1";
  title = "Elevated ingest severity (alarm)";
  body = join "event_id=" (join id " source_id=s severity=critical trace=");
  severity = severity_critical;
  rule_id = "ingest.severity_warn_or_above";
  created_at = 9;
  ref = some (("event_id", id) ∷ ("source_id", "s") ∷ ("event_type", "alarm") ∷ []);
}

e1_filled : ◌≢◌ {A = String} "e1" ""
e1_filled e = ground (arith, eq_iff "e1" "")

e2_filled : ◌≢◌ {A = String} "e2" ""
e2_filled e = ground (arith, eq_iff "e2" "")

abbrev plain : Format
plain = record { decimal = λ n. "1"; fixed = λ digits x. "0" }

abbrev two_rules : List Alert → List String
two_rules [] = []
two_rules (a ∷ more) = a.rule_id ∷ two_rules more

sparse_and_old :
    two_rules
      (from_digest_quality plain (stamp, stamp, stamp) f_zero f_one (pos 4) (pos 20) (pos 2))
    ≡ "digest.low_freshness" ∷ "digest.sparse_selection" ∷ []
unfolding from_digest_quality lt_f freshness_floor diversity_floor f_zero f_one
sparse_and_old = refl
