-- ===== src/Canonical/Tests.antt =====
-- Events made and checked, and the theorems on them.
use flux_lens.Base.{◌≡◌, refl, some}
use flux_lens.Base.Json.{null, float, encodable}
use flux_lens.Base.Float.{nan}
use flux_lens.Canonical.{
  Event, severity_warn, schema_version, source_webhook, rank, event, failed, marshal_payload,
  source_id_required, severity_required, unknown_severity, new_event, validate, age_at,
}

abbrev sample : Event
sample = record {
  event_id = "e1";
  source_id = "plc";
  source_type = source_webhook;
  event_type = "alarm";
  severity = severity_warn;
  timestamp = 40;
  ingested_at = 40;
  payload = null;
  metadata = record { trace_id = ""; ingestion_pod = ""; schema = schema_version; tenant_id = "" };
}

run : Unit {0}
unfolding new_event validate rank encodable age_at
run = tt

made_sample :
    new_event "plc" source_webhook "alarm" severity_warn null 40 (some "e1") ≡ event sample
unfolding run
made_sample = refl

not_encodable :
    new_event "plc" "kafka" "alarm" "info" (float nan) 40 (some "e1") ≡ failed marshal_payload
unfolding run
not_encodable = refl

no_source :
    new_event "" "kafka" "alarm" "info" (float nan) 40 (some "e1") ≡ failed source_id_required
unfolding run
no_source = refl

unknown : validate (record sample { severity = "fatal" }) ≡ some unknown_severity
unfolding run
unknown = refl

empty : validate (record sample { severity = "" }) ≡ some severity_required
unfolding run
empty = refl
