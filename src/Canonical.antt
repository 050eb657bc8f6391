-- ===== src/Canonical.antt =====
-- internal/canonical/event.go: the canonical event.
pub mod Laws
pub mod Tests
use flux_lens.Base.{
  ℕ, zero, String, Bool, true, false, Option, none, some, ◌==◌, if◌then◌else◌, eqb,
}
use flux_lens.Base.Signed.{ℤ, pos, negsuc, lt_ℤ}
use flux_lens.Base.Time.{sub_time}
use flux_lens.Base.Json.{Json, encodable}

abbrev pub schema_version : String
schema_version = "1.0.0"

-- The source types and the severities are strings in the source, and may hold any text.
abbrev pub source_mysql_cdc : String
source_mysql_cdc = "mysql_cdc"

abbrev pub source_postgres_cdc : String
source_postgres_cdc = "postgres_cdc"

abbrev pub source_kafka : String
source_kafka = "kafka"

abbrev pub source_webhook : String
source_webhook = "webhook"

abbrev pub source_synthetic : String
source_synthetic = "synthetic"

abbrev pub severity_info : String
severity_info = "info"

abbrev pub severity_warn : String
severity_warn = "warn"

abbrev pub severity_error : String
severity_error = "error"

abbrev pub severity_critical : String
severity_critical = "critical"

-- Severity.Rank
unfoldable pub rank : String → ℤ
rank s =
    if s == severity_info
    then pos 0
    else if s == severity_warn
    then pos 1
    else if s == severity_error
    then pos 2
    else if s == severity_critical
    then pos 3
    else negsuc 0

pub record Metadata : Type 0 where
  pub trace_id : String
  pub ingestion_pod : String
  pub schema : String
  pub tenant_id : String

pub record Event : Type 0 where
  pub event_id : String
  pub source_id : String
  pub source_type : String
  pub event_type : String
  pub severity : String
  pub timestamp : ℕ
  pub ingested_at : ℕ
  pub payload : Json
  pub metadata : Metadata

pub data EventError : Type 0 where
  event_id_required source_id_required source_type_required event_type_required : EventError
  severity_required unknown_severity timestamp_required schema_version_required : EventError
  marshal_payload generate_id : EventError

pub data Made : Type 0 where
  event : Event → Made
  failed : EventError → Made

-- The end of NewEvent: the identifier comes from the ULID library, which may fail.
unfoldable pub made : String → String → String → String → Json → ℕ → Option String → Made
made source_id source_type event_type severity payload now none = failed generate_id
made source_id source_type event_type severity payload now (some id) = event (record {
  event_id = id;
  source_id = source_id;
  source_type = source_type;
  event_type = event_type;
  severity = severity;
  timestamp = now;
  ingested_at = now;
  payload = payload;
  metadata = record { trace_id = ""; ingestion_pod = ""; schema = schema_version; tenant_id = "" };
})

unfoldable pub new_event : String → String → String → String → Json → ℕ → Option String → Made
unfolding made
new_event source_id source_type event_type severity payload now id =
    if source_id == ""
    then failed source_id_required
    else if encodable payload
    then made source_id source_type event_type severity payload now id
    else failed marshal_payload

-- Event.Validate; `none` is the nil error.
unfoldable pub validate : Event → Option EventError
unfolding rank
validate e =
    if e.event_id == ""
    then some event_id_required
    else if e.source_id == ""
    then some source_id_required
    else if e.source_type == ""
    then some source_type_required
    else if e.event_type == ""
    then some event_type_required
    else if e.severity == ""
    then some severity_required
    else if lt_ℤ (rank e.severity) (pos 0)
    then some unknown_severity
    else if eqb e.timestamp 0
    then some timestamp_required
    else if e.metadata.schema == ""
    then some schema_version_required
    else none

non_negative : ℤ → ℕ
non_negative (pos d) = d
non_negative (negsuc d) = 0

-- Event.AgeAt
unfoldable pub age_at : Event → ℕ → ℕ
unfolding non_negative sub_time
age_at e ref = non_negative (sub_time ref e.timestamp)
