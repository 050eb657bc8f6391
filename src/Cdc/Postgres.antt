-- ===== src/Cdc/Postgres.antt =====
-- internal/cdc/postgres/connector.go: logical replication from PostgreSQL. The replication protocol
-- comes from a library: the connector is given what ReceiveMessage and the parsers return.
pub mod Publication
pub mod Stream
pub mod Maps
pub mod Quoting
pub mod Runs
pub mod Tests
use Prim.Native.Nat.{◌^◌}
use Prim.Native.String
use Prim.Native.String.{◌++◌ as join}
use flux_lens.Base.{
  ℕ, ◌+◌, ◌%◌, ◌*◌, String, Bool, true, false, not, Option, none, some, List, [], ◌∷◌, ◌++◌, ◌==◌,
  any, eqb, if◌then◌else◌,
}
use flux_lens.Base.Time.{second}
use flux_lens.Base.Text.{trim_space, cut}
use flux_lens.Base.Pattern.{CaseTables, to_lower}
use flux_lens.Base.Json.{Json, str, obj, object}
use flux_lens.Canonical.{Event, Made, event, failed, new_event, source_postgres_cdc, severity_info}

pub record Config : Type 0 where
  pub conn_string : String
  pub source_id : String
  pub slot_name : String
  pub tables : List String
  pub heartbeat_interval : ℕ

pub record PgFilter : Type 0 where
  pub allow_all : Bool
  pub allowed : List String

lowered_tables : CaseTables → List String → List String
lowered_tables tables [] = []
lowered_tables tables (t ∷ more) = to_lower tables (trim_space t) ∷ lowered_tables tables more

unfoldable pub new_pg_filter : CaseTables → List String → PgFilter
unfolding lowered_tables
new_pg_filter tables [] = record { allow_all = true; allowed = [] }
new_pg_filter tables (t ∷ more) = record {
  allow_all = false;
  allowed = lowered_tables tables (t ∷ more);
}

unfoldable pub allow_table : CaseTables → PgFilter → String → Bool
allow_table tables f fqn =
    if f.allow_all then true else any (λ name. name == to_lower tables fqn) f.allowed

pub record RelInfo : Type 0 where
  pub schema : String
  pub table : String

-- The position in the write-ahead log and the stream flag are local to Run.
pub record Connector : Type 0 where
  pub cfg : Config
  pub filter : PgFilter
  pub emitted : ℕ
  pub errors : ℕ
  pub last_event : Option ℕ
  pub healthy : Bool
  pub relations : List (ℕ × RelInfo)
  pub next_lsn : ℕ
  pub in_stream : Bool

pub data NewConnector : Type 0 where
  made : Connector → NewConnector
  conn_string_required source_id_required : NewConnector

unfoldable pub with_defaults : Config → Config
with_defaults cfg = record cfg {
  slot_name = if cfg.slot_name == "" then "fluxlens_slot" else cfg.slot_name;
  heartbeat_interval = if eqb cfg.heartbeat_interval 0 then 30 * second else cfg.heartbeat_interval;
}

unfoldable pub new_connector : CaseTables → Config → NewConnector
unfolding with_defaults
new_connector tables cfg =
    if cfg.conn_string == ""
    then conn_string_required
    else if cfg.source_id == ""
    then source_id_required
    else made (record {
      cfg = with_defaults cfg;
      filter = new_pg_filter tables cfg.tables;
      emitted = 0;
      errors = 0;
      last_event = none;
      healthy = true;
      relations = [];
      next_lsn = 0;
      in_stream = false;
    })

pub record PgStats : Type 0 where
  pub events_emitted : ℕ
  pub errors_seen : ℕ
  pub last_event_at : Option ℕ
  pub is_healthy : Bool
  pub slot : String

unfoldable pub pg_stats : Connector → PgStats
pg_stats c = record {
  events_emitted = c.emitted;
  errors_seen = c.errors;
  last_event_at = c.last_event;
  is_healthy = c.healthy;
  slot = c.cfg.slot_name;
}
