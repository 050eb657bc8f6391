-- ===== src/Cdc/Mysql/Connector.antt =====
-- internal/cdc/mysql/connector.go: the state of the connector, its start, and the rounds of Run on
-- what the binlog library returns, with the heartbeats that the second goroutine sends between them.
pub mod Sends
pub mod Runs
pub mod Tests
use Prim.Native.Nat.{◌^◌}
use flux_lens.Base.{
  ℕ, zero, suc, ◌+◌, ◌*◌, ◌%◌, String, Bool, true, false, Option, none, some, List, [], ◌∷◌, ◌++◌,
  ◌==◌, eqb, ltb, if◌then◌else◌,
}
use flux_lens.Base.Signed.{ℤ, pos}
use flux_lens.Base.Time.{second, sub_time}
use flux_lens.Base.Pattern.{CaseTables}
use flux_lens.Base.Json.{Json, str, nat, obj, object}
use flux_lens.Canonical.{Event, Made, event, failed, new_event, source_mysql_cdc, severity_info}
use flux_lens.Cdc.Mysql.{
  TableFilter, new_table_filter, allow, RowsKind, other, action_from_event_type, Value, BytesText,
  Binlog, MappedRows, mapped, odd_rows, event_failed, map_rows_event,
}

pub record Config : Type 0 where
  pub dsn : String
  pub server_id : ℕ
  pub tables : List String
  pub source_id : String
  pub heartbeat_interval : ℕ
  pub binlog_file : String
  pub binlog_pos : ℕ

-- `last_event` is 0 before the first event. The syncer, which is only closed, is left out.
pub record Connector : Type 0 where
  pub cfg : Config
  pub filter : TableFilter
  pub emitted : ℕ
  pub errors : ℕ
  pub last_event : ℕ
  pub healthy : Bool
  pub binlog_file : String

pub data NewConnector : Type 0 where
  made : Connector → NewConnector
  dsn_required server_id_required source_id_required : NewConnector

unfoldable pub new_connector : CaseTables → Config → NewConnector
new_connector tables cfg =
    if cfg.dsn == ""
    then dsn_required
    else if eqb cfg.server_id 0
    then server_id_required
    else if cfg.source_id == ""
    then source_id_required
    else made (record {
      cfg = record cfg {
        heartbeat_interval =
            if eqb cfg.heartbeat_interval 0 then 30 * second else cfg.heartbeat_interval;
      };
      filter = new_table_filter tables cfg.tables;
      emitted = 0;
      errors = 0;
      last_event = 0;
      healthy = true;
      binlog_file = "";
    })

-- The position where Run starts: the configured one, or what masterPosition gives, if it gives one.
unfoldable pub start_position : Option (String × ℕ) → Config → Option (String × ℕ)
start_position master cfg =
    if cfg.binlog_file == "" then master else some (cfg.binlog_file, cfg.binlog_pos)

-- Run up to StartSync: an error leaves the connector unhealthy.
unfoldable pub begin : Option (String × ℕ) → Bool → Connector → Connector × Bool
begin none synced c = (record c { healthy = false }, false)
begin (some (file, position)) false c = (record c { binlog_file = file; healthy = false }, false)
begin (some (file, position)) true c = (record c { binlog_file = file }, true)

-- A rows event: its header and its table map, and its rows.
pub record RowsEvent : Type 0 where
  pub kind : RowsKind
  pub position : ℕ
  pub timestamp : ℕ
  pub schema : String
  pub table : String
  pub rows : List (List Value)

-- What GetEvent returns while the context is alive. `other_event` is any event that is neither a
-- rotation nor a rows event of the library.
pub data Received : Type 0 where
  get_error : Received
  rotated : String → Received
  rows_event : RowsEvent → Received
  other_event : Received

-- A round of Run, or a tick of the heartbeats with the text of its time.
pub data Step : Type 0 where
  got : Received → Step
  tick : String → Step

-- The clock of the mapping, the clock and the identifier of each call of NewEvent, the clock after each
-- send, and how many events the channel takes before the context ends.
pub record Reading : Type 0 where
  pub clock : ℕ
  pub fresh : ℕ → ℕ × Option String
  pub sent_at : ℕ → ℕ
  pub taken : ℕ

abbrev pub count : ℕ → ℕ
count n = (n + 1) % 2 ^ 64

-- emit for each event, until the context ends.
unfoldable pub emit_all : (ℕ → ℕ) → ℕ → ℕ → List Event → Connector → Connector × List Event
emit_all sent_at i taken [] c = (c, [])
emit_all sent_at i zero (e ∷ es) c = (c, [])
emit_all sent_at i (suc taken) (e ∷ es) c =
    let (after, sent) =
      emit_all sent_at (suc i) taken es
        (record c { emitted = count c.emitted; last_event = sent_at i }) in
    (after, e ∷ sent)

unfoldable pub heartbeat_payload : String → Connector → Json
heartbeat_payload text c = obj (
    object (
      ("binlog_file", str c.binlog_file)
      ∷ ("emitted_at", str text)
      ∷ ("server_id", nat c.cfg.server_id)
      ∷ []))

unfoldable pub emit_made : Reading → Made → Connector → Connector × List Event
unfolding emit_all
emit_made at (failed reason) c = (record c { errors = count c.errors }, [])
emit_made at (event e) c = emit_all at.sent_at 0 at.taken (e ∷ []) c

-- One tick of runHeartbeats.
unfoldable pub heartbeat : Reading → String → Connector → Connector × List Event
unfolding emit_made heartbeat_payload
heartbeat at text c =
    let (now, id) = at.fresh 0 in
    emit_made at
      (new_event c.cfg.source_id source_mysql_cdc "heartbeat" severity_info
        (heartbeat_payload text c) now id)
      c

unfoldable pub emit_mapped : Reading → MappedRows → Connector → Connector × List Event
unfolding emit_all
emit_mapped at (mapped es) c = emit_all at.sent_at 0 at.taken es c
emit_mapped at odd_rows c = (record c { errors = count c.errors }, [])
emit_mapped at (event_failed reason) c = (record c { errors = count c.errors }, [])

abbrev pub binlog_of : RowsEvent → Connector → Binlog
binlog_of e c = record {
  file = c.binlog_file;
  position = e.position;
  timestamp = e.timestamp;
  schema = e.schema;
  table = e.table;
}

module _ (tables : CaseTables) (codec : BytesText) where
  unfoldable pub rows_received : Reading → RowsEvent → Connector → Connector × List Event
  unfolding emit_mapped
  rows_received at e c =
      if allow tables c.filter e.schema e.table
      then emit_mapped at
          (map_rows_event codec at.clock at.fresh c.cfg.source_id (binlog_of e c) e.rows
            (action_from_event_type e.kind))
          c
      else (c, [])

  -- One round of the loop of Run. The switch lets only rows events of the nine known types through.
  unfoldable pub received : Reading → Received → Connector → Connector × List Event
  unfolding rows_received
  received at get_error c = (record c { errors = count c.errors; healthy = false }, [])
  received at (rotated name) c = (record c { healthy = true; binlog_file = name }, [])
  received at (rows_event e) c = rows_received at e (record c { healthy = true })
  received at other_event c = (record c { healthy = true }, [])

  unfoldable pub step : Reading → Step → Connector → Connector × List Event
  unfolding received heartbeat
  step at (got r) c = received at r c
  step at (tick text) c = heartbeat at text c

  -- A step whose events the channel did not all take is the last one of a run.
  unfoldable pub steps : List (Reading × Step) → Connector → Connector × List Event
  unfolding step
  steps [] c = (c, [])
  steps ((at, s) ∷ more) c =
      let (here, sent) = step at s c in
      let (there, later) = steps more here in (there, sent ++ later)

-- LagSeconds is a duration here, before it is turned into seconds.
pub record MysqlStats : Type 0 where
  pub events_emitted : ℕ
  pub errors_seen : ℕ
  pub lag : ℤ
  pub last_event_at : ℕ
  pub is_healthy : Bool
  pub source : String
  pub server : ℕ
  pub file : String

unfoldable pub mysql_stats : ℕ → Connector → MysqlStats
mysql_stats now c = record {
  events_emitted = c.emitted;
  errors_seen = c.errors;
  lag = if ltb 0 c.last_event then sub_time now c.last_event else pos 0;
  last_event_at = c.last_event;
  is_healthy = c.healthy;
  source = c.cfg.source_id;
  server = c.cfg.server_id;
  file = c.binlog_file;
}
