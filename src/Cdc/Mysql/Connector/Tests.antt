-- ===== src/Cdc/Mysql/Connector/Tests.antt =====
-- A start, a rotation, an update, a heartbeat and an error, and the theorem on them.
use flux_lens.Base.{true, false, ◌≡◌, refl, some, List, [], ◌∷◌, arith, length}
use flux_lens.Base.Json.{nat, encodable}
use flux_lens.Base.Text.{trim_space}
use flux_lens.Base.Pattern.{to_lower}
use flux_lens.Canonical.{new_event}
use flux_lens.Cdc.Mysql.{
  plain, nothing, update_rows, lowered, new_table_filter, allow, event_type_for_action,
  severity_for_action, binlog_time, json_value, row_values, change_payload, map_rows_event,
  action_from_event_type,
}
use flux_lens.Cdc.Mysql.Tests.{tables, codec}
use flux_lens.Cdc.Mysql.Connector.{
  Config, Connector, new_connector, made, server_id_required, start_position, begin, RowsEvent,
  get_error, rotated, rows_event, Step, got, tick, Reading, emit_all, heartbeat_payload, emit_made,
  heartbeat, emit_mapped, rows_received, received, step, steps, mysql_stats,
}
use flux_lens.Cdc.Mysql.Connector.Sends.{Behaves}
use flux_lens.Cdc.Mysql.Connector.Runs.{IsIn, steps-Behaves}

abbrev config : Config
config = record {
  dsn = "root@tcp(db)/shop";
  server_id = 7;
  tables = "shop.orders" ∷ [];
  source_id = "db1";
  heartbeat_interval = 0;
  binlog_file = "";
  binlog_pos = 0;
}

abbrev connector : Connector
connector = record {
  cfg = record config { heartbeat_interval = 30000000000 };
  filter = some ("shop.orders" ∷ []);
  emitted = 0;
  errors = 0;
  last_event = 0;
  healthy = true;
  binlog_file = "";
}

run : Unit {0}
unfolding new_connector start_position begin emit_all heartbeat_payload emit_made heartbeat
    emit_mapped rows_received received step steps mysql_stats lowered new_table_filter allow
    trim_space to_lower event_type_for_action severity_for_action binlog_time json_value row_values
    change_payload map_rows_event new_event encodable action_from_event_type
run = tt

started : new_connector tables config ≡ made connector
unfolding run
started = refl

no_server : new_connector tables (record config { server_id = 0 }) ≡ server_id_required
unfolding run
no_server = refl

-- Without a configured file the position is the master's.
begun : (begin (start_position (some ("bin.1", 4)) config) true connector).0.binlog_file ≡ "bin.1"
unfolding run
begun = refl

abbrev at : Reading
at = record { clock = 9; fresh = λ i. (7, some "id"); sent_at = λ i. 8; taken = 10 }

abbrev updated : RowsEvent
updated = record {
  kind = update_rows 2;
  position = 4;
  timestamp = 1;
  schema = "shop";
  table = "orders";
  rows = (plain (nat 1) ∷ []) ∷ (plain (nat 2) ∷ []) ∷ (nothing ∷ []) ∷ (plain (nat 3) ∷ []) ∷ [];
}

abbrev steps_taken : List (Reading × Step)
steps_taken =
    (at, got (rotated "bin.2"))
    ∷ (at, got (rows_event updated))
    ∷ (at, got (rows_event (record updated { table = "users" })))
    ∷ (at, got get_error)
    ∷ (at, tick "now")
    ∷ []

three_sent : length (steps tables codec steps_taken connector).1 ≡ 3
unfolding run
three_sent = refl

unhealthy : (mysql_stats 50 (steps tables codec steps_taken connector).0).is_healthy ≡ false
unfolding run
unhealthy = refl

-- The context ends after the first event of the two.
one_sent :
    length
      (steps tables codec ((record at { taken = 1 }, got (rows_event updated)) ∷ []) connector).1
    ≡ 1
unfolding run
one_sent = refl

steps-Behaves_example :
    Behaves tables
      (IsIn steps_taken)
      false
      "bin.2"
      connector
      (steps tables codec steps_taken connector)
steps-Behaves_example = steps-Behaves tables codec steps_taken connector (omega arith)
