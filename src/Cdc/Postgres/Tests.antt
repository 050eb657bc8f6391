-- ===== src/Cdc/Postgres/Tests.antt =====
-- A relation, an insert into it and an error of the stream, and the theorems on them.
use Prim.Native.String.{◌++◌ as join}
use flux_lens.Base.{true, false, ◌≡◌, refl, none, some, List, [], ◌∷◌, arith, length, eqb}
use flux_lens.Base.Json.{nat, obj, object, encodable}
use flux_lens.Base.Text.{trim_space}
use flux_lens.Base.Pattern.{to_lower}
use flux_lens.Canonical.{new_event}
use flux_lens.Orchestrator.Tests.{tables}
use flux_lens.Cdc.Postgres.{
  Config, Connector, new_connector, made, source_id_required, with_defaults, new_pg_filter,
  lowered_tables, allow_table, pg_stats,
}
use flux_lens.Cdc.Postgres.Publication.{
  quote_ident, double_quotes, publication_from, add_table, quoted_table,
}
use flux_lens.Cdc.Postgres.Stream.{
  relation, inserted, deleted, Received, heartbeat, receive_error, xlog, canceled, keepalive,
  Reading, rounds, round, publish, beat, map_message, row_event, row_event_for, find_relation,
  row_made, with_pod, in_stream_after, row_payload, columns_field,
}
use flux_lens.Cdc.Postgres.Quoting.{read_ident, read_quoted, read_ident-quote_ident}
use flux_lens.Cdc.Postgres.Runs.{Behaves, sent_events, rounds-Behaves}

abbrev config : Config
config = record {
  conn_string = "postgres://db";
  source_id = "db1";
  slot_name = "";
  tables = "public.Orders" ∷ [];
  heartbeat_interval = 0;
}

abbrev connector : Connector
connector = record {
  cfg = record config { slot_name = "fluxlens_slot"; heartbeat_interval = 30000000000 };
  filter = record { allow_all = false; allowed = "public.Orders" ∷ [] };
  emitted = 0;
  errors = 0;
  last_event = none;
  healthy = true;
  relations = [];
  next_lsn = 0;
  in_stream = false;
}

run : Unit {0}
unfolding new_connector with_defaults new_pg_filter lowered_tables allow_table trim_space to_lower
    rounds round publish beat map_message row_event row_event_for find_relation row_made with_pod
    in_stream_after row_payload columns_field new_event encodable pg_stats quote_ident double_quotes
    publication_from add_table quoted_table read_ident read_quoted
run = tt

started : new_connector tables config ≡ made connector
unfolding run
started = refl

no_source : new_connector tables (record config { source_id = "" }) ≡ source_id_required
unfolding run
no_source = refl

abbrev at : Reading
at = record { now = 5; id = some "fresh"; taken = true }

-- A relation, a row of it, a row of a relation that was never announced, an error and a request for
-- a reply.
abbrev steps : List (Reading × Received)
steps =
    (at, heartbeat)
    ∷ (at, xlog 10 (relation 7 "public" "Orders"))
    ∷ (at, xlog 11 (inserted 7 (some (obj (object (("id", nat 1) ∷ []))))))
    ∷ (at, xlog 12 (deleted 8 none))
    ∷ (at, receive_error)
    ∷ (at, keepalive true)
    ∷ (at, canceled)
    ∷ (at, heartbeat)
    ∷ []

two_events : sent_events (rounds tables steps connector).1 ≡ 2
unfolding run
two_events = refl

three_sent : length (rounds tables steps connector).1 ≡ 3
unfolding run
three_sent = refl

-- The error was counted, and the connector still calls itself healthy.
healthy_after_error : (pg_stats (rounds tables steps connector).0).is_healthy ≡ true
unfolding run
healthy_after_error = refl

rounds-Behaves_example : Behaves tables connector (rounds tables steps connector)
rounds-Behaves_example = rounds-Behaves tables steps connector (omega arith)

quoted_name : quote_ident "a\"b" ≡ "\"a\"\"b\""
unfolding run
quoted_name = refl

read_ident-quote_ident_example : read_ident (join (quote_ident "a\"b") ", c") ≡ some ("a\"b", ", c")
read_ident-quote_ident_example = read_ident-quote_ident "a\"b" ", c" comma
  where
    comma : eqb 44 34 ≡ false
    comma = refl
