-- ===== src/Cdc/Postgres/Stream.antt =====
-- Run of internal/cdc/postgres/connector.go: the start, and one round of the loop on what the
-- replication library returns.
use Prim.Native.Nat.{◌^◌}
use Prim.Native.String.{◌++◌ as join}
use flux_lens.Base.{
  ℕ, ◌+◌, ◌%◌, String, Bool, true, false, Option, none, some, List, [], ◌∷◌, ◌++◌, eqb,
  if◌then◌else◌,
}
use flux_lens.Base.Pattern.{CaseTables}
use flux_lens.Base.Json.{Json, str, obj, object}
use flux_lens.Canonical.{Event, Made, event, failed, new_event, source_postgres_cdc, severity_info}
use flux_lens.Cdc.Postgres.{Connector, RelInfo, allow_table}

-- A parsed replication message; a tuple is the JSON form of its columns, nil is `none`.
pub data Logical : Type 0 where
  relation : ℕ → String → String → Logical
  inserted : ℕ → Option Json → Logical
  updated : ℕ → Option Json → Option Json → Logical
  deleted : ℕ → Option Json → Logical
  stream_start stream_stop other_message : Logical

-- What one round of the loop gets: a tick of the heartbeat, or what ReceiveMessage returns, parsed.
pub data Received : Type 0 where
  canceled heartbeat timed_out receive_error other_data : Received
  bad_xlog : Received
  bad_logical : ℕ → Received
  xlog : ℕ → Logical → Received
  bad_keepalive : Received
  keepalive : Bool → Received

-- The clock and the fresh identifier of a round, and whether the channel takes the event of the round
-- before the context ends.
pub record Reading : Type 0 where
  pub now : ℕ
  pub id : Option String
  pub taken : Bool

-- What a round sends: an event on the channel, or a status update with a position.
pub data Sent : Type 0 where
  sent_event : Event → Sent
  status_update : ℕ → Sent

unfoldable pub find_relation : ℕ → List (ℕ × RelInfo) → Option RelInfo
find_relation id [] = none
find_relation id ((key, rel) ∷ more) =
    let rest = find_relation id more in if eqb key id then some rel else rest

abbrev pub count : ℕ → ℕ
count n = (n + 1) % 2 ^ 64

unfoldable pub columns_field : Option Json → List (String × Json)
columns_field none = []
columns_field (some columns) = ("columns", columns) ∷ []

-- The payload of a row event, its keys in order.
unfoldable pub row_payload : String → RelInfo → Option Json → Json
unfolding columns_field
row_payload op rel tuple = obj (
    object (
      columns_field tuple
      ++ ("op", str op) ∷ ("schema", str rel.schema) ∷ ("table", str rel.table) ∷ []))

unfoldable pub with_pod : Event → Event
with_pod e = record e { metadata = record e.metadata { ingestion_pod = "postgres-cdc" } }

unfoldable pub row_made : Made → Connector → Connector × Option Event
unfolding with_pod
row_made (failed reason) c = (record c { errors = count c.errors }, none)
row_made (event e) c = (c, some (with_pod e))

module _ (tables : CaseTables) where
  unfoldable pub row_event_for :
      Reading → Option RelInfo → String → Option Json → Connector → Connector × Option Event
  unfolding row_made
  row_event_for at none op tuple c = (c, none)
  row_event_for at (some rel) op tuple c =
      if allow_table tables c.filter (join rel.schema (join "." rel.table))
      then row_made
          (new_event c.cfg.source_id source_postgres_cdc "postgres.row_change" severity_info
            (row_payload op rel tuple) at.now at.id)
          c
      else (c, none)

  unfoldable pub row_event :
      Reading → ℕ → String → Option Json → Connector → Connector × Option Event
  unfolding row_event_for
  row_event at id op tuple c = row_event_for at (find_relation id c.relations) op tuple c

  unfoldable pub new_or_old : Option Json → Option Json → Option Json
  new_or_old none old = old
  new_or_old (some tuple) old = some tuple

  unfoldable pub map_message : Reading → Logical → Connector → Connector × Option Event
  unfolding row_event new_or_old
  map_message at (relation id schema table) c =
      (record c { relations = (id, record { schema = schema; table = table }) ∷ c.relations }, none)
  map_message at (inserted id tuple) c = row_event at id "insert" tuple c
  map_message at (updated id new old) c = row_event at id "update" (new_or_old new old) c
  map_message at (deleted id old) c = row_event at id "delete" old c
  map_message at _ c = (c, none)

  unfoldable pub in_stream_after : Logical → Bool → Bool
  in_stream_after stream_start b = true
  in_stream_after stream_stop b = false
  in_stream_after _ b = b

  -- The event goes to the channel, unless the context ends first.
  unfoldable pub publish : Reading → Connector × Option Event → Connector × List Sent
  publish at (c, none) = (c, [])
  publish at (c, some e) =
      if at.taken
      then (record c { emitted = count c.emitted; last_event = some at.now }, sent_event e ∷ [])
      else (c, [])

  -- emitHeartbeat; an error of NewEvent ends it without a trace.
  unfoldable pub beat : Reading → Made → Connector → Connector × List Sent
  beat at (failed reason) c = (c, [])
  beat at (event e) c =
      if at.taken then (record c { emitted = count c.emitted }, sent_event e ∷ []) else (c, [])

  -- One round of the loop. A message that is not CopyData is passed over.
  unfoldable pub round : Reading → Received → Connector → Connector × List Sent
  unfolding publish beat map_message in_stream_after
  round at canceled c = (c, [])
  round at heartbeat c =
      beat at
        (new_event c.cfg.source_id source_postgres_cdc "postgres.heartbeat" severity_info
          (obj (object (("status", str "alive") ∷ []))) at.now at.id)
        c
  round at timed_out c = (c, [])
  round at receive_error c = (record c { errors = count c.errors }, [])
  round at other_data c = (c, [])
  round at bad_xlog c = (record c { errors = count c.errors }, [])
  round at (bad_logical lsn) c = (record c { next_lsn = lsn; errors = count c.errors }, [])
  round at (xlog lsn message) c = publish at (
      map_message at message
        (record c { next_lsn = lsn; in_stream = in_stream_after message c.in_stream }))
  round at bad_keepalive c = (c, [])
  round at (keepalive false) c = (c, [])
  round at (keepalive true) c = (c, status_update c.next_lsn ∷ [])

  -- The loop ends when the context does: a row event that the channel did not take is the last step
  -- of the list.
  unfoldable pub rounds : List (Reading × Received) → Connector → Connector × List Sent
  unfolding round
  rounds [] c = (c, [])
  rounds ((at, canceled) ∷ more) c = (c, [])
  rounds ((at, r) ∷ more) c =
      let (here, sent) = round at r c in
      let (there, later) = rounds more here in (there, sent ++ later)
