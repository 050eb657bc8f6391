-- ===== src/Cdc/Mysql/Connector/Runs.antt =====
-- Whole runs of the connector.
use mathlib.Core.List.{Memᴰ}
use Prim.Native.Nat.{◌^◌, ◌<◌}
use flux_lens.Base.{String, Bool, true, false, refl, ◌∙◌, List, [], ◌∷◌, ◌++◌, arith, All}
use flux_lens.Base.Lists.{All-append, All-of_mem, length-append}
use flux_lens.Base.Pattern.{CaseTables}
use flux_lens.Canonical.{Event}
use flux_lens.Cdc.Mysql.{BytesText}
use flux_lens.Cdc.Mysql.Connector.{
  Connector, RowsEvent, Received, get_error, rotated, rows_event, other_event, Step, got, tick,
  Reading, received, step, steps,
}
use flux_lens.Cdc.Mysql.Connector.Sends.{Behaves, idle, heartbeat-Behaves, rows-Behaves}

-- What an event received from the library says of the health, and of the binlog's file.
abbrev health_from : Received → Bool
health_from get_error = false
health_from r = true

abbrev file_from : Received → String → String
file_from (rotated name) file = name
file_from r file = file

-- The last call of GetEvent decides the health; a heartbeat does not.
abbrev pub health_after : List (Reading × Step) → Bool → Bool
health_after [] b = b
health_after ((at, tick text) ∷ more) b = health_after more b
health_after ((at, got r) ∷ more) b = health_after more (health_from r)

-- The name that the last rotation gave.
abbrev pub file_after : List (Reading × Step) → String → String
file_after [] file = file
file_after ((at, tick text) ∷ more) file = file_after more file
file_after ((at, got r) ∷ more) file = file_after more (file_from r file)

abbrev WasSeen : (Reading → RowsEvent → Type 0) → Reading × Step → Type 0
WasSeen Seen (at, got (rows_event r)) = Seen at r
WasSeen Seen _ = Unit

module _ (tables : CaseTables) (Seen : Reading → RowsEvent → Type 0) where
  then-Behaves :
      (health health' : Bool) (file file' : String) (c : Connector) (x y : Connector × List Event)
      → Behaves tables Seen health file c x
      → Behaves tables Seen health' file' x.0 y
      → Behaves tables Seen health' file' c (y.0, x.1 ++ y.1)
  then-Behaves health health' file file' c x y h k = record {
    cfg = k.cfg ∙ h.cfg;
    filter = k.filter ∙ h.filter;
    healthy = k.healthy;
    binlog_file = k.binlog_file;
    own = All-append _ x.1 y.1 h.own (rw (← h.cfg, ← h.filter) k.own);
    counted = omega (arith, h.counted, k.counted, length-append x.1 y.1);
  }

  module _ (codec : BytesText) where
    received-Behaves :
        (at : Reading) (r : Received) (c : Connector)
        → WasSeen Seen (at, got r)
        → c.emitted < 2 ^ 64
        → Behaves tables Seen
            (health_from r)
            (file_from r c.binlog_file)
            c
            (received tables codec at r c)
    unfolding received
    received-Behaves at get_error c seen small = idle tables Seen c _ refl refl refl small
    received-Behaves at (rotated name) c seen small = idle tables Seen c _ refl refl refl small
    received-Behaves at (rows_event e) c seen small =
        let b = rows-Behaves tables Seen codec at e (record c { healthy = true }) seen small in
        record {
          cfg = b.cfg;
          filter = b.filter;
          healthy = b.healthy;
          binlog_file = b.binlog_file;
          own = b.own;
          counted = b.counted;
        }
    received-Behaves at other_event c seen small = idle tables Seen c _ refl refl refl small

    further :
        (more : List (Reading × Step)) (health : Bool) (file : String) (c : Connector)
        (x : Connector × List Event)
        → Behaves tables Seen health file c x
        → ((here : Connector)
            → here.emitted < 2 ^ 64
            → Behaves tables Seen
                (health_after more here.healthy)
                (file_after more here.binlog_file)
                here
                (steps tables codec more here))
        → Behaves tables Seen
            (health_after more health)
            (file_after more file)
            c
            ((steps tables codec more x.0).0, x.1 ++ (steps tables codec more x.0).1)
    further more health file c x h rest =
        let later = rest x.0 (omega (arith, h.counted)) in
        then-Behaves health _ file _ c x _ h (rw (← h.healthy, ← h.binlog_file) later)

    steps_seen :
        (run : List (Reading × Step)) (c : Connector)
        → All (WasSeen Seen) run
        → c.emitted < 2 ^ 64
        → Behaves tables Seen
            (health_after run c.healthy)
            (file_after run c.binlog_file)
            c
            (steps tables codec run c)
    unfolding steps step
    steps_seen [] c seen small = idle tables Seen c c refl refl refl small
    steps_seen ((at, tick text) ∷ more) c seen small =
        further more _ _ c _ (heartbeat-Behaves tables Seen at text c small)
          (λ here low. steps_seen more here seen.1 low)
    steps_seen ((at, got r) ∷ more) c seen small =
        further more _ _ c _ (received-Behaves at r c seen.0 small)
          (λ here low. steps_seen more here seen.1 low)

-- The rows events of a run.
abbrev pub IsIn : List (Reading × Step) → Reading → RowsEvent → Type 0
IsIn run at r = Memᴰ (at, got (rows_event r)) run

All-seen : (run : List (Reading × Step)) → All (WasSeen (IsIn run)) run
All-seen run = All-of_mem (WasSeen (IsIn run)) run (λ x m. seen x m)
  where
    seen : (x : Reading × Step) → Memᴰ x run → WasSeen (IsIn run) x
    seen (at, got (rows_event r)) m = m
    seen (at, got get_error) m = tt
    seen (at, got (rotated name)) m = tt
    seen (at, got other_event) m = tt
    seen (at, tick text) m = tt

-- From a counter below 2^64, whatever the library returns, in whatever order with the
-- heartbeats, and however many events the channel takes: every event that the connector sends
-- bears its source and is a heartbeat or a change of a rows event of the run, in a table that
-- the filter lets through, with the type, the severity and the time of that rows event; the
-- counter of the emitted events has grown by the number of events sent, modulo 2^64; the
-- connector is healthy after the run just if the last call of GetEvent succeeded, and the file
-- that it reports is the one that the last rotation named.
pub steps-Behaves :
    (tables : CaseTables) (codec : BytesText) (run : List (Reading × Step)) (c : Connector)
    → c.emitted < 2 ^ 64
    → Behaves tables
        (IsIn run)
        (health_after run c.healthy)
        (file_after run c.binlog_file)
        c
        (steps tables codec run c)
steps-Behaves tables codec run c small =
    steps_seen tables (IsIn run) codec run c (All-seen run) small
