-- ===== src/Cdc/Mysql/Connector/Sends.antt =====
-- What the connector sends for one event of the library or one heartbeat.
use Prim.Native.Nat.{◌^◌, ◌<◌}
use flux_lens.Base.{
  ℕ, zero, suc, ◌+◌, ◌%◌, String, Bool, true, ◌≡◌, ◌⊎◌, refl, inl, inr, List, [], ◌∷◌, arith, All,
  Bool-cases, length,
}
use flux_lens.Base.Lists.{All-imp}
use flux_lens.Base.Pattern.{CaseTables}
use flux_lens.Base.Json.{Json}
use flux_lens.Canonical.{Event, Made, event, failed, source_mysql_cdc, severity_info}
use flux_lens.Cdc.Fields.{HasFields, Made-All, new_event_fields}
use flux_lens.Cdc.Mysql.{
  TableFilter, allow, action_from_event_type, binlog_time, BytesText, MappedRows, mapped, odd_rows,
  event_failed, map_rows_event,
}
use flux_lens.Cdc.Mysql.Mapped.{IsRowEvent, map_rows_event-All}
use flux_lens.Cdc.Mysql.Connector.{
  Config, Connector, RowsEvent, Reading, emit_all, emit_made, heartbeat, emit_mapped, binlog_of,
  rows_received,
}

pub record IsHeartbeat (cfg : Config) (e : Event) : Type 0 where
  pub source : e.source_id ≡ cfg.source_id
  pub source_type : e.source_type ≡ source_mysql_cdc
  pub event_type : e.event_type ≡ "heartbeat"
  pub severity : e.severity ≡ severity_info

module _ (tables : CaseTables) (Seen : Reading → RowsEvent → Type 0) where
  -- A heartbeat, or a change of a rows event that was seen, in a table that the filter lets through.
  abbrev pub IsOwn : Config → TableFilter → Event → Type 0
  IsOwn cfg filter e =
      IsHeartbeat cfg e
      ⊎ ((at : Reading) × (r : RowsEvent) × Seen at r
          × (allow tables filter r.schema r.table ≡ true)
          × IsRowEvent cfg.source_id (action_from_event_type r.kind)
              (binlog_time at.clock r.timestamp) e)

  -- What a part of the run did to the connector and what it sent, with the health and the file that it
  -- leaves.
  pub record Behaves (health : Bool) (file : String) (c : Connector) (x : Connector × List Event)
      : Type 0 where
    pub cfg : x.0.cfg ≡ c.cfg
    pub filter : x.0.filter ≡ c.filter
    pub healthy : x.0.healthy ≡ health
    pub binlog_file : x.0.binlog_file ≡ file
    pub own : All (IsOwn c.cfg c.filter) x.1
    pub counted : x.0.emitted ≡ (c.emitted + length x.1) % 2 ^ 64

  pub idle :
      (c c' : Connector)
      → c'.cfg ≡ c.cfg
      → c'.filter ≡ c.filter
      → c'.emitted ≡ c.emitted
      → c.emitted < 2 ^ 64
      → Behaves c'.healthy c'.binlog_file c (c', [])
  idle c c' cfg filter same small = record {
    cfg = cfg;
    filter = filter;
    healthy = refl;
    binlog_file = refl;
    own = tt;
    counted = omega (arith, same, small);
  }

  emit_all-Behaves :
      (sent_at : ℕ → ℕ) (i taken : ℕ) (es : List Event) (c : Connector)
      → All (IsOwn c.cfg c.filter) es
      → c.emitted < 2 ^ 64
      → Behaves c.healthy c.binlog_file c (emit_all sent_at i taken es c)
  unfolding emit_all
  emit_all-Behaves sent_at i taken [] c own small = idle c c refl refl refl small
  emit_all-Behaves sent_at i zero (e ∷ es) c own small = idle c c refl refl refl small
  emit_all-Behaves sent_at i (suc taken) (e ∷ es) c own small =
      let low : (c.emitted + 1) % 2 ^ 64 < 2 ^ 64 = omega arith in
      let b = emit_all-Behaves sent_at (suc i) taken es _ own.1 low in
      record {
        cfg = b.cfg;
        filter = b.filter;
        healthy = b.healthy;
        binlog_file = b.binlog_file;
        own = (own.0, b.own);
        counted = omega (arith, b.counted);
      }

  emit_made-Behaves :
      (at : Reading) (m : Made) (c : Connector)
      → Made-All (IsOwn c.cfg c.filter) m
      → c.emitted < 2 ^ 64
      → Behaves c.healthy c.binlog_file c (emit_made at m c)
  unfolding emit_made
  emit_made-Behaves at (failed reason) c own small = idle c _ refl refl refl small
  emit_made-Behaves at (event e) c own small =
      emit_all-Behaves at.sent_at 0 at.taken (e ∷ []) c (own, tt) small

  heartbeat-Own :
      (c : Connector) (payload : Json) (m : Made)
      → Made-All (HasFields c.cfg.source_id source_mysql_cdc "heartbeat" severity_info payload) m
      → Made-All (IsOwn c.cfg c.filter) m
  heartbeat-Own c payload (failed reason) h = tt
  heartbeat-Own c payload (event e) h =
      inl (record {
        source = h.source;
        source_type = h.kind;
        event_type = h.type;
        severity = h.level;
      })

  pub heartbeat-Behaves :
      (at : Reading) (text : String) (c : Connector)
      → c.emitted < 2 ^ 64
      → Behaves c.healthy c.binlog_file c (heartbeat at text c)
  unfolding heartbeat
  heartbeat-Behaves at text c small =
      emit_made-Behaves at _ c (heartbeat-Own c _ _ (new_event_fields _ _ _ _ _ _ _)) small

  mapped-Own :
      (at : Reading) (r : RowsEvent) (c : Connector) (es : List Event)
      → Seen at r
      → allow tables c.filter r.schema r.table ≡ true
      → All
          (IsRowEvent c.cfg.source_id
            (action_from_event_type r.kind)
            (binlog_time at.clock r.timestamp))
          es
      → All (IsOwn c.cfg c.filter) es
  mapped-Own at r c es seen allowed h = All-imp _ _ es (λ e row. inr (at, r, seen, allowed, row)) h

  module _ (codec : BytesText) where
    mapped-Behaves :
        (at : Reading) (r : RowsEvent) (c : Connector) (m : MappedRows)
        → Seen at r
        → allow tables c.filter r.schema r.table ≡ true
        → map_rows_event codec at.clock at.fresh c.cfg.source_id
            (binlog_of r c)
            r.rows
            (action_from_event_type r.kind)
          ≡ m
        → c.emitted < 2 ^ 64
        → Behaves c.healthy c.binlog_file c (emit_mapped at m c)
    unfolding emit_mapped
    mapped-Behaves at r c (mapped es) seen allowed h small =
        let rows =
          map_rows_event-All codec at.clock at.fresh c.cfg.source_id (binlog_of r c) r.rows _ es
            h in
        emit_all-Behaves at.sent_at 0 at.taken es c (mapped-Own at r c es seen allowed rows.1) small
    mapped-Behaves at r c odd_rows seen allowed h small = idle c _ refl refl refl small
    mapped-Behaves at r c (event_failed reason) seen allowed h small = idle c _ refl refl refl small

    pub rows-Behaves :
        (at : Reading) (r : RowsEvent) (c : Connector)
        → Seen at r
        → c.emitted < 2 ^ 64
        → Behaves c.healthy c.binlog_file c (rows_received tables codec at r c)
    unfolding rows_received
    rows-Behaves at r c seen small = elim (Bool-cases (allow tables c.filter r.schema r.table)) [
      | inl allowed ↦ rw allowed (mapped-Behaves at r c _ seen allowed refl small)
      | inr hidden ↦ rw hidden (idle c c refl refl refl small)
    ]
