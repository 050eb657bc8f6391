-- ===== src/Cdc/Mysql/Returns.antt =====
-- When the mapping of a rows event cannot fail.
use flux_lens.Base.{
  ℕ, suc, ◌%◌, String, true, false, ◌≡◌, ◌≢◌, ◌⊎◌, refl, inl, inr, Option, some, List, [], ◌∷◌,
  ◌==◌, eq_iff, Bool-cases, length, All, eqb, ne→==-false, ==-false→ne, text_cases, arith,
}
use flux_lens.Base.Json.{Json, encodable}
use flux_lens.Canonical.{Event, event, new_event, source_mysql_cdc, schema_version}
use flux_lens.Cdc.Mysql.Mapped.{IsRowEvent, change_count, map_rows_event-All}
use flux_lens.Cdc.Mysql.{
  odd_rows, Value, BytesText, RowChange, Binlog, mapped, inserted, deleted, each_row, paired,
  put_first, map_changes, map_rows_event, event_type_for_action, severity_for_action, binlog_time,
  change_payload,
}
use flux_lens.Cdc.Mysql.Encodable.{IsRow, IsFine, encodable-change_payload, row_values-Fine}

each_row-Fine :
    (codec : BytesText) (change : (List Value → RowChange)) (rows : List (List Value))
    → ((row : List Value) → IsRow codec row → IsFine (change row))
    → All (IsRow codec) rows
    → All IsFine (each_row change rows)
unfolding each_row
each_row-Fine codec change [] each h = tt
each_row-Fine codec change (row ∷ rows) each h =
    (each row h.0, each_row-Fine codec change rows each h.1)

paired-Fine :
    (codec : BytesText) (rows : List (List Value))
    → All (IsRow codec) rows
    → All IsFine (paired codec rows)
unfolding paired
paired-Fine codec [] h = tt
paired-Fine codec (row ∷ []) h = tt
paired-Fine codec (old ∷ new ∷ rows) h = (
  (row_values-Fine codec old h.0, row_values-Fine codec new h.1.0, tt),
  paired-Fine codec rows h.1.1,
)

new_event-returns :
    (source_id event_type severity id : String) (payload : Json) (now : ℕ)
    → source_id ≢ ""
    → encodable payload ≡ true
    → (e : Event) × (new_event source_id source_mysql_cdc event_type severity payload now (some id)
        ≡ event e)
unfolding new_event
new_event-returns source_id event_type severity id payload now h k = (
  record {
    event_id = id;
    source_id = source_id;
    source_type = source_mysql_cdc;
    event_type = event_type;
    severity = severity;
    timestamp = now;
    ingested_at = now;
    payload = payload;
    metadata = record {
      trace_id = "";
      ingestion_pod = "";
      schema = schema_version;
      tenant_id = "";
    };
  },
  rw (ne→==-false source_id "" h, k) refl,
)

module _ (source_id : String) (log : Binlog) (action : String) (ts : ℕ) (now : (ℕ → ℕ))
    (id : (ℕ → String)) (named : source_id ≢ "") where
  map_changes-returns :
      (i : ℕ) (changes : List RowChange)
      → All IsFine changes
      → (es : List Event) × (map_changes source_id log action ts
            (λ n. (now n, some (id n)))
            i
            changes
          ≡ mapped es)
  unfolding map_changes put_first
  map_changes-returns i [] h = ([], refl)
  map_changes-returns i (change ∷ changes) h =
      let (more, rest) = map_changes-returns (suc i) changes h.1 in
      let (e, made) =
        new_event-returns source_id (event_type_for_action action) (severity_for_action action)
          (id i) (change_payload log action change) (now i) named
          (encodable-change_payload log action change h.0) in
      (record e { timestamp = ts } ∷ more, rw (made, rest) refl)

-- It returns events, or the action is an update and the number of rows is odd.
map_rows_event_made :
    (codec : BytesText) (clock : ℕ) (now : (ℕ → ℕ)) (id : (ℕ → String)) (source_id : String)
    (log : Binlog) (rows : List (List Value)) (action : String)
    → source_id ≢ ""
    → All (IsRow codec) rows
    → ((es : List Event) × (map_rows_event codec clock
            (λ n. (now n, some (id n)))
            source_id
            log
            rows
            action
          ≡ mapped es))
      ⊎ ((action ≡ "update") × (eqb (length rows % 2) 0 ≡ false))
unfolding map_rows_event
map_rows_event_made codec clock now id source_id log rows action named h =
    let ts = binlog_time clock log.timestamp in
    elim (Bool-cases (action == "insert")) [
      | inl insert ↦ inl (
          rw insert (
            map_changes-returns source_id log action ts now id named 0
              (each_row (inserted codec) rows)
              (each_row-Fine codec (inserted codec) rows
                (λ row r. (tt, tt, row_values-Fine codec row r)) h)))
      | inr not_insert ↦ elim (Bool-cases (action == "delete")) [
        | inl delete ↦ inl (
            rw (not_insert, delete)
              (map_changes-returns source_id log action ts now id named 0
                (each_row (deleted codec) rows)
                (each_row-Fine codec (deleted codec) rows
                  (λ row r. (row_values-Fine codec row r, tt, tt)) h)))
        | inr not_delete ↦ elim (Bool-cases (action == "update")) [
          | inl update ↦ elim (Bool-cases (eqb (length rows % 2) 0)) [
            | inl even ↦ inl (
                rw (not_insert, not_delete, update, even)
                  (map_changes-returns source_id log action ts now id named 0 (paired codec rows)
                    (paired-Fine codec rows h)))
            | inr odd ↦ inr ((eq_iff action "update").0 update, odd)
          ]
          | inr unknown ↦ inl ([], rw (not_insert, not_delete, unknown) refl)
        ]
      ]
    ]

odd_update :
    (codec : BytesText) (clock : ℕ) (fresh : (ℕ → ℕ × Option String)) (source_id : String)
    (log : Binlog) (rows : List (List Value))
    → eqb (length rows % 2) 0 ≡ false
    → map_rows_event codec clock fresh source_id log rows "update" ≡ odd_rows
unfolding map_rows_event
odd_update codec clock fresh source_id log rows odd = rw odd refl

-- With a source that has a name, rows whose values have a JSON form, and identifiers that can be
-- generated: for an update with an odd number of rows mapRowsEvent returns the error that is for it;
-- for every other rows event it returns events, one for each row of an insert or a delete and one for
-- each two rows of an update, which carry the source, the type and the severity of the action and the
-- time of the binlog's header.
pub map_rows_event-returns :
    (codec : BytesText) (clock : ℕ) (now : (ℕ → ℕ)) (id : (ℕ → String)) (source_id : String)
    (log : Binlog) (rows : List (List Value)) (action : String)
    → source_id ≢ ""
    → All (IsRow codec) rows
    → ((es : List Event) × (map_rows_event codec clock
            (λ n. (now n, some (id n)))
            source_id
            log
            rows
            action
          ≡ mapped es)
        × ((action ≢ "update") ⊎ (length rows % 2 ≡ 0))
        × (length es ≡ change_count action (length rows))
        × All (IsRowEvent source_id action (binlog_time clock log.timestamp)) es)
      ⊎ ((action ≡ "update")
          × (length rows % 2 ≢ 0)
          × (map_rows_event codec clock (λ n. (now n, some (id n))) source_id log rows action
              ≡ odd_rows))
map_rows_event-returns codec clock now id source_id log rows action named h =
    elim (text_cases action "update") [
      | inl update ↦ elim (Bool-cases (eqb (length rows % 2) 0)) [
        | inl even ↦ made (inr (ground arith))
        | inr odd ↦ inr (
          update,
          (λ z. ground arith),
          rw update (odd_update codec clock (λ n. (now n, some (id n))) source_id log rows odd),
        )
      ]
      | inr other ↦ made (inl (==-false→ne action "update" other))
    ]
  where
    clash :
        (action ≢ "update") ⊎ (length rows % 2 ≡ 0)
        → action ≡ "update"
        → eqb (length rows % 2) 0 ≡ false
        → ⊥
    clash (inl ne) update odd = ne update
    clash (inr even) update odd = ground arith

    made :
        (action ≢ "update") ⊎ (length rows % 2 ≡ 0)
        → ((es : List Event) × (map_rows_event codec clock
                (λ n. (now n, some (id n)))
                source_id
                log
                rows
                action
              ≡ mapped es)
            × ((action ≢ "update") ⊎ (length rows % 2 ≡ 0))
            × (length es ≡ change_count action (length rows))
            × All (IsRowEvent source_id action (binlog_time clock log.timestamp)) es)
          ⊎ ((action ≡ "update")
              × (length rows % 2 ≢ 0)
              × (map_rows_event codec clock (λ n. (now n, some (id n))) source_id log rows action
                  ≡ odd_rows))
    made guard = elim (map_rows_event_made codec clock now id source_id log rows action named h) [
      | inl (es, run) ↦
          let (count, good) = map_rows_event-All codec clock _ source_id log rows action es run in
          inl (es, run, guard, count, good)
      | inr (update, odd) ↦ absurd (clash guard update odd)
    ]
