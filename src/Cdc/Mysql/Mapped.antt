-- ===== src/Cdc/Mysql/Mapped.antt =====
-- The events that a rows event becomes.
use flux_lens.Base.{
  ℕ, suc, ◌/◌, ◌%◌, String, ◌≡◌, refl, ◌∙◌, ap, inl, inr, Option, none, some, List, [], ◌∷◌, ◌==◌,
  arith, if◌then◌else◌, ◌||◌, Bool-cases, length, All, eqb,
}
use flux_lens.Base.Json.{Json}
use flux_lens.Canonical.{Event, Made, event, failed, new_event, source_mysql_cdc}
use flux_lens.Cdc.Mysql.{
  Value, BytesText, RowChange, Binlog, MappedRows, mapped, odd_rows, event_failed, inserted,
  deleted, each_row, paired, put_first, map_changes, map_rows_event, event_type_for_action,
  severity_for_action, binlog_time, change_payload,
}

-- What all the events of one rows event share.
pub record IsRowEvent (source_id : String) (action : String) (ts : ℕ) (e : Event) : Type 0 where
  pub sourced : e.source_id ≡ source_id
  pub captured : e.source_type ≡ source_mysql_cdc
  pub typed : e.event_type ≡ event_type_for_action action
  pub graded : e.severity ≡ severity_for_action action
  pub dated : e.timestamp ≡ ts

-- How many changes the rows stand for: an update has two rows.
unfoldable pub change_count : String → ℕ → ℕ
change_count action n =
    if action == "insert" || action == "delete" then n else if action == "update" then n / 2 else 0

made_fields :
    (source_id action : String) (payload : Json) (now ts : ℕ) (id : Option String) (e : Event)
    → new_event source_id source_mysql_cdc
        (event_type_for_action action)
        (severity_for_action action)
        payload
        now
        id
      ≡ event e
    → IsRowEvent source_id action ts (record e { timestamp = ts })
unfolding new_event
made_fields source_id action payload now ts none e h = ground arith
made_fields source_id action payload now ts (some id) e h = record {
  sourced = ground arith;
  captured = ground arith;
  typed = ground arith;
  graded = ground arith;
  dated = refl;
}

length-each_row :
    (change : (List Value → RowChange)) (rows : List (List Value))
    → length (each_row change rows) ≡ length rows
unfolding each_row
length-each_row change [] = refl
length-each_row change (row ∷ rows) = ap suc (length-each_row change rows)

length-paired :
    (codec : BytesText) (rows : List (List Value)) → length (paired codec rows) ≡ length rows / 2
unfolding paired
length-paired codec [] = refl
length-paired codec (row ∷ []) = refl
length-paired codec (old ∷ new ∷ rows) = omega (arith, length-paired codec rows)

put_first_mapped :
    (ts : ℕ) (m : Made) (rest : MappedRows) (es : List Event)
    → put_first ts m rest ≡ mapped es
    → (e : Event) × (more : List Event) × (m ≡ event e)
      × (rest ≡ mapped more)
      × (es ≡ record e { timestamp = ts } ∷ more)
unfolding put_first
put_first_mapped ts (failed x) rest es h = cc
put_first_mapped ts (event e) (mapped more) es h = (e, more, refl, refl, ground arith)
put_first_mapped ts (event e) odd_rows es h = cc
put_first_mapped ts (event e) (event_failed x) es h = cc

map_changes-All :
    (source_id : String) (log : Binlog) (action : String) (ts : ℕ) (fresh : (ℕ → ℕ × Option String))
    (i : ℕ) (changes : List RowChange) (es : List Event)
    → map_changes source_id log action ts fresh i changes ≡ mapped es
    → (length es ≡ length changes) × All (IsRowEvent source_id action ts) es
unfolding map_changes
map_changes-All source_id log action ts fresh i [] es h =
    let none_left : es ≡ [] = ground arith in rw none_left (refl, tt)
map_changes-All source_id log action ts fresh i (change ∷ changes) es h =
    let (e, more, made, rest, here) = put_first_mapped ts _ _ es h in
    let (count, good) = map_changes-All source_id log action ts fresh (suc i) changes more rest in
    rw here (
      ap suc count,
      (
        made_fields source_id action (change_payload log action change) (fresh i).0 ts (fresh i).1 e
            made,
        good,
      ),
    )

-- When mapRowsEvent returns events then there is one for each row of an insert or a delete and one for
-- each two rows of an update, and all carry the source, the type and the severity of the action and
-- the time of the binlog's header.
pub map_rows_event-All :
    (codec : BytesText) (clock : ℕ) (fresh : (ℕ → ℕ × Option String)) (source_id : String)
    (log : Binlog) (rows : List (List Value)) (action : String) (es : List Event)
    → map_rows_event codec clock fresh source_id log rows action ≡ mapped es
    → (length es ≡ change_count action (length rows))
      × All (IsRowEvent source_id action (binlog_time clock log.timestamp)) es
unfolding map_rows_event change_count
map_rows_event-All codec clock fresh source_id log rows action es h =
    elim (Bool-cases (action == "insert")) [
      | inl insert ↦
          let (count, good) =
            map_changes-All source_id log action _ fresh 0 _ es
              (rw (insert, map_rows_event) at h) in
          (count ∙ length-each_row (inserted codec) rows ∙ rw insert refl, good)
      | inr not_insert ↦ elim (Bool-cases (action == "delete")) [
        | inl delete ↦
            let (count, good) =
              map_changes-All source_id log action _ fresh 0 _ es
                (rw (not_insert, delete, map_rows_event) at h) in
            (count ∙ length-each_row (deleted codec) rows ∙ rw (not_insert, delete) refl, good)
        | inr not_delete ↦ elim (Bool-cases (action == "update")) [
          | inl update ↦ elim (Bool-cases (eqb (length rows % 2) 0)) [
            | inl even ↦
                let (count, good) =
                  map_changes-All source_id log action _ fresh 0 _ es
                    (rw (not_insert, not_delete, update, even, map_rows_event) at h) in
                (count ∙ length-paired codec rows ∙ rw (not_insert, not_delete, update) refl, good)
            | inr odd ↦
                absurd (clash (rw (not_insert, not_delete, update, odd, map_rows_event) at h))
          ]
          | inr unknown ↦
              let empty : es ≡ [] =
                nothing_mapped (rw (not_insert, not_delete, unknown, map_rows_event) at h) in
              rw (empty, not_insert, not_delete, unknown) (refl, tt)
        ]
      ]
    ]
  where
    clash : odd_rows ≡ mapped es → ⊥
    clash h = cc

    nothing_mapped : mapped [] ≡ mapped es → es ≡ []
    nothing_mapped h = ground arith
