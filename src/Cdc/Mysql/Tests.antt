-- ===== src/Cdc/Mysql/Tests.antt =====
-- An update of one row in a captured table, and the theorems on it.
use flux_lens.Base.{
  ℕ, String, true, false, ◌≡◌, ◌≢◌, ◌⊎◌, refl, Option, some, List, [], ◌∷◌, All, length,
}
use flux_lens.Base.Text.{trim_space}
use flux_lens.Base.Pattern.{CaseTables, to_lower}
use flux_lens.Base.Json.{nat, encodable}
use flux_lens.Canonical.{Event, new_event}
use flux_lens.Cdc.Mysql.{
  Value, nothing, bytes, plain, BytesText, Binlog, MappedRows, mapped, odd_rows, odd_rows, lowered,
  new_table_filter, allow, event_type_for_action, severity_for_action, binlog_time, json_value,
  row_values, change_payload, map_rows_event, update_rows, action_from_event_type,
}
use flux_lens.Cdc.Mysql.Encodable.{IsRow}
use flux_lens.Cdc.Mysql.Returns.{map_rows_event-returns}
use flux_lens.Base.{arith, eq_iff, ◌%◌}
use flux_lens.Cdc.Mysql.Mapped.{IsRowEvent, change_count}

abbrev pub tables : CaseTables
tables = record { fold = λ c. c; lower = λ c. c }

abbrev pub codec : BytesText
codec = record { base64 = λ bs. "AQ=="; text = λ bs. "text" }

run : Unit {0}
unfolding lowered new_table_filter allow trim_space to_lower event_type_for_action
    severity_for_action binlog_time json_value row_values change_payload map_rows_event change_count
    new_event encodable action_from_event_type
run = tt

listed : allow tables (new_table_filter tables (" " ∷ " shop.orders" ∷ [])) "shop" "orders" ≡ true
unfolding run
listed = refl

-- A list of blank names is no empty list: it lets nothing through.
blank_names : allow tables (new_table_filter tables (" " ∷ [])) "shop" "orders" ≡ false
unfolding run
blank_names = refl

abbrev log : Binlog
log = record { file = "bin.1"; position = 4; timestamp = 1; schema = "shop"; table = "orders" }

abbrev fresh : ℕ → ℕ × Option String
fresh i = (7, some "id")

abbrev rows : List (List Value)
rows = (plain (nat 1) ∷ nothing ∷ []) ∷ (plain (nat 2) ∷ bytes (1 ∷ []) ∷ []) ∷ []

abbrev events_of : MappedRows → List Event
events_of (mapped es) = es
events_of _ = []

abbrev updated : List Event
unfolding run
updated = events_of (map_rows_event codec 9 fresh "db1" log rows "update")

one_event : length updated ≡ 1
unfolding run
one_event = refl

mapped_update :
    map_rows_event codec 9 fresh "db1" log rows (action_from_event_type (update_rows 2))
    ≡ mapped updated
unfolding run
mapped_update = refl

odd_update : map_rows_event codec 9 fresh "db1" log ((nothing ∷ []) ∷ []) "update" ≡ odd_rows
unfolding run
odd_update = refl

db1_named : ◌≢◌ {A = String} "db1" ""
db1_named e = ground (arith, eq_iff "db1" "")

rows-All : All (IsRow codec) rows
unfolding run
rows-All = ((refl, (refl, tt)), ((refl, (refl, tt)), tt))

map_rows_event-returns_example :
    ((es : List Event) × (map_rows_event codec 9 (λ n. (7, some "id")) "db1" log rows "update"
        ≡ mapped es)
      × ((◌≢◌ {A = String} "update" "update") ⊎ (length rows % 2 ≡ 0))
      × (length es ≡ change_count "update" (length rows))
      × All (IsRowEvent "db1" "update" (binlog_time 9 log.timestamp)) es)
    ⊎ ((◌≡◌ {A = String} "update" "update")
        × (length rows % 2 ≢ 0)
        × (map_rows_event codec 9 (λ n. (7, some "id")) "db1" log rows "update" ≡ odd_rows))
map_rows_event-returns_example =
    map_rows_event-returns codec 9 (λ n. 7) (λ n. "id") "db1" log rows "update" db1_named rows-All
