-- ===== src/Cdc/Mysql.antt =====
-- internal/cdc/mysql/filter.go and map.go: the tables that are captured, and the events that the row
-- changes of a binlog become. The binlog itself comes from a library.
pub mod Filter
pub mod Mapped
pub mod Encodable
pub mod Returns
pub mod Connector
pub mod Tests
use Prim.Native.String.{◌++◌ as join}
use flux_lens.Base.{
  ℕ, zero, suc, ◌+◌, ◌*◌, ◌%◌, String, Bool, true, false, not, ◌&&◌, ◌||◌, Option, none, some, List,
  [], ◌∷◌, ◌++◌, ◌==◌, any, ltb, eqb, if◌then◌else◌, length,
}
use flux_lens.Base.Time.{second}
use flux_lens.Base.Text.{trim_space}
use flux_lens.Base.Pattern.{CaseTables, to_lower}
use flux_lens.Base.Json.{Json, null, nat, str, arr, obj, Items, nil, cons, object}
use flux_lens.Canonical.{
  Event, EventError, event, failed, Made, new_event, source_mysql_cdc, severity_info, severity_warn,
}

-- The allowed names, in lower case; nil is `none`.
abbrev pub TableFilter : Type 0
TableFilter = Option (List String)

-- The loop of newTableFilter.
unfoldable pub lowered : CaseTables → List String → List String
lowered tables [] = []
lowered tables (t ∷ more) =
    let rest = lowered tables more in
    if trim_space t == "" then rest else to_lower tables (trim_space t) ∷ rest

unfoldable pub new_table_filter : CaseTables → List String → TableFilter
new_table_filter tables [] = none
new_table_filter tables (t ∷ more) = some (lowered tables (t ∷ more))

unfoldable pub allow : CaseTables → TableFilter → String → String → Bool
allow tables none schema table = true
allow tables (some names) schema table =
    any (λ name. name == join (to_lower tables schema) (join "." (to_lower tables table))) names

-- The kinds of row events of the library, each in three versions.
pub data RowsKind : Type 0 where
  write_rows update_rows delete_rows : ℕ → RowsKind
  other : RowsKind

unfoldable pub action_from_event_type : RowsKind → String
action_from_event_type (write_rows version) = "insert"
action_from_event_type (update_rows version) = "update"
action_from_event_type (delete_rows version) = "delete"
action_from_event_type other = ""

-- The cases of the switch are the prefix with the action, as the default is.
unfoldable pub event_type_for_action : String → String
event_type_for_action action =
    if action == "insert"
    then "mysql.row.insert"
    else if action == "update"
    then "mysql.row.update"
    else if action == "delete"
    then "mysql.row.delete"
    else join "mysql.row." action

unfoldable pub severity_for_action : String → String
severity_for_action action = if action == "delete" then severity_warn else severity_info

-- Seconds from Go's zero time to the Unix epoch
abbrev pub unix_epoch : ℕ
unix_epoch = 62135596800

-- `clock` is what time.Now() returns.
unfoldable pub binlog_time : ℕ → ℕ → ℕ
binlog_time clock header = if eqb header 0 then clock else (unix_epoch + header) * second

-- A value of a row: nil, bytes, or a value with a JSON form of its own.
pub data Value : Type 0 where
  nothing : Value
  bytes : List ℕ → Value
  plain : Json → Value

-- base64.StdEncoding, and the text of bytes
pub record BytesText : Type 0 where
  pub base64 : List ℕ → String
  pub text : List ℕ → String

is_control : ℕ → Bool
is_control b = ltb b 32 && not (eqb b 9) && not (eqb b 10) && not (eqb b 13)

unfoldable pub json_value : BytesText → Value → Json
unfolding is_control
json_value codec nothing = null
json_value codec (plain v) = v
json_value codec (bytes []) = str ""
json_value codec (bytes (b ∷ more)) =
    if any is_control (b ∷ more) then str (codec.base64 (b ∷ more)) else str (codec.text (b ∷ more))

json_values : BytesText → List Value → Items
json_values codec [] = nil
json_values codec (v ∷ more) = cons (json_value codec v) (json_values codec more)

-- An empty row gives nil.
unfoldable pub row_values : BytesText → List Value → Option Json
unfolding json_values
row_values codec [] = none
row_values codec (v ∷ more) = some (arr (json_values codec (v ∷ more)))

pub record RowChange : Type 0 where
  pub before : Option Json
  pub after : Option Json
  pub row : Option Json

abbrev inserted : BytesText → List Value → RowChange
inserted codec row = record { before = none; after = none; row = row_values codec row }

abbrev deleted : BytesText → List Value → RowChange
deleted codec row = record { before = row_values codec row; after = none; row = none }

each_row : (List Value → RowChange) → List (List Value) → List RowChange
each_row change [] = []
each_row change (row ∷ more) = change row ∷ each_row change more

-- The loop over pairs of rows, which runs when their number is even.
paired : BytesText → List (List Value) → List RowChange
paired codec (old ∷ new ∷ more) =
    record { before = row_values codec old; after = row_values codec new; row = none }
    ∷ paired codec more
paired codec _ = []

optional_field : String → Option Json → List (String × Json)
optional_field name none = []
optional_field name (some v) = (name, v) ∷ []

-- The event header and the table map of a rows event.
pub record Binlog : Type 0 where
  pub file : String
  pub position : ℕ
  pub timestamp : ℕ
  pub schema : String
  pub table : String

-- A map with its keys in order, as json.Marshal writes it.
unfoldable pub change_payload : Binlog → String → RowChange → Json
unfolding optional_field
change_payload log action change = obj (
    object (
      ("action", str action) ∷ optional_field "after" change.after
      ++ optional_field "before" change.before
      ++ (
        "binlog",
        obj (object (("binlog_file", str log.file) ∷ ("binlog_position", nat log.position) ∷ [])),
      )
        ∷ ("database", str log.schema)
        ∷ optional_field "row" change.row
      ++ ("table", str log.table) ∷ []))

pub data MappedRows : Type 0 where
  mapped : List Event → MappedRows
  odd_rows : MappedRows
  event_failed : EventError → MappedRows

-- An event in front of the others.
put_first : ℕ → Made → MappedRows → MappedRows
put_first ts (failed e) rest = event_failed e
put_first ts (event e) (mapped es) = mapped (record e { timestamp = ts } ∷ es)
put_first ts (event e) rest = rest

-- The loop over the changes; `fresh` gives the clock and the identifier of each call of NewEvent.
map_changes :
    String → Binlog → String → ℕ → (ℕ → ℕ × Option String) → ℕ → List RowChange → MappedRows
unfolding put_first
map_changes source_id log action ts fresh i [] = mapped []
map_changes source_id log action ts fresh i (change ∷ more) =
    let (now, id) = fresh i in
    put_first ts
      (new_event source_id source_mysql_cdc (event_type_for_action action)
        (severity_for_action action) (change_payload log action change) now id)
      (map_changes source_id log action ts fresh (suc i) more)

unfoldable pub map_rows_event :
    BytesText
    → ℕ
    → (ℕ → ℕ × Option String)
    → String
    → Binlog
    → List (List Value)
    → String
    → MappedRows
unfolding map_changes each_row paired
map_rows_event codec clock fresh source_id log rows action =
    let ts = binlog_time clock log.timestamp in
    if action == "insert"
    then map_changes source_id log action ts fresh 0 (each_row (inserted codec) rows)
    else if action == "delete"
    then map_changes source_id log action ts fresh 0 (each_row (deleted codec) rows)
    else if action == "update"
    then (if eqb (length rows % 2) 0
        then map_changes source_id log action ts fresh 0 (paired codec rows)
        else odd_rows)
    else mapped []
