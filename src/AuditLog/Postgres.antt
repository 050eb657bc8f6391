-- ===== src/AuditLog/Postgres.antt =====
-- internal/auditlog/postgres/store.go: the audit log in a table of PostgreSQL. The database is a
-- parameter, by the four statements that the store runs; each runs by itself, and any may fail.
pub mod Law
pub mod Writer
pub mod Opening
pub mod Limits
pub mod Micros
pub mod Refines
pub mod Tests
use Prim.Native.Nat.{◌^◌}
use flux_lens.Base.{
  ℕ, ◌+◌, ◌%◌, String, Bool, true, false, not, Option, none, some, List, [], ◌∷◌, ◌==◌,
  if◌then◌else◌,
}
use flux_lens.Base.Json.{Json, encodable}
use flux_lens.AuditLog.Record.{
  Error, kind_required, marshal_payload, insert_failed, query_failed, Outcome, ok, err, Record,
  Encoding, compute_hash,
}
use flux_lens.AuditLog.Chain.{verify_records, next}
use flux_lens.AuditLog.Store.{Store}

-- SELECT sequence, hash ... ORDER BY sequence DESC LIMIT 1
pub data Head : Type 0 where
  no_rows : Head
  newest : ℕ → String → Head
  not_read : String → Head

-- SELECT ... ORDER BY sequence ASC: an error of the query, all rows, or the rows before an error of
-- Scan or of the connection.
pub data Rows : Type 0 where
  not_run : String → Rows
  all_rows : List Record → Rows
  cut_short : List Record → String → Rows

-- The statements take the tenant; `insert` returns the error, if there is one.
pub record Database (D : Type 0) : Type 0 where
  pub insert : String → Record → D → D × Option String
  pub select_head : String → D → Head
  pub select_rows : String → D → Rows
  pub select_count : String → D → Option ℕ

pub record PgStore (D : Type 0) : Type 0 where
  pub db : D
  pub tenant : String
  pub head_hash : String
  pub next_seq : ℕ

pub data PgOpened (D : Type 0) : Type 0 where
  ready : PgStore D → PgOpened D
  not_open : Error → PgOpened D

module _ {D : Type 0} (sql : Database D) where
  loaded : Head → PgStore D → PgOpened D
  loaded no_rows s = ready s
  loaded (newest seq hash) s = ready (record s { next_seq = (seq + 1) % 2 ^ 64; head_hash = hash })
  loaded (not_read text) s = not_open (query_failed text)

  unfoldable pub load_head : PgStore D → PgOpened D
  unfolding loaded
  load_head s = loaded (sql.select_head s.tenant s.db) s

  -- Open, on a connection; `ping` is its error, if there is one.
  unfoldable pub open_pg : Option String → String → D → PgOpened D
  unfolding load_head
  open_pg (some text) tenant db = not_open (query_failed text)
  open_pg none tenant db = load_head (record {
    db = db;
    tenant = if tenant == "" then "default" else tenant;
    head_hash = "";
    next_seq = 0;
  })

  abbrev pub pg_draft : ℕ → String → Json → PgStore D → Record
  pg_draft now kind payload s = record {
    sequence = s.next_seq;
    timestamp = now;
    kind = kind;
    payload = payload;
    prev_hash = s.head_hash;
    hash = "";
  }

  -- The head moves only after the insert succeeded.
  pg_inserted : Record → PgStore D → D × Option String → PgStore D × Outcome Record
  pg_inserted rec s (db, some text) = (record s { db = db }, err (insert_failed text))
  pg_inserted rec s (db, none) =
      (record s { db = db; head_hash = rec.hash; next_seq = next s.next_seq }, ok rec)

  pg_hashed : Record → PgStore D → Outcome String → PgStore D × Outcome Record
  unfolding pg_inserted
  pg_hashed rec s (err e) = (s, err e)
  pg_hashed rec s (ok h) =
      let stored = record rec { hash = h } in pg_inserted stored s (sql.insert s.tenant stored s.db)

  module _ (enc : Encoding) where
    unfoldable pub pg_append : ℕ → String → Json → PgStore D → PgStore D × Outcome Record
    unfolding pg_hashed
    pg_append now kind payload s =
        if kind == ""
        then (s, err kind_required)
        else if not (encodable payload)
        then (s, err marshal_payload)
        else (let rec = pg_draft now kind payload s in pg_hashed rec s (compute_hash enc rec))

    verify_rows : Rows → Outcome Bool
    verify_rows (not_run text) = err (query_failed text)
    verify_rows (cut_short rows text) = err (query_failed text)
    verify_rows (all_rows rows) = verify_records enc rows

    unfoldable pub pg_verify : PgStore D → Outcome Bool
    unfolding verify_rows
    pg_verify s = verify_rows (sql.select_rows s.tenant s.db)

  or_zero : Option ℕ → ℕ
  or_zero none = 0
  or_zero (some n) = n

  -- Len; the error of the query is dropped.
  unfoldable pub pg_len : PgStore D → ℕ
  unfolding or_zero
  pg_len s = or_zero (sql.select_count s.tenant s.db)

  rows_read : Rows → List Record
  rows_read (not_run text) = []
  rows_read (cut_short rows text) = rows
  rows_read (all_rows rows) = rows

  -- Snapshot; errors are dropped, and what was read before them is returned.
  unfoldable pub pg_snapshot : PgStore D → List Record
  unfolding rows_read
  pg_snapshot s = rows_read (sql.select_rows s.tenant s.db)

abbrev pub pg_store : {D : Type 0} → Database D → Encoding → Store (PgStore D)
pg_store sql enc = record {
  append = pg_append sql enc;
  verify = pg_verify sql enc;
  len = pg_len sql;
  head_hash = λ s. s.head_hash;
  snapshot = pg_snapshot sql;
}
