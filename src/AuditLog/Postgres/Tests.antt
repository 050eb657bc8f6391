-- ===== src/AuditLog/Postgres/Tests.antt =====
-- A table, encodings that print times, and the theorems on them.
mod Fixture
use mathlib.Core.List.{Memᴰ}
use Prim.Native.Nat.{◌*◌, ◌/◌}
use flux_lens.Base.{
  ℕ, zero, suc, ◌%◌, Option, ◌∙◌, String, Bool, true, false, ◌≡◌, ◌≢◌, ◌⊎◌, refl, none, some, List,
  [], ◌∷◌, ◌++◌, ◌==◌, arith, length, any, eqb, eq_refl, Bool-cases, inl, inr, ap, sym,
  if◌then◌else◌,
}
use flux_lens.Base.Json.{Json, null, str, obj, field, encodable}
use flux_lens.AuditLog.Record.{
  Outcome, ok, err, query_failed, Record, Encoding, hashable, canonical_bytes, compute_hash,
  compute_hash_with_prev,
}
use flux_lens.AuditLog.Chain.{verify_records, verify, append, commit}
use flux_lens.AuditLog.Postgres.{
  Head, no_rows, newest, Rows, Database, PgStore, open_pg, load_head, pg_append, pg_verify, pg_len,
  pg_snapshot,
}
use flux_lens.AuditLog.Postgres.Law.{IsDatabase, IsTip}
use flux_lens.AuditLog.Postgres.Writer.{pg_append_all, pg_verify-pg_append_all}
use flux_lens.AuditLog.Postgres.Limits.{HasSharedKey, pg_append_blocked}
use flux_lens.AuditLog.Postgres.Micros.{HasReadableTime, KeepsMicros, pg_verify_truncated}
use flux_lens.AuditLog.Postgres.Refines.{Call, chain_run, pg_run}
use flux_lens.AuditLog.Chain.Tampering.{Collision}
use flux_lens.AuditLog.Postgres.Tests.Fixture.{
  Table, rows_for, table, table-IsDatabase, table-HasSharedKey,
}

-- The encoding prints the text of the second field, which is the time, and times above a microsecond
-- by what is below it.
time_text : Json → String
time_text (obj (field a v (field b (str s) more))) = s
time_text _ = ""

abbrev timed : Encoding
timed = record {
  json_text = time_text;
  rfc3339_nano = λ t. if eqb t 1000 then "1us" else "1.5us";
  sha256_hex = λ s. s;
}

-- An encoding that prints a time as so many strokes.
strokes : ℕ → String
strokes zero = ""
strokes (suc n) = String.◌∷◌ "|" (strokes n)

abbrev same : Record → Record
same r = r

-- What a TIMESTAMPTZ column keeps.
abbrev micros : Record → Record
micros r = record r { timestamp = r.timestamp / 1000 * 1000 }

abbrev fresh_store : PgStore Table
fresh_store = record { db = []; tenant = "a"; head_hash = ""; next_seq = 0 }

run : Unit {0}
unfolding pg_append pg_append_all pg_verify verify_records compute_hash compute_hash_with_prev
    canonical_bytes hashable encodable time_text strokes verify append commit pg_run chain_run
    pg_len pg_snapshot open_pg load_head
run = tt

abbrev after_one : (Record → Record) → PgStore Table
after_one back = (pg_append (table back) timed 1500 "decision" null fresh_store).0

kept_true : pg_verify (table same) timed (after_one same) ≡ ok true
unfolding run
kept_true = refl

truncated_false : pg_verify (table micros) timed (after_one micros) ≡ ok false
unfolding run
truncated_false = refl

fresh-IsTip : IsTip timed "" 0 []
fresh-IsTip = record { linked = tt; at_head = refl; below = tt }

pg_verify-pg_append_all_example :
    (pg_verify (table same) timed (
        pg_append_all
          (table same)
          timed
          rows_for
          same
          (table-IsDatabase same)
          ((1500, "decision", null) ∷ [])
          fresh_store)
      ≡ ok true)
    ⊎ ((text : String) × (pg_verify (table same) timed (
            pg_append_all
              (table same)
              timed
              rows_for
              same
              (table-IsDatabase same)
              ((1500, "decision", null) ∷ [])
              fresh_store)
          ≡ err (query_failed text)))
pg_verify-pg_append_all_example =
    pg_verify-pg_append_all (table same) timed rows_for same (table-IsDatabase same)
      ((1500, "decision", null) ∷ []) fresh_store
      (
        λ seq prev hash. record {
          sequence = refl;
          prev_hash = refl;
          hash = refl;
          hashed = λ p. refl;
        },
        tt,
      )
      (omega arith) fresh-IsTip

abbrev two_calls : List Call
two_calls = (1500, "decision", null) ∷ (1500, "", null) ∷ []

abbrev two_run : PgStore Table × List (Outcome Record)
two_run = pg_run (table same) timed rows_for two_calls fresh_store

abbrev stored_first : List Record
stored_first = rows_for "a" two_run.0.db

strokes-inj : (m n : ℕ) → strokes m ≡ strokes n → m ≡ n
unfolding strokes
strokes-inj zero zero e = refl
strokes-inj zero (suc n) e = cc
strokes-inj (suc m) zero e = cc
strokes-inj (suc m) (suc n) e = ap suc (strokes-inj m n (ap rest_of e))
  where
    rest_of : String → String
    rest_of String.[] = ""
    rest_of (String.◌∷◌ c s) = s

abbrev stroked : Encoding
stroked = record { json_text = time_text; rfc3339_nano = strokes; sha256_hex = λ s. s }

stroked-HasReadableTime :
    HasReadableTime (table micros) stroked rows_for micros (table-IsDatabase micros)
unfolding canonical_bytes hashable time_text
stroked-HasReadableTime r t p q text h k =
    strokes-inj r.timestamp t.timestamp (read r p text h ∙ sym (read t q text k))
  where
    read :
        (r : Record) (p text : String)
        → canonical_bytes stroked r p ≡ some text
        → strokes r.timestamp ≡ text
    read r p text h = elim (Bool-cases (encodable (hashable stroked r p))) [
      | inl fine ↦ ap or_blank (rw fine at h)
      | inr bad ↦ absurd (clash (rw bad at h))
    ]
      where
        or_blank : Option String → String
        or_blank none = ""
        or_blank (some s) = s

        clash : none ≡ some text → ⊥
        clash h = cc

micros-KeepsMicros : KeepsMicros (table micros) stroked rows_for micros (table-IsDatabase micros)
micros-KeepsMicros r = (omega arith, refl)

abbrev after_five : PgStore Table
after_five = (pg_append (table micros) stroked 5 "decision" null fresh_store).0

abbrev written : Record
written = record {
  sequence = 0;
  timestamp = 5;
  kind = "decision";
  payload = null;
  prev_hash = "";
  hash = "|||||";
}

written_first :
    pg_append (table micros) stroked 5 "decision" null fresh_store ≡ (after_five, ok written)
unfolding run
written_first = refl

five_odd : 5 % 1000 ≢ 0
five_odd e = omega (arith, e)

pg_verify_truncated_example :
    (pg_verify (table micros) stroked after_five ≢ ok true) ⊎ Collision stroked
pg_verify_truncated_example =
    pg_verify_truncated (table micros) stroked rows_for micros (table-IsDatabase micros) 5
      "decision" null fresh_store after_five written stroked-HasReadableTime micros-KeepsMicros
      five_odd tt written_first

-- The table with a row of tenant "b".
abbrev shared : PgStore Table
shared = record fresh_store { db = ("b", written) ∷ [] }

pg_append_blocked_example :
    (pg_append (table same) timed 1500 "decision" null shared).1 ≢ ok written
pg_append_blocked_example =
    pg_append_blocked (table same) timed rows_for "b" written 1500 "decision" null shared written
      (table-HasSharedKey same) (Memᴰ.head refl) refl
