-- ===== src/AuditLog/Postgres/Limits.antt =====
-- Where the table of deploy/postgres-init/01-schema.sql stands in the way of the store.
use mathlib.Core.List.{Memᴰ}
use flux_lens.Base.{ℕ, String, ◌≡◌, ◌≢◌, Option, none, some, List, ◌==◌, inl, inr, Bool-cases}
use flux_lens.Base.Json.{Json, encodable}
use flux_lens.AuditLog.Record.{Outcome, ok, err, Record, Encoding}
use flux_lens.AuditLog.Postgres.{Database, PgStore, pg_draft, pg_inserted, pg_hashed, pg_append}

-- The primary key is the sequence number alone: a number that any tenant has is taken.
abbrev pub HasSharedKey : {D : Type 0} → Database D → (String → D → List Record) → Type 0
HasSharedKey {D} sql view =
    (t u : String) (r x : Record) (d : D)
    → Memᴰ x (view u d)
    → x.sequence ≡ r.sequence
    → (text : String) × ((sql.insert t r d).1 ≡ some text)

module _ {D : Type 0} (sql : Database D) (enc : Encoding) (view : String → D → List Record) where
  abbrev Fails : PgStore D × Outcome Record → Type 0
  Fails (s, o) = (rec : Record) → o ≢ ok rec

  inserted-Fails :
      (rec : Record) (s : PgStore D) (x : D × Option String)
      → ((text : String) × (x.1 ≡ some text))
      → Fails (pg_inserted sql rec s x)
  unfolding pg_inserted
  inserted-Fails rec s (d, some text) h got e = cc
  inserted-Fails rec s (d, none) (text, h) got e = cc

  hashed-Fails :
      (rec : Record) (s : PgStore D) (o : Outcome String)
      → ((h : String)
          → (text : String) × ((sql.insert s.tenant (record rec { hash = h }) s.db).1 ≡ some text))
      → Fails (pg_hashed sql rec s o)
  unfolding pg_hashed
  hashed-Fails rec s (err e) h got k = cc
  hashed-Fails rec s (ok digest) h got k =
      inserted-Fails (record rec { hash = digest }) s _ (h digest) got k

  -- When the table's primary key is the sequence number alone, as in the schema: if another tenant's
  -- row has the number that this tenant's store is to write next, as 0 for a fresh store, then no Append
  -- of this store succeeds.
  pub pg_append_blocked :
      (other : String) (x : Record) (now : ℕ) (kind : String) (payload : Json) (s : PgStore D)
      (rec : Record)
      → HasSharedKey sql view
      → Memᴰ x (view other s.db)
      → x.sequence ≡ s.next_seq
      → (pg_append sql enc now kind payload s).1 ≢ ok rec
  unfolding pg_append
  pg_append_blocked other x now kind payload s rec key there same = elim (Bool-cases (kind == "")) [
    | inl empty ↦ rw empty (λ e. cc)
    | inr named ↦ elim (Bool-cases (encodable payload)) [
      | inl fine ↦
          rw (named, fine)
            (hashed-Fails (pg_draft sql now kind payload s) s _
              (λ h. key s.tenant other _ x s.db there same) rec)
      | inr bad ↦ rw (named, bad) (λ e. cc)
    ]
  ]
