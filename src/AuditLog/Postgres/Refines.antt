-- ===== src/AuditLog/Postgres/Refines.antt =====
-- The store against the in-memory chain of internal/auditlog/chain.go, whose interface both fill.
use Prim.Native.Nat.{◌<◌}
use flux_lens.Base.{ℕ, String, ◌≡◌, ◌≢◌, List, [], ◌∷◌, All}
use flux_lens.Base.Json.{Json}
use flux_lens.AuditLog.Record.{insert_failed, Outcome, err, Record, Encoding}
use flux_lens.AuditLog.Chain.{Chain, append}
use flux_lens.AuditLog.Postgres.{Database, PgStore, pg_append}

-- The clock, the kind and the payload of a call of Append.
abbrev pub Call : Type 0
Call = ℕ × String × Json

-- The record or the error of each call, in order.
unfoldable pub chain_run : Encoding → List Call → Chain → Chain × List (Outcome Record)
chain_run enc [] c = (c, [])
chain_run enc ((now, kind, payload) ∷ more) c =
    let (c', o) = append enc now kind payload c in
    let (end, os) = chain_run enc more c' in (end, o ∷ os)

abbrev pub IsInserted : Outcome Record → Type 0
IsInserted o = (text : String) → o ≢ err (insert_failed text)

module _ {D : Type 0} (sql : Database D) (enc : Encoding) (view : String → D → List Record) where
  unfoldable pub pg_run : List Call → PgStore D → PgStore D × List (Outcome Record)
  pg_run [] s = (s, [])
  pg_run ((now, kind, payload) ∷ more) s =
      let (s', o) = pg_append sql enc now kind payload s in
      let (end, os) = pg_run more s' in (end, o ∷ os)

  -- The store stands for the chain: the same head, the same next number, and the chain's records as
  -- the tenant's rows.
  pub record IsChain (s : PgStore D) (c : Chain) : Type 0 where
    pub head : s.head_hash ≡ c.head_hash
    pub number : s.next_seq ≡ c.next_seq
    pub rows : view s.tenant s.db ≡ c.records
    pub below : All (λ r. r.sequence < c.next_seq) c.records

  abbrev Agrees : PgStore D × Outcome Record → Chain × Outcome Record → Type 0
  Agrees x y = (x.1 ≡ y.1) × IsChain x.0 y.0
