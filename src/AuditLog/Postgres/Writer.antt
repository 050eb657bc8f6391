-- ===== src/AuditLog/Postgres/Writer.antt =====
-- One writer on one tenant's table: what Append does to the rows, and that Verify accepts them.
use Prim.Native.Nat.{◌^◌, ◌<◌, ◌≤◌}
use mathlib.Core.Path.{subst}
use flux_lens.Base.{
  ℕ, ◌+◌, String, true, ◌≡◌, ◌⊎◌, inl, inr, refl, sym, ap, ◌∙◌, Option, none, some, List, [], ◌∷◌,
  ◌==◌, arith, All, length, Bool-cases,
}
use flux_lens.Base.Lists.{All-imp}
use flux_lens.Base.Json.{Json, encodable}
use flux_lens.AuditLog.Record.{query_failed, Outcome, ok, err, Record, Encoding, compute_hash}
use flux_lens.AuditLog.Chain.{next}
use flux_lens.AuditLog.Chain.Links.{IsLinked, verify_records_iff}
use flux_lens.AuditLog.Chain.Invariant.{hash_ignores_hash}
use flux_lens.AuditLog.Postgres.{
  Rows, not_run, all_rows, cut_short, Database, PgStore, pg_draft, pg_inserted, pg_hashed,
  pg_append, pg_verify, verify_rows,
}
use flux_lens.AuditLog.Postgres.Law.{IsDatabase, Survives, IsTip, IsTip-append}

module _ {D : Type 0} (sql : Database D) (enc : Encoding) (view : String → D → List Record)
    (back : Record → Record) (law : IsDatabase sql view back) where
  -- What the writer knows is true of the rows.
  abbrev pub IsCurrent : PgStore D → Type 0
  IsCurrent s = IsTip enc s.head_hash s.next_seq (view s.tenant s.db)

  inserted-IsTip :
      (rec : Record) (s : PgStore D) (x : D × Option String)
      → rec.sequence ≡ s.next_seq
      → rec.prev_hash ≡ s.head_hash
      → compute_hash enc rec ≡ ok rec.hash
      → Survives enc back rec
      → s.next_seq + 1 < 2 ^ 64
      → sql.insert s.tenant rec s.db ≡ x
      → IsCurrent s
      → IsCurrent (pg_inserted sql rec s x).0
  unfolding pg_inserted
  inserted-IsTip rec s (d, some text) seq prev hash survives room run c =
      subst (IsTip enc s.head_hash s.next_seq)
        (sym (law.rejects s.tenant rec s.db text (ap (λ (x : D × Option String). x.1) run))
          ∙ ap (λ (x : D × Option String). view s.tenant x.0) run)
        c
  inserted-IsTip rec s (d, none) seq prev hash survives room run c =
      let low =
        All-imp (λ r. r.sequence < s.next_seq) (λ r. r.sequence < rec.sequence) (view s.tenant s.db)
          (λ r l. omega (arith, l, seq)) c.below in
      subst (IsTip enc rec.hash (next s.next_seq))
        (sym (law.inserts s.tenant rec s.db low (ap (λ (x : D × Option String). x.1) run))
          ∙ ap (λ (x : D × Option String). view s.tenant x.0) run)
        (IsTip-append enc back s.head_hash s.next_seq (view s.tenant s.db) rec c seq prev hash
          survives room)

  hashed-IsTip :
      (now : ℕ) (kind : String) (payload : Json) (s : PgStore D) (o : Outcome String)
      → compute_hash enc (pg_draft sql now kind payload s) ≡ o
      → ((h : String) → Survives enc back (record (pg_draft sql now kind payload s) { hash = h }))
      → s.next_seq + 1 < 2 ^ 64
      → IsCurrent s
      → IsCurrent (pg_hashed sql (pg_draft sql now kind payload s) s o).0
  unfolding pg_hashed compute_hash
  hashed-IsTip now kind payload s (err e) h survives room c = c
  hashed-IsTip now kind payload s (ok digest) h survives room c =
      inserted-IsTip (record (pg_draft sql now kind payload s) { hash = digest }) s _ refl refl
        (hash_ignores_hash enc (pg_draft sql now kind payload s) digest s.head_hash ∙ h)
        (survives digest) room refl c

  -- A call whose record survives, whatever the state.
  abbrev pub IsFit : ℕ × String × Json → Type 0
  IsFit (now, kind, payload) =
      (seq : ℕ) (prev hash : String)
      → Survives enc back (record {
        sequence = seq;
        timestamp = now;
        kind = kind;
        payload = payload;
        prev_hash = prev;
        hash = hash;
      })

  pg_append-IsTip :
      (now : ℕ) (kind : String) (payload : Json) (s : PgStore D)
      → IsFit (now, kind, payload)
      → s.next_seq + 1 < 2 ^ 64
      → IsCurrent s
      → IsCurrent (pg_append sql enc now kind payload s).0
  unfolding pg_append
  pg_append-IsTip now kind payload s fit room c = elim (Bool-cases (kind == "")) [
    | inl empty ↦ rw empty c
    | inr named ↦ elim (Bool-cases (encodable payload)) [
      | inl fine ↦ rw (named, fine) (hashed-IsTip now kind payload s _ refl (fit _ _) room c)
      | inr bad ↦ rw (named, bad) c
    ]
  ]

  inserted_next :
      (rec : Record) (s : PgStore D) (x : D × Option String)
      → (pg_inserted sql rec s x).0.next_seq ≤ s.next_seq + 1
  unfolding pg_inserted
  inserted_next rec s (d, some text) = omega arith
  inserted_next rec s (d, none) = omega arith

  hashed_next :
      (rec : Record) (s : PgStore D) (o : Outcome String)
      → (pg_hashed sql rec s o).0.next_seq ≤ s.next_seq + 1
  unfolding pg_hashed
  hashed_next rec s (err e) = omega arith
  hashed_next rec s (ok h) = inserted_next (record rec { hash = h }) s _

  append_next :
      (now : ℕ) (kind : String) (payload : Json) (s : PgStore D)
      → (pg_append sql enc now kind payload s).0.next_seq ≤ s.next_seq + 1
  unfolding pg_append
  append_next now kind payload s = elim (Bool-cases (kind == "")) [
    | inl empty ↦ rw empty (omega arith)
    | inr named ↦ elim (Bool-cases (encodable payload)) [
      | inl fine ↦ rw (named, fine) (hashed_next (pg_draft sql now kind payload s) s _)
      | inr bad ↦ rw (named, bad) (omega arith)
    ]
  ]

  unfoldable pub pg_append_all : List (ℕ × String × Json) → PgStore D → PgStore D
  pg_append_all [] s = s
  pg_append_all ((now, kind, payload) ∷ more) s =
      pg_append_all more (pg_append sql enc now kind payload s).0

  pub pg_append_all-IsTip :
      (calls : List (ℕ × String × Json)) (s : PgStore D)
      → All IsFit calls
      → s.next_seq + length calls < 2 ^ 64
      → IsCurrent s
      → IsCurrent (pg_append_all calls s)
  unfolding pg_append_all
  pg_append_all-IsTip [] s fit room c = c
  pg_append_all-IsTip ((now, kind, payload) ∷ more) s fit room c =
      pg_append_all-IsTip more _ fit.1 (omega (arith, room, append_next now kind payload s))
        (pg_append-IsTip now kind payload s fit.0 (omega (arith, room)) c)

  rows_verified :
      (s : PgStore D) (rows : Rows)
      → sql.select_rows s.tenant s.db ≡ rows
      → IsCurrent s
      → (verify_rows sql enc rows ≡ ok true)
        ⊎ ((text : String) × (verify_rows sql enc rows ≡ err (query_failed text)))
  unfolding verify_rows
  rows_verified s (not_run text) h c = inr (text, refl)
  rows_verified s (cut_short rows text) h c = inr (text, refl)
  rows_verified s (all_rows rows) h c = inl (
      (verify_records_iff enc rows).1
        (subst (IsLinked enc "") (sym (law.selects s.tenant s.db rows h)) c.linked))

  -- With one writer for the tenant and a database that keeps what is hashed of the records written:
  -- whatever is appended to a current store that has numbers left for it, and whichever inserts fail,
  -- Verify answers true, or the error of its query; it never reports a broken chain.
  pub pg_verify-pg_append_all :
      (calls : List (ℕ × String × Json)) (s : PgStore D)
      → All IsFit calls
      → s.next_seq + length calls < 2 ^ 64
      → IsCurrent s
      → (pg_verify sql enc (pg_append_all calls s) ≡ ok true)
        ⊎ ((text : String) × (pg_verify sql enc (pg_append_all calls s) ≡ err (query_failed text)))
  unfolding pg_verify
  pg_verify-pg_append_all calls s fit room c =
      rows_verified (pg_append_all calls s) _ refl (pg_append_all-IsTip calls s fit room c)
