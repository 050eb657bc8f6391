-- ===== src/AuditLog/Postgres/Micros.antt =====
-- What follows when the time of a row reads back to the microsecond only.
use Prim.Native.Nat.{◌<◌}
use mathlib.Core.Path.{subst}
use flux_lens.Base.{
  ℕ, String, true, ◌≡◌, ◌≢◌, refl, sym, ap, ◌∙◌, Option, none, some, List, [], ◌∷◌, ◌++◌, ◌==◌, inl,
  inr, Bool-cases, All, Bool, false, ◌⊎◌, ◌%◌,
}
use flux_lens.Base.Json.{Json, encodable}
use flux_lens.AuditLog.Record.{
  Outcome, ok, err, Record, Encoding, canonical_bytes, compute_hash, compute_hash_with_prev,
}
use flux_lens.AuditLog.Chain.{verify_records}
use flux_lens.AuditLog.Chain.Tampering.{Collision, same_bytes}
use flux_lens.AuditLog.Chain.Links.{last_hash, IsLinked, verify_records_iff}
use flux_lens.AuditLog.Postgres.{
  Rows, all_rows, not_run, cut_short, Database, PgStore, pg_draft, pg_inserted, pg_hashed,
  pg_append, pg_verify, verify_rows,
}
use flux_lens.AuditLog.Postgres.Law.{IsDatabase}

IsLinked-last :
    (enc : Encoding) (prev : String) (xs ys : List Record)
    → IsLinked enc prev (xs ++ ys)
    → IsLinked enc (last_hash prev xs) ys
IsLinked-last enc prev [] ys h = h
IsLinked-last enc prev (x ∷ xs) ys h = IsLinked-last enc x.hash xs ys h.2

module _ {D : Type 0} (sql : Database D) (enc : Encoding) (view : String → D → List Record)
    (back : Record → Record) (law : IsDatabase sql view back) where
  abbrev rows_of : PgStore D → List Record
  rows_of s = view s.tenant s.db

  -- The number that the store writes next is greater than those of its rows.
  abbrev pub IsFree : PgStore D → Type 0
  IsFree s = All (λ r. r.sequence < s.next_seq) (rows_of s)

  -- A record that is returned stands behind the rows, as it reads back, and has the draft's hash.
  abbrev Wrote : Record → PgStore D → PgStore D × Outcome Record → Type 0
  Wrote rec s (s', ok written) =
      (rows_of s' ≡ rows_of s ++ back written ∷ []) × (compute_hash enc rec ≡ ok written.hash)
  Wrote rec s (s', err e) = Unit

  inserted-Wrote :
      (rec : Record) (h : String) (s : PgStore D) (x : D × Option String)
      → rec.sequence ≡ s.next_seq
      → IsFree s
      → compute_hash enc rec ≡ ok h
      → sql.insert s.tenant (record rec { hash = h }) s.db ≡ x
      → Wrote rec s (pg_inserted sql (record rec { hash = h }) s x)
  unfolding pg_inserted
  inserted-Wrote rec h s (d, some text) seq free hashed run = tt
  inserted-Wrote rec h s (d, none) seq free hashed run = (
    ap (λ (x : D × Option String). view s.tenant x.0) (sym run)
        ∙ law.inserts s.tenant (record rec { hash = h }) s.db
            (subst (λ n. All (λ r. r.sequence < n) (rows_of s)) (sym seq) free)
            (ap (λ (x : D × Option String). x.1) run),
    hashed,
  )

  hashed-Wrote :
      (rec : Record) (s : PgStore D) (o : Outcome String)
      → rec.sequence ≡ s.next_seq
      → IsFree s
      → compute_hash enc rec ≡ o
      → Wrote rec s (pg_hashed sql rec s o)
  unfolding pg_hashed
  hashed-Wrote rec s (err e) seq free hashed = tt
  hashed-Wrote rec s (ok h) seq free hashed = inserted-Wrote rec h s _ seq free hashed refl

  append-Wrote :
      (now : ℕ) (kind : String) (payload : Json) (s : PgStore D)
      → IsFree s
      → Wrote (pg_draft sql now kind payload s) s (pg_append sql enc now kind payload s)
  unfolding pg_append
  append-Wrote now kind payload s free = elim (Bool-cases (kind == "")) [
    | inl empty ↦ rw empty tt
    | inr named ↦ elim (Bool-cases (encodable payload)) [
      | inl fine ↦
          rw (named, fine) (hashed-Wrote (pg_draft sql now kind payload s) s _ refl free refl)
      | inr bad ↦ rw (named, bad) tt
    ]
  ]

  -- The hashed text determines the time that went into it: a decoder reads its field back.
  abbrev pub HasReadableTime : Type 0
  HasReadableTime =
      (r t : Record) (p q text : String)
      → canonical_bytes enc r p ≡ some text
      → canonical_bytes enc t q ≡ some text
      → r.timestamp ≡ t.timestamp

  -- The columns of the time and of the hash: TIMESTAMPTZ keeps microseconds, TEXT keeps all.
  abbrev pub KeepsMicros : Type 0
  KeepsMicros = (r : Record) → ((back r).timestamp % 1000 ≡ 0) × ((back r).hash ≡ r.hash)

  truncated_unlinked :
      (rec written : Record) (rows : List Record)
      → HasReadableTime
      → KeepsMicros
      → rec.timestamp % 1000 ≢ 0
      → compute_hash enc rec ≡ ok written.hash
      → verify_records enc (rows ++ back written ∷ []) ≡ ok true
      → Collision enc
  unfolding compute_hash compute_hash_with_prev
  truncated_unlinked rec written rows readable micros odd hashed h =
      let linked =
        IsLinked-last enc "" rows (back written ∷ [])
          ((verify_records_iff enc (rows ++ back written ∷ [])).0 h) in
      let (whole, kept) = micros written in
      elim (same_bytes enc _ _ (back written).hash written.hash linked.1 hashed kept) [
        | inl (text, left, right) ↦
            let same =
              readable (back written) rec (last_hash "" rows) rec.prev_hash text left right in
            absurd (odd (ap (λ n. n % 1000) (sym same) ∙ whole))
        | inr found ↦ found
      ]

  is_true : (o : Outcome Bool) → (o ≢ ok true) ⊎ (o ≡ ok true)
  is_true (ok true) = inr refl
  is_true (ok false) = inl (λ e. clash e)
    where
      clash : ok false ≡ ok true → ⊥
      clash e = cc
  is_true (err e) = inl (λ h. clash h)
    where
      clash : err e ≡ ok true → ⊥
      clash h = cc

  truncated_rows :
      (rec written : Record) (s s' : PgStore D) (read : Rows)
      → HasReadableTime
      → KeepsMicros
      → rec.timestamp % 1000 ≢ 0
      → Wrote rec s (s', ok written)
      → sql.select_rows s'.tenant s'.db ≡ read
      → verify_rows sql enc read ≡ ok true
      → Collision enc
  unfolding verify_rows
  truncated_rows rec written s s' (not_run text) readable micros odd w run h = cc
  truncated_rows rec written s s' (cut_short few text) readable micros odd w run h = cc
  truncated_rows rec written s s' (all_rows all) readable micros odd w run h =
      truncated_unlinked rec written (rows_of s) readable micros odd w.1
        (ap (verify_records enc) (sym (law.selects s'.tenant s'.db all run ∙ w.0)) ∙ h)

  -- With a time column that keeps microseconds, and hashed texts that determine the time in them: after
  -- an Append at a time that is no whole number of microseconds, Verify does not answer true, although
  -- nobody touched the table, or else two texts with one SHA-256 have been found. The number that the
  -- store writes is greater than those of the tenant's rows.
  pub pg_verify_truncated :
      (now : ℕ) (kind : String) (payload : Json) (s s' : PgStore D) (rec : Record)
      → HasReadableTime
      → KeepsMicros
      → now % 1000 ≢ 0
      → IsFree s
      → pg_append sql enc now kind payload s ≡ (s', ok rec)
      → (pg_verify sql enc s' ≢ ok true) ⊎ Collision enc
  unfolding pg_verify
  pg_verify_truncated now kind payload s s' rec readable micros odd free run =
      let w =
        subst (Wrote (pg_draft sql now kind payload s) s) run
          (append-Wrote now kind payload s free) in
      elim (is_true (pg_verify sql enc s')) [
        | inl other ↦ inl other
        | inr accepted ↦ inr (
            truncated_rows (pg_draft sql now kind payload s) rec s s' _ readable micros odd w refl
              accepted)
      ]
