-- ===== src/AuditLog/Postgres/Law.antt =====
-- What the store relies on of the database and its table, and what its writer knows of the rows.
use Prim.Native.Nat.{◌^◌, ◌<◌, ◌≤◌}
use flux_lens.Base.{ℕ, ◌+◌, String, ◌≡◌, sym, ap, ◌∙◌, none, some, List, [], ◌∷◌, ◌++◌, arith, All}
use flux_lens.Base.Lists.{All-append, All-imp}
use flux_lens.AuditLog.Record.{ok, Record, Encoding, compute_hash, compute_hash_with_prev}
use flux_lens.AuditLog.Chain.{next}
use flux_lens.AuditLog.Chain.Links.{last_hash, last_hash-append, IsLinked, IsLinked-append}
use flux_lens.AuditLog.Postgres.{no_rows, newest, all_rows, Database}

-- What the store relies on: `view` is what the tenant's rows are, in the order of their sequence
-- numbers, and a row reads back as `back` of what was written.
pub record IsDatabase {D : Type 0} (sql : Database D) (view : String → D → List Record)
    (back : Record → Record) : Type 0 where
  pub inserts :
      (t : String) (r : Record) (d : D)
      → All (λ x. x.sequence < r.sequence) (view t d)
      → (sql.insert t r d).1 ≡ none
      → view t (sql.insert t r d).0 ≡ view t d ++ back r ∷ []
  pub rejects :
      (t : String) (r : Record) (d : D) (text : String)
      → (sql.insert t r d).1 ≡ some text
      → view t (sql.insert t r d).0 ≡ view t d
  pub selects :
      (t : String) (d : D) (rows : List Record)
      → sql.select_rows t d ≡ all_rows rows
      → rows ≡ view t d

-- What Open relies on: the newest row, or that there is none. The column is a BIGINT.
pub record ReadsHead {D : Type 0} (sql : Database D) (view : String → D → List Record)
    : Type 0 where
  pub heads :
      (t : String) (d : D) (seq : ℕ) (hash : String)
      → sql.select_head t d ≡ newest seq hash
      → (hash ≡ last_hash "" (view t d)) × All (λ r. r.sequence ≤ seq) (view t d) × (seq < 2 ^ 63)
  pub empties : (t : String) (d : D) → sql.select_head t d ≡ no_rows → view t d ≡ []

-- Reading back changes neither the numbers and hashes of the record nor what its hash is computed from.
pub record Survives (enc : Encoding) (back : Record → Record) (r : Record) : Type 0 where
  pub sequence : (back r).sequence ≡ r.sequence
  pub prev_hash : (back r).prev_hash ≡ r.prev_hash
  pub hash : (back r).hash ≡ r.hash
  pub hashed : (p : String) → compute_hash_with_prev enc (back r) p ≡ compute_hash_with_prev enc r p

-- Rows that are linked, with the head of the last row and a number that none of them has.
pub record IsTip (enc : Encoding) (head : String) (free : ℕ) (rows : List Record) : Type 0 where
  pub linked : IsLinked enc "" rows
  pub at_head : head ≡ last_hash "" rows
  pub below : All (λ r. r.sequence < free) rows

pub IsTip-append :
    (enc : Encoding) (back : Record → Record) (head : String) (free : ℕ) (rows : List Record)
    (rec : Record)
    → IsTip enc head free rows
    → rec.sequence ≡ free
    → rec.prev_hash ≡ head
    → compute_hash enc rec ≡ ok rec.hash
    → Survives enc back rec
    → free + 1 < 2 ^ 64
    → IsTip enc rec.hash (next free) (rows ++ back rec ∷ [])
unfolding compute_hash
IsTip-append enc back head free rows rec t seq prev hash survives room =
    let linked_to : rec.prev_hash ≡ last_hash "" rows = prev ∙ t.at_head in
    let after : next free ≡ free + 1 = omega (arith, room) in
    record {
      linked = IsLinked-append enc "" rows (back rec ∷ []) t.linked (
        survives.prev_hash ∙ linked_to,
        survives.hashed (last_hash "" rows)
            ∙ ap (compute_hash_with_prev enc rec) (sym linked_to)
            ∙ hash
            ∙ ap ok (sym survives.hash),
        tt,
      );
      at_head = sym (last_hash-append "" rows (back rec ∷ []) ∙ survives.hash);
      below =
          All-append _ rows (back rec ∷ [])
            (All-imp (λ r. r.sequence < free) _ rows (λ r l. omega (arith, l, after)) t.below)
            (omega (arith, survives.sequence, seq, after), tt);
    }
