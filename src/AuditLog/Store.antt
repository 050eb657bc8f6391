-- ===== src/AuditLog/Store.antt =====
-- The interface of internal/auditlog/store.go, with what its clients rely on, and the in-memory
-- chain as an implementation. A store may fail to append, and then its records are as before.
use flux_lens.Base.{ℕ, String, ◌≡◌, Bool, List, [], ◌∷◌, ◌++◌, ap}
use flux_lens.Base.Json.{Json}
use flux_lens.AuditLog.Record.{Outcome, ok, err, Error, Record, Encoding}
use flux_lens.AuditLog.Chain
use flux_lens.AuditLog.Chain.{Chain}
use flux_lens.AuditLog.Chain.Invariant.{append_fails, append_stores}

pub record Store (S : Type 0) : Type 0 where
  pub append : ℕ → String → Json → S → S × Outcome Record
  pub verify : S → Outcome Bool
  pub len : S → ℕ
  pub head_hash : S → String
  pub snapshot : S → List Record

-- What Append promises of the record that it returns, and of the records that the store then has.
pub record IsLog {S : Type 0} (store : Store S) : Type 0 where
  pub grows :
      (now : ℕ) (kind : String) (payload : Json) (s : S) (rec : Record)
      → (store.append now kind payload s).1 ≡ ok rec
      → store.snapshot (store.append now kind payload s).0 ≡ store.snapshot s ++ rec ∷ []
  pub stays :
      (now : ℕ) (kind : String) (payload : Json) (s : S) (e : Error)
      → (store.append now kind payload s).1 ≡ err e
      → store.snapshot (store.append now kind payload s).0 ≡ store.snapshot s
  pub describes :
      (now : ℕ) (kind : String) (payload : Json) (s : S) (rec : Record)
      → (store.append now kind payload s).1 ≡ ok rec
      → (rec.kind ≡ kind)
        × (rec.payload ≡ payload)
        × (rec.prev_hash ≡ store.head_hash s)
        × (store.head_hash (store.append now kind payload s).0 ≡ rec.hash)

abbrev pub chain_store : Encoding → Store Chain
chain_store enc = record {
  append = Chain.append enc;
  verify = Chain.verify enc;
  len = Chain.len;
  head_hash = λ c. c.head_hash;
  snapshot = Chain.snapshot;
}

-- The in-memory chain keeps the promises of the interface.
pub chain_store-IsLog : (enc : Encoding) → IsLog (chain_store enc)
chain_store-IsLog enc = record {
  grows = λ now kind payload c rec h. (append_stores enc now kind payload c rec h).0;
  stays = λ now kind payload c e h.
      ap (λ (d : Chain). d.records) (append_fails enc now kind payload c e h).0;
  describes = λ now kind payload c rec h. (append_stores enc now kind payload c rec h).1;
}
