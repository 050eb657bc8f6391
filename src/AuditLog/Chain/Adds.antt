-- ===== src/AuditLog/Chain/Adds.antt =====
-- Append by its payload: whether the log grows depends on nothing else, for a kind that is not empty.
use flux_lens.Base.{ℕ, String, true, false, ◌≡◌, ◌≢◌, refl, ap, [], ◌∷◌, ◌++◌, inl, inr, text_cases}
use flux_lens.Base.Json.{Json, encodable}
use flux_lens.AuditLog.Record.{Record, Outcome, Encoding}
use flux_lens.AuditLog.Chain.{Chain, append}
use flux_lens.AuditLog.Chain.Invariant.{append_succeeds, stored}

module _ (enc : Encoding) (now : ℕ) (kind : String) (payload : Json) where
  -- One record more, of this kind and with this payload.
  abbrev pub Adds : Chain → Chain → Type 0
  Adds c d =
      (rec : Record) × (d.records ≡ c.records ++ rec ∷ [])
      × (rec.kind ≡ kind)
      × (rec.payload ≡ payload)

  pub append-Adds :
      (c : Chain) → kind ≢ "" → encodable payload ≡ true → Adds c (append enc now kind payload c).0
  append-Adds c named fine = (
    stored enc now kind payload c,
    ap (λ (x : Chain × Outcome Record). x.0.records)
        (append_succeeds enc now kind payload c named fine),
    refl,
    refl,
  )

  pub append_skips : (c : Chain) → encodable payload ≡ false → (append enc now kind payload c).0 ≡ c
  unfolding append
  append_skips c bad = elim (text_cases kind "") [
    | inl empty ↦ rw empty refl
    | inr named ↦ rw (named, bad) refl
  ]
