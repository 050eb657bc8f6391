-- ===== src/AuditLog/Chain/Links.antt =====
-- VerifyRecords against the links that it checks.
use flux_lens.Base.{
  ℕ, String, ◌≡◌, refl, ◌↔◌, true, List, [], ◌∷◌, ◌++◌, arith, eq_iff, zero, suc, take, eq_refl,
}
use flux_lens.AuditLog.Record.{Outcome, ok, err, Record, Encoding, compute_hash_with_prev}
use flux_lens.AuditLog.Chain.{check, verify_from, verify_records}

-- The hash of the last record, or `prev` where there is none.
abbrev pub last_hash : String → List Record → String
last_hash prev [] = prev
last_hash prev (r ∷ rs) = last_hash r.hash rs

pub last_hash-append :
    (prev : String) (xs ys : List Record)
    → last_hash prev (xs ++ ys) ≡ last_hash (last_hash prev xs) ys
last_hash-append prev [] ys = refl
last_hash-append prev (x ∷ xs) ys = last_hash-append x.hash xs ys

module _ (enc : Encoding) where
  -- Each record names the hash before it, and has the hash that is computed from it.
  abbrev pub IsLinked : String → List Record → Type 0
  IsLinked prev [] = Unit
  IsLinked prev (r ∷ rs) =
      (r.prev_hash ≡ prev) × (compute_hash_with_prev enc r prev ≡ ok r.hash) × IsLinked r.hash rs

  pub IsLinked-append :
      (prev : String) (xs ys : List Record)
      → IsLinked prev xs
      → IsLinked (last_hash prev xs) ys
      → IsLinked prev (xs ++ ys)
  IsLinked-append prev [] ys h k = k
  IsLinked-append prev (x ∷ xs) ys h k = (h.0, h.1, IsLinked-append x.hash xs ys h.2 k)

  pub IsLinked-take :
      (prev : String) (n : ℕ) (xs : List Record) → IsLinked prev xs → IsLinked prev (take n xs)
  IsLinked-take prev zero xs h = tt
  IsLinked-take prev (suc n) [] h = tt
  IsLinked-take prev (suc n) (x ∷ xs) h = (h.0, h.1, IsLinked-take x.hash n xs h.2)

  check_sound :
      (r : Record) (prev : String) (computed : Outcome String) (rest : Outcome _)
      → check enc r prev computed rest ≡ ok true
      → (computed ≡ ok r.hash) × (r.prev_hash ≡ prev) × (rest ≡ ok true)
  unfolding check
  check_sound r prev (err e) rest h = cc
  check_sound r prev (ok expected) rest h =
      ground (arith, eq_iff r.hash expected, eq_iff r.prev_hash prev)

  check_complete :
      (r : Record) (prev : String) (computed : Outcome String) (rest : Outcome _)
      → computed ≡ ok r.hash
      → r.prev_hash ≡ prev
      → check enc r prev computed rest ≡ rest
  unfolding check
  check_complete r prev computed rest h k = rw (h, check, eq_refl, k, eq_refl)

  verify_from_sound :
      (prev : String) (rs : List Record) → verify_from enc prev rs ≡ ok true → IsLinked prev rs
  unfolding verify_from
  verify_from_sound prev [] h = tt
  verify_from_sound prev (r ∷ rs) h =
      let (computed, linked, rest) = check_sound r prev _ _ h in
      (linked, computed, verify_from_sound r.hash rs rest)

  verify_from_complete :
      (prev : String) (rs : List Record) → IsLinked prev rs → verify_from enc prev rs ≡ ok true
  unfolding verify_from
  verify_from_complete prev [] h = refl
  verify_from_complete prev (r ∷ rs) h =
      rw (check_complete r prev _ (verify_from enc r.hash rs) h.1 h.0)
        (verify_from_complete r.hash rs h.2)

  -- VerifyRecords answers true exactly when every record is linked to the one before it.
  pub verify_records_iff : (rs : List Record) → (verify_records enc rs ≡ ok true) ↔ IsLinked "" rs
  unfolding verify_records
  verify_records_iff rs = (verify_from_sound "" rs, verify_from_complete "" rs)
