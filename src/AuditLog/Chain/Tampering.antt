-- ===== src/AuditLog/Chain/Tampering.antt =====
-- What the hash chain detects, and what it does not.
use flux_lens.Base.{
  ℕ, String, ◌≡◌, refl, sym, ap, ◌∙◌, ◌≢◌, ◌⊎◌, inl, inr, true, none, Option, some, List, [], ◌∷◌,
  arith, length, take, text_cases, ==-false→ne,
}
use flux_lens.AuditLog.Record.{
  ok, Record, Encoding, canonical_bytes, hash_of_bytes, compute_hash_with_prev,
}
use flux_lens.AuditLog.Chain.{verify_records}
use flux_lens.AuditLog.Chain.Links.{last_hash, IsLinked, IsLinked-take, verify_records_iff}

module _ (enc : Encoding) where
  -- Two texts with one SHA-256.
  pub record Collision : Type 0 where
    pub left : String
    pub right : String
    pub differ : left ≢ right
    pub same : enc.sha256_hex left ≡ enc.sha256_hex right

  -- The hashed text determines the predecessor's hash that went into it: a decoder reads the field
  -- "prev_hash" back.
  abbrev pub HasReadablePrev : Type 0
  HasReadablePrev =
      (r s : Record) (p q text : String)
      → canonical_bytes enc r p ≡ some text
      → canonical_bytes enc s q ≡ some text
      → p ≡ q

  -- Two logs agree on all that is hashed, on the links, and on the hashes.
  abbrev pub SameLog : String → String → List Record → List Record → Type 0
  SameLog p q [] [] = Unit
  SameLog p q (r ∷ rs) (s ∷ ss) =
      (canonical_bytes enc r p ≡ canonical_bytes enc s q)
      × (r.prev_hash ≡ s.prev_hash)
      × (r.hash ≡ s.hash)
      × SameLog r.hash s.hash rs ss
  SameLog p q _ _ = ⊥

  pub same_bytes :
      (a b : Option String) (h k : String)
      → hash_of_bytes enc a ≡ ok h
      → hash_of_bytes enc b ≡ ok k
      → h ≡ k
      → ((text : String) × (a ≡ some text) × (b ≡ some text)) ⊎ Collision
  unfolding hash_of_bytes
  same_bytes none b h k p q e = cc
  same_bytes (some a) none h k p q e = cc
  same_bytes (some a) (some b) h k p q e = elim (text_cases a b) [
    | inl same ↦ inl (b, ap some same, refl)
    | inr other ↦ inr (record { left = a; right = b; differ = ==-false→ne a b other; same = cc })
  ]

  agree :
      HasReadablePrev
      → (p q : String) (rs ss : List Record) → length rs ≡ length ss
      → last_hash p rs ≡ last_hash q ss
      → IsLinked enc p rs
      → IsLinked enc q ss
      → ((p ≡ q) × SameLog p q rs ss) ⊎ Collision
  unfolding compute_hash_with_prev
  agree back p q [] [] l e h k = inl (e, tt)
  agree back p q [] (s ∷ ss) l e h k = absurd (omega arith)
  agree back p q (r ∷ rs) [] l e h k = absurd (omega arith)
  agree back p q (r ∷ rs) (s ∷ ss) l e h k =
      elim (agree back r.hash s.hash rs ss (omega arith) e h.2 k.2) [
        | inr found ↦ inr found
        | inl later ↦ elim (same_bytes _ _ r.hash s.hash h.1 k.1 later.0) [
          | inr found ↦ inr found
          | inl (text, left, right) ↦
              let start = back r s p q text left right in
              inl (start, (left ∙ sym right, h.0 ∙ start ∙ sym k.0, later.0, later.1))
        ]
      ]

  -- Two logs that VerifyRecords accepts, of one length and with the same last hash, agree in every
  -- hashed text, link and hash, or they exhibit two texts with one SHA-256. It is assumed that
  -- the hashed text determines its field "prev_hash".
  pub tampering_shows :
      (rs ss : List Record)
      → HasReadablePrev
      → verify_records enc rs ≡ ok true
      → verify_records enc ss ≡ ok true
      → length rs ≡ length ss
      → last_hash "" rs ≡ last_hash "" ss
      → SameLog "" "" rs ss ⊎ Collision
  tampering_shows rs ss back h k l e =
      elim (agree back "" "" rs ss l e ((verify_records_iff enc rs).0 h)
        ((verify_records_iff enc ss).0 k)) [ inl same ↦ inl same.1 | inr found ↦ inr found ]

  -- Cutting records off the end of an accepted log, any number of them, leaves an accepted log.
  pub truncation_hides :
      (rs : List Record) (n : ℕ)
      → verify_records enc rs ≡ ok true
      → verify_records enc (take n rs) ≡ ok true
  truncation_hides rs n h =
      (verify_records_iff enc (take n rs)).1
        (IsLinked-take enc "" n rs ((verify_records_iff enc rs).0 h))
