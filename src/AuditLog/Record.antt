-- ===== src/AuditLog/Record.antt =====
-- The audit record and its hash, of internal/auditlog/chain.go.
use flux_lens.Base.{ℕ, String, Option, none, some, [], ◌∷◌, if◌then◌else◌}
use flux_lens.Base.Json.{Json, nat, str, obj, object, encodable}

pub data Error : Type 0 where
  kind_required marshal_payload marshal_record : Error
  -- Of the database, with its text.
  insert_failed query_failed : String → Error

pub data Outcome {ℓ} (A : Type ℓ) : Type ℓ where
  ok : A → Outcome A
  err : Error → Outcome A

-- Times are in nanoseconds since Go's zero time.
pub record Record : Type 0 where
  pub sequence : ℕ
  pub timestamp : ℕ
  pub kind : String
  pub payload : Json
  pub prev_hash : String
  pub hash : String

-- The standard library's encoders: the text of a JSON value, a time in RFC 3339 with nanoseconds,
-- and SHA-256 in hexadecimal. Every theorem holds for any three such functions.
pub record Encoding : Type 0 where
  pub json_text : Json → String
  pub rfc3339_nano : ℕ → String
  pub sha256_hex : String → String

module _ (enc : Encoding) where
  unfoldable pub hashable : Record → String → Json
  hashable r prev = obj (
      object (
        ("sequence", nat r.sequence)
        ∷ ("timestamp", str (enc.rfc3339_nano r.timestamp))
        ∷ ("kind", str r.kind)
        ∷ ("payload", r.payload)
        ∷ ("prev_hash", str prev)
        ∷ []))

  unfoldable pub canonical_bytes : Record → String → Option String
  unfolding hashable
  canonical_bytes r prev =
      let body = hashable r prev in if encodable body then some (enc.json_text body) else none

  unfoldable pub hash_of_bytes : Option String → Outcome String
  hash_of_bytes none = err marshal_record
  hash_of_bytes (some body) = ok (enc.sha256_hex body)

  unfoldable pub compute_hash_with_prev : Record → String → Outcome String
  unfolding hash_of_bytes
  compute_hash_with_prev r prev = hash_of_bytes (canonical_bytes r prev)

  unfoldable pub compute_hash : Record → Outcome String
  compute_hash r = compute_hash_with_prev r r.prev_hash
