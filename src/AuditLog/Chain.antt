-- ===== src/AuditLog/Chain.antt =====
-- The in-memory chain of internal/auditlog/chain.go. Each method holds the mutex throughout, so a
-- method is one step on the state; `now` is what time.Now() returns.
pub mod Links
pub mod Invariant
pub mod Adds
pub mod Tampering
use Prim.Native.Nat.{◌^◌}
use flux_lens.Base.{
  ℕ, ◌+◌, ◌%◌, String, Bool, true, false, not, List, [], ◌∷◌, ◌++◌, ◌==◌, if◌then◌else◌, length,
}
use flux_lens.Base.Json.{Json, encodable}
use flux_lens.AuditLog.Record.{
  Error, kind_required, marshal_payload, Outcome, ok, err, Record, Encoding, compute_hash,
  compute_hash_with_prev,
}

pub record Chain : Type 0 where
  pub records : List Record
  pub head_hash : String
  pub next_seq : ℕ

abbrev pub new_chain : Chain
new_chain = record { records = []; head_hash = ""; next_seq = 0 }

-- `nextSeq++` on a uint64
abbrev pub next : ℕ → ℕ
next n = (n + 1) % 2 ^ 64

-- The record that Append builds before it is hashed.
abbrev pub draft : ℕ → String → Json → Chain → Record
draft now kind payload c = record {
  sequence = c.next_seq;
  timestamp = now;
  kind = kind;
  payload = payload;
  prev_hash = c.head_hash;
  hash = "";
}

module _ (enc : Encoding) where
  -- The end of Append, once the hash is known or has failed.
  unfoldable pub commit : Record → Outcome String → Chain → Chain × Outcome Record
  commit rec (err e) c = (c, err e)
  commit rec (ok h) c =
      let stored = record rec { hash = h } in
      (
        record { records = c.records ++ stored ∷ []; head_hash = h; next_seq = next c.next_seq },
        ok stored,
      )

  unfoldable pub append : ℕ → String → Json → Chain → Chain × Outcome Record
  unfolding commit
  append now kind payload c =
      if kind == ""
      then (c, err kind_required)
      else if not (encodable payload)
      then (c, err marshal_payload)
      else (let rec = draft now kind payload c in commit rec (compute_hash enc rec) c)

  -- One round of the loop of VerifyRecords, with what the remaining rounds return.
  check : Record → String → Outcome String → Outcome Bool → Outcome Bool
  check r prev (err e) rest = err e
  check r prev (ok expected) rest =
      if not (r.hash == expected)
      then ok false
      else if not (r.prev_hash == prev)
      then ok false
      else rest

  verify_from : String → List Record → Outcome Bool
  verify_from prev [] = ok true
  verify_from prev (r ∷ rs) =
      check r prev (compute_hash_with_prev enc r prev) (verify_from r.hash rs)

  unfoldable pub verify_records : List Record → Outcome Bool
  unfolding verify_from check
  verify_records rs = verify_from "" rs

  unfoldable pub verify : Chain → Outcome Bool
  unfolding verify_records
  verify c = verify_records c.records

unfoldable pub len : Chain → ℕ
len c = length c.records

abbrev pub snapshot : Chain → List Record
snapshot c = c.records
