-- ===== src/AuditLog/Tests.antt =====
-- Runs of the chain, and each theorem at a concrete log. The encoding prints the text of the last
-- field, which is the predecessor's hash, and its digest puts a mark before a text.
use Prim.Native.String
use flux_lens.Base.{
  ℕ, String, ◌≡◌, refl, sym, ◌∙◌, ◌⊎◌, true, some, List, [], ◌∷◌, arith, map, false,
}
use flux_lens.Base.Json.{Json, nat, str, obj, Fields, end, field, encodable}
use flux_lens.AuditLog.Record.{
  compute_hash_with_prev, Record, Encoding, ok, hashable, canonical_bytes, compute_hash,
}
use flux_lens.AuditLog.Chain.{Chain, new_chain, append, verify_records, verify}
use flux_lens.AuditLog.Chain.Invariant.{append_all, verify-append_all}
use flux_lens.AuditLog.Store.{IsLog, chain_store, chain_store-IsLog}
use flux_lens.Base.{◌↔◌}
use flux_lens.AuditLog.Chain.Links.{IsLinked, verify_records_iff}
use flux_lens.AuditLog.Chain.Tampering.{HasReadablePrev, SameLog, Collision, tampering_shows}

text_of : Json → String
text_of (str s) = s
text_of _ = ""

last_text : Fields → String
unfolding text_of
last_text end = ""
last_text (field k v end) = text_of v
last_text (field k v more) = last_text more

plain_text : Json → String
unfolding last_text
plain_text (obj fs) = last_text fs
plain_text v = text_of v

unfoldable pub plain : Encoding
unfolding plain_text
plain = record {
  json_text = plain_text;
  rfc3339_nano = λ t. "now";
  sha256_hex = λ s. String.◌++◌ "#" s;
}

run : Unit {0}
unfolding plain append verify_records compute_hash compute_hash_with_prev canonical_bytes hashable
    encodable append_all
run = tt

plain_bytes : (r : Record) (p text : String) → canonical_bytes plain r p ≡ some text → p ≡ text
unfolding plain canonical_bytes encodable
plain_bytes r p text h = ground arith

plain_readable : HasReadablePrev plain
plain_readable r s p q text h k = plain_bytes r p text h ∙ sym (plain_bytes s q text k)

abbrev two_calls : List (ℕ × String × Json)
two_calls = (5, "decision", nat 1) ∷ (9, "operator_action", str "x") ∷ []

two_hashes : (append_all plain two_calls new_chain).head_hash ≡ "##"
unfolding run
two_hashes = refl

abbrev two_records : Chain
unfolding run
two_records = append_all plain two_calls new_chain

verify_two : verify_records plain two_records.records ≡ ok true
unfolding run
verify_two = refl

-- A link changed in place, with the old hashes kept.
abbrev forge : Record → Record
forge r = record r { prev_hash = "other" }

verify_changed : verify_records plain (map forge two_records.records) ≡ ok false
unfolding run
verify_changed = refl

verify-append_all_example : verify plain (append_all plain two_calls new_chain) ≡ ok true
verify-append_all_example = verify-append_all plain two_calls

tampering_shows_example :
    SameLog plain "" "" two_records.records two_records.records ⊎ Collision plain
tampering_shows_example =
    tampering_shows plain two_records.records two_records.records plain_readable verify_two
      verify_two refl refl

chain_store-IsLog_example : IsLog (chain_store plain)
chain_store-IsLog_example = chain_store-IsLog plain

verify_records_iff_example :
    (verify_records plain two_records.records ≡ ok true) ↔ IsLinked plain "" two_records.records
verify_records_iff_example = verify_records_iff plain two_records.records
