-- ===== src/AuditLog/Chain/Invariant.antt =====
-- Append: its invariant, and what it does on each branch.
use Prim.Native.Nat.{◌^◌}
use flux_lens.Base.{
  text_cases, Bool-cases, inl, inr, ◌⊎◌, ==-false→ne, ℕ, suc, ◌+◌, ◌%◌, String, ◌≡◌, refl, sym, ◌∙◌,
  ◌≢◌, true, false, List, [], ◌∷◌, ◌++◌, arith, eq_iff, length, length-append, ne→==-false,
}
use flux_lens.Base.Json.{Json, encodable}
use flux_lens.AuditLog.Record.{
  Error, hashable, Outcome, ok, err, kind_required, marshal_payload, Record, Encoding,
  canonical_bytes, compute_hash_with_prev, compute_hash,
}
use flux_lens.AuditLog.Chain.{Chain, new_chain, next, draft, commit, append, verify}
use flux_lens.AuditLog.Chain.Links.{
  last_hash, last_hash-append, IsLinked, IsLinked-append, verify_records_iff,
}

-- Records are numbered in order, modulo 2^64.
abbrev pub IsNumbered : ℕ → List Record → Type 0
IsNumbered n [] = Unit
IsNumbered n (r ∷ rs) = (r.sequence ≡ n % 2 ^ 64) × IsNumbered (suc n) rs

IsNumbered-append :
    (n : ℕ) (xs : List Record) (r : Record)
    → IsNumbered n xs
    → r.sequence ≡ (n + length xs) % 2 ^ 64
    → IsNumbered n (xs ++ r ∷ [])
IsNumbered-append n [] r h e = (omega arith, tt)
IsNumbered-append n (x ∷ xs) r h e = (h.0, IsNumbered-append (suc n) xs r h.1 (omega arith))

pub record IsValid (enc : Encoding) (c : Chain) : Type 0 where
  pub linked : IsLinked enc "" c.records
  pub head : c.head_hash ≡ last_hash "" c.records
  pub numbered : IsNumbered 0 c.records
  pub counted : c.next_seq ≡ length c.records % 2 ^ 64

pub new_chain-IsValid : (enc : Encoding) → IsValid enc new_chain
new_chain-IsValid enc = record { linked = tt; head = refl; numbered = tt; counted = omega arith }

module _ (enc : Encoding) where
  -- The hash does not look at the hash field of the record that it is computed for.
  pub hash_ignores_hash :
      (r : Record) (h prev : String)
      → compute_hash_with_prev enc (record r { hash = h }) prev ≡ compute_hash_with_prev enc r prev
  unfolding compute_hash_with_prev canonical_bytes
  hash_ignores_hash r h prev = refl

  commit-IsValid :
      (now : ℕ) (kind : String) (payload : Json) (c : Chain) (o : Outcome String)
      → compute_hash enc (draft now kind payload c) ≡ o
      → IsValid enc c
      → IsValid enc (commit enc (draft now kind payload c) o c).0
  unfolding commit compute_hash
  commit-IsValid now kind payload c (err e) h v = v
  commit-IsValid now kind payload c (ok digest) h v =
      let stored = record (draft now kind payload c) { hash = digest } in
      record {
        linked = IsLinked-append enc "" c.records (stored ∷ []) v.linked (
          v.head,
          (rw (← v.head) (hash_ignores_hash (draft now kind payload c) digest c.head_hash ∙ h)),
          tt,
        );
        head = sym (last_hash-append "" c.records (stored ∷ []));
        numbered = IsNumbered-append 0 c.records stored v.numbered (v.counted ∙ omega arith);
        counted = omega (arith, v.counted, length-append c.records (stored ∷ []));
      }

  -- Append keeps the chain valid, whether it stores a record or fails.
  pub append-IsValid :
      (now : ℕ) (kind : String) (payload : Json) (c : Chain)
      → IsValid enc c
      → IsValid enc (append enc now kind payload c).0
  unfolding append
  append-IsValid now kind payload c v = ground (
    arith,
    commit-IsValid now kind payload c (compute_hash enc (draft now kind payload c)) refl v,
  )

  unfoldable pub append_all : List (ℕ × String × Json) → Chain → Chain
  append_all [] c = c
  append_all ((now, kind, payload) ∷ more) c = append_all more (append enc now kind payload c).0

  append_all-IsValid :
      (calls : List (ℕ × String × Json)) (c : Chain)
      → IsValid enc c
      → IsValid enc (append_all calls c)
  unfolding append_all
  append_all-IsValid [] c v = v
  append_all-IsValid ((now, kind, payload) ∷ more) c v =
      append_all-IsValid more _ (append-IsValid now kind payload c v)

  -- Whatever is appended to a fresh chain, and whatever fails to be, Verify answers true.
  pub verify-append_all :
      (calls : List (ℕ × String × Json)) → verify enc (append_all calls new_chain) ≡ ok true
  unfolding verify
  verify-append_all calls =
      (verify_records_iff enc _).1
        (append_all-IsValid calls new_chain (new_chain-IsValid enc)).linked

  commit_lem :
      (rec : Record) (o : Outcome String) (c : Chain) (h : String)
      → o ≡ ok h
      → commit enc rec o c ≡ (
        record {
          records = c.records ++ record rec { hash = h } ∷ [];
          head_hash = h;
          next_seq = next c.next_seq;
        },
        ok (record rec { hash = h }),
      )
  unfolding commit
  commit_lem rec o c h e = rw (e, commit)

  -- The record that Append stores.
  abbrev pub stored : ℕ → String → Json → Chain → Record
  stored now kind payload c = record (draft now kind payload c) {
    hash = enc.sha256_hex (enc.json_text (hashable enc (draft now kind payload c) c.head_hash));
  }

  hash_known :
      (now : ℕ) (kind : String) (payload : Json) (c : Chain)
      → encodable payload ≡ true
      → compute_hash enc (draft now kind payload c) ≡ ok (stored now kind payload c).hash
  unfolding compute_hash compute_hash_with_prev canonical_bytes encodable
  hash_known now kind payload c h = ground arith

  -- With a kind and a payload that encodes, Append cannot fail: it stores one record, at the end.
  pub append_succeeds :
      (now : ℕ) (kind : String) (payload : Json) (c : Chain)
      → kind ≢ ""
      → encodable payload ≡ true
      → append enc now kind payload c ≡ (
        record {
          records = c.records ++ stored now kind payload c ∷ [];
          head_hash = (stored now kind payload c).hash;
          next_seq = (c.next_seq + 1) % 2 ^ 64;
        },
        ok (stored now kind payload c),
      )
  unfolding append
  append_succeeds now kind payload c h k =
      rw (ne→==-false kind "" h, k)
        (commit_lem (draft now kind payload c) _ c _ (hash_known now kind payload c k))

  -- When Append fails the chain is as before, and either the kind was empty or the payload does
  -- not encode.
  pub append_fails :
      (now : ℕ) (kind : String) (payload : Json) (c : Chain) (e : Error)
      → (append enc now kind payload c).1 ≡ err e
      → ((append enc now kind payload c).0 ≡ c)
        × (((e ≡ kind_required) × (kind ≡ ""))
            ⊎ ((e ≡ marshal_payload) × (encodable payload ≡ false)))
  append_fails now kind payload c e h = elim (text_cases kind "") [
    | inl empty ↦ unfold append in ground (arith, eq_iff kind "")
    | inr some_kind ↦ elim (Bool-cases (encodable payload)) [
      | inl fine ↦ cc (append_succeeds now kind payload c (==-false→ne kind "" some_kind) fine)
      | inr bad ↦ unfold append in ground (arith, eq_iff kind "")
    ]
  ]

  -- Every record that Append returns stands at the end of the chain, and its fields are the
  -- call's.
  pub append_stores :
      (now : ℕ) (kind : String) (payload : Json) (c : Chain) (rec : Record)
      → (append enc now kind payload c).1 ≡ ok rec
      → ((append enc now kind payload c).0.records ≡ c.records ++ rec ∷ [])
        × ((rec.kind ≡ kind)
            × (rec.payload ≡ payload)
            × (rec.prev_hash ≡ c.head_hash)
            × ((append enc now kind payload c).0.head_hash ≡ rec.hash))
  append_stores now kind payload c rec h = elim (text_cases kind "") [
    | inl empty ↦ unfold append in ground (arith, eq_iff kind "")
    | inr some_kind ↦ elim (Bool-cases (encodable payload)) [
      | inl fine ↦
          let run = append_succeeds now kind payload c (==-false→ne kind "" some_kind) fine in
          ground (arith, run)
      | inr bad ↦ unfold append in ground (arith, eq_iff kind "")
    ]
  ]
