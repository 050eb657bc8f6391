-- ===== src/Orchestrator/Audited.antt =====
-- What Decide leaves in the audit log.
pub mod Memory
pub mod Actions
use Prim.Native.String.{◌++◌ as join}
use mathlib.Core.Path.{subst}
use flux_lens.Base.{
  ℕ, String, Bool, true, false, not, ◌≡◌, ◌≢◌, ◌⊎◌, ◌↔◌, refl, sym, ◌∙◌, ap, inl, inr, Option, none,
  some, List, [], ◌∷◌, ◌++◌, arith, eq_iff, ◌==◌, if◌then◌else◌, Bool-cases, ◌&&◌,
}
use flux_lens.Base.Float.{Float64, fin, is_finite}
use flux_lens.Base.Json.{Json, str, encodable, encodable_items, encodable_fields, texts, object}
use flux_lens.Base.Pattern.{CaseTables}
use flux_lens.AuditLog.Record.{Record, Encoding, Outcome, ok, err}
use flux_lens.AuditLog.Store.{Store, IsLog, chain_store}
use flux_lens.AuditLog.Chain.{Chain}
use flux_lens.AuditLog.Chain.Invariant.{append_succeeds, append_fails, stored}
use flux_lens.Canonical.{Event}
use flux_lens.Llm.{Provider, DecisionResponse}
use flux_lens.Orchestrator.{
  Orchestrator, Decision, Decided, decided, Surroundings, audit, hash_or_empty, response_of,
  response_json, reasons_field,
}
use flux_lens.Orchestrator.Decide.{
  decide, refusal, failure, rejection, decision_payload, is_action, action_payload, Recorded,
  recorded, invalid_action, record_operator_action,
}
use flux_lens.Orchestrator.Branches.{
  IsBranch, rejected_input, provider_error, rejected_output, pass, TakesBranch,
}
use flux_lens.Orchestrator.Safety.{decide_lem}

-- The kind of the record for each status of a decision, `passed` where it passed.
unfoldable pub kind_of : String → String → String
kind_of passed status = if status == "pass" then passed else join "decision_" status

-- The record `rec` is what the log gained, and the decision points to it.
pub record IsAudited {S : Type 0} (chain : Store S) (around : Surroundings S) (passed : String)
    (s s' : S) (d : Decision) (rec : Record) : Type 0 where
  pub grown : chain.snapshot s' ≡ chain.snapshot (around.between (around.before s)) ++ rec ∷ []
  pub kind : rec.kind ≡ kind_of passed d.guardrails
  pub hashed : rec.hash ≡ d.audit_chain_hash
  pub prev : d.audit_chain_prev ≡ chain.head_hash (around.before s)
  pub linked : rec.prev_hash ≡ chain.head_hash (around.between (around.before s))
  pub head : chain.head_hash s' ≡ rec.hash

-- The log gained nothing, and the decision has no hash.
pub record IsUnaudited {S : Type 0} (chain : Store S) (around : Surroundings S) (s s' : S)
    (d : Decision) : Type 0 where
  pub unchanged : chain.snapshot s' ≡ chain.snapshot (around.between (around.before s))
  pub unhashed : d.audit_chain_hash ≡ ""

module _ {S : Type 0} (tables : CaseTables) (enc : Encoding) (around : Surroundings S)
    (o : Orchestrator S) (log : IsLog o.chain) where
  -- The decision that was audited with the record that Append returned.
  pub audit_stored :
      (passed kind : String) (payload : Json) (dec : Decision) (s : S) (rec : Record)
      → kind ≡ kind_of passed dec.guardrails
      → (o.chain.append around.clock kind payload (around.between (around.before s))).1 ≡ ok rec
      → IsAudited o.chain around passed s
          (audit around o.chain kind payload dec s).0
          (audit around o.chain kind payload dec s).1
          rec
  unfolding audit hash_or_empty
  audit_stored passed kind payload dec s rec k h =
      let (kinds, payloads, prevs, heads) =
        log.describes around.clock kind payload (around.between (around.before s)) rec h in
      record {
        grown = log.grows around.clock kind payload (around.between (around.before s)) rec h;
        kind = kinds ∙ k;
        hashed = rw (h, hash_or_empty);
        prev = refl;
        linked = prevs;
        head = heads;
      }

  pub audit_log :
      (passed kind : String) (payload : Json) (dec : Decision) (s : S) (result : Outcome Record)
      → kind ≡ kind_of passed dec.guardrails
      → (o.chain.append around.clock kind payload (around.between (around.before s))).1 ≡ result
      → ((rec : Record) × IsAudited o.chain around passed s
            (audit around o.chain kind payload dec s).0
            (audit around o.chain kind payload dec s).1
            rec)
        ⊎ IsUnaudited o.chain around s
            (audit around o.chain kind payload dec s).0
            (audit around o.chain kind payload dec s).1
  unfolding audit hash_or_empty
  audit_log passed kind payload dec s (err e) k h = inr (record {
    unchanged = log.stays around.clock kind payload (around.between (around.before s)) e h;
    unhashed = rw (h, hash_or_empty);
  })
  audit_log passed kind payload dec s (ok rec) k h =
      inl (rec, audit_stored passed kind payload dec s rec k h)

  pub branch_kind :
      (p : Provider) (e : Event) (instruction kind : String) (payload : Json) (dec : Decision)
      → IsBranch tables enc around o p e instruction kind payload dec
      → kind ≡ kind_of "decision" dec.guardrails
  unfolding kind_of
  branch_kind p e instruction _ _ _ (rejected_input reason i) = refl
  branch_kind p e instruction _ _ _ (provider_error detail i a) = refl
  branch_kind p e instruction _ _ _ (rejected_output r reason i a v) = refl
  branch_kind p e instruction _ _ _ (pass r i a v) = refl

  -- Decide, on any store that keeps the log's promises, whatever became of the decision: either the log
  -- gained one record, of the kind that goes with the decision's status, with the hash that the
  -- decision reports, linked to the head at that time; or it gained none, and the decision reports no hash.
  pub decide-IsAudited :
      (e : Event) (instruction : String) (s s' : S) (d : Decision)
      → decide tables enc around o e instruction s ≡ (s', decided d)
      → ((rec : Record) × IsAudited o.chain around "decision" s s' d rec)
        ⊎ IsUnaudited o.chain around s s' d
  unfolding TakesBranch
  decide-IsAudited e instruction s s' d h =
      let (p, _, _, (kind, payload, dec, branch, run)) =
        decide_lem tables enc around o e instruction s s' d h in
      subst
        (λ (x : S × Decision).
          ((rec : Record) × IsAudited o.chain around "decision" s x.0 x.1 rec)
          ⊎ IsUnaudited o.chain around s x.0 x.1)
        (sym run)
        (audit_log "decision" kind payload dec s _
          (branch_kind p e instruction kind payload dec branch) refl)
