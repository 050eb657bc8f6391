-- ===== src/Orchestrator/Audited/Memory.antt =====
-- Decide on the in-memory chain, where an append fails only when the payload does not encode.
use mathlib.Core.Path.{subst}
use flux_lens.Base.{
  String, Bool, true, false, ◌≡◌, ◌≢◌, refl, sym, ap, ◌∙◌, Option, none, some, List, [], ◌∷◌, arith,
  eq_iff, ◌&&◌, ne→==-false,
}
use flux_lens.Base.Float.{nan, lt_f, f_one, is_finite}
use flux_lens.Base.Json.{Json, encodable, encodable_items, encodable_fields, texts, object}
use flux_lens.Base.Pattern.{CaseTables}
use flux_lens.AuditLog.Record.{Record, Encoding, Outcome, err, marshal_payload}
use flux_lens.AuditLog.Store.{chain_store, chain_store-IsLog}
use flux_lens.AuditLog.Chain.{Chain, append}
use flux_lens.AuditLog.Chain.Invariant.{append_succeeds, stored}
use flux_lens.Canonical.{Event, validate}
use flux_lens.Llm.{Provider, DecisionResponse, answered}
use flux_lens.Orchestrator.{
  Orchestrator, Decision, decided, Surroundings, audit, hash_or_empty, response_of, response_json,
  reasons_field,
}
use flux_lens.Orchestrator.Guards.{Guardrails, Response, validate_output, first_error}
use flux_lens.Orchestrator.Decide.{
  decide, draft, refusal, failure, rejection, decision_payload, wrap, decide_with, decide_valid,
  after_input, after_reply, after_output,
}
use flux_lens.Orchestrator.Branches.{
  IsBranch, rejected_input, provider_error, rejected_output, pass, TakesBranch, request,
  checked_input, hash_of_prompt,
}
use flux_lens.Orchestrator.Safety.{decide_lem}
use flux_lens.Orchestrator.Audited.{IsAudited, audit_stored, branch_kind}

encodable-texts : (xs : List String) → encodable_items (texts xs) ≡ true
unfolding encodable_items encodable
encodable-texts [] = refl
encodable-texts (x ∷ xs) = encodable-texts xs

encodable-reasons : (xs : List String) → encodable_fields (object (reasons_field xs)) ≡ true
unfolding encodable_fields encodable reasons_field
encodable-reasons [] = refl
encodable-reasons (x ∷ xs) = rw (encodable-texts (x ∷ xs))

encodable-response : (r : Response) → encodable (response_json r) ≡ is_finite r.confidence
unfolding response_json encodable
encodable-response r = rw (encodable-reasons r.reasons) (and_true (is_finite r.confidence))
  where
    and_true : (b : Bool) → (b && true) ≡ b
    and_true true = refl
    and_true false = refl

module _ (tables : CaseTables) (enc : Encoding) (around : Surroundings Chain)
    (o : Orchestrator Chain) where
  branch-encodable :
      (p : Provider) (e : Event) (instruction kind : String) (payload : Json) (dec : Decision)
      → IsBranch tables enc around o p e instruction kind payload dec
      → is_finite dec.response.confidence ≡ true
      → (encodable payload ≡ true) × (kind ≢ "")
  unfolding refusal failure rejection decision_payload encodable
  branch-encodable p e instruction _ _ _ (rejected_input reason i) f =
      (refl, λ k. ground (arith, eq_iff "decision_rejected_input" ""))
  branch-encodable p e instruction _ _ _ (provider_error detail i a) f =
      (refl, λ k. ground (arith, eq_iff "decision_provider_error" ""))
  branch-encodable p e instruction _ _ _ (rejected_output r reason i a v) f = (
    rw (encodable-response (response_of r), f),
    λ k. ground (arith, eq_iff "decision_rejected_output" ""),
  )
  branch-encodable p e instruction _ _ _ (pass r i a v) f =
      (rw (encodable-response (response_of r), f), λ k. ground (arith, eq_iff "decision" ""))

-- The orchestrator over the in-memory chain.
abbrev pub in_memory : Encoding → Option Provider → Guardrails → String → Orchestrator Chain
in_memory enc provider guardrails tenant = record {
  provider = provider;
  guardrails = guardrails;
  chain = chain_store enc;
  tenant = tenant;
}

module _ (tables : CaseTables) (enc : Encoding) (around : Surroundings Chain)
    (provider : Option Provider) (guardrails : Guardrails) (tenant : String) where
  -- On the in-memory chain, every decision of Decide with a finite confidence is audited: the log gains one
  -- record, and the decision reports its hash.
  pub decide_memory :
      (e : Event) (instruction : String) (s s' : Chain) (d : Decision)
      → decide tables enc around (in_memory enc provider guardrails tenant) e instruction s
        ≡ (s', decided d)
      → is_finite d.response.confidence ≡ true
      → (rec : Record) × IsAudited (chain_store enc) around "decision" s s' d rec
  unfolding TakesBranch audit
  decide_memory e instruction s s' d h f =
      let o = in_memory enc provider guardrails tenant in
      let (p, _, _, (kind, payload, dec, branch, run)) =
        decide_lem tables enc around o e instruction s s' d h in
      let same : d.response ≡ dec.response = ap (λ (x : Chain × Decision). x.1.response) run in
      let (fine, named) =
        branch-encodable tables enc around o p e instruction kind payload dec branch
          (ap (λ (r : Response). is_finite r.confidence) (sym same) ∙ f) in
      let rec = stored enc around.clock kind payload (around.between (around.before s)) in
      (
        rec,
        subst
            (λ (x : Chain × Decision). IsAudited (chain_store enc) around "decision" s x.0 x.1 rec)
            (sym run)
            (audit_stored tables enc around o (chain_store-IsLog enc) "decision" kind payload dec s
              rec
              (branch_kind tables enc around o (chain_store-IsLog enc) p e instruction kind payload
                dec branch)
              (ap (λ (x : Chain × Outcome Record). x.1)
                (append_succeeds enc around.clock kind payload (around.between (around.before s))
                  named fine))),
      )

  accepts_nan :
      (r : DecisionResponse)
      → r.confidence ≡ nan
      → r.classification ≢ ""
      → guardrails.output_validators ≡ []
      → validate_output guardrails (response_of r) ≡ none
  unfolding validate_output lt_f first_error f_one
  accepts_nan r c k v = rw (ne→==-false r.classification "" k, c, validate_output, v) refl

  append_nan :
      (p : Provider) (e : Event) (hash : String) (r : DecisionResponse) (c : Chain)
      → r.confidence ≡ nan
      → append enc around.clock "decision"
          (decision_payload tables enc around
            (in_memory enc provider guardrails tenant)
            p
            e
            hash
            (response_of r))
          c
        ≡ (c, err marshal_payload)
  unfolding append decision_payload encodable
  append_nan p e hash r c h = rw (encodable-response (response_of r), h)

  -- For a valid event whose prompt passes the input checks, and without output validators, a response
  -- with a classification and a confidence that is not a number passes the guardrails: Decide returns
  -- a decision with the status "pass" and no hash, and the log stays as it is, since the payload does
  -- not encode and the error is dropped.
  pub decide_unaudited :
      (p : Provider) (e : Event) (instruction : String) (r : DecisionResponse) (s : Chain)
      → provider ≡ some p
      → validate e ≡ none
      → checked_input tables enc around (in_memory enc provider guardrails tenant) p e instruction
        ≡ none
      → p.decide
          (request tables enc around (in_memory enc provider guardrails tenant) p e instruction)
        ≡ answered r
      → r.confidence ≡ nan
      → r.classification ≢ ""
      → guardrails.output_validators ≡ []
      → (d : Decision) × (decide tables enc around
            (in_memory enc provider guardrails tenant)
            e
            instruction
            s
          ≡ (around.between (around.before s), decided d))
        × (d.guardrails ≡ "pass")
        × (d.operator_review ≡ r.requires_review)
        × (d.audit_chain_hash ≡ "")
  unfolding decide decide_with decide_valid wrap after_input after_reply after_output audit
      hash_or_empty
  decide_unaudited p e instruction r s hp he hi ha hc hk hv =
      let o = in_memory enc provider guardrails tenant in
      let hash = hash_of_prompt tables enc around o p e instruction in
      (
        record (draft p e hash (response_of r) "pass" r.requires_review) {
          audit_chain_prev = (around.before s).head_hash;
        },
        rw
            (
              hp,
              he,
              hi,
              ha,
              accepts_nan r hc hk hv,
              append_nan p e hash r (around.between (around.before s)) hc,
            )
            refl,
        refl,
        refl,
        refl,
      )
