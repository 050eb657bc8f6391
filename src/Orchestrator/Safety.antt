-- ===== src/Orchestrator/Safety.antt =====
-- What a decision has passed, and when an operator must look at it.
use mathlib.Core.Path.{subst}
use flux_lens.Base.{
  String, true, false, ◌≡◌, ◌≢◌, refl, sym, ◌∙◌, ap, inl, inr, Option, none, some, List, [], ◌∷◌,
  arith, eq_iff, All, Option-cases,
}
use flux_lens.Base.Float.{lt_f, f_zero, f_one}
use flux_lens.Base.Json.{Json}
use flux_lens.Base.Pattern.{CaseTables}
use flux_lens.AuditLog.Record.{Encoding}
use flux_lens.Canonical.{Event, EventError, validate}
use flux_lens.Llm.{Provider}
use flux_lens.Orchestrator.{Orchestrator, Decision, decided, Surroundings, audit, response_of}
use flux_lens.Orchestrator.Guards.{Guardrails, Response, first_error, validate_output}
use flux_lens.Orchestrator.Decide.{wrap, decide_with, decide_valid, decide}
use flux_lens.Orchestrator.Branches.{
  IsBranch, rejected_input, provider_error, rejected_output, pass, TakesBranch, decide_branches,
}

first_error-none :
    {A : Type 0} (vs : List (A → Option String)) (x : A)
    → first_error vs x ≡ none
    → All (λ v. v x ≡ none) vs
unfolding first_error
first_error-none [] x h = tt
first_error-none (v ∷ vs) x h = elim (Option-cases (v x)) [
  | inl fine ↦ (fine, first_error-none vs x (rw (fine, first_error) at h))
  | inr (e, bad) ↦ absurd (clash (rw (bad, first_error) at h))
]
  where
    clash : {e : String} → some e ≡ none → ⊥
    clash h = cc

-- What ValidateOutput lets through.
pub record IsAccepted (g : Guardrails) (r : Response) : Type 0 where
  pub classified : r.classification ≢ ""
  pub not_below : lt_f r.confidence f_zero ≡ false
  pub not_above : lt_f f_one r.confidence ≡ false
  pub flagged : lt_f r.confidence g.min_confidence ≡ true → r.requires_review ≡ true
  pub approved : All (λ v. v r ≡ none) g.output_validators

pub validate_output-IsAccepted :
    (g : Guardrails) (r : Response) → validate_output g r ≡ none → IsAccepted g r
unfolding validate_output
validate_output-IsAccepted g r h = record {
  classified = ground (arith, eq_iff r.classification "");
  not_below = ground arith;
  not_above = ground arith;
  flagged = λ low. ground arith;
  approved = first_error-none g.output_validators r (ground arith);
}

module _ {S : Type 0} (tables : CaseTables) (enc : Encoding) (around : Surroundings S)
    (o : Orchestrator S) where
  unwrap :
      (x : S × Decision) (s : S) (d : Decision)
      → wrap tables enc around o x ≡ (s, decided d)
      → x ≡ (s, d)
  unfolding wrap
  unwrap (t, c) s d h = ground arith

  with_provider :
      (po : Option Provider) (invalid : Option EventError) (e : Event) (instruction : String)
      (s s' : S) (d : Decision)
      → decide_with tables enc around o po invalid e instruction s ≡ (s', decided d)
      → (p : Provider) × (po ≡ some p)
        × (invalid ≡ none)
        × (decide_valid tables enc around o p e instruction s ≡ (s', d))
  unfolding decide_with
  with_provider none invalid e instruction s s' d h = cc
  with_provider (some p) (some reason) e instruction s s' d h = cc
  with_provider (some p) none e instruction s s' d h = (p, refl, refl, unwrap _ s' d h)

  -- A decision came from a provider, on a valid event, along one of the four branches.
  pub decide_lem :
      (e : Event) (instruction : String) (s s' : S) (d : Decision)
      → decide tables enc around o e instruction s ≡ (s', decided d)
      → (p : Provider) × (o.provider ≡ some p)
        × (validate e ≡ none)
        × TakesBranch tables enc around o p e instruction s (s', d)
  unfolding decide
  decide_lem e instruction s s' d h =
      let (p, there, valid, run) = with_provider o.provider (validate e) e instruction s s' d h in
      (
        p,
        there,
        valid,
        subst (TakesBranch tables enc around o p e instruction s) run
            (decide_branches tables enc around o p e instruction s),
      )

  -- Auditing changes the two hashes only.
  pub audited_fields :
      (kind : String) (payload : Json) (dec d : Decision) (s s' : S)
      → (s', d) ≡ audit around o.chain kind payload dec s
      → (d.response ≡ dec.response)
        × (d.guardrails ≡ dec.guardrails)
        × (d.operator_review ≡ dec.operator_review)
  unfolding audit
  audited_fields kind payload dec d s s' h = (
    ap (λ (x : S × Decision). x.1.response) h,
    ap (λ (x : S × Decision). x.1.guardrails) h,
    ap (λ (x : S × Decision). x.1.operator_review) h,
  )

  branch_event :
      (p : Provider) (e : Event) (instruction kind : String) (payload : Json) (dec : Decision)
      → IsBranch tables enc around o p e instruction kind payload dec
      → dec.event_id ≡ e.event_id
  branch_event p e instruction _ _ _ (rejected_input reason i) = refl
  branch_event p e instruction _ _ _ (provider_error detail i a) = refl
  branch_event p e instruction _ _ _ (rejected_output r reason i a v) = refl
  branch_event p e instruction _ _ _ (pass r i a v) = refl

  -- A decision names its event.
  pub decide_event :
      (e : Event) (instruction : String) (s s' : S) (d : Decision)
      → decide tables enc around o e instruction s ≡ (s', decided d)
      → d.event_id ≡ e.event_id
  unfolding TakesBranch audit
  decide_event e instruction s s' d h =
      let (p, _, _, (kind, payload, dec, branch, run)) = decide_lem e instruction s s' d h in
      ap (λ (x : S × Decision). x.1.event_id) run
      ∙ branch_event p e instruction kind payload dec branch

  branch_safe :
      (p : Provider) (e : Event) (instruction kind : String) (payload : Json) (dec : Decision)
      → IsBranch tables enc around o p e instruction kind payload dec
      → dec.guardrails ≡ "pass"
      → IsAccepted o.guardrails dec.response × (dec.operator_review ≡ dec.response.requires_review)
  branch_safe p e instruction _ _ _ (rejected_input reason i) h =
      absurd (ground (arith, eq_iff "rejected_input" "pass"))
  branch_safe p e instruction _ _ _ (provider_error detail i a) h =
      absurd (ground (arith, eq_iff "provider_error" "pass"))
  branch_safe p e instruction _ _ _ (rejected_output r reason i a v) h =
      absurd (ground (arith, eq_iff "rejected_output" "pass"))
  branch_safe p e instruction _ _ _ (pass r i a v) h =
      (validate_output-IsAccepted o.guardrails (response_of r) v, refl)

  -- A decision of Decide that passed carries a response with a classification, with a confidence that is
  -- neither below 0 nor above 1, and that every registered output validator accepts; if the
  -- confidence is below the floor then an operator has to review the decision.
  pub decide_pass :
      (e : Event) (instruction : String) (s s' : S) (d : Decision)
      → decide tables enc around o e instruction s ≡ (s', decided d)
      → d.guardrails ≡ "pass"
      → IsAccepted o.guardrails d.response
        × (lt_f d.response.confidence o.guardrails.min_confidence ≡ true → d.operator_review ≡ true)
  unfolding TakesBranch
  decide_pass e instruction s s' d h g =
      let (p, _, _, (kind, payload, dec, branch, run)) = decide_lem e instruction s s' d h in
      let (same, status, review) = audited_fields kind payload dec d s s' run in
      let (good, asks) = branch_safe p e instruction kind payload dec branch (sym status ∙ g) in
      let accepted = subst (IsAccepted o.guardrails) (sym same) good in
      (
        accepted,
        λ low.
            review
            ∙ asks
            ∙ sym (ap (λ (r : Response). r.requires_review) same)
            ∙ accepted.flagged low,
      )

  branch_reviewed :
      (p : Provider) (e : Event) (instruction kind : String) (payload : Json) (dec : Decision)
      → IsBranch tables enc around o p e instruction kind payload dec
      → dec.guardrails ≢ "pass"
      → dec.operator_review ≡ true
  branch_reviewed p e instruction _ _ _ (rejected_input reason i) h = refl
  branch_reviewed p e instruction _ _ _ (provider_error detail i a) h = refl
  branch_reviewed p e instruction _ _ _ (rejected_output r reason i a v) h = refl
  branch_reviewed p e instruction _ _ _ (pass r i a v) h = absurd (h refl)

  -- A decision of Decide that did not pass, be it for the input, the provider or the output, is marked for
  -- review by an operator.
  pub decide_refused :
      (e : Event) (instruction : String) (s s' : S) (d : Decision)
      → decide tables enc around o e instruction s ≡ (s', decided d)
      → d.guardrails ≢ "pass"
      → d.operator_review ≡ true
  unfolding TakesBranch
  decide_refused e instruction s s' d h g =
      let (p, _, _, (kind, payload, dec, branch, run)) = decide_lem e instruction s s' d h in
      let (same, status, review) = audited_fields kind payload dec d s s' run in
      review
      ∙ branch_reviewed p e instruction kind payload dec branch (λ passed. g (status ∙ passed))
