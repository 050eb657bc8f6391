-- ===== src/Orchestrator/Suggest/Laws.antt =====
-- What SuggestWithPrecedents cites, what it audits, and when it asks for a review.
use mathlib.Core.Path.{subst}
use flux_lens.Base.{
  String, true, false, ◌≡◌, ◌≢◌, ◌⊎◌, refl, sym, ==-false→ne, ◌∙◌, ap, inl, inr, Option, none, some,
  List, [], ◌∷◌, arith, All, Bool-cases, ◌==◌,
}
use flux_lens.Base.Signed.{ℤ}
use flux_lens.Base.Json.{Json}
use flux_lens.Base.Float.{lt_f}
use flux_lens.Base.Pattern.{CaseTables}
use flux_lens.AuditLog.Record.{Record, Encoding}
use flux_lens.AuditLog.Store.{IsLog}
use flux_lens.Canonical.{Event, EventError, validate}
use flux_lens.Llm.{Provider, Reply, answered, failed}
use flux_lens.Precedents.{Resolved, SortSlice}
use flux_lens.Precedents.Sound.{IsSortSlice, IsPrecedent, find_matches-IsPrecedent}
use flux_lens.Orchestrator.{Orchestrator, Decision, Surroundings, audit, response_of}
use flux_lens.Orchestrator.Guards.{Response, validate_output}
use flux_lens.Orchestrator.Safety.{IsAccepted, validate_output-IsAccepted, audited_fields}
use flux_lens.Orchestrator.Audited.{kind_of, IsAudited, IsUnaudited, audit_log}
use flux_lens.Orchestrator.Suggest.{
  PrecedentStep, PrecedentSuggestion, suggested, precedent_hashes, prior_steps, build_steps,
  steps_from_rejected, criteria_of, audit_precedent_rejected, refuse, suggest, suggest_output,
  suggest_reply, suggest_input, matched_for, suggest_valid, wrap_suggestion, suggest_with,
  suggest_with_precedents, instruction_or_default,
}

abbrev pub cited : List PrecedentStep → List String
cited [] = []
cited (step ∷ more) = step.cited_precedent_hash ∷ cited more

prior_steps-cited :
    (matched : List Resolved) → cited (prior_steps matched) ≡ precedent_hashes matched
unfolding prior_steps precedent_hashes
prior_steps-cited [] = refl
prior_steps-cited (r ∷ more) = ap (λ hs. r.decision_hash ∷ hs) (prior_steps-cited more)

-- The two shapes of a suggestion: the decision before its audit, and the steps that go with it.
pub data IsShape (o_accepts : Response → Type 0) (matched : List Resolved)
    : String → Decision → (Decision → List PrecedentStep) → Type 0 where
  refused :
      (kind : String) (dec : Decision)
      → kind ≡ kind_of "decision_with_precedents" dec.guardrails
      → dec.guardrails ≢ "pass"
      → dec.operator_review ≡ true
      → IsShape o_accepts matched kind dec steps_from_rejected
  passed :
      (dec : Decision)
      → dec.guardrails ≡ "pass"
      → o_accepts dec.response
      → dec.operator_review ≡ dec.response.requires_review
      → IsShape o_accepts matched "decision_with_precedents" dec
          (λ d. build_steps dec.response matched)

module _ {S : Type 0} (tables : CaseTables) (enc : Encoding) (sort_slice : SortSlice)
    (around : Surroundings S) (o : Orchestrator S) where
  -- A suggestion of one of the shapes, with its audit as the only step on the log.
  abbrev IsSuggestion : List Resolved → S → S × PrecedentSuggestion → Type 0
  IsSuggestion matched s x =
      (kind : String) × (payload : Json) × (dec : Decision) × (steps : (Decision
        → List PrecedentStep))
      × IsShape (IsAccepted o.guardrails) matched kind dec steps
      × ((x.0, x.1.decision) ≡ audit around o.chain kind payload dec s)
      × (x.1.precedents_used ≡ matched)
      × (x.1.steps ≡ steps x.1.decision)

  refused-IsSuggestion :
      (p : Provider) (e : Event) (hash status reason : String) (resp : Option Response)
      (matched : List Resolved) (s : S)
      → (status == "pass") ≡ false
      → IsSuggestion matched s (
          refuse tables enc sort_slice around o matched (
            audit_precedent_rejected tables enc sort_slice around o p e hash status reason resp
              matched s))
  unfolding refuse audit_precedent_rejected kind_of
  refused-IsSuggestion p e hash status reason resp matched s h = (
    _,
    _,
    _,
    _,
    refused _ _ (rw (h, kind_of)) (==-false→ne status "pass" h) refl,
    refl,
    refl,
    refl,
  )

  output-IsSuggestion :
      (p : Provider) (e : Event) (hash : String) (resp : Response) (matched : List Resolved)
      (checked : Option String) (s : S)
      → validate_output o.guardrails resp ≡ checked
      → IsSuggestion matched s
          (suggest_output tables enc sort_slice around o p e hash resp matched checked s)
  unfolding suggest_output suggest
  output-IsSuggestion p e hash resp matched (some reason) s h =
      refused-IsSuggestion p e hash "rejected_output" reason (some resp) matched s refl
  output-IsSuggestion p e hash resp matched none s h = (
    _,
    _,
    _,
    _,
    passed _ refl (validate_output-IsAccepted o.guardrails resp h) refl,
    refl,
    refl,
    refl,
  )

  reply-IsSuggestion :
      (p : Provider) (e : Event) (hash : String) (matched : List Resolved) (reply : Reply) (s : S)
      → IsSuggestion matched s
          (suggest_reply tables enc sort_slice around o p e hash matched reply s)
  unfolding suggest_reply
  reply-IsSuggestion p e hash matched (failed detail) s =
      refused-IsSuggestion p e hash "provider_error" detail none matched s refl
  reply-IsSuggestion p e hash matched (answered r) s =
      output-IsSuggestion p e hash (response_of r) matched _ s refl

  input-IsSuggestion :
      (p : Provider) (e : Event) (ctx instruction : String) (matched : List Resolved)
      (checked : Option String) (s : S)
      → IsSuggestion matched s
          (suggest_input tables enc sort_slice around o p e ctx instruction matched checked s)
  unfolding suggest_input
  input-IsSuggestion p e ctx instruction matched (some reason) s =
      refused-IsSuggestion p e _ "rejected_input" reason none matched s refl
  input-IsSuggestion p e ctx instruction matched none s = reply-IsSuggestion p e _ matched _ s

  valid-IsSuggestion :
      (p : Provider) (e : Event) (instruction : String) (max : ℤ) (s : S)
      → IsSuggestion
          (matched_for tables enc sort_slice around o e max s)
          s
          (suggest_valid tables enc sort_slice around o p e instruction max s)
  unfolding suggest_valid
  valid-IsSuggestion p e instruction max s = input-IsSuggestion p e _ instruction _ _ s

  unwrap :
      (x : S × PrecedentSuggestion) (s : S) (d : PrecedentSuggestion)
      → wrap_suggestion tables enc sort_slice around o x ≡ (s, suggested d)
      → x ≡ (s, d)
  unfolding wrap_suggestion
  unwrap (t, c) s d h = ground arith

  with-IsSuggestion :
      (po : Option Provider) (invalid : Option EventError) (e : Event) (instruction : String)
      (max : ℤ) (s s' : S) (d : PrecedentSuggestion)
      → suggest_with tables enc sort_slice around o po invalid e instruction max s
        ≡ (s', suggested d)
      → IsSuggestion (matched_for tables enc sort_slice around o e max s) s (s', d)
  unfolding suggest_with
  with-IsSuggestion none invalid e instruction max s s' d h = cc
  with-IsSuggestion (some p) (some reason) e instruction max s s' d h = cc
  with-IsSuggestion (some p) none e instruction max s s' d h =
      subst
        (λ (x : S × PrecedentSuggestion).
          IsSuggestion (matched_for tables enc sort_slice around o e max s) s x)
        (unwrap _ s' d h) (valid-IsSuggestion p e (instruction_or_default instruction) max s)

  suggest-IsSuggestion :
      (e : Event) (instruction : String) (max : ℤ) (s s' : S) (d : PrecedentSuggestion)
      → suggest_with_precedents tables enc sort_slice around o e instruction max s
        ≡ (s', suggested d)
      → IsSuggestion (matched_for tables enc sort_slice around o e max s) s (s', d)
  unfolding suggest_with_precedents
  suggest-IsSuggestion e instruction max s s' d h =
      with-IsSuggestion o.provider (validate e) e instruction max s s' d h

  shape_kind :
      (matched : List Resolved) (kind : String) (dec : Decision)
      (steps : (Decision → List PrecedentStep))
      → IsShape (IsAccepted o.guardrails) matched kind dec steps
      → kind ≡ kind_of "decision_with_precedents" dec.guardrails
  unfolding kind_of
  shape_kind matched kind _ _ (refused _ dec k g r) = k
  shape_kind matched _ _ _ (passed dec g a r) = rw (g, kind_of) refl

  shape_cited :
      (matched : List Resolved) (kind : String) (dec d : Decision)
      (steps : (Decision → List PrecedentStep))
      → IsShape (IsAccepted o.guardrails) matched kind dec steps
      → (cited (steps d) ≡ "" ∷ []) ⊎ (cited (steps d) ≡ "" ∷ precedent_hashes matched)
  unfolding steps_from_rejected build_steps
  shape_cited matched kind _ d _ (refused _ dec k g r) = inl refl
  shape_cited matched _ _ d _ (passed dec g a r) =
      inr (ap (λ hs. "" ∷ hs) (prior_steps-cited matched))

  shape_reviewed :
      (matched : List Resolved) (kind : String) (dec : Decision)
      (steps : (Decision → List PrecedentStep))
      → IsShape (IsAccepted o.guardrails) matched kind dec steps
      → (dec.operator_review ≡ true)
        ⊎ (IsAccepted o.guardrails dec.response
            × (dec.operator_review ≡ dec.response.requires_review))
  shape_reviewed matched kind _ _ (refused _ dec k g r) = inl r
  shape_reviewed matched _ _ _ (passed dec g a r) = inr (a, r)

  -- SuggestWithPrecedents, on any store that keeps the log's promises: either the log gained one
  -- record, of the kind that goes with the decision's status, with the hash that the decision
  -- reports, linked to the head at that time; or it gained none, and the decision reports no hash.
  pub suggest-IsAudited :
      (e : Event) (instruction : String) (max : ℤ) (s s' : S) (x : PrecedentSuggestion)
      → IsLog o.chain
      → suggest_with_precedents tables enc sort_slice around o e instruction max s
        ≡ (s', suggested x)
      → ((rec : Record) × IsAudited o.chain around "decision_with_precedents" s s' x.decision rec)
        ⊎ IsUnaudited o.chain around s s' x.decision
  suggest-IsAudited e instruction max s s' x log h =
      let (kind, payload, dec, steps, shape, run, _, _) =
        suggest-IsSuggestion e instruction max s s' x h in
      subst
        (λ (y : S × Decision).
          ((rec : Record) × IsAudited o.chain around "decision_with_precedents" s y.0 y.1 rec)
          ⊎ IsUnaudited o.chain around s y.0 y.1)
        (sym run)
        (audit_log tables enc around o log "decision_with_precedents" kind payload dec s _
          (shape_kind _ kind dec steps shape) refl)

  -- If sort.Slice returns an ordered permutation, every precedent that SuggestWithPrecedents reports is a resolution that the log recorded when the
  -- call read it, of a decision on an event like this one for its tenant; and its steps cite, behind
  -- the first, these precedents in their order, or there is one step and no citation.
  pub suggest_cites :
      (e : Event) (instruction : String) (max : ℤ) (s s' : S) (x : PrecedentSuggestion)
      → IsSortSlice sort_slice
      → suggest_with_precedents tables enc sort_slice around o e instruction max s
        ≡ (s', suggested x)
      → All
          (IsPrecedent tables.fold
            (o.chain.snapshot s)
            (criteria_of tables enc sort_slice around o e))
          x.precedents_used
        × ((cited x.steps ≡ "" ∷ []) ⊎ (cited x.steps ≡ "" ∷ precedent_hashes x.precedents_used))
  unfolding matched_for
  suggest_cites e instruction max s s' x law h =
      let (kind, payload, dec, steps, shape, run, used, text) =
        suggest-IsSuggestion e instruction max s s' x h in
      rw (used, text)
        (
          find_matches-IsPrecedent tables.fold (o.chain.snapshot s)
              (criteria_of tables enc sort_slice around o e) sort_slice max law,
          shape_cited _ kind dec x.decision steps shape,
        )

  -- A decision of SuggestWithPrecedents is marked for review by an operator unless it passed with a
  -- response that has a classification and a confidence neither below 0, above 1 nor below the floor,
  -- and that every output validator accepts.
  pub suggest_reviewed :
      (e : Event) (instruction : String) (max : ℤ) (s s' : S) (x : PrecedentSuggestion)
      → suggest_with_precedents tables enc sort_slice around o e instruction max s
        ≡ (s', suggested x)
      → (x.decision.operator_review ≡ true)
        ⊎ (IsAccepted o.guardrails x.decision.response
            × (lt_f x.decision.response.confidence o.guardrails.min_confidence ≡ false))
  suggest_reviewed e instruction max s s' x h =
      let (kind, payload, dec, steps, shape, run, _, _) =
        suggest-IsSuggestion e instruction max s s' x h in
      let (same, _, review) =
        audited_fields tables enc around o kind payload dec x.decision s s' run in
      elim (shape_reviewed _ kind dec steps shape) [
        | inl asks ↦ inl (review ∙ asks)
        | inr (good, flag) ↦
            elim (Bool-cases (lt_f dec.response.confidence o.guardrails.min_confidence)) [
              | inl low ↦ inl (review ∙ flag ∙ good.flagged low)
              | inr high ↦ inr (rw same (good, high))
            ]
      ]
