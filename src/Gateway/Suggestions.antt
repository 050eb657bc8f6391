-- ===== src/Gateway/Suggestions.antt =====
-- What an operator is shown is in the log.
use mathlib.Core.Path.{subst}
use flux_lens.Base.{
  ℕ, String, ◌≡◌, refl, sym, ◌∙◌, Option, none, some, ◌==◌, inl, inr, ◌⊎◌, Bool-cases,
}
use flux_lens.AuditLog.Record.{Record}
use flux_lens.AuditLog.Store.{Store, IsLog}
use flux_lens.Canonical.{Event}
use flux_lens.Orchestrator.{Decision, no_provider, invalid_event, Surroundings}
use flux_lens.Orchestrator.Audited.{IsAudited, IsUnaudited}
use flux_lens.Gateway.Recent.{IsFirst}
use flux_lens.Orchestrator.Suggest as Suggest
use flux_lens.Orchestrator.Suggest.{
  Suggested, suggested, suggest_with_precedents, PrecedentSuggestion,
}
use flux_lens.Orchestrator.Suggest.Laws.{suggest-IsAudited}
use flux_lens.Gateway.{Runtime, Readings, Gateway, Server, verify_and_observe}
use flux_lens.Gateway.Bodies.{
  Parsed, malformed, parsed, SuggestBody, PrecedentsBody, Reply, reply, decision, suggestion,
}
use flux_lens.Gateway.Operator.{
  review, precedents_suggested, precedents_found, precedents_parsed,
  handle_operator_suggest_precedents,
}
use flux_lens.Gateway.Ingest.{SameLog, verify_and_observe-SameLog}

-- One record more, which the decision points to and which is linked to the head that the decision
-- names; or none, and the decision has no hash.
abbrev pub Accounted : {S : Type 0} → Store S → Surroundings S → String → S → S → Decision → Type 0
Accounted chain around passed l l' d =
    ((rec : Record) × IsAudited chain around passed l l' d rec) ⊎ IsUnaudited chain around l l' d

module _ {S : Type 0} (rt : Runtime) (gate : Gateway S) (log : IsLog gate.orch.chain)
    (at : Readings) (around : Surroundings S) where
  -- The decision of an answer, if it has one, is accounted for in the log.
  abbrev Accounts : Server S → Server S × Reply → Type 0
  Accounts s (s', reply code (decision d)) =
      Accounted gate.orch.chain around "decision" s.log s'.log d
  Accounts s (s', reply code (suggestion x)) =
      Accounted gate.orch.chain around "decision_with_precedents" s.log s'.log x.decision
  Accounts s _ = Unit

  review-SameLog : (d : Decision) (s : Server S) → SameLog s (review rt gate at d s)
  unfolding review
  review-SameLog d s = elim (Bool-cases d.operator_review) [
    | inl asks ↦ rw asks (record { recent = refl; log = refl })
    | inr passes ↦ rw passes (record { recent = refl; log = refl })
  ]

  finished_log :
      (d : Decision) (s : Server S) (l : S)
      → (verify_and_observe rt gate at (review rt gate at d (record s { log = l }))).log ≡ l
  finished_log d s l =
      (verify_and_observe-SameLog rt gate at _).log ∙ (review-SameLog d (record s { log = l })).log

  -- What was asked for: the event of the decision is the one that the body of a POST names, and it is
  -- among the recent ones.
  abbrev pub IsAsked : String → Parsed SuggestBody → Server S → Decision → Type 0
  IsAsked method body s d =
      (method ≡ "POST")
      × (b : SuggestBody) × (body ≡ parsed b)
      × (e : Event) × IsFirst b.event_id s.recent e
      × (d.event_id ≡ e.event_id)

  -- It is a decision on an event.
  abbrev IsOn : Event → Server S × Reply → Type 0
  IsOn e (s', reply code (decision d)) = d.event_id ≡ e.event_id
  IsOn e (s', r) = Unit

  abbrev Asks : String → Parsed SuggestBody → Server S → Server S × Reply → Type 0
  Asks method body s (s', reply code (decision d)) = IsAsked method body s d
  Asks method body s (s', r) = Unit

  suggested-Accounts :
      (s : Server S) (e : Event) (instruction : String) (b : PrecedentsBody) (x : S × Suggested)
      → suggest_with_precedents rt.tables rt.enc rt.sort_slice around gate.orch e instruction
          b.max_precedents s.log
        ≡ x
      → Accounts s (precedents_suggested rt gate at s x)
  unfolding precedents_suggested
  suggested-Accounts s e instruction b (l, Suggest.no_provider) h = tt
  suggested-Accounts s e instruction b (l, Suggest.invalid_event reason) h = tt
  suggested-Accounts s e instruction b (l, suggested x) h =
      subst (λ l'. Accounted gate.orch.chain around "decision_with_precedents" s.log l' x.decision)
        (sym (finished_log x.decision s l))
        (suggest-IsAudited rt.tables rt.enc rt.sort_slice around gate.orch e instruction
          b.max_precedents s.log l x log h)

  precedents_found-Accounts :
      (b : PrecedentsBody) (found : Option Event) (s : Server S)
      → Accounts s (precedents_found rt gate at around b found s)
  unfolding precedents_found
  precedents_found-Accounts b none s = tt
  precedents_found-Accounts b (some e) s = suggested-Accounts s e _ b _ refl

  precedents_parsed-Accounts :
      (body : Parsed PrecedentsBody) (s : Server S)
      → Accounts s (precedents_parsed rt gate at around body s)
  unfolding precedents_parsed
  precedents_parsed-Accounts (malformed text) s = tt
  precedents_parsed-Accounts (parsed b) s = elim (Bool-cases (b.event_id == "")) [
    | inl bad ↦ rw bad tt
    | inr fine ↦ rw fine (precedents_found-Accounts b _ s)
  ]

  precedents-Accounts :
      (method : String) (body : Parsed PrecedentsBody) (s : Server S)
      → Accounts s (handle_operator_suggest_precedents rt gate at around method body s)
  unfolding handle_operator_suggest_precedents
  precedents-Accounts method body s = elim (Bool-cases (method == "POST")) [
    | inl post ↦ rw post (precedents_parsed-Accounts body s)
    | inr other ↦ rw other tt
  ]

  -- The same of a suggestion with precedents.
  pub handle_operator_suggest_precedents-Accounted :
      (method : String) (body : Parsed PrecedentsBody) (s s' : Server S) (code : ℕ)
      (x : PrecedentSuggestion)
      → handle_operator_suggest_precedents rt gate at around method body s
        ≡ (s', reply code (suggestion x))
      → Accounted gate.orch.chain around "decision_with_precedents" s.log s'.log x.decision
  handle_operator_suggest_precedents-Accounted method body s s' code x h =
      subst (Accounts s) h (precedents-Accounts method body s)
