-- ===== src/Gateway/Errors/Operators.antt =====
-- The operator's handlers when they answer with an error.
use flux_lens.Base.{String, ◌≡◌, refl, ap, Option, none, some, ◌==◌, inl, inr, Bool-cases}
use flux_lens.Base.Signed.{ℤ}
use flux_lens.AuditLog.Record.{Error, Record, Outcome, ok, err}
use flux_lens.Canonical.{Event, EventError, validate}
use flux_lens.Llm.{Provider}
use flux_lens.Orchestrator.Decide.{
  decide, decide_with, wrap, record_operator_action, recorded_of, is_action,
}
use flux_lens.Orchestrator.Suggest.{suggest_with, suggest_with_precedents, wrap_suggestion}
use flux_lens.Gateway.{Runtime, Readings, Gateway, Server}
use flux_lens.Gateway.Bodies.{
  Parsed, malformed, parsed, SuggestBody, PrecedentsBody, ResolveBody, Reason,
}
use flux_lens.Gateway.Operator.{
  quiet, suggest_decided, suggest_found, suggest_parsed, handle_operator_suggest,
  precedents_suggested, precedents_found, precedents_parsed, handle_operator_suggest_precedents,
  resolve_recorded, resolve_checked, resolve_parsed, resolve_refusal, handle_operator_resolve,
}
use flux_lens.Gateway.Errors.{Untouched, UndoesFailure}

module _ {S : Type 0} (rt : Runtime) (gate : Gateway S) (at : Readings) where
  decided-Untouched :
      (provider : Option Provider) (invalid : Option EventError) (e : Event) (instruction : String)
      (s : Server S)
      → Untouched s (
          suggest_decided rt gate at s (
            decide_with rt.tables rt.enc
              (quiet rt gate at)
              gate.orch
              provider
              invalid
              e
              instruction
              s.log))
  unfolding suggest_decided decide_with wrap
  decided-Untouched none invalid e instruction s = refl
  decided-Untouched (some p) (some reason) e instruction s = refl
  decided-Untouched (some p) none e instruction s = tt

  found-Untouched :
      (instruction : String) (found : Option Event) (s : Server S)
      → Untouched s (suggest_found rt gate at (quiet rt gate at) instruction found s)
  unfolding suggest_found decide
  found-Untouched instruction none s = refl
  found-Untouched instruction (some e) s = decided-Untouched gate.orch.provider (validate e) e _ s

  parsed-Untouched :
      (body : Parsed SuggestBody) (s : Server S)
      → Untouched s (suggest_parsed rt gate at (quiet rt gate at) body s)
  unfolding suggest_parsed
  parsed-Untouched (malformed text) s = refl
  parsed-Untouched (parsed b) s = elim (Bool-cases (b.event_id == "")) [
    | inl bad ↦ rw bad refl
    | inr fine ↦ rw fine (found-Untouched b.instruction _ s)
  ]

  pub suggest-Untouched :
      (method : String) (body : Parsed SuggestBody) (s : Server S)
      → Untouched s (handle_operator_suggest rt gate at (quiet rt gate at) method body s)
  unfolding handle_operator_suggest
  suggest-Untouched method body s = elim (Bool-cases (method == "POST")) [
    | inl post ↦ rw post (parsed-Untouched body s)
    | inr other ↦ rw other refl
  ]

  suggested-Untouched :
      (provider : Option Provider) (invalid : Option EventError) (e : Event) (instruction : String)
      (max : ℤ) (s : Server S)
      → Untouched s (
          precedents_suggested rt gate at s (
            suggest_with rt.tables rt.enc rt.sort_slice
              (quiet rt gate at)
              gate.orch
              provider
              invalid
              e
              instruction
              max
              s.log))
  unfolding precedents_suggested suggest_with wrap_suggestion
  suggested-Untouched none invalid e instruction max s = refl
  suggested-Untouched (some p) (some reason) e instruction max s = refl
  suggested-Untouched (some p) none e instruction max s = tt

  precedents_found-Untouched :
      (b : PrecedentsBody) (found : Option Event) (s : Server S)
      → Untouched s (precedents_found rt gate at (quiet rt gate at) b found s)
  unfolding precedents_found suggest_with_precedents
  precedents_found-Untouched b none s = refl
  precedents_found-Untouched b (some e) s =
      suggested-Untouched gate.orch.provider (validate e) e _ b.max_precedents s

  precedents_parsed-Untouched :
      (body : Parsed PrecedentsBody) (s : Server S)
      → Untouched s (precedents_parsed rt gate at (quiet rt gate at) body s)
  unfolding precedents_parsed
  precedents_parsed-Untouched (malformed text) s = refl
  precedents_parsed-Untouched (parsed b) s = elim (Bool-cases (b.event_id == "")) [
    | inl bad ↦ rw bad refl
    | inr fine ↦ rw fine (precedents_found-Untouched b _ s)
  ]

  pub precedents-Untouched :
      (method : String) (body : Parsed PrecedentsBody) (s : Server S)
      → Untouched s (handle_operator_suggest_precedents rt gate at (quiet rt gate at) method body s)
  unfolding handle_operator_suggest_precedents
  precedents-Untouched method body s = elim (Bool-cases (method == "POST")) [
    | inl post ↦ rw post (precedents_parsed-Untouched body s)
    | inr other ↦ rw other refl
  ]

  module _ (undoes : UndoesFailure gate.orch.chain) where
    recorded-Untouched :
        (b : ResolveBody) (s : Server S) (l : S) (o : Outcome Record)
        → ((e : Error) → o ≡ err e → l ≡ s.log)
        → Untouched s (resolve_recorded rt gate at b s (recorded_of (at.clock 0) gate.orch (l, o)))
    unfolding resolve_recorded recorded_of
    recorded-Untouched b s l (ok rec) h = tt
    recorded-Untouched b s l (err e) h = ap (λ (l : S). record s { log = l }) (h e refl)

    checked-Untouched :
        (b : ResolveBody) (bad : Option Reason) (s : Server S)
        → Untouched s (resolve_checked rt gate at b bad s)
    unfolding resolve_checked record_operator_action
    checked-Untouched b (some reason) s = refl
    checked-Untouched b none s = elim (Bool-cases (is_action b.action)) [
      | inl known ↦ rw known (recorded-Untouched b s _ _ (λ e h. undoes _ _ _ s.log e h))
      | inr unknown ↦ rw unknown (unfold resolve_recorded in refl)
    ]

    resolve_parsed-Untouched :
        (body : Parsed ResolveBody) (s : Server S) → Untouched s (resolve_parsed rt gate at body s)
    unfolding resolve_parsed
    resolve_parsed-Untouched (malformed text) s = refl
    resolve_parsed-Untouched (parsed b) s = checked-Untouched b (resolve_refusal b) s

    pub resolve-Untouched :
        (method : String) (body : Parsed ResolveBody) (s : Server S)
        → Untouched s (handle_operator_resolve rt gate at method body s)
    unfolding handle_operator_resolve
    resolve-Untouched method body s = elim (Bool-cases (method == "POST")) [
      | inl post ↦ rw post (resolve_parsed-Untouched body s)
      | inr other ↦ rw other refl
    ]
