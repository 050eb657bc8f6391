-- ===== src/Gateway/Closed/Operators.antt =====
-- What the primitive steps on the server keep, the operator's handlers keep.
use flux_lens.Base.{String, ◌≡◌, Option, none, some, ◌==◌, inl, inr, Bool-cases}
use mathlib.Core.Path.{subst, sym}
use flux_lens.Canonical.{Event}
use flux_lens.Orchestrator.{Decision, Decided, decided, no_provider, invalid_event}
use flux_lens.Orchestrator.Decide.{Recorded, recorded, invalid_action, append_failed}
use flux_lens.Orchestrator.Suggest as Suggest
use flux_lens.Orchestrator.Suggest.{Suggested, suggested}
use flux_lens.Orchestrator.Closed.{
  KeptByAppend, decide_keeps, suggest_keeps, record_operator_action_keeps,
}
use flux_lens.Gateway.{Runtime, Readings, Gateway, Server}
use flux_lens.Gateway.Bodies.{
  Parsed, malformed, parsed, SuggestBody, PrecedentsBody, ResolveBody, Reason,
}
use flux_lens.Gateway.Operator.{
  quiet, review, suggest_decided, suggest_found, suggest_parsed, handle_operator_suggest,
  precedents_suggested, precedents_found, precedents_parsed, handle_operator_suggest_precedents,
  resolve_recorded, resolve_checked, resolve_parsed, resolve_refusal, handle_operator_resolve,
}
use flux_lens.Gateway.Closed.{IsClosed, review-All, resolution-All}

-- The orchestrator appends to the gateway's store.
abbrev pub HasOneLog : {S : Type 0} → Gateway S → Type 0
HasOneLog gate = gate.orch.chain ≡ gate.chain

module _ {S : Type 0} (rt : Runtime) (gate : Gateway S) (one : HasOneLog gate)
    (P : Server S → Type 0) (closed : IsClosed rt gate P) (at : Readings) where
  abbrev With : Server S → S → Type 0
  With s l = P (record s { log = l })

  kept : (s : Server S) → KeptByAppend gate.orch.chain (With s)
  kept s =
      subst (λ chain. KeptByAppend chain (With s)) (sym one)
        (λ now kind payload l h. closed.appends now kind payload (record s { log = l }) h)

  review_keeps : (d : Decision) (s : Server S) → P s → P (review rt gate at d s)
  unfolding review
  review_keeps d s h = elim (Bool-cases d.operator_review) [
    | inl asks ↦ rw asks (closed.raises at _ _ s (review-All _ _ _) h)
    | inr passes ↦ rw passes h
  ]

  decided_keeps :
      (s : Server S) (x : S × Decided) → With s x.0 → P (suggest_decided rt gate at s x).0
  unfolding suggest_decided
  decided_keeps s (l, decided d) h = closed.observes at _ (review_keeps d _ h)
  decided_keeps s (l, no_provider) h = h
  decided_keeps s (l, invalid_event e) h = h

  found_keeps :
      (instruction : String) (found : Option Event) (s : Server S)
      → P s
      → P (suggest_found rt gate at (quiet rt gate at) instruction found s).0
  unfolding suggest_found
  found_keeps instruction none s h = h
  found_keeps instruction (some e) s h = decided_keeps s _ (
      decide_keeps rt.tables rt.enc (quiet rt gate at) gate.orch (With s) (kept s) (λ l q. q) e _
        s.log h)

  parsed_keeps :
      (body : Parsed SuggestBody) (s : Server S)
      → P s
      → P (suggest_parsed rt gate at (quiet rt gate at) body s).0
  unfolding suggest_parsed
  parsed_keeps (malformed text) s h = h
  parsed_keeps (parsed b) s h = elim (Bool-cases (b.event_id == "")) [
    | inl bad ↦ rw bad h
    | inr fine ↦ rw fine (found_keeps b.instruction _ s h)
  ]

  pub suggest_keeps_server :
      (method : String) (body : Parsed SuggestBody) (s : Server S)
      → P s
      → P (handle_operator_suggest rt gate at (quiet rt gate at) method body s).0
  unfolding handle_operator_suggest
  suggest_keeps_server method body s h = elim (Bool-cases (method == "POST")) [
    | inl post ↦ rw post (parsed_keeps body s h)
    | inr other ↦ rw other h
  ]

  suggested_keeps :
      (s : Server S) (x : S × Suggested) → With s x.0 → P (precedents_suggested rt gate at s x).0
  unfolding precedents_suggested
  suggested_keeps s (l, suggested x) h = closed.observes at _ (review_keeps x.decision _ h)
  suggested_keeps s (l, Suggest.no_provider) h = h
  suggested_keeps s (l, Suggest.invalid_event e) h = h

  precedents_found_keeps :
      (b : PrecedentsBody) (found : Option Event) (s : Server S)
      → P s
      → P (precedents_found rt gate at (quiet rt gate at) b found s).0
  unfolding precedents_found
  precedents_found_keeps b none s h = h
  precedents_found_keeps b (some e) s h = suggested_keeps s _ (
      suggest_keeps rt.tables rt.enc (quiet rt gate at) gate.orch (With s) (kept s) (λ l q. q)
        rt.sort_slice e _ b.max_precedents s.log h)

  precedents_parsed_keeps :
      (body : Parsed PrecedentsBody) (s : Server S)
      → P s
      → P (precedents_parsed rt gate at (quiet rt gate at) body s).0
  unfolding precedents_parsed
  precedents_parsed_keeps (malformed text) s h = h
  precedents_parsed_keeps (parsed b) s h = elim (Bool-cases (b.event_id == "")) [
    | inl bad ↦ rw bad h
    | inr fine ↦ rw fine (precedents_found_keeps b _ s h)
  ]

  pub precedents_keeps :
      (method : String) (body : Parsed PrecedentsBody) (s : Server S)
      → P s
      → P (handle_operator_suggest_precedents rt gate at (quiet rt gate at) method body s).0
  unfolding handle_operator_suggest_precedents
  precedents_keeps method body s h = elim (Bool-cases (method == "POST")) [
    | inl post ↦ rw post (precedents_parsed_keeps body s h)
    | inr other ↦ rw other h
  ]

  recorded_keeps :
      (b : ResolveBody) (s : Server S) (x : S × Recorded)
      → With s x.0
      → P (resolve_recorded rt gate at b s x).0
  unfolding resolve_recorded
  recorded_keeps b s (l, recorded hash) h =
      closed.observes at _ (closed.raises at _ _ _ (resolution-All _ _ _ _) h)
  recorded_keeps b s (l, invalid_action) h = h
  recorded_keeps b s (l, append_failed e) h = h

  checked_keeps :
      (b : ResolveBody) (bad : Option Reason) (s : Server S)
      → P s
      → P (resolve_checked rt gate at b bad s).0
  unfolding resolve_checked
  checked_keeps b (some reason) s h = h
  checked_keeps b none s h =
      recorded_keeps b s _
        (record_operator_action_keeps _ gate.orch (With s) (kept s) _ _ _ _ s.log h)

  resolve_parsed_keeps :
      (body : Parsed ResolveBody) (s : Server S) → P s → P (resolve_parsed rt gate at body s).0
  unfolding resolve_parsed
  resolve_parsed_keeps (malformed text) s h = h
  resolve_parsed_keeps (parsed b) s h = checked_keeps b (resolve_refusal b) s h

  pub resolve_keeps :
      (method : String) (body : Parsed ResolveBody) (s : Server S)
      → P s
      → P (handle_operator_resolve rt gate at method body s).0
  unfolding handle_operator_resolve
  resolve_keeps method body s h = elim (Bool-cases (method == "POST")) [
    | inl post ↦ rw post (resolve_parsed_keeps body s h)
    | inr other ↦ rw other h
  ]
