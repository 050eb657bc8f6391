-- ===== src/Gateway/Operator.antt =====
-- The operator's handlers of cmd/api-gateway/main.go: suggestions, and the operator's resolution.
use flux_lens.Base.{String, not, ◌||◌, Option, none, some, ◌==◌, if◌then◌else◌}
use flux_lens.Base.Text.{trim_space}
use flux_lens.Canonical.{Event}
use flux_lens.Alerts.Rules.{from_operator_review_required, from_operator_resolution}
use flux_lens.Orchestrator.{Decision, Decided, decided, Surroundings}
use flux_lens.Orchestrator.Decide.{decide, record_operator_action, Recorded, recorded, is_action}
use flux_lens.Orchestrator.Suggest.{
  Suggested, suggested, suggest_with_precedents, default_precedent_instruction,
}
use flux_lens.Gateway.Bodies.{
  Parsed, malformed, parsed, SuggestBody, PrecedentsBody, ResolveBody, decision, suggestion,
  operator_hash, Reason, method_not_allowed, fields_required, unknown_event, bad_action, bad_json,
  not_decided, not_suggested, not_recorded, Reply, reply, failed,
}
use flux_lens.Gateway.{
  Runtime, Readings, Gateway, Server, stamp, find_event, with_alerts, verify_and_observe,
}

-- The classification for an alert: the status where the text is blank.
unfoldable pub or_first : String → String → String
or_first text fallback = if trim_space text == "" then fallback else text

-- The trimmed instruction of a request, or the default where it is blank.
unfoldable pub instruction_or : String → String → String
instruction_or text fallback =
    let instr = trim_space text in if instr == "" then fallback else instr

-- The guards of handleOperatorResolve; `none` where they pass.
unfoldable pub resolve_refusal : ResolveBody → Option Reason
resolve_refusal b =
    if b.event_id == "" || b.decision_audit_hash == "" || b.operator_id == ""
    then some fields_required
    else if not (is_action b.action)
    then some bad_action
    else none

module _ {S : Type 0} (rt : Runtime) (gate : Gateway S) (at : Readings) where
  -- One caller after the other: nobody else appends during the call. The routes serve requests so; the
  -- handlers themselves take what the other callers do during the call.
  abbrev pub quiet : Surroundings S
  quiet = record { clock = at.clock 0; before = λ l. l; between = λ l. l }

  -- The alerts for a decision that an operator has to review.
  unfoldable pub review : Decision → Server S → Server S
  unfolding or_first
  review d s =
      if d.operator_review
      then with_alerts rt gate at 2
          (from_operator_review_required (stamp at 1) d.event_id
            (or_first d.response.classification d.guardrails))
          s
      else s

  unfoldable pub suggest_decided : Server S → S × Decided → Server S × Reply
  unfolding review
  suggest_decided s (l, decided d) =
      (verify_and_observe rt gate at (review d (record s { log = l })), reply 200 (decision d))
  suggest_decided s (l, o) = (record s { log = l }, failed 500 (not_decided o))

  unfoldable pub suggest_found :
      Surroundings S → String → Option Event → Server S → Server S × Reply
  unfolding suggest_decided instruction_or
  suggest_found around instruction none s = (s, failed 404 unknown_event)
  suggest_found around instruction (some e) s = suggest_decided s (
      decide rt.tables rt.enc around gate.orch e (instruction_or instruction gate.wedge_instruction)
        s.log)

  unfoldable pub suggest_parsed : Surroundings S → Parsed SuggestBody → Server S → Server S × Reply
  unfolding suggest_found
  suggest_parsed around (malformed text) s = (s, failed 400 (bad_json text))
  suggest_parsed around (parsed b) s =
      if b.event_id == ""
      then (s, failed 400 fields_required)
      else suggest_found around b.instruction (find_event rt gate b.event_id s) s

  unfoldable pub handle_operator_suggest :
      Surroundings S → String → Parsed SuggestBody → Server S → Server S × Reply
  unfolding suggest_parsed
  handle_operator_suggest around method body s =
      if method == "POST" then suggest_parsed around body s else (s, failed 405 method_not_allowed)

  unfoldable pub precedents_suggested : Server S → S × Suggested → Server S × Reply
  unfolding review
  precedents_suggested s (l, suggested x) = (
    verify_and_observe rt gate at (review x.decision (record s { log = l })),
    reply 200 (suggestion x),
  )
  precedents_suggested s (l, o) = (record s { log = l }, failed 500 (not_suggested o))

  unfoldable pub precedents_found :
      Surroundings S → PrecedentsBody → Option Event → Server S → Server S × Reply
  unfolding precedents_suggested instruction_or
  precedents_found around b none s = (s, failed 404 unknown_event)
  precedents_found around b (some e) s = precedents_suggested s (
      suggest_with_precedents rt.tables rt.enc rt.sort_slice around gate.orch e
        (instruction_or b.instruction default_precedent_instruction) b.max_precedents s.log)

  unfoldable pub precedents_parsed :
      Surroundings S → Parsed PrecedentsBody → Server S → Server S × Reply
  unfolding precedents_found
  precedents_parsed around (malformed text) s = (s, failed 400 (bad_json text))
  precedents_parsed around (parsed b) s =
      if b.event_id == ""
      then (s, failed 400 fields_required)
      else precedents_found around b (find_event rt gate b.event_id s) s

  unfoldable pub handle_operator_suggest_precedents :
      Surroundings S → String → Parsed PrecedentsBody → Server S → Server S × Reply
  unfolding precedents_parsed
  handle_operator_suggest_precedents around method body s =
      if method == "POST"
      then precedents_parsed around body s
      else (s, failed 405 method_not_allowed)

  unfoldable pub resolve_recorded : ResolveBody → Server S → S × Recorded → Server S × Reply
  resolve_recorded b s (l, recorded h) = (
    verify_and_observe rt gate at (
        with_alerts rt gate at 2
          (from_operator_resolution (stamp at 1) b.event_id b.operator_id b.action)
          (record s { log = l })),
    reply 200 (operator_hash h),
  )
  resolve_recorded b s (l, o) = (record s { log = l }, failed 400 (not_recorded o))

  unfoldable pub resolve_checked : ResolveBody → Option Reason → Server S → Server S × Reply
  unfolding resolve_recorded
  resolve_checked b (some reason) s = (s, failed 400 reason)
  resolve_checked b none s = resolve_recorded b s (
      record_operator_action (at.clock 0) gate.orch b.decision_audit_hash b.operator_id b.action
        b.annotation s.log)

  unfoldable pub resolve_parsed : Parsed ResolveBody → Server S → Server S × Reply
  unfolding resolve_checked resolve_refusal
  resolve_parsed (malformed text) s = (s, failed 400 (bad_json text))
  resolve_parsed (parsed b) s = resolve_checked b (resolve_refusal b) s

  unfoldable pub handle_operator_resolve : String → Parsed ResolveBody → Server S → Server S × Reply
  unfolding resolve_parsed
  handle_operator_resolve method body s =
      if method == "POST" then resolve_parsed body s else (s, failed 405 method_not_allowed)
