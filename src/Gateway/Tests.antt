-- ===== src/Gateway/Tests.antt =====
-- A gateway over the in-memory chain with room for two recent events, its requests, and the
-- theorems on them. The runtime prints little and ranges over maps in the order of their entries.
use mathlib.Core.List.Permᴰ
use mathlib.Core.List.{Memᴰ}
use Prim.Native.Nat.{◌≤◌}
use flux_lens.Base.{
  String, true, false, ◌≡◌, ◌≢◌, ◌⊎◌, refl, none, some, List, [], ◌∷◌, All, length,
}
use flux_lens.Base.Dict.{find, assign}
use flux_lens.Base.Signed.{pos}
use flux_lens.Base.Float.{fin, nan, is_finite, Arithmetic, f_one, f_zero, f_point_six, lt_f}
use flux_lens.Base.Sorting.{IsSorted}
use flux_lens.Base.Json.{null, encodable}
use flux_lens.AuditLog.Record.{hashable, canonical_bytes, compute_hash, compute_hash_with_prev}
use flux_lens.AuditLog.Chain.{Chain, new_chain, append, verify, verify_records}
use flux_lens.AuditLog.Chain.Adds.{Adds}
use flux_lens.AuditLog.Chain.Invariant.{new_chain-IsValid}
use flux_lens.Canonical.{Event, validate, rank}
use flux_lens.Curation.{Result}
use flux_lens.Curation.Strategies.{Nondeterminism, later}
use flux_lens.Curation.Strategies.Members.{IsFair}
use flux_lens.Llm.{Provider, answered}
use flux_lens.Orchestrator.{
  Decision, Surroundings, new, no_response, audit, response_json, text_or_empty, prompt_hash,
  event_tenant,
}
use flux_lens.Orchestrator.Guards.{validate_input, validate_output, new_default_guardrails}
use flux_lens.Orchestrator.Decide.{decide, decide_valid, context_json, decision_payload}
use flux_lens.Orchestrator.Tests.{tables, plain, event, provider, reply as llm_reply}
use flux_lens.HttpAuth.{extract_key, api_key_middleware, is_public_path, trimmed_keys}
use flux_lens.Base.Text.{trim_space, split_on, cut}
use flux_lens.Base.Pattern.{to_lower, matches, byte_length}
use flux_lens.HttpAuth.Roles.{
  configured, parse_key_roles, entry_roles, rbac_middleware, require_roles, has_role, role_operator,
  role_reviewer, role_admin,
}
use flux_lens.HttpAuth.Roles.Access.{Grants}
use flux_lens.Gateway.{
  Runtime, Readings, Gateway, Server, new_server, new_gateway, keep_newest, find_event,
  observe_audit, verify_and_observe, add_recent, ingest_event,
}
use flux_lens.Gateway.Bodies.{
  Parsed, malformed, parsed, DigestQuery, SuggestBody, Reply as HttpReply, reply, failed, digest,
  decision, method_not_allowed, bad_json,
}
use flux_lens.Gateway.Handlers.{handle_events, handle_digest, diversity_or_default, size_or_default}
use flux_lens.Gateway.Operator.{handle_operator_suggest, handle_operator_resolve, instruction_or}
use flux_lens.Gateway.Live.{System, new_live_state, add_all_recent, on_decision}
use flux_lens.Gateway.Routes.{HttpRequest, on_server, serve, answered as answered_with}
use flux_lens.Gateway.Reachable.{start, next, request, with_provider}
use flux_lens.Gateway.Recent.{IsFirst, find_event-add_all_recent}
use flux_lens.Gateway.Sound.{IsSound, in_memory, reachable-IsSound}
use flux_lens.Gateway.Errors.{chain_store-UndoesFailure}
use flux_lens.Gateway.Errors.Serve.{of_handler, serve_error}
use flux_lens.Gateway.Guarded.{resolve, serve_guarded}
use flux_lens.Gateway.Ingest.{
  IsIngested, IsPosted, Takes, Refuses, handle_events_lem, on_decision_again,
}
use flux_lens.Gateway.Digest.{payload, handle_digest-serves, handle_digest_logs}

abbrev world : Nondeterminism
world = record { range = λ m. m; shuffle = λ xs. xs }

world-IsFair : IsFair world
world-IsFair = record { ranges = λ m. Permᴰ.refl _; shuffles = λ xs. Permᴰ.refl _ }

abbrev arith64 : Arithmetic
arith64 = record {
  of_int = λ n. fin (pos n);
  add = λ x y. fin (pos 0);
  sub = λ x y. fin (pos 0);
  mul = λ x y. fin (pos 0);
  div = λ x y. fin (pos 0);
  to_int = λ x. pos 0;
}

abbrev runtime : Runtime
runtime = record {
  tables = tables;
  enc = plain;
  sort_slice = λ less xs. xs;
  world = world;
  arith64 = arith64;
  fmt = record { decimal = λ n. "n"; fixed = λ digits x. "x" };
  error_text = λ e. "error";
}

abbrev at : Readings
at = record { clock = λ n. 40; fresh = λ n. "fresh"; event_id = some "fresh" }

abbrev mock : Provider
mock = provider (answered (llm_reply f_one false))

abbrev gate : Gateway Chain
gate = in_memory runtime mock 2 "classify" true

abbrev at_rest : System Chain
at_rest = record { server = new_server new_chain; live = new_live_state (pos 500) }

abbrev named : String → Event
named id = record event { event_id = id }

-- A request with the key "k" and one event for every body.
abbrev http : String → String → HttpRequest
http method path = record {
  method = method;
  auth = record { path = path; x_api_key = "k"; authorization = "" };
  query = record { strategy = pos 0; diversity = none; k = none };
  event = parsed event;
  suggest = parsed (record { event_id = "e1"; instruction = "" });
  precedents = malformed "eof";
  resolve = malformed "eof";
  webhook = malformed "eof";
  upgrades = true;
}

run : Unit {0}
unfolding serve handle_events validate rank new_server new_gateway new keep_newest find_event
    api_key_middleware configured parse_key_roles entry_roles rbac_middleware is_public_path
    on_server require_roles has_role extract_key trimmed_keys trim_space split_on cut to_lower find
    assign append verify handle_operator_suggest handle_operator_resolve decide decide_valid audit
    validate_input validate_output new_default_guardrails matches byte_length compute_hash
    compute_hash_with_prev canonical_bytes hashable encodable response_json text_or_empty
    prompt_hash event_tenant context_json decision_payload lt_f f_zero f_one f_point_six
    observe_audit verify_and_observe add_recent verify_records instruction_or
run = tt

-- The state after a POST of the event.
abbrev posted : System Chain
posted =
    (serve runtime (with_provider gate (some mock)) [] [] at (http "POST" "/api/v1/events")
      at_rest).0

reachable-IsSound_example : IsSound runtime gate posted.server
reachable-IsSound_example =
    reachable-IsSound runtime mock 2 "classify" true [] [] new_chain posted
      (new_chain-IsValid plain)
      (next at_rest posted start (request (some mock) at (http "POST" "/api/v1/events") at_rest))

not_get :
    (serve runtime gate [] [] at (http "GET" "/api/v1/events") at_rest).1
    ≡ answered_with (failed 405 method_not_allowed)
unfolding run
not_get = refl

serve_error_example :
    (serve runtime gate [] [] at (http "GET" "/api/v1/events") at_rest).0 ≡ at_rest
unfolding run
serve_error_example =
    serve_error runtime gate (chain_store-UndoesFailure plain) at (http "GET" "/api/v1/events") []
      [] at_rest (of_handler 405 method_not_allowed)

find_event-add_all_recent_example :
    let es = named "a" ∷ named "b" ∷ named "c" ∷ [] in
    let s = add_all_recent runtime gate at es (new_server new_chain) in
    let newest = keep_newest 2 es in
    ((find_event runtime gate "b" s ≡ none) × All (λ x. x.event_id ≢ "b") newest)
    ⊎ ((e : Event) × (find_event runtime gate "b" s ≡ some e) × IsFirst "b" newest e)
unfolding new_gateway
find_event-add_all_recent_example =
    find_event-add_all_recent runtime gate at (named "a" ∷ named "b" ∷ named "c" ∷ []) new_chain "b"

handle_events_lem_example :
    let s = new_server new_chain in
    ((e : Event) × IsPosted "POST" (parsed event) e
      × Takes runtime mock 2 "classify" true at s e
          (handle_events runtime gate at "POST" (parsed event) s))
    ⊎ (((e : Event) → ¬ IsPosted "POST" (parsed event) e)
        × Refuses s (handle_events runtime gate at "POST" (parsed event) s))
handle_events_lem_example =
    handle_events_lem runtime mock 2 "classify" true at "POST" (parsed event) (new_server new_chain)

-- The server that remembers the event.
abbrev knowing : System Chain
knowing = record at_rest { server = record (new_server new_chain) { recent = event ∷ [] } }

abbrev read : Decision
read = record {
  event_id = "e1";
  provider = "p";
  model_id = "m";
  prompt_hash = "";
  response = no_response;
  guardrails = "pass";
  operator_review = false;
  audit_chain_hash = "";
  audit_chain_prev = "";
}

on_decision_again_example :
    IsIngested runtime gate event knowing.server (on_decision runtime gate at read knowing).server
unfolding run
on_decision_again_example =
    on_decision_again runtime mock 2 "classify" true at read event knowing refl

-- It stands there twice.
twice : (on_decision runtime gate at read knowing).server.recent ≡ event ∷ event ∷ []
unfolding run on_decision ingest_event
twice = refl

abbrev three : DigestQuery
three = record { strategy = pos 1; diversity = some nan; k = some (pos 3) }

handle_digest-serves_example :
    (r : Result) × ((handle_digest runtime gate at three knowing.server).1 ≡ reply 200 (digest r))
    × All (λ e. Memᴰ e (event ∷ [])) r.selected
    × IsSorted later r.selected
    × (length r.selected ≤ size_or_default (some (pos 3)))
handle_digest-serves_example =
    handle_digest-serves runtime gate at three knowing.server world-IsFair

handle_digest_logs_example :
    let s = knowing.server in
    (r : Result) × ((handle_digest runtime gate at three s).1 ≡ reply 200 (digest r))
    × ((is_finite (diversity_or_default (some nan)) ≡ true)
        → Adds plain 40 "digest_selection"
            (payload runtime mock 2 "classify" true at three r)
            s.log
            (handle_digest runtime gate at three s).0.log)
    × ((is_finite (diversity_or_default (some nan)) ≡ false)
        → (handle_digest runtime gate at three s).0.log ≡ s.log)
handle_digest_logs_example =
    handle_digest_logs runtime mock 2 "classify" true at three knowing.server

abbrev wanted : Parsed SuggestBody
wanted = parsed (record { event_id = "e1"; instruction = "" })

-- Another caller appends a record before Decide reads the head, and one after it.
abbrev append_other : Chain → Chain
append_other l = (append plain 39 "ingest" null l).0

abbrev busy : Surroundings Chain
busy = record { clock = 40; before = append_other; between = append_other }

abbrev answered_suggest : Server Chain × HttpReply
answered_suggest = handle_operator_suggest runtime gate at busy "POST" wanted knowing.server

abbrev decision_in : HttpReply → Decision
decision_in (reply code (decision d)) = d
decision_in _ = read

abbrev shown : Decision
shown = decision_in answered_suggest.1

some_roles : (configured ("k" ∷ []) ("k:operator" ∷ [])).1 ≢ []
unfolding run
some_roles h = cc

eof_answer :
    serve runtime gate
      ("k" ∷ [])
      ("k:operator" ∷ [])
      at
      (http "POST" "/api/v1/operator/resolve")
      at_rest
    ≡ (at_rest, answered_with (failed 400 (bad_json "eof")))
unfolding run
eof_answer = refl

serve_guarded_example :
    (held : List String) × (find
        (configured ("k" ∷ []) ("k:operator" ∷ [])).1
        (extract_key tables (http "POST" "/api/v1/operator/resolve").auth)
      ≡ some held)
    × Grants (role_operator ∷ role_reviewer ∷ role_admin ∷ []) held
serve_guarded_example =
    serve_guarded runtime gate at (http "POST" "/api/v1/operator/resolve") ("k" ∷ [])
      ("k:operator" ∷ []) (role_operator ∷ role_reviewer ∷ role_admin ∷ []) at_rest at_rest
      (failed 400 (bad_json "eof")) some_roles resolve eof_answer
