-- ===== src/Gateway.antt =====
-- cmd/api-gateway/main.go: the gateway's state and the operations that its handlers share. The
-- fields of server that never change stand in Gateway, the others in Server; `log` is the state of
-- the audit store behind the pointer `chain`, which the orchestrator holds as well.
pub mod Bodies
pub mod Handlers
pub mod Operator
pub mod Live
pub mod Routes
pub mod Closed
pub mod Reachable
pub mod Recent
pub mod Sound
pub mod Errors
pub mod Guarded
pub mod Ingest
pub mod Digest
pub mod Suggestions
pub mod Tests
use Prim.Native.Nat.{◌*◌, ◌^◌}
use flux_lens.Base.{
  ℕ, zero, suc, ◌+◌, ◌-◌, String, Bool, true, false, not, ◌&&◌, Option, none, some, List, [], ◌∷◌,
  ◌++◌, ◌==◌, if◌then◌else◌, length, drop, ltb,
}
use flux_lens.Base.Signed.{pos}
use flux_lens.Base.Float.{Float64, fin, Arithmetic}
use flux_lens.Base.Json.{Json, str, obj, object}
use flux_lens.Base.Pattern.{CaseTables}
use flux_lens.Base.Format.{Format}
use flux_lens.AuditLog.Record.{Error, Outcome, ok, err, Encoding}
use flux_lens.AuditLog.Store.{Store}
use flux_lens.AuditLog.Factory.{Backend, backend_label}
use flux_lens.Canonical.{Event}
use flux_lens.Alerts.{Alert}
use flux_lens.Alerts.Store as Alerts
use flux_lens.Alerts.Rules.{Stamp, from_ingest_event, from_audit_broken}
use flux_lens.Curation.{Result}
use flux_lens.Curation.Strategies.{Nondeterminism}
use flux_lens.Precedents.{Criteria, SortSlice}
use flux_lens.Llm.{Provider, DecisionResponse}
use flux_lens.Llm.Mock.{new_mock_provider, MockProvider}
use flux_lens.Orchestrator.{Orchestrator, Decision, new}

-- What the standard library and the libraries provide.
pub record Runtime : Type 0 where
  pub tables : CaseTables
  pub enc : Encoding
  pub sort_slice : SortSlice
  pub world : Nondeterminism
  pub arith64 : Arithmetic
  pub fmt : Format
  pub error_text : Error → String

-- The readings of the clock and the fresh identifiers that the handling of one request gets: each
-- use has a number of its own.
pub record Readings : Type 0 where
  pub clock : ℕ → ℕ
  pub fresh : ℕ → String
  -- The identifier of a new event, which may fail to be generated.
  pub event_id : Option String

-- What is handed to the hub for the dashboards.
pub data Message : Type 0 where
  event_message : Event → Message
  digest_message : Result → Message
  decision_message : Decision → Message

pub record Gateway (S : Type 0) : Type 0 where
  pub chain : Store S
  pub backend : Backend
  pub orch : Orchestrator S
  pub max_recent : ℕ
  pub wedge_instruction : String
  pub has_hub : Bool

-- `sent` is what BroadcastJSON was called with, in order.
pub record Server (S : Type 0) : Type 0 where
  pub recent : List Event
  pub alerts : Alerts.Store
  pub audit_ok : Bool
  pub sent : List Message
  pub log : S

-- The doubles nearest to 0.84 and 0.68.
point_eight_four : Float64
point_eight_four = fin (pos (7566047373982433 * 2 ^ 1021))

point_six_eight : Float64
point_six_eight = fin (pos (6124895493223875 * 2 ^ 1021))

unfoldable pub wedge_provider : MockProvider
unfolding point_eight_four point_six_eight
wedge_provider = new_mock_provider "fluxlens-wedge-v1" (
    record {
      classification = "routine";
      suggestion = "Continue monitoring; no line stop recommended for this anomaly signature.";
      confidence = point_eight_four;
      requires_review = false;
      reasons = "within historical variance" ∷ [];
    }
    ∷ record {
      classification = "elevated";
      suggestion =
          "Pause outbound shipments from the affected SKU lane until QA clears lot sampling.";
      confidence = point_six_eight;
      requires_review = true;
      reasons = "confidence below autonomous-release threshold" ∷ [];
    }
    ∷ [])

-- newServer, for a store that is not nil and a number of events that is not negative. The provider
-- is the mock `wedge_provider` in some state.
unfoldable pub new_gateway :
    {S : Type 0} → Provider → ℕ → Store S → Backend → String → Bool → Gateway S
new_gateway mock max_recent chain backend wedge_instruction has_hub = record {
  chain = chain;
  backend = backend;
  orch = new (some mock) none chain "demo";
  max_recent = max_recent;
  wedge_instruction = wedge_instruction;
  has_hub = has_hub;
}

unfoldable pub new_server : {S : Type 0} → S → Server S
new_server log = record {
  recent = [];
  alerts = Alerts.new_store (pos 400);
  audit_ok = true;
  sent = [];
  log = log;
}

-- s.recent[len(s.recent)-s.maxRecent:] where the slice is longer
unfoldable pub keep_newest : {A : Type 0} → ℕ → List A → List A
keep_newest max xs = if ltb max (length xs) then drop (length xs - max) xs else xs

unfoldable pub find_in : String → List Event → Option Event
find_in id [] = none
find_in id (e ∷ more) = let rest = find_in id more in if e.event_id == id then some e else rest

abbrev pub stamp : Readings → ℕ → Stamp
stamp at n = record { id = at.fresh n; now = at.clock n }

-- for _, a := range ... { s.alerts.Add(a) }
unfoldable pub raise : Readings → ℕ → List Alert → Alerts.Store → Alerts.Store
raise at n [] s = s
raise at n (a ∷ more) s =
    raise at (suc (suc n)) more (Alerts.add (at.clock n) (at.clock (suc n)) a s)

-- `ok && verifyErr == nil`
unfoldable pub is_verified : Outcome Bool → Bool
is_verified (ok b) = b
is_verified (err e) = false

unfoldable pub error_of : Outcome Bool → Option Error
error_of (ok b) = none
error_of (err e) = some e

unfoldable pub text_of : (Error → String) → Option Error → Option String
text_of describe none = none
text_of describe (some e) = some (describe e)

module _ {S : Type 0} (rt : Runtime) (gate : Gateway S) where
  unfoldable pub add_recent : Event → Server S → Server S
  unfolding keep_newest
  add_recent e s = record s { recent = keep_newest gate.max_recent (s.recent ++ e ∷ []) }

  abbrev pub snapshot_recent : Server S → List Event
  snapshot_recent s = s.recent

  unfoldable pub find_event : String → Server S → Option Event
  unfolding find_in
  find_event id s = find_in id s.recent

  abbrev pub with_alerts : Readings → ℕ → List Alert → Server S → Server S
  with_alerts at n alerts s = record s { alerts = raise at n alerts s.alerts }

  abbrev pub append_log : ℕ → String → Json → Server S → Server S
  append_log now kind payload s = record s { log = (gate.chain.append now kind payload s.log).0 }

  abbrev pub broadcast : Bool → Message → Server S → Server S
  broadcast hub m s = if hub then record s { sent = s.sent ++ m ∷ [] } else s

  unfoldable pub observe_audit : Readings → Outcome Bool → Server S → Server S
  unfolding raise is_verified error_of text_of
  observe_audit at result s =
      let valid = is_verified result in
      record (if not valid && s.audit_ok
        then with_alerts at 21
            (from_audit_broken (stamp at 20) (text_of rt.error_text (error_of result))) s
        else s) { audit_ok = valid }

  -- The two lines at the end of the handlers: Verify and observeAudit.
  unfoldable pub verify_and_observe : Readings → Server S → Server S
  unfolding observe_audit
  verify_and_observe at s = observe_audit at (gate.chain.verify s.log) s

  unfoldable pub ingest_payload : Event → Json
  ingest_payload e =
      obj (object (("event_id", str e.event_id) ∷ ("source_id", str e.source_id) ∷ []))

  -- The argument is whether the caller passes a hub.
  unfoldable pub ingest_event : Readings → Bool → Event → Server S → Server S
  unfolding ingest_payload add_recent
  ingest_event at hub e s = with_alerts at 2 (from_ingest_event (stamp at 1) e) (
      append_log (at.clock 0) "ingest" (ingest_payload e)
        (broadcast hub (event_message e) (add_recent e s)))

  unfoldable pub startup_payload : Readings → Json
  startup_payload at = obj (
      object (
        ("backend", str (backend_label gate.backend))
        ∷ ("event", str "api-gateway-startup")
        ∷ ("time", str (rt.enc.rfc3339_nano (at.clock 0)))
        ∷ []))

  -- The record that main seeds the log with.
  unfoldable pub startup : Readings → Server S → Server S
  unfolding startup_payload
  startup at s = append_log (at.clock 1) "system" (startup_payload at) s
