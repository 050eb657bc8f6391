-- ===== src/KafkaBridge.antt =====
-- internal/kafkabridge/consumer.go: the consumers of the three topics, over the state that their
-- handlers change. A consumer is given what the client's ReadMessage returns, call after call.
use flux_lens.Base.{String, Option, none, some, List, [], ◌∷◌, ◌==◌, if◌then◌else◌}
use flux_lens.Base.Signed.{ℤ}
use flux_lens.Base.Float.{Float64}
use flux_lens.Canonical.{Event, EventError, validate}
use flux_lens.Curation.{Result}
use flux_lens.Orchestrator.{Decision}

-- The digest as the curator publishes it.
pub record CuratedDigest : Type 0 where
  pub strategy : ℤ
  pub freshness : Float64
  pub diversity : Float64
  pub redundancy : Float64
  pub selected : List Event
  pub window_end : String

pub record Config : Type 0 where
  pub brokers : String
  pub group_id : String
  pub decisions_topic : String
  pub curated_topic : String
  pub raw_topic : String

-- A nil callback is `none`.
pub record Handlers (X : Type 0) : Type 0 where
  pub on_decision : Option (Decision → X → X)
  pub on_curated : Option (Result → X → X)
  pub on_raw_event : Option (Event → X → X)

-- One round of the loop: a message with what json.Unmarshal makes of it, an error of ReadMessage
-- such as its timeout, or the end of the context.
pub data Read (A : Type 0) : Type 0 where
  message : A → Read A
  undecodable timed_out canceled : Read A

unfoldable pub loop : {A X : Type 0} → (A → X → X) → List (Read A) → X → X
loop handle [] x = x
loop handle (canceled ∷ more) x = x
loop handle (timed_out ∷ more) x = loop handle more x
loop handle (undecodable ∷ more) x = loop handle more x
loop handle (message a ∷ more) x = loop handle more (handle a x)

-- The consumer returns at once without a topic or a callback.
unfoldable pub consume : {A X : Type 0} → String → Option (A → X → X) → List (Read A) → X → X
unfolding loop
consume topic none reads x = x
consume topic (some handle) reads x = if topic == "" then x else loop handle reads x

unfoldable pub run_decisions_consumer :
    {X : Type 0} → Config → Handlers X → List (Read Decision) → X → X
unfolding consume
run_decisions_consumer cfg h reads x = consume cfg.decisions_topic h.on_decision reads x

unfoldable pub result_of : CuratedDigest → Result
result_of d = record {
  selected = d.selected;
  strategy = d.strategy;
  freshness_score = d.freshness;
  diversity_score = d.diversity;
  redundancy_score = d.redundancy;
}

on_digest : {X : Type 0} → Option (Result → X → X) → Option (CuratedDigest → X → X)
on_digest none = none
on_digest (some f) = some (λ d x. f (result_of d) x)

unfoldable pub run_curated_consumer :
    {X : Type 0} → Config → Handlers X → List (Read CuratedDigest) → X → X
unfolding consume on_digest result_of
run_curated_consumer cfg h reads x = consume cfg.curated_topic (on_digest h.on_curated) reads x

valid_only : {X : Type 0} → (Event → X → X) → Option EventError → Event → X → X
valid_only f (some reason) e x = x
valid_only f none e x = f e x

on_valid : {X : Type 0} → Option (Event → X → X) → Option (Event → X → X)
unfolding valid_only
on_valid none = none
on_valid (some f) = some (λ e x. valid_only f (validate e) e x)

unfoldable pub run_raw_consumer : {X : Type 0} → Config → Handlers X → List (Read Event) → X → X
unfolding consume on_valid
run_raw_consumer cfg h reads x = consume cfg.raw_topic (on_valid h.on_raw_event) reads x
