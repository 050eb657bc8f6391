-- ===== src/Gateway/Errors.antt =====
-- A request that is answered with an error.
pub mod Operators
pub mod Serve
use flux_lens.Base.{
  ℕ, String, Bool, true, false, ◌||◌, ◌≡◌, refl, Option, none, some, ◌==◌, inl, inr, Bool-cases,
  if◌then◌else◌,
}
use flux_lens.Base.Json.{Json}
use flux_lens.AuditLog.Record.{Encoding, Error, err}
use flux_lens.AuditLog.Store.{Store, chain_store}
use flux_lens.AuditLog.Chain.Invariant.{append_fails}
use flux_lens.Canonical.{Event, EventError, Made, event, failed as unmade, validate}
use flux_lens.Curation as Curation
use flux_lens.Gateway.{Runtime, Readings, Gateway, Server}
use flux_lens.Gateway.Bodies.{
  Parsed, malformed, parsed, DigestQuery, WebhookBody, Reply, reply, failed,
}
use flux_lens.Gateway.Handlers.{
  handle_events, events_parsed, events_checked, handle_digest, digest_served, digest_request,
  handle_operator_export, handle_alerts,
}
use flux_lens.Gateway.Live.{
  handle_webhook, webhook_parsed, webhook_made, webhook_checked, with_time,
}

-- An Append that fails leaves the store's state as it was.
abbrev pub UndoesFailure : {S : Type 0} → Store S → Type 0
UndoesFailure {S} chain =
    (now : ℕ) (kind : String) (payload : Json) (l : S) (e : Error)
    → (chain.append now kind payload l).1 ≡ err e
    → (chain.append now kind payload l).0 ≡ l

pub chain_store-UndoesFailure : (enc : Encoding) → UndoesFailure (chain_store enc)
chain_store-UndoesFailure enc now kind payload l e h = (append_fails enc now kind payload l e h).0

-- If the answer is an error then the state is the one before.
abbrev pub Untouched : {X : Type 0} → X → X × Reply → Type 0
Untouched {X} x (y, reply code body) = Unit
Untouched {X} x (y, failed code reason) = y ≡ x

module _ {S : Type 0} (rt : Runtime) (gate : Gateway S) (at : Readings) where
  checked-Untouched :
      (e : Event) (bad : Option EventError) (s : Server S)
      → Untouched s (events_checked rt gate at e bad s)
  unfolding events_checked
  checked-Untouched e (some reason) s = refl
  checked-Untouched e none s = tt

  parsed-Untouched :
      (body : Parsed Event) (s : Server S) → Untouched s (events_parsed rt gate at body s)
  unfolding events_parsed
  parsed-Untouched (malformed text) s = refl
  parsed-Untouched (parsed e) s = checked-Untouched e (validate e) s

  pub events-Untouched :
      (method : String) (body : Parsed Event) (s : Server S)
      → Untouched s (handle_events rt gate at method body s)
  unfolding handle_events
  events-Untouched method body s = elim (Bool-cases (method == "POST")) [
    | inl post ↦ rw post (parsed-Untouched body s)
    | inr other ↦ rw other refl
  ]

  served-Untouched :
      (req : Curation.Request) (o : Curation.Outcome) (s : Server S)
      → Untouched s (digest_served rt gate at req o s)
  unfolding digest_served
  served-Untouched req (Curation.ok res) s = tt
  served-Untouched req Curation.negative_k s = refl
  served-Untouched req Curation.unknown_strategy s = refl

  pub digest-Untouched :
      (q : DigestQuery) (s : Server S) → Untouched s (handle_digest rt gate at q s)
  unfolding handle_digest
  digest-Untouched q s = served-Untouched (digest_request rt gate at q s) _ s

  pub export-Untouched :
      (method : String) (s : Server S) → Untouched s (handle_operator_export rt gate at method s)
  unfolding handle_operator_export
  export-Untouched method s = elim (Bool-cases (method == "GET")) [
    | inl get ↦ rw get tt
    | inr other ↦ rw other refl
  ]

  pub alerts-Untouched :
      (method : String) (s : Server S) → Untouched s (handle_alerts rt gate at method s)
  unfolding handle_alerts
  alerts-Untouched method s = elim (Bool-cases (method == "GET")) [
    | inl get ↦ rw get tt
    | inr other ↦ elim (Bool-cases (method == "DELETE")) [
      | inl delete ↦ rw (other, delete) tt
      | inr neither ↦ rw (other, neither) refl
    ]
  ]

  webhook_checked-Untouched :
      (e : Event) (bad : Option EventError) (s : Server S)
      → Untouched s (webhook_checked rt gate at e bad s)
  unfolding webhook_checked
  webhook_checked-Untouched e (some reason) s = refl
  webhook_checked-Untouched e none s = tt

  webhook_made-Untouched :
      (time : Option ℕ) (made : Made) (s : Server S)
      → Untouched s (webhook_made rt gate at time made s)
  unfolding webhook_made
  webhook_made-Untouched time (unmade reason) s = refl
  webhook_made-Untouched time (event e) s = webhook_checked-Untouched (with_time time e) _ s

  webhook_parsed-Untouched :
      (body : Parsed WebhookBody) (s : Server S) → Untouched s (webhook_parsed rt gate at body s)
  unfolding webhook_parsed
  webhook_parsed-Untouched (malformed text) s = refl
  webhook_parsed-Untouched (parsed b) s =
      elim (Bool-cases (b.source_id == "" || b.event_type == "")) [
        | inl bad ↦ rw bad refl
        | inr fine ↦ rw fine (webhook_made-Untouched b.timestamp _ s)
      ]

  pub webhook-Untouched :
      (method : String) (body : Parsed WebhookBody) (s : Server S)
      → Untouched s (handle_webhook rt gate at method body s)
  unfolding handle_webhook
  webhook-Untouched method body s = elim (Bool-cases (method == "POST")) [
    | inl post ↦ rw post (webhook_parsed-Untouched body s)
    | inr other ↦ rw other refl
  ]
