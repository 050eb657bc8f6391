-- ===== src/Gateway/Closed.antt =====
-- What the primitive steps on the server keep, every handler keeps.
pub mod Operators
use flux_lens.Base.{
  ℕ, String, Bool, true, false, not, ◌&&◌, ◌||◌, ◌≡◌, refl, Option, none, some, List, [], ◌∷◌, ◌++◌,
  ◌==◌, inl, inr, Bool-cases, All, arith, if◌then◌else◌, length,
}
use flux_lens.Base.Signed.{ℤ, pos, lt_ℤ}
use flux_lens.Base.Float.{Float64, lt_f}
use flux_lens.Base.Format.{Format}
use flux_lens.Base.Json.{Json}
use flux_lens.Canonical.{
  Event, EventError, Made, event, failed as unmade, validate, rank, new_event, source_webhook,
}
use flux_lens.Alerts.{Alert}
use flux_lens.Alerts.Store as Alerts
use flux_lens.Alerts.Rules.{
  Stamp, from_ingest_event, from_digest_quality, from_operator_review_required,
  from_operator_resolution,
}
use flux_lens.Curation as Curation
use flux_lens.Curation.{select}
use flux_lens.Gateway.{
  Runtime, Readings, Gateway, Server, Message, raise, add_recent, with_alerts, append_log,
  broadcast, observe_audit, verify_and_observe, ingest_event, stamp,
}
use flux_lens.Gateway.Bodies.{Parsed, malformed, parsed, DigestQuery, WebhookBody}
use flux_lens.Gateway.Handlers.{
  handle_health, handle_events, events_parsed, events_checked, handle_digest, digest_served,
  digest_request, handle_operator_export, handle_audit, handle_alerts,
}
use flux_lens.Gateway.Live.{
  handle_webhook, webhook_parsed, webhook_made, webhook_checked, ingest_again, add_all_recent,
  with_time,
}

abbrev pub audit_rule : String
audit_rule = "platform.audit_chain_invalid"

-- An alert that does not report a broken log.
abbrev pub IsOrdinary : Alert → Type 0
IsOrdinary a = (a.rule_id == audit_rule) ≡ false

ingest-All : (s : Stamp) (e : Event) → All IsOrdinary (from_ingest_event s e)
unfolding from_ingest_event
ingest-All s e = elim (Bool-cases (lt_ℤ (rank e.severity) (rank "warn"))) [
  | inl low ↦ rw low tt
  | inr high ↦ rw high (refl, tt)
]

review-All :
    (s : Stamp) (id class : String) → All IsOrdinary (from_operator_review_required s id class)
unfolding from_operator_review_required
review-All s id class = (refl, tt)

resolution-All :
    (s : Stamp) (id who action : String) → All IsOrdinary (from_operator_resolution s id who action)
unfolding from_operator_resolution
resolution-All s id who action = (refl, tt)

digest-All :
    (fmt : Format) (s : Stamp × Stamp × Stamp) (f d : Float64) (strategy k n : ℤ)
    → All IsOrdinary (from_digest_quality fmt s f d strategy k n)
unfolding from_digest_quality
digest-All fmt s f d strategy k n = ground arith

-- The primitive steps keep it.
pub record IsClosed {S : Type 0} (rt : Runtime) (gate : Gateway S) (P : Server S → Type 0)
    : Type 0 where
  pub appends :
      (now : ℕ) (kind : String) (payload : Json) (s : Server S)
      → P s
      → P (append_log rt gate now kind payload s)
  pub remembers : (e : Event) (s : Server S) → P s → P (add_recent rt gate e s)
  pub raises :
      (at : Readings) (n : ℕ) (alerts : List Alert) (s : Server S)
      → All IsOrdinary alerts
      → P s
      → P (with_alerts rt gate at n alerts s)
  pub sends : (m : Message) (s : Server S) → P s → P (record s { sent = s.sent ++ m ∷ [] })
  pub clears : (s : Server S) → P s → P (record s { alerts = Alerts.clear s.alerts })
  pub observes : (at : Readings) (s : Server S) → P s → P (verify_and_observe rt gate at s)

module _ {S : Type 0} (rt : Runtime) (gate : Gateway S) (P : Server S → Type 0)
    (closed : IsClosed rt gate P) where
  pub broadcast_keeps :
      (hub : Bool) (m : Message) (s : Server S) → P s → P (broadcast rt gate hub m s)
  broadcast_keeps true m s h = closed.sends m s h
  broadcast_keeps false m s h = h

  pub ingest_keeps :
      (at : Readings) (hub : Bool) (e : Event) (s : Server S)
      → P s
      → P (ingest_event rt gate at hub e s)
  unfolding ingest_event
  ingest_keeps at hub e s h =
      closed.raises at _ _ _ (ingest-All _ e)
        (closed.appends _ _ _ _ (broadcast_keeps hub _ _ (closed.remembers e s h)))

  pub health_keeps : (at : Readings) (s : Server S) → P s → P (handle_health rt gate at s).0
  unfolding handle_health verify_and_observe
  health_keeps at s h = closed.observes at s h

  pub audit_keeps : (at : Readings) (s : Server S) → P s → P (handle_audit rt gate at s).0
  unfolding handle_audit verify_and_observe
  audit_keeps at s h = closed.observes at s h

  pub export_keeps :
      (at : Readings) (method : String) (s : Server S)
      → P s
      → P (handle_operator_export rt gate at method s).0
  unfolding handle_operator_export verify_and_observe
  export_keeps at method s h = elim (Bool-cases (method == "GET")) [
    | inl get ↦ rw get (closed.observes at s h)
    | inr other ↦ rw other h
  ]

  pub alerts_keeps :
      (at : Readings) (method : String) (s : Server S)
      → P s
      → P (handle_alerts rt gate at method s).0
  unfolding handle_alerts
  alerts_keeps at method s h = elim (Bool-cases (method == "GET")) [
    | inl get ↦ rw get h
    | inr other ↦ elim (Bool-cases (method == "DELETE")) [
      | inl delete ↦ rw (other, delete) (closed.clears s h)
      | inr neither ↦ rw (other, neither) h
    ]
  ]

  checked_keeps :
      (at : Readings) (e : Event) (bad : Option EventError) (s : Server S)
      → P s
      → P (events_checked rt gate at e bad s).0
  unfolding events_checked
  checked_keeps at e (some reason) s h = h
  checked_keeps at e none s h = closed.observes at _ (ingest_keeps at gate.has_hub e s h)

  parsed_keeps :
      (at : Readings) (body : Parsed Event) (s : Server S)
      → P s
      → P (events_parsed rt gate at body s).0
  unfolding events_parsed
  parsed_keeps at (malformed text) s h = h
  parsed_keeps at (parsed e) s h = checked_keeps at e (validate e) s h

  pub events_keeps :
      (at : Readings) (method : String) (body : Parsed Event) (s : Server S)
      → P s
      → P (handle_events rt gate at method body s).0
  unfolding handle_events
  events_keeps at method body s h = elim (Bool-cases (method == "POST")) [
    | inl post ↦ rw post (parsed_keeps at body s h)
    | inr other ↦ rw other h
  ]

  served_keeps :
      (at : Readings) (req : Curation.Request) (o : Curation.Outcome) (s : Server S)
      → P s
      → P (digest_served rt gate at req o s).0
  unfolding digest_served
  served_keeps at req (Curation.ok res) s h = broadcast_keeps gate.has_hub _ _ (
      closed.observes at _
        (closed.raises at _ _ _ (digest-All _ _ _ _ _ _ _) (closed.appends _ _ _ s h)))
  served_keeps at req Curation.negative_k s h = h
  served_keeps at req Curation.unknown_strategy s h = h

  pub digest_keeps :
      (at : Readings) (q : DigestQuery) (s : Server S) → P s → P (handle_digest rt gate at q s).0
  unfolding handle_digest
  digest_keeps at q s h = served_keeps at (digest_request rt gate at q s) _ s h

  webhook_checked_keeps :
      (at : Readings) (e : Event) (bad : Option EventError) (s : Server S)
      → P s
      → P (webhook_checked rt gate at e bad s).0
  unfolding webhook_checked
  webhook_checked_keeps at e (some reason) s h = h
  webhook_checked_keeps at e none s h = closed.observes at _ (ingest_keeps at gate.has_hub e s h)

  webhook_made_keeps :
      (at : Readings) (time : Option ℕ) (made : Made) (s : Server S)
      → P s
      → P (webhook_made rt gate at time made s).0
  unfolding webhook_made
  webhook_made_keeps at time (unmade reason) s h = h
  webhook_made_keeps at time (event e) s h = webhook_checked_keeps at (with_time time e) _ s h

  webhook_parsed_keeps :
      (at : Readings) (body : Parsed WebhookBody) (s : Server S)
      → P s
      → P (webhook_parsed rt gate at body s).0
  unfolding webhook_parsed
  webhook_parsed_keeps at (malformed text) s h = h
  webhook_parsed_keeps at (parsed b) s h =
      elim (Bool-cases (b.source_id == "" || b.event_type == "")) [
        | inl bad ↦ rw bad h
        | inr fine ↦ rw fine (webhook_made_keeps at b.timestamp _ s h)
      ]

  pub webhook_keeps :
      (at : Readings) (method : String) (body : Parsed WebhookBody) (s : Server S)
      → P s
      → P (handle_webhook rt gate at method body s).0
  unfolding handle_webhook
  webhook_keeps at method body s h = elim (Bool-cases (method == "POST")) [
    | inl post ↦ rw post (webhook_parsed_keeps at body s h)
    | inr other ↦ rw other h
  ]

  pub again_keeps :
      (at : Readings) (found : Option Event) (s : Server S)
      → P s
      → P (ingest_again rt gate at found s)
  unfolding ingest_again
  again_keeps at none s h = h
  again_keeps at (some e) s h = ingest_keeps at false e s h

  pub add_all_keeps :
      (at : Readings) (es : List Event) (s : Server S) → P s → P (add_all_recent rt gate at es s)
  unfolding add_all_recent
  add_all_keeps at [] s h = h
  add_all_keeps at (e ∷ es) s h = add_all_keeps at es _ (closed.remembers e s h)
