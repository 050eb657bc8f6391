-- ===== src/Gateway/Ingest.antt =====
-- Events that come in over HTTP or Kafka, on the in-memory chain.
use flux_lens.Base.{
  ℕ, String, Bool, true, false, not, ◌&&◌, ◌≡◌, ◌≢◌, refl, ap, ◌∙◌, Option, none, some, [], ◌∷◌,
  ◌++◌, inl, inr, ◌⊎◌, Bool-cases, arith, eq_iff, text_cases, ==-false→ne,
}
use flux_lens.Base.Json.{encodable}
use flux_lens.AuditLog.Record.{Record}
use flux_lens.AuditLog.Chain.{Chain, append}
use flux_lens.AuditLog.Chain.Adds.{Adds, append-Adds}
use flux_lens.Canonical.{Event, EventError, validate}
use flux_lens.Llm.{Provider}
use flux_lens.Orchestrator.{Decision}
use flux_lens.Gateway.{
  Runtime, Readings, Gateway, Server, Message, decision_message, new_gateway, keep_newest,
  add_recent, find_event, ingest_event, ingest_payload, observe_audit, verify_and_observe,
  is_verified, broadcast,
}
use flux_lens.Gateway.Bodies.{
  Parsed, malformed, parsed, Reply, reply, failed, Reason, method_not_allowed, accepted, bad_event,
  bad_json,
}
use flux_lens.Gateway.Handlers.{handle_events, events_parsed, events_checked}
use flux_lens.Gateway.Live.{System, on_decision, ingest_again}
use flux_lens.Gateway.Sound.{in_memory}

-- What a server took in: the event stands behind the recent ones, of which the oldest give way when
-- they are too many, and the log has one more record, which names the event and its source.
pub record IsIngested (rt : Runtime) (gate : Gateway Chain) (e : Event) (s s' : Server Chain)
    : Type 0 where
  pub remembered : s'.recent ≡ keep_newest gate.max_recent (s.recent ++ e ∷ [])
  pub logged :
      (rec : Record) × (s'.log.records ≡ s.log.records ++ rec ∷ [])
      × (rec.kind ≡ "ingest")
      × (rec.payload ≡ ingest_payload rt gate e)

-- The same recent events and the same log.
pub record SameLog {S : Type 0} (s s' : Server S) : Type 0 where
  pub recent : s'.recent ≡ s.recent
  pub log : s'.log ≡ s.log

module _ {S : Type 0} (rt : Runtime) (gate : Gateway S) (at : Readings) where
  pub verify_and_observe-SameLog : (s : Server S) → SameLog s (verify_and_observe rt gate at s)
  unfolding verify_and_observe observe_audit
  verify_and_observe-SameLog s =
      elim (Bool-cases (not (is_verified (gate.chain.verify s.log)) && s.audit_ok)) [
        | inl broken ↦ rw broken (record { recent = refl; log = refl })
        | inr fine ↦ rw fine (record { recent = refl; log = refl })
      ]

  pub broadcast-SameLog :
      (hub : Bool) (m : Message) (s : Server S) → SameLog s (broadcast rt gate hub m s)
  broadcast-SameLog true m s = record { recent = refl; log = refl }
  broadcast-SameLog false m s = record { recent = refl; log = refl }

-- A posted event that passes Validate.
abbrev pub IsPosted : String → Parsed Event → Event → Type 0
IsPosted method body e = (method ≡ "POST") × (body ≡ parsed e) × (validate e ≡ none)

-- The answer is an error, and nothing changed.
abbrev pub Refuses : Server Chain → Server Chain × Reply → Type 0
Refuses s (s', r) = (code : ℕ) × (reason : Reason) × (r ≡ failed code reason) × (s' ≡ s)

module _ (rt : Runtime) (mock : Provider) (max : ℕ) (wedge : String) (hub : Bool)
    (at : Readings) where
  abbrev gate : Gateway Chain
  gate = in_memory rt mock max wedge hub

  ingest_log :
      (e : Event) (c : Chain)
      → Adds rt.enc
          (at.clock 0)
          "ingest"
          (ingest_payload rt gate e)
          c
          (append rt.enc (at.clock 0) "ingest" (ingest_payload rt gate e) c).0
  unfolding ingest_payload encodable
  ingest_log e c =
      append-Adds rt.enc (at.clock 0) "ingest" (ingest_payload rt gate e) c
        (λ k. ground (arith, eq_iff "ingest" "")) refl

  pub ingest-IsIngested :
      (told : Bool) (e : Event) (s : Server Chain)
      → IsIngested rt gate e s (ingest_event rt gate at told e s)
  unfolding ingest_event new_gateway add_recent
  ingest-IsIngested true e s = record { remembered = refl; logged = ingest_log e s.log }
  ingest-IsIngested false e s = record { remembered = refl; logged = ingest_log e s.log }

  observed-IsIngested :
      (e : Event) (s s' : Server Chain)
      → IsIngested rt gate e s s'
      → IsIngested rt gate e s (verify_and_observe rt gate at s')
  observed-IsIngested e s s' h =
      let same = verify_and_observe-SameLog rt gate at s' in
      let (rec, grown, kind, payload) = h.logged in
      record {
        remembered = same.recent ∙ h.remembered;
        logged = (rec, ap (λ (c : Chain). c.records) same.log ∙ grown, kind, payload);
      }

  -- The event is taken in, and the answer is 202 with its identifier.
  abbrev pub Takes : Server Chain → Event → Server Chain × Reply → Type 0
  Takes s e (s', r) = (r ≡ reply 202 (accepted e.event_id)) × IsIngested rt gate e s s'

  checked_lem :
      (e : Event) (bad : Option EventError) (s : Server Chain)
      → ((bad ≡ none) × Takes s e (events_checked rt gate at e bad s))
        ⊎ ((bad ≢ none) × Refuses s (events_checked rt gate at e bad s))
  unfolding events_checked new_gateway
  checked_lem e none s = inl (refl, (refl, observed-IsIngested e s _ (ingest-IsIngested hub e s)))
  checked_lem e (some reason) s = inr (λ h. cc, (400, bad_event reason, refl, refl))

  abbrev verdict : Parsed Event → Option EventError
  verdict (malformed text) = none
  verdict (parsed e) = validate e

  parsed_lem :
      (body : Parsed Event) (s : Server Chain)
      → ((e : Event) × (body ≡ parsed e)
          × (validate e ≡ none)
          × Takes s e (events_parsed rt gate at body s))
        ⊎ (((e : Event) → body ≡ parsed e → validate e ≢ none)
            × Refuses s (events_parsed rt gate at body s))
  unfolding events_parsed
  parsed_lem (malformed text) s = inr (λ e h k. cc, (400, bad_json text, refl, refl))
  parsed_lem (parsed e) s = elim (checked_lem e (validate e) s) [
    | inl (fine, takes) ↦ inl (e, refl, fine, takes)
    | inr (bad, refuses) ↦ inr (λ f h k. bad (ap verdict h ∙ k), refuses)
  ]

  -- On the in-memory chain, handleEvents either takes the event in, and then the request is a POST of an event that
  -- Validate accepts, answers 202 with the event's identifier, the event stands behind the recent ones
  -- and the log has one more record, which names it; or the request is no such POST, and it answers with
  -- an error and changes nothing.
  pub handle_events_lem :
      (method : String) (body : Parsed Event) (s : Server Chain)
      → ((e : Event) × IsPosted method body e × Takes s e (handle_events rt gate at method body s))
        ⊎ (((e : Event) → ¬ IsPosted method body e)
            × Refuses s (handle_events rt gate at method body s))
  unfolding handle_events
  handle_events_lem method body s = elim (text_cases method "POST") [
    | inr other ↦
        inr (
          λ e h. ==-false→ne method "POST" other h.0,
          rw other (405, method_not_allowed, refl, refl),
        )
    | inl post ↦ rw post (elim (parsed_lem body s) [
      | inl (e, is, fine, takes) ↦ inl (e, (refl, is, fine), takes)
      | inr (bad, refuses) ↦ inr (λ e h. bad e h.1 h.2, refuses)
    ])
  ]

  -- When Kafka delivers a decision on an event that is among the recent ones, the callback OnDecision takes the event in
  -- once more: it stands behind the recent events again, although it was there before, and the log has
  -- one more record "ingest" for it.
  pub on_decision_again :
      (d : Decision) (e : Event) (x : System Chain)
      → find_event rt gate d.event_id x.server ≡ some e
      → IsIngested rt gate e x.server (on_decision rt gate at d x).server
  unfolding on_decision ingest_again find_event new_gateway
  on_decision_again d e x h = from_hub hub
    where
      carried :
          (told : Bool) (s' : Server Chain)
          → IsIngested rt gate e (broadcast rt gate told (decision_message d) x.server) s'
          → IsIngested rt gate e x.server s'
      carried true s' i = record { remembered = i.remembered; logged = i.logged }
      carried false s' i = i

      from_hub :
          (told : Bool)
          → IsIngested rt gate e x.server (
              ingest_again rt gate at
                (find_event rt gate d.event_id
                  (broadcast rt gate told (decision_message d) x.server))
                (broadcast rt gate told (decision_message d) x.server))
      from_hub true = rw h (carried true _ (ingest-IsIngested false e _))
      from_hub false = rw h (carried false _ (ingest-IsIngested false e _))
