-- ===== src/Alerts/Rules/Laws.antt =====
-- Which events raise alerts, and which alerts the store takes for repeats of one another.
use text.Mathlib.TextLemmas.{append_cancel_left}
use Prim.Native.String.{◌++◌ as join}
use flux_lens.Base.{
  String, ◌≡◌, ◌≢◌, refl, Bool, ◌&&◌, ◌↔◌, ap, sym, ◌∙◌, true, false, none, some, [], ◌∷◌, arith,
  eq_iff, All, if◌then◌else◌, ne→==-false,
}
use flux_lens.Base.Lists.{All-append}
use flux_lens.Base.Signed.{ℤ, pos, lt_ℤ, quotient}
use flux_lens.Base.Float.{Float64, lt_f}
use flux_lens.Base.Format.{Format}
use flux_lens.Base.Dict.{Dict, find}
use flux_lens.Canonical.{
  Event, rank, validate, severity_info, severity_warn, severity_error, severity_critical,
}
use flux_lens.Canonical.Laws.{validate_iff, IsSeverity}
use flux_lens.Alerts.{Alert}
use flux_lens.Alerts.Store.{dedupe_key}
use flux_lens.Alerts.Rules.{
  low_freshness, low_diversity, sparse_selection, freshness_floor, diversity_floor, Stamp,
  from_ingest_event, from_digest_quality,
}

silent_iff :
    (stamp : Stamp) (e : Event)
    → IsSeverity e.severity
    → (from_ingest_event stamp e ≡ []) ↔ (e.severity ≡ severity_info)
unfolding from_ingest_event rank
silent_iff stamp e h = ground (
  arith,
  eq_iff e.severity severity_info,
  eq_iff e.severity severity_warn,
  eq_iff e.severity severity_error,
  eq_iff e.severity severity_critical,
  eq_iff severity_warn severity_info,
  eq_iff severity_error severity_info,
  eq_iff severity_error severity_warn,
  eq_iff severity_critical severity_info,
  eq_iff severity_critical severity_warn,
  eq_iff severity_critical severity_error,
)

-- A valid event raises no alert exactly if its severity is "info".
pub valid_silent_iff :
    (stamp : Stamp) (e : Event)
    → validate e ≡ none
    → (from_ingest_event stamp e ≡ []) ↔ (e.severity ≡ severity_info)
valid_silent_iff stamp e h = silent_iff stamp e ((validate_iff e).0 h).graded

event_key :
    (a : Alert) (rule id : String) (rest : Dict String)
    → id ≢ ""
    → a.rule_id ≡ rule
    → a.ref ≡ some (("event_id", id) ∷ rest)
    → dedupe_key a ≡ join (join rule "|evt|") id
unfolding dedupe_key find
event_key a rule id rest h r e = rw (e, r, dedupe_key, find, ne→==-false id "" h)

only_alert : (b : Bool) (x a : Alert) → (if b then [] else x ∷ []) ≡ a ∷ [] → a ≡ x
only_alert true x a h = cc
only_alert false x a h = cc

ingest_fields :
    (stamp : Stamp) (e : Event) (a : Alert)
    → from_ingest_event stamp e ≡ a ∷ []
    → (a.rule_id ≡ "ingest.severity_warn_or_above")
      × (a.ref
          ≡ some (
              ("event_id", e.event_id)
              ∷ ("source_id", e.source_id)
              ∷ ("event_type", e.event_type)
              ∷ []))
unfolding from_ingest_event
ingest_fields stamp e a k =
    let same = only_alert (lt_ℤ (rank e.severity) (rank severity_warn)) _ a k in
    (ap (λ (x : Alert). x.rule_id) same, ap (λ (x : Alert). x.ref) same)

ingest_key :
    (stamp : Stamp) (e : Event) (a : Alert)
    → e.event_id ≢ ""
    → from_ingest_event stamp e ≡ a ∷ []
    → dedupe_key a ≡ join "ingest.severity_warn_or_above|evt|" e.event_id
ingest_key stamp e a h k =
    let (rule, ref) = ingest_fields stamp e a k in event_key a _ e.event_id _ h rule ref

-- The alerts of two events with identifiers count as repeats of one another exactly if the
-- identifiers are the same.
pub ingest_repeat_iff :
    (s t : Stamp) (e f : Event) (a b : Alert)
    → e.event_id ≢ ""
    → f.event_id ≢ ""
    → from_ingest_event s e ≡ a ∷ []
    → from_ingest_event t f ≡ b ∷ []
    → (dedupe_key a ≡ dedupe_key b) ↔ (e.event_id ≡ f.event_id)
ingest_repeat_iff s t e f a b he hf ha hb =
    let ka = ingest_key s e a he ha in
    let kb = ingest_key t f b hf hb in
    (
      λ same. append_cancel_left "ingest.severity_warn_or_above|evt|" _ _ (sym ka ∙ same ∙ kb),
      λ same. ka ∙ ap (join "ingest.severity_warn_or_above|evt|") same ∙ sym kb,
    )

All-when : (P : Alert → Type 0) (b : Bool) (a : Alert) → P a → All P (if b then a ∷ [] else [])
All-when P true a h = (h, tt)
All-when P false a h = tt

abbrev IsKeyedByRule : Alert → Type 0
IsKeyedByRule a = dedupe_key a ≡ a.rule_id

module _ (fmt : Format) where
  low_freshness-key :
      (s : Stamp) (score : Float64) (strategy k selected : ℤ)
      → IsKeyedByRule (low_freshness fmt s score strategy k selected)
  unfolding dedupe_key find low_freshness
  low_freshness-key s score strategy k selected = refl

  low_diversity-key :
      (s : Stamp) (score : Float64) (strategy k selected : ℤ)
      → IsKeyedByRule (low_diversity fmt s score strategy k selected)
  unfolding dedupe_key find low_diversity
  low_diversity-key s score strategy k selected = refl

  sparse_selection-key :
      (s : Stamp) (k selected : ℤ) → IsKeyedByRule (sparse_selection fmt s k selected)
  unfolding dedupe_key find sparse_selection
  sparse_selection-key s k selected = refl

  -- Alerts on digest quality are held apart by their rule alone, whatever the scores.
  pub digest_keys :
      (s t u : Stamp) (freshness diversity : Float64) (strategy k selected : ℤ)
      → All
          (λ a. dedupe_key a ≡ a.rule_id)
          (from_digest_quality fmt (s, t, u) freshness diversity strategy k selected)
  unfolding from_digest_quality
  digest_keys s t u freshness diversity strategy k selected =
      All-append IsKeyedByRule _ _
        (All-when IsKeyedByRule (lt_f freshness freshness_floor) _
          (low_freshness-key s freshness strategy k selected))
        (All-append IsKeyedByRule _ _
          (All-when IsKeyedByRule (lt_f diversity diversity_floor) _
            (low_diversity-key t diversity strategy k selected))
          (All-when IsKeyedByRule
            (lt_ℤ (pos 4) k && lt_ℤ (pos 0) selected && lt_ℤ selected (quotient k 3)) _
            (sparse_selection-key u k selected)))
