-- ===== src/Canonical/Laws.antt =====
-- Which events are valid, and how ages behave.
use mathlib.Core.Path.{subst}
use flux_lens.Base.{
  ℕ, ◌-◌, ◌<◌, min, String, ◌≡◌, ◌≢◌, ◌↔◌, ◌⊎◌, none, some, arith, eq_iff, ne→==-false, false,
}
use flux_lens.Base.Signed.{pos, lt_ℤ}
use flux_lens.Base.Time.{max_duration}
use flux_lens.Base.Json.{Json}
use flux_lens.Canonical.{
  schema_version, severity_info, severity_warn, severity_error, severity_critical, rank, Event,
  event, new_event, validate, age_at,
}

abbrev pub IsSeverity : String → Type 0
IsSeverity s =
    (s ≡ severity_info) ⊎ (s ≡ severity_warn) ⊎ (s ≡ severity_error) ⊎ (s ≡ severity_critical)

-- A complete event of a known severity.
pub record IsComplete (e : Event) : Type 0 where
  pub identified : e.event_id ≢ ""
  pub sourced : e.source_id ≢ ""
  pub source_typed : e.source_type ≢ ""
  pub typed : e.event_type ≢ ""
  pub graded : IsSeverity e.severity
  pub dated : 0 < e.timestamp
  pub versioned : e.metadata.schema ≢ ""

rank_iff : (s : String) → (lt_ℤ (rank s) (pos 0) ≡ false) ↔ IsSeverity s
unfolding rank
rank_iff s = ground (
  arith,
  eq_iff s severity_info,
  eq_iff s severity_warn,
  eq_iff s severity_error,
  eq_iff s severity_critical,
)

validate_sound : (e : Event) → validate e ≡ none → IsComplete e
unfolding validate
validate_sound e h = record {
  identified = ground (arith, eq_iff e.event_id "");
  sourced = ground (arith, eq_iff e.source_id "");
  source_typed = ground (arith, eq_iff e.source_type "");
  typed = ground (arith, eq_iff e.event_type "");
  graded = (rank_iff e.severity).0 (ground arith);
  dated = ground arith;
  versioned = ground (arith, eq_iff e.metadata.schema "");
}

severity_filled : (s : String) → IsSeverity s → s ≢ ""
severity_filled s h e = ground (
  arith,
  eq_iff s "",
  eq_iff severity_info "",
  eq_iff severity_warn "",
  eq_iff severity_error "",
  eq_iff severity_critical "",
)

validate_complete : (e : Event) → IsComplete e → validate e ≡ none
unfolding validate
validate_complete e c =
    rw
      (
        ne→==-false _ _ c.identified,
        ne→==-false _ _ c.sourced,
        ne→==-false _ _ c.source_typed,
        ne→==-false _ _ c.typed,
        ne→==-false _ _ (severity_filled e.severity c.graded),
        (rank_iff e.severity).1 c.graded,
        ne→==-false _ _ c.versioned,
      )
      (ground (arith, c.dated))

-- Validate returns nil exactly on the complete events.
pub validate_iff : (e : Event) → (validate e ≡ none) ↔ IsComplete e
validate_iff e = (validate_sound e, validate_complete e)

-- An event that NewEvent returns is complete if its type texts are not empty, its severity is known,
-- the identifier is not empty and the clock has been set.
pub new_event-IsComplete :
    (source_id source_type event_type severity id : String) (payload : Json) (now : ℕ) (e : Event)
    → new_event source_id source_type event_type severity payload now (some id) ≡ event e
    → source_type ≢ ""
    → event_type ≢ ""
    → IsSeverity severity
    → id ≢ ""
    → 0 < now
    → IsComplete e
unfolding new_event
new_event-IsComplete source_id source_type event_type severity id payload now e h st et sev i n =
    record {
      identified = ground arith;
      sourced = ground (arith, eq_iff source_id "");
      source_typed = ground arith;
      typed = ground arith;
      graded = let same : severity ≡ e.severity = ground arith in subst IsSeverity same sev;
      dated = ground arith;
      versioned = ground (arith, eq_iff schema_version "");
    }

-- AgeAt is how long before `ref` the event happened, 0 for a later event and the greatest duration
-- for a wait that does not fit into an int64.
pub age_at-eq : (e : Event) (ref : ℕ) → age_at e ref ≡ min (ref - e.timestamp) max_duration
unfolding age_at
age_at-eq e ref = ground arith
