-- ===== src/Alerts/Rules.antt =====
-- internal/alerts/rules.go: what raises an alert. Each alert has a fresh identifier and the time of
-- its creation, which come from the ULID library and the clock.
pub mod Laws
use Prim.Native.Nat.{◌*◌, ◌^◌}
use Prim.Native.String.{◌++◌ as join}
use flux_lens.Base.{
  ℕ, String, Bool, Option, none, some, List, [], ◌∷◌, ◌++◌, ◌==◌, ◌&&◌, if◌then◌else◌,
}
use flux_lens.Base.Signed.{ℤ, pos, lt_ℤ, quotient}
use flux_lens.Base.Float.{Float64, fin, lt_f}
use flux_lens.Base.Format.{Format}
use flux_lens.Canonical.{Event, rank, severity_info, severity_warn, severity_critical}
use flux_lens.Alerts.{Alert}

pub record Stamp : Type 0 where
  pub id : String
  pub now : ℕ

-- The texts of a list, one after the other.
concat : List String → String
concat [] = ""
concat (s ∷ more) = join s (concat more)

-- The doubles nearest to 0.22 and 0.38.
unfoldable pub freshness_floor : Float64
freshness_floor = fin (pos (7926335344172073 * 2 ^ 1019))

unfoldable pub diversity_floor : Float64
diversity_floor = fin (pos (3422735716801577 * 2 ^ 1021))

unfoldable pub from_ingest_event : Stamp → Event → List Alert
unfolding rank concat
from_ingest_event stamp e =
    if lt_ℤ (rank e.severity) (rank severity_warn)
    then []
    else record {
      id = stamp.id;
      title = concat ("Elevated ingest severity (" ∷ e.event_type ∷ ")" ∷ []);
      body = concat (
          "event_id=" ∷ e.event_id ∷ " source_id=" ∷ e.source_id ∷ " severity=" ∷ e.severity
          ∷ " trace=" ∷ e.metadata.trace_id ∷ []);
      severity = e.severity;
      rule_id = "ingest.severity_warn_or_above";
      created_at = stamp.now;
      ref = some (
          ("event_id", e.event_id)
          ∷ ("source_id", e.source_id)
          ∷ ("event_type", e.event_type)
          ∷ []);
    }
      ∷ []

module _ (fmt : Format) where
  -- The body that the two score alerts share.
  score_body : String → Float64 → ℤ → ℤ → ℤ → String
  score_body name score strategy k selected = concat (
      name
      ∷ "="
      ∷ fmt.fixed 3 score
      ∷ " strategy="
      ∷ fmt.decimal strategy
      ∷ " k="
      ∷ fmt.decimal k
      ∷ " selected="
      ∷ fmt.decimal selected
      ∷ [])

  low_freshness : Stamp → Float64 → ℤ → ℤ → ℤ → Alert
  low_freshness stamp freshness strategy k selected = record {
    id = stamp.id;
    title = "Digest freshness below threshold";
    body = score_body "freshness" freshness strategy k selected;
    severity = severity_warn;
    rule_id = "digest.low_freshness";
    created_at = stamp.now;
    ref = some (("freshness", fmt.fixed 4 freshness) ∷ ("strategy", fmt.decimal strategy) ∷ []);
  }

  low_diversity : Stamp → Float64 → ℤ → ℤ → ℤ → Alert
  low_diversity stamp diversity strategy k selected = record {
    id = stamp.id;
    title = "Digest diversity below threshold";
    body = score_body "diversity" diversity strategy k selected;
    severity = severity_info;
    rule_id = "digest.low_diversity";
    created_at = stamp.now;
    ref = some (("diversity", fmt.fixed 4 diversity) ∷ ("strategy", fmt.decimal strategy) ∷ []);
  }

  sparse_selection : Stamp → ℤ → ℤ → Alert
  sparse_selection stamp k selected = record {
    id = stamp.id;
    title = "Digest selection unexpectedly sparse";
    body = concat (
        "requested k="
        ∷ fmt.decimal k
        ∷ " but only "
        ∷ fmt.decimal selected
        ∷ " events matched filters/strategy"
        ∷ []);
    severity = severity_warn;
    rule_id = "digest.sparse_selection";
    created_at = stamp.now;
    ref = some (("k", fmt.decimal k) ∷ ("selected", fmt.decimal selected) ∷ []);
  }

  unfoldable pub from_digest_quality :
      (Stamp × Stamp × Stamp) → Float64 → Float64 → ℤ → ℤ → ℤ → List Alert
  unfolding concat score_body low_freshness low_diversity sparse_selection freshness_floor
      diversity_floor
  from_digest_quality (s, t, u) freshness diversity strategy k selected =
      (if lt_f freshness freshness_floor
        then low_freshness s freshness strategy k selected ∷ []
        else [])
      ++ ((if lt_f diversity diversity_floor
            then low_diversity t diversity strategy k selected ∷ []
            else [])
          ++ (if lt_ℤ (pos 4) k && lt_ℤ (pos 0) selected && lt_ℤ selected (quotient k 3)
              then sparse_selection u k selected ∷ []
              else []))

unfoldable pub from_operator_review_required : Stamp → String → String → List Alert
unfolding concat
from_operator_review_required stamp event_id classification =
    record {
      id = stamp.id;
      title = "AI suggestion requires operator review";
      body = concat (
          "event_id=" ∷ event_id ∷ " classification=" ∷ classification
          ∷ " — acknowledge via operator resolve endpoint." ∷ []);
      severity = severity_warn;
      rule_id = "operator.review_required";
      created_at = stamp.now;
      ref = some (("event_id", event_id) ∷ ("classification", classification) ∷ []);
    }
    ∷ []

unfoldable pub from_operator_resolution : Stamp → String → String → String → List Alert
unfolding concat
from_operator_resolution stamp event_id operator_id action =
    record {
      id = stamp.id;
      title = concat ("Operator recorded " ∷ action ∷ []);
      body = concat (
          "operator_id=" ∷ operator_id ∷ " event_id=" ∷ event_id
          ∷ " — tamper-evident audit append succeeded." ∷ []);
      severity = if action == "override" then severity_warn else severity_info;
      rule_id = "operator.resolution_recorded";
      created_at = stamp.now;
      ref = some (("event_id", event_id) ∷ ("operator_id", operator_id) ∷ ("action", action) ∷ []);
    }
    ∷ []

message_of : Option String → String
message_of none = "audit chain verification failed"
message_of (some msg) = msg

-- The argument is the text of the error that verification returned, `none` for the nil error.
unfoldable pub from_audit_broken : Stamp → Option String → List Alert
unfolding message_of
from_audit_broken stamp verify_err =
    record {
      id = stamp.id;
      title = "Audit chain integrity failure";
      body = message_of verify_err;
      severity = severity_critical;
      rule_id = "platform.audit_chain_invalid";
      created_at = stamp.now;
      ref = none;
    }
    ∷ []
