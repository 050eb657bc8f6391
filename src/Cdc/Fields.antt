-- ===== src/Cdc/Fields.antt =====
-- What NewEvent of internal/canonical/event.go puts into an event, for the connectors that call it.
use flux_lens.Base.{ℕ, String, ◌≡◌, refl, inl, inr, Option, none, some, ◌==◌, Bool-cases}
use flux_lens.Base.Json.{Json, encodable}
use flux_lens.Canonical.{Event, Made, event, failed, new_event, made}

-- The fields of an event that NewEvent made.
pub record HasFields (source_id source_type event_type severity : String) (payload : Json)
    (e : Event) : Type 0 where
  pub source : e.source_id ≡ source_id
  pub kind : e.source_type ≡ source_type
  pub type : e.event_type ≡ event_type
  pub level : e.severity ≡ severity
  pub content : e.payload ≡ payload

abbrev pub Made-All : (Event → Type 0) → Made → Type 0
Made-All P (event e) = P e
Made-All P (failed reason) = Unit

pub new_event_fields :
    (source_id source_type event_type severity : String) (payload : Json) (now : ℕ)
    (id : Option String)
    → Made-All
        (HasFields source_id source_type event_type severity payload)
        (new_event source_id source_type event_type severity payload now id)
unfolding new_event
new_event_fields source_id source_type event_type severity payload now id =
    elim (Bool-cases (source_id == "")) [
      | inl empty ↦ rw empty tt
      | inr named ↦ elim (Bool-cases (encodable payload)) [
        | inl fine ↦ rw (named, fine) (with_id id)
        | inr bad ↦ rw (named, bad) tt
      ]
    ]
  where
    with_id :
        (id : Option String)
        → Made-All
            (HasFields source_id source_type event_type severity payload)
            (made source_id source_type event_type severity payload now id)
    with_id none = unfold made in tt
    with_id (some id) =
        unfold made in
        record { source = refl; kind = refl; type = refl; level = refl; content = refl }
