-- ===== src/Cdc/Postgres/Maps.antt =====
-- The event that a replication message becomes.
use Prim.Native.String.{◌++◌ as join}
use flux_lens.Base.{String, true, ◌≡◌, ◌⊎◌, refl, inl, inr, Option, none, some, Bool-cases}
use flux_lens.Base.Pattern.{CaseTables}
use flux_lens.Base.Json.{Json}
use flux_lens.Canonical.{Event, Made, event, failed, source_postgres_cdc, severity_info}
use flux_lens.Cdc.Fields.{HasFields, Made-All, new_event_fields}
use flux_lens.Cdc.Postgres.{Connector, RelInfo, PgFilter, allow_table}
use flux_lens.Cdc.Postgres.Stream.{
  Logical, relation, inserted, updated, deleted, stream_start, stream_stop, other_message, Reading,
  row_payload, row_made, row_event_for, row_event, map_message, with_pod,
}

-- A heartbeat, or the change of a row in a table that the filter lets through.
abbrev pub IsAbout : CaseTables → PgFilter → Event → Type 0
IsAbout tables filter e =
    (e.event_type ≡ "postgres.heartbeat")
    ⊎ ((e.event_type ≡ "postgres.row_change")
        × ((rel : RelInfo) × (op : String) × (tuple : Option Json) × (allow_table tables filter
                (join rel.schema (join "." rel.table))
              ≡ true)
            × (e.payload ≡ row_payload op rel tuple)))

-- An event of the connector.
pub record IsOwn (tables : CaseTables) (c : Connector) (e : Event) : Type 0 where
  pub source : e.source_id ≡ c.cfg.source_id
  pub source_type : e.source_type ≡ source_postgres_cdc
  pub severity : e.severity ≡ severity_info
  pub about : IsAbout tables c.filter e

-- What a step did to the connector: the configuration, the filter and the health stay.
pub record IsFixed (c c' : Connector) : Type 0 where
  pub cfg : c'.cfg ≡ c.cfg
  pub filter : c'.filter ≡ c.filter
  pub healthy : c'.healthy ≡ c.healthy

abbrev pub fixed : {c : Connector} → IsFixed c c
fixed {c} = record { cfg = refl; filter = refl; healthy = refl }

module _ (tables : CaseTables) where
  abbrev pub MaybeOwn : Connector → Option Event → Type 0
  MaybeOwn c none = Unit
  MaybeOwn c (some e) = IsOwn tables c e

  -- The event that a message maps to, and the connector behind it.
  pub record Maps (c : Connector) (x : Connector × Option Event) : Type 0 where
    pub keeps : IsFixed c x.0
    pub uncounted : x.0.emitted ≡ c.emitted
    pub own : MaybeOwn c x.1

  silent : (c : Connector) → Maps c (c, none)
  silent c = record { keeps = fixed; uncounted = refl; own = tt }

  row_made-Maps :
      (c : Connector) (rel : RelInfo) (op : String) (tuple : Option Json) (m : Made)
      → allow_table tables c.filter (join rel.schema (join "." rel.table)) ≡ true
      → Made-All
          (HasFields c.cfg.source_id source_postgres_cdc "postgres.row_change" severity_info
            (row_payload op rel tuple))
          m
      → Maps c (row_made m c)
  unfolding row_made with_pod
  row_made-Maps c rel op tuple (failed reason) allowed h = record {
    keeps = record { cfg = refl; filter = refl; healthy = refl };
    uncounted = refl;
    own = tt;
  }
  row_made-Maps c rel op tuple (event e) allowed h = record {
    keeps = fixed;
    uncounted = refl;
    own = record {
      source = h.source;
      source_type = h.kind;
      severity = h.level;
      about = inr (h.type, (rel, op, tuple, allowed, h.content));
    };
  }

  for-Maps :
      (at : Reading) (found : Option RelInfo) (op : String) (tuple : Option Json) (c : Connector)
      → Maps c (row_event_for tables at found op tuple c)
  unfolding row_event_for
  for-Maps at none op tuple c = silent c
  for-Maps at (some rel) op tuple c =
      elim (Bool-cases (allow_table tables c.filter (join rel.schema (join "." rel.table)))) [
        | inl allowed ↦
            rw allowed
              (row_made-Maps c rel op tuple _ allowed (new_event_fields _ _ _ _ _ at.now at.id))
        | inr hidden ↦ rw hidden (silent c)
      ]

  pub map_message-Maps :
      (at : Reading) (m : Logical) (c : Connector) → Maps c (map_message tables at m c)
  unfolding map_message row_event
  map_message-Maps at (relation id schema table) c = record {
    keeps = record { cfg = refl; filter = refl; healthy = refl };
    uncounted = refl;
    own = tt;
  }
  map_message-Maps at (inserted id tuple) c = for-Maps at _ "insert" tuple c
  map_message-Maps at (updated id new old) c = for-Maps at _ "update" _ c
  map_message-Maps at (deleted id old) c = for-Maps at _ "delete" old c
  map_message-Maps at stream_start c = silent c
  map_message-Maps at stream_stop c = silent c
  map_message-Maps at other_message c = silent c
