-- ===== src/Cdc/Postgres/Runs.antt =====
-- Whole runs of the connector.
use Prim.Native.Nat.{◌^◌, ◌<◌}
use flux_lens.Base.{
  ℕ, suc, ◌+◌, ◌%◌, Bool, true, false, ◌≡◌, refl, ap, ◌∙◌, inl, inr, Option, none, some, List, [],
  ◌∷◌, ◌++◌, arith, All, Bool-cases,
}
use flux_lens.Base.Lists.{All-append, All-imp}
use flux_lens.Base.Pattern.{CaseTables}
use flux_lens.Base.Json.{str, obj, object}
use flux_lens.Canonical.{Event, Made, event, failed, source_postgres_cdc, severity_info}
use flux_lens.Cdc.Fields.{HasFields, Made-All, new_event_fields}
use flux_lens.Cdc.Postgres.{Config, Connector}
use flux_lens.Cdc.Postgres.Stream.{
  Received, canceled, heartbeat, timed_out, receive_error, other_data, bad_xlog, bad_logical, xlog,
  bad_keepalive, keepalive, Reading, Sent, sent_event, status_update, publish, beat, round, rounds,
}
use flux_lens.Cdc.Postgres.Maps.{IsAbout, IsOwn, IsFixed, fixed, Maps, map_message-Maps}

abbrev pub OwnSent : CaseTables → Connector → Sent → Type 0
OwnSent tables c (sent_event e) = IsOwn tables c e
OwnSent tables c (status_update lsn) = Unit

abbrev pub sent_events : List Sent → ℕ
sent_events [] = 0
sent_events (sent_event e ∷ more) = suc (sent_events more)
sent_events (status_update lsn ∷ more) = sent_events more

module _ (tables : CaseTables) where
  -- The connector behind a step, and what the step sent.
  pub record Behaves (c : Connector) (x : Connector × List Sent) : Type 0 where
    pub keeps : IsFixed c x.0
    pub own : All (OwnSent tables c) x.1
    pub counted : x.0.emitted ≡ (c.emitted + sent_events x.1) % 2 ^ 64

  idle :
      (c c' : Connector)
      → IsFixed c c'
      → c'.emitted ≡ c.emitted
      → c.emitted < 2 ^ 64
      → Behaves c (c', [])
  idle c c' keeps same small = record {
    keeps = keeps;
    own = tt;
    counted = omega (arith, same, small);
  }

  published-Behaves :
      (at : Reading) (c : Connector) (x : Connector × Option Event)
      → Maps tables c x
      → c.emitted < 2 ^ 64
      → Behaves c (publish tables at x)
  unfolding publish
  published-Behaves at c (c', none) m small = idle c c' m.keeps m.uncounted small
  published-Behaves at c (c', some e) m small = elim (Bool-cases at.taken) [
    | inl sent ↦ rw sent (record {
      keeps = record { cfg = m.keeps.cfg; filter = m.keeps.filter; healthy = m.keeps.healthy };
      own = (m.own, tt);
      counted = omega (arith, m.uncounted);
    })
    | inr left ↦ rw left (idle c c' m.keeps m.uncounted small)
  ]

  beat-Behaves :
      (at : Reading) (c : Connector) (m : Made)
      → Made-All
          (HasFields c.cfg.source_id source_postgres_cdc "postgres.heartbeat" severity_info
            (obj (object (("status", str "alive") ∷ []))))
          m
      → c.emitted < 2 ^ 64
      → Behaves c (beat tables at m c)
  unfolding beat
  beat-Behaves at c (failed reason) h small = idle c c fixed refl small
  beat-Behaves at c (event e) h small = elim (Bool-cases at.taken) [
    | inl sent ↦ rw sent (record {
      keeps = record { cfg = refl; filter = refl; healthy = refl };
      own = (
        record { source = h.source; source_type = h.kind; severity = h.level; about = inl h.type },
        tt,
      );
      counted = refl;
    })
    | inr left ↦ rw left (idle c c fixed refl small)
  ]

  -- A connector at another position of the stream, whose events are those of the first.
  same-Own :
      (c : Connector) (b : Bool) (lsn : ℕ) (s : Sent)
      → OwnSent tables (record c { next_lsn = lsn; in_stream = b }) s
      → OwnSent tables c s
  same-Own c b lsn (sent_event e) o = record {
    source = o.source;
    source_type = o.source_type;
    severity = o.severity;
    about = o.about;
  }
  same-Own c b lsn (status_update l) o = tt

  moved-Behaves :
      (c : Connector) (x : Connector × List Sent) (b : Bool) (lsn : ℕ)
      → Behaves (record c { next_lsn = lsn; in_stream = b }) x
      → Behaves c x
  moved-Behaves c x b lsn h = record {
    keeps = record { cfg = h.keeps.cfg; filter = h.keeps.filter; healthy = h.keeps.healthy };
    own = All-imp _ _ _ (same-Own c b lsn) h.own;
    counted = h.counted;
  }

  round-Behaves :
      (at : Reading) (r : Received) (c : Connector)
      → c.emitted < 2 ^ 64
      → Behaves c (round tables at r c)
  unfolding round
  round-Behaves at canceled c small = idle c c fixed refl small
  round-Behaves at heartbeat c small =
      beat-Behaves at c _ (new_event_fields _ _ _ _ _ at.now at.id) small
  round-Behaves at timed_out c small = idle c c fixed refl small
  round-Behaves at receive_error c small =
      idle c _ (record { cfg = refl; filter = refl; healthy = refl }) refl small
  round-Behaves at other_data c small = idle c c fixed refl small
  round-Behaves at bad_xlog c small =
      idle c _ (record { cfg = refl; filter = refl; healthy = refl }) refl small
  round-Behaves at (bad_logical lsn) c small =
      idle c _ (record { cfg = refl; filter = refl; healthy = refl }) refl small
  round-Behaves at (xlog lsn message) c small =
      let m = map_message-Maps tables at message _ in
      moved-Behaves c _ _ lsn (published-Behaves at _ _ m small)
  round-Behaves at bad_keepalive c small = idle c c fixed refl small
  round-Behaves at (keepalive false) c small = idle c c fixed refl small
  round-Behaves at (keepalive true) c small = record {
    keeps = fixed;
    own = (tt, tt);
    counted = omega (arith, small);
  }

  sent_events-append :
      (xs ys : List Sent) → sent_events (xs ++ ys) ≡ sent_events xs + sent_events ys
  sent_events-append [] ys = omega arith
  sent_events-append (sent_event e ∷ xs) ys = omega (arith, sent_events-append xs ys)
  sent_events-append (status_update l ∷ xs) ys = sent_events-append xs ys

  back-IsOwn : (c c' : Connector) (e : Event) → IsFixed c c' → IsOwn tables c' e → IsOwn tables c e
  back-IsOwn c c' e k o = record {
    source = o.source ∙ ap (λ (g : Config). g.source_id) k.cfg;
    source_type = o.source_type;
    severity = o.severity;
    about = moved o.about;
  }
    where
      moved : IsAbout tables c'.filter e → IsAbout tables c.filter e
      moved (inl heart) = inl heart
      moved (inr (type, (rel, op, tuple, allowed, content))) =
          inr (type, (rel, op, tuple, rw (← k.filter) allowed, content))

  back-Own :
      (c c' : Connector) → IsFixed c c' → (s : Sent) → OwnSent tables c' s → OwnSent tables c s
  back-Own c c' k (sent_event e) o = back-IsOwn c c' e k o
  back-Own c c' k (status_update l) o = tt

  then-Behaves :
      (c : Connector) (x y : Connector × List Sent)
      → Behaves c x
      → Behaves x.0 y
      → Behaves c (y.0, x.1 ++ y.1)
  then-Behaves c x y h k = record {
    keeps = record {
      cfg = k.keeps.cfg ∙ h.keeps.cfg;
      filter = k.keeps.filter ∙ h.keeps.filter;
      healthy = k.keeps.healthy ∙ h.keeps.healthy;
    };
    own =
        All-append (OwnSent tables c) x.1 y.1 h.own
          (All-imp _ _ y.1 (back-Own c x.0 h.keeps) k.own);
    counted = omega (arith, h.counted, k.counted, sent_events-append x.1 y.1);
  }

  counted_small : (c : Connector) (x : Connector × List Sent) → Behaves c x → x.0.emitted < 2 ^ 64
  counted_small c x h = omega (arith, h.counted)

  further :
      (at : Reading) (r : Received) (more : List (Reading × Received)) (c : Connector)
      → c.emitted < 2 ^ 64
      → ((here : Connector) → here.emitted < 2 ^ 64 → Behaves here (rounds tables more here))
      → Behaves c (
        (rounds tables more (round tables at r c).0).0,
        (round tables at r c).1 ++ (rounds tables more (round tables at r c).0).1,
      )
  further at r more c small rest =
      let h = round-Behaves at r c small in then-Behaves c _ _ h (rest _ (counted_small c _ h))

  -- From a counter below 2^64, whatever the library returns, in whatever order, and wherever
  -- the context ends the loop: every event that Run sends bears the connector's source and is
  -- a heartbeat or the change of a row in a table that the filter lets through, the counter of
  -- the emitted events has grown by the number of events sent, modulo 2^64, and the
  -- configuration, the filter and the health are what they were, also after errors of
  -- ReceiveMessage.
  pub rounds-Behaves :
      (steps : List (Reading × Received)) (c : Connector)
      → c.emitted < 2 ^ 64
      → Behaves c (rounds tables steps c)
  unfolding rounds
  rounds-Behaves [] c small = idle c c fixed refl small
  rounds-Behaves ((at, canceled) ∷ more) c small = idle c c fixed refl small
  rounds-Behaves ((at, heartbeat) ∷ more) c small =
      further at heartbeat more c small (rounds-Behaves more)
  rounds-Behaves ((at, timed_out) ∷ more) c small =
      further at timed_out more c small (rounds-Behaves more)
  rounds-Behaves ((at, receive_error) ∷ more) c small =
      further at receive_error more c small (rounds-Behaves more)
  rounds-Behaves ((at, other_data) ∷ more) c small =
      further at other_data more c small (rounds-Behaves more)
  rounds-Behaves ((at, bad_xlog) ∷ more) c small =
      further at bad_xlog more c small (rounds-Behaves more)
  rounds-Behaves ((at, (bad_logical lsn)) ∷ more) c small =
      further at (bad_logical lsn) more c small (rounds-Behaves more)
  rounds-Behaves ((at, (xlog lsn m)) ∷ more) c small =
      further at (xlog lsn m) more c small (rounds-Behaves more)
  rounds-Behaves ((at, bad_keepalive) ∷ more) c small =
      further at bad_keepalive more c small (rounds-Behaves more)
  rounds-Behaves ((at, (keepalive b)) ∷ more) c small =
      further at (keepalive b) more c small (rounds-Behaves more)
