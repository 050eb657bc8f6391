-- ===== src/Curation/Strategies/Members.antt =====
-- Whatever holds of every event that a strategy is given holds of every event that it selects.
use mathlib.Core.List.{Permᴰ}
use flux_lens.Base.{
  ℕ, String, Bool, true, false, ◌||◌, inl, inr, Option, none, some, List, [], ◌∷◌, ◌++◌, ◌==◌, ltb,
  leb, length, drop, any, All, Bool-cases,
}
use flux_lens.Base.Lists.{All-append, All-take, All-drop, All-set, All-if}
use flux_lens.Base.Sorting.{All-sort, All-of_perm}
use flux_lens.Base.Float.{Float64, Arithmetic}
use flux_lens.Base.Dict.{Dict, find, assign}
use flux_lens.Canonical.{Event}
use flux_lens.Curation.Strategies.{
  Nondeterminism, later, earlier, contains, is_nil, sort_by_timestamp_desc, select_latest,
  newest_of, absorb, latest_from, latest_per_source, values, gather, fill, select_latest_per_source,
  select_hybrid, clamp_percent, to_drop, ranked, guaranteed_diversity_core,
  select_guaranteed_diversity, newer_candidate, candidate_from, oldest_index, replace_oldest,
  select_preferred_sources,
}

-- Ranging over a map visits each entry once, and shuffling keeps the list's elements.
pub record IsFair (world : Nondeterminism) : Type 0 where
  pub ranges : (m : Dict Event) → Permᴰ (world.range m) m
  pub shuffles : (xs : List (String × Event)) → Permᴰ (world.shuffle xs) xs

module _ (P : Event → Type 0) where
  pub All-sort_by_timestamp :
      (events : List Event) → All P events → All P (sort_by_timestamp_desc events)
  unfolding sort_by_timestamp_desc
  All-sort_by_timestamp events h = All-sort later P events h

  pub All-select_latest :
      (events : List Event) (k : ℕ) → All P events → All P (select_latest events k)
  unfolding select_latest
  All-select_latest events k h = All-take P k _ (All-sort_by_timestamp events h)

  abbrev Holds : String × Event → Type 0
  Holds entry = P entry.1

  All-assign :
      (m : Dict Event) (key : String) (e : Event) → P e → All Holds m → All Holds (assign m key e)
  unfolding assign
  All-assign [] key e h k = (h, tt)
  All-assign (entry ∷ m) key e h k = elim (Bool-cases (entry.0 == key)) [
    | inl same ↦ rw same (h, k.1)
    | inr other ↦ rw other (k.0, All-assign m key e h k.1)
  ]

  All-absorb : (m : Dict Event) (e : Event) → P e → All Holds m → All Holds (absorb m e)
  unfolding absorb
  All-absorb m e h k =
      All-if Holds (newest_of e (find m e.source_id)) _ _ (All-assign m e.source_id e h k) k

  All-latest_from :
      (m : Dict Event) (events : List Event)
      → All Holds m
      → All P events
      → All Holds (latest_from m events)
  unfolding latest_from
  All-latest_from m [] h k = h
  All-latest_from m (e ∷ events) h k =
      All-latest_from (absorb m e) events (All-absorb m e k.0 h) k.1

  All-latest_per_source :
      (events : List Event) → All P events → All Holds (latest_per_source events)
  unfolding latest_per_source
  All-latest_per_source events h = All-latest_from [] events tt h

  All-values : (entries : List (String × Event)) → All Holds entries → All P (values entries)
  All-values [] h = tt
  All-values (entry ∷ entries) h = (h.0, All-values entries h.1)

  All-gather :
      (k : ℕ) (out : List Event) (selected : List String) (more : List Event)
      → All P out
      → All P more
      → All P (gather k out selected more).0
  unfolding gather
  All-gather k out selected [] h m = h
  All-gather k out selected (e ∷ more) h m =
      let grown = All-append P out (e ∷ []) h (m.0, tt) in
      elim (Bool-cases (leb k (length (out ++ e ∷ [])))) [
        | inl full ↦ rw full grown
        | inr open_still ↦
            rw open_still (All-gather k (out ++ e ∷ []) (e.event_id ∷ selected) more grown m.1)
      ]

  All-fill :
      (k : ℕ) (out : List Event) (selected : List String) (more : List Event)
      → All P out
      → All P more
      → All P (fill k out selected more)
  unfolding fill
  All-fill k out selected [] h m = h
  All-fill k out selected (e ∷ more) h m = elim (Bool-cases (leb k (length out))) [
    | inl full ↦ rw full h
    | inr open_still ↦ rw open_still (elim (Bool-cases (contains selected e.event_id)) [
      | inl dup ↦ rw dup (All-fill k out selected more h m.1)
      | inr new ↦ rw new (
          All-fill k (out ++ e ∷ []) (e.event_id ∷ selected) more
            (All-append P out (e ∷ []) h (m.0, tt)) m.1)
    ])
  ]

  module _ (world : Nondeterminism) (fair : IsFair world) where
    All-range :
        (events : List Event) → All P events → All Holds (world.range (latest_per_source events))
    All-range events h =
        All-of_perm Holds (fair.ranges (latest_per_source events)) (All-latest_per_source events h)

    pub All-select_latest_per_source :
        (events : List Event) (k : ℕ)
        → All P events
        → All P (select_latest_per_source world events k)
    unfolding select_latest_per_source
    All-select_latest_per_source events k h =
        let out = values (world.range (latest_per_source events)) in
        let sorted = All-sort_by_timestamp out (All-values _ (All-range events h)) in
        All-if P (ltb k (length (sort_by_timestamp_desc out))) _ _ (All-take P k _ sorted) sorted

    pub All-select_hybrid :
        (events : List Event) (k : ℕ) → All P events → All P (select_hybrid world events k)
    unfolding select_hybrid
    All-select_hybrid events k h =
        let latest = values (world.range (latest_per_source events)) in
        let gathered = All-gather k [] [] latest tt (All-values _ (All-range events h)) in
        let (out, selected) = gather k [] [] latest in
        All-if P (leb k (length out)) _ _ (All-take P k _ gathered)
          (All-fill k out selected _ gathered (All-sort_by_timestamp events h))

    All-ranked :
        (evict_random : Bool) (sources : List (String × Event))
        → All Holds sources
        → All Holds (ranked world evict_random sources)
    unfolding ranked
    All-ranked true sources h = All-of_perm Holds (fair.shuffles sources) h
    All-ranked false sources h = All-sort (λ a b. earlier a.1 b.1) Holds sources h

    module _ (arith64 : Arithmetic) where
      pub All-guaranteed_diversity_core :
          (events : List Event) (k : ℕ) (percent : Float64) (evict_random : Bool)
          → All P events
          → All P (guaranteed_diversity_core world arith64 events k percent evict_random)
      unfolding guaranteed_diversity_core
      All-guaranteed_diversity_core events k percent evict_random h =
          let by_source = latest_per_source events in
          let order = ranked world evict_random (world.range by_source) in
          let dropped = to_drop arith64 (length by_source) (clamp_percent percent) in
          let left = values (drop dropped order) in
          let ordered = All-ranked evict_random _ (All-range events h) in
          let gathered =
            All-gather k [] [] left tt (All-values _ (All-drop Holds dropped order ordered)) in
          let (kept, selected) = gather k [] [] left in
          All-if P (leb k (length kept)) _ _ gathered
            (All-fill k kept selected _ gathered (All-sort_by_timestamp events h))

      HoldsIfAny : Option Event → Type 0
      HoldsIfAny none = Unit
      HoldsIfAny (some e) = P e

      All-newer_candidate :
          (best : Option Event) (e : Event)
          → HoldsIfAny best
          → P e
          → HoldsIfAny (newer_candidate best e)
      unfolding newer_candidate HoldsIfAny
      All-newer_candidate none e h k = k
      All-newer_candidate (some cur) e h k = elim (Bool-cases (later e cur)) [
        | inl newer ↦ rw newer k
        | inr older ↦ rw older h
      ]

      All-candidate_from :
          (preferred : List String) (best : Option Event) (events : List Event)
          → HoldsIfAny best
          → All P events
          → HoldsIfAny (candidate_from preferred best events)
      unfolding candidate_from
      All-candidate_from preferred best [] h k = h
      All-candidate_from preferred best (e ∷ events) h k =
          elim (Bool-cases (contains preferred e.source_id)) [
            | inl wanted ↦ rw wanted (
                All-candidate_from preferred (newer_candidate best e) events
                  (All-newer_candidate best e h k.0) k.1)
            | inr other ↦ rw other (All-candidate_from preferred best events h k.1)
          ]

      All-replace_oldest :
          (result : List Event) (o : Option Event)
          → HoldsIfAny o
          → All P result
          → All P (replace_oldest result o)
      unfolding replace_oldest HoldsIfAny
      All-replace_oldest result none h k = k
      All-replace_oldest result (some e) h k = All-set P (oldest_index result) e result h k

      pub All-select_preferred_sources :
          (events : List Event) (k : ℕ) (percent : Float64) (preferred : List String)
          → All P events
          → All P (select_preferred_sources world arith64 events k percent preferred)
      unfolding select_preferred_sources select_guaranteed_diversity HoldsIfAny
      All-select_preferred_sources events k percent preferred h =
          let result = guaranteed_diversity_core world arith64 events k percent false in
          let good = All-guaranteed_diversity_core events k percent false h in
          All-if P (is_nil preferred || is_nil result) _ _ good (
            All-if P (any (λ e. contains preferred e.source_id) result) _ _ good (
              All-replace_oldest result (candidate_from preferred none events)
                (All-candidate_from preferred none events tt h) good))
