-- ===== src/Curation/Strategies/Sizes.antt =====
-- How many events the strategies select.
use flux_lens.Base.{
  ℕ, suc, ◌≤◌, ◌<◌, String, Bool, true, false, ◌≡◌, refl, ap, ◌||◌, inl, inr, Option, none, some,
  List, [], ◌∷◌, ◌++◌, arith, ltb, leb, if◌then◌else◌, length, take, drop, any, Bool-cases,
  length-append, length-take, length-drop,
}
use flux_lens.Base.Positions.{length-set}
use flux_lens.Base.Sorting.{length-sort, length_of_perm}
use flux_lens.Base.Float.{Float64, Arithmetic}
use flux_lens.Canonical.{Event}
use flux_lens.Curation.Strategies.{
  Nondeterminism, earlier, contains, is_nil, sort_by_timestamp_desc, select_latest,
  latest_per_source, values, gather, fill, select_latest_per_source, select_hybrid, clamp_percent,
  to_drop, ranked, guaranteed_diversity_core, candidate_from, oldest_index, replace_oldest,
  select_preferred_sources, select_guaranteed_diversity,
}
use flux_lens.Curation.Strategies.Members.{IsFair}

length_le-if :
    {A : Type 0} (k : ℕ) (b : Bool) (xs ys : List A)
    → length xs ≤ k
    → length ys ≤ k
    → length (if b then xs else ys) ≤ k
length_le-if k true xs ys h j = h
length_le-if k false xs ys h j = j

take_le : {A : Type 0} (k : ℕ) (xs : List A) → length (take k xs) ≤ k
take_le k xs = omega (arith, length-take k xs)

length-gather :
    (k : ℕ) (out : List Event) (selected : List String) (more : List Event)
    → length out < k
    → length (gather k out selected more).0 ≤ k
unfolding gather
length-gather k out selected [] h = omega arith
length-gather k out selected (e ∷ more) h =
    let grown = length-append out (e ∷ []) in
    elim (Bool-cases (leb k (length (out ++ e ∷ [])))) [
      | inl full ↦ rw full (omega (arith, grown))
      | inr open_still ↦
          rw open_still
            (length-gather k (out ++ e ∷ []) (e.event_id ∷ selected) more (ground (arith, grown)))
    ]

length-fill :
    (k : ℕ) (out : List Event) (selected : List String) (more : List Event)
    → length out ≤ k
    → length (fill k out selected more) ≤ k
unfolding fill
length-fill k out selected [] h = h
length-fill k out selected (e ∷ more) h = elim (Bool-cases (leb k (length out))) [
  | inl full ↦ rw full h
  | inr open_still ↦ rw open_still (
      length_le-if k (contains selected e.event_id) _ _ (length-fill k out selected more h) (
        length-fill k (out ++ e ∷ []) (e.event_id ∷ selected) more
          (ground (arith, length-append out (e ∷ [])))))
]

-- The shape that two strategies share: gather, then fill up unless enough is held.
length-gather_fill :
    (k : ℕ) (out : List Event) (selected : List String) (more : List Event)
    → leb k (length out) ≡ false
    → length (fill k out selected more) ≤ k
length-gather_fill k out selected more h = length-fill k out selected more (ground arith)

pub length-select_latest : (events : List Event) (k : ℕ) → length (select_latest events k) ≤ k
unfolding select_latest
length-select_latest events k = take_le k (sort_by_timestamp_desc events)

module _ (world : Nondeterminism) where
  pub length-select_latest_per_source :
      (events : List Event) (k : ℕ) → length (select_latest_per_source world events k) ≤ k
  unfolding select_latest_per_source
  length-select_latest_per_source events k =
      let out = sort_by_timestamp_desc (values (world.range (latest_per_source events))) in
      elim (Bool-cases (ltb k (length out))) [
        | inl cut ↦ rw cut (take_le k out)
        | inr whole ↦ rw whole (ground arith)
      ]

  pub length-select_hybrid :
      (events : List Event) (k : ℕ) → length (select_hybrid world events k) ≤ k
  unfolding select_hybrid
  length-select_hybrid events k =
      let (out, selected) = gather k [] [] (values (world.range (latest_per_source events))) in
      elim (Bool-cases (leb k (length out))) [
        | inl full ↦ rw full (take_le k out)
        | inr more ↦
            rw more (length-gather_fill k out selected (sort_by_timestamp_desc events) more)
      ]

  module _ (arith64 : Arithmetic) where
    pub length-guaranteed_diversity_core :
        (events : List Event) (k : ℕ) (percent : Float64) (evict_random : Bool)
        → 0 < k
        → length (guaranteed_diversity_core world arith64 events k percent evict_random) ≤ k
    unfolding guaranteed_diversity_core
    length-guaranteed_diversity_core events k percent evict_random h =
        let by_source = latest_per_source events in
        let order = ranked world evict_random (world.range by_source) in
        let dropped = to_drop arith64 (length by_source) (clamp_percent percent) in
        let left = values (drop dropped order) in
        let (kept, selected) = gather k [] [] left in
        elim (Bool-cases (leb k (length kept))) [
          | inl full ↦ rw full (length-gather k [] [] left h)
          | inr more ↦
              rw more (length-gather_fill k kept selected (sort_by_timestamp_desc events) more)
        ]

    length-replace_oldest :
        (result : List Event) (o : Option Event) → length (replace_oldest result o) ≡ length result
    unfolding replace_oldest
    length-replace_oldest result none = refl
    length-replace_oldest result (some e) = length-set result (oldest_index result) e

    pub length-select_preferred_sources :
        (events : List Event) (k : ℕ) (percent : Float64) (preferred : List String)
        → 0 < k
        → length (select_preferred_sources world arith64 events k percent preferred) ≤ k
    unfolding select_preferred_sources select_guaranteed_diversity
    length-select_preferred_sources events k percent preferred h =
        let result = guaranteed_diversity_core world arith64 events k percent false in
        let small = length-guaranteed_diversity_core events k percent false h in
        length_le-if k (is_nil preferred || is_nil result) _ _ small (
          length_le-if k (any (λ e. contains preferred e.source_id) result) _ _ small (
            omega
              (arith, small, length-replace_oldest result (candidate_from preferred none events))))

  module _ (arith64 : Arithmetic) (fair : IsFair world) where
    length-ranked :
        (evict_random : Bool) (sources : List (String × Event))
        → length (ranked world evict_random sources) ≡ length sources
    unfolding ranked
    length-ranked true sources = length_of_perm (fair.shuffles sources)
    length-ranked false sources = length-sort (λ a b. earlier a.1 b.1) sources

    length-values : (entries : List (String × Event)) → length (values entries) ≡ length entries
    length-values [] = refl
    length-values (entry ∷ entries) = ap suc (length-values entries)

    length-gather_zero : (more : List Event) → 0 < length more → length (gather 0 [] [] more).0 ≡ 1
    unfolding gather
    length-gather_zero [] h = absurd (omega arith)
    length-gather_zero (e ∷ more) h = refl

    -- For any order of maps and any shuffle that keep the elements: asked for no events at all, the strategies with guaranteed diversity select one, as long as
    -- not every source is dropped: the test for a full digest stands behind the first event.
    pub guaranteed_diversity_overruns :
        (events : List Event) (percent : Float64) (evict_random : Bool)
        → to_drop arith64 (length (latest_per_source events)) (clamp_percent percent)
          < length (latest_per_source events)
        → length (guaranteed_diversity_core world arith64 events 0 percent evict_random) ≡ 1
    unfolding guaranteed_diversity_core
    guaranteed_diversity_overruns events percent evict_random h =
        let by_source = latest_per_source events in
        let order = ranked world evict_random (world.range by_source) in
        let dropped = to_drop arith64 (length by_source) (clamp_percent percent) in
        let left = values (drop dropped order) in
        let full : leb 0 (length (gather 0 [] [] left).0) ≡ true = ground arith in
        rw full (
          length-gather_zero left (
            omega (
              arith,
              h,
              length-values (drop dropped order),
              length-drop dropped order,
              length-ranked evict_random (world.range by_source),
              length_of_perm (fair.ranges by_source),
            )))
