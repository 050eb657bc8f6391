-- ===== src/Curation/Strategies.antt =====
-- The six selection strategies of internal/curation/strategies.go.
pub mod Members
pub mod Latest
pub mod Sizes
pub mod Preferred
use flux_lens.Base.{
  ℕ, zero, suc, ◌+◌, String, Bool, true, false, Option, none, some, List, [], ◌∷◌, ◌++◌, ◌==◌, ltb,
  leb, if◌then◌else◌, length, take, drop, any, keep_if, not, set, ◌||◌,
}
use flux_lens.Base.Signed.{ℤ, pos, negsuc}
use flux_lens.Base.Float.{Float64, lt_f, f_zero, f_one, f_hundred, Arithmetic}
use flux_lens.Base.Dict.{Dict, find, assign}
use flux_lens.Base.Sorting.{sort}
use flux_lens.Canonical.{Event}

-- What the program leaves to the runtime: the order in which a map is ranged over, and the PRNG's
-- shuffle. Each returns its list in some order.
pub record Nondeterminism : Type 0 where
  pub range : Dict Event → List (String × Event)
  pub shuffle : List (String × Event) → List (String × Event)

-- a.Timestamp.After(b.Timestamp)
abbrev pub later : Event → Event → Bool
later a b = ltb b.timestamp a.timestamp

-- a.Timestamp.Before(b.Timestamp)
abbrev pub earlier : Event → Event → Bool
earlier a b = ltb a.timestamp b.timestamp

abbrev pub contains : List String → String → Bool
contains keys key = any (λ k. k == key) keys

abbrev pub is_nil {ℓ} : {A : Type ℓ} → List A → Bool
is_nil [] = true
is_nil (x ∷ xs) = false

unfoldable pub filter_suppressed : List Event → List String → List Event × ℕ
filter_suppressed events [] = (events, 0)
filter_suppressed events suppress = (
  keep_if (λ e. not (contains suppress e.event_id)) events,
  length (keep_if (λ e. contains suppress e.event_id) events),
)

unfoldable pub sort_by_timestamp_desc : List Event → List Event
sort_by_timestamp_desc = sort later

unfoldable pub select_latest : List Event → ℕ → List Event
select_latest events k = take k (sort_by_timestamp_desc events)

newest_of : Event → Option Event → Bool
newest_of e none = true
newest_of e (some cur) = later e cur

-- One round of the loop: the later of two events of a source stays.
absorb : Dict Event → Event → Dict Event
absorb m e = if newest_of e (find m e.source_id) then assign m e.source_id e else m

latest_from : Dict Event → List Event → Dict Event
latest_from m [] = m
latest_from m (e ∷ events) = latest_from (absorb m e) events

unfoldable pub latest_per_source : List Event → Dict Event
unfolding latest_from absorb newest_of
latest_per_source events = latest_from [] events

abbrev values : List (String × Event) → List Event
values [] = []
values ((s, e) ∷ more) = e ∷ values more

-- Takes events one by one, with their identifiers, until `k` are held. The test stands behind the
-- step, so a first event is taken whatever `k` is.
gather : ℕ → List Event → List String → List Event → List Event × List String
gather k out selected [] = (out, selected)
gather k out selected (e ∷ more) =
    let out' = out ++ e ∷ [] in
    let selected' = e.event_id ∷ selected in
    let rest = gather k out' selected' more in
    if leb k (length out') then (out', selected') else rest

-- Fills up with events that are not selected yet.
fill : ℕ → List Event → List String → List Event → List Event
fill k out selected [] = out
fill k out selected (e ∷ more) =
    let skip = fill k out selected more in
    let go_on = fill k (out ++ e ∷ []) (e.event_id ∷ selected) more in
    if leb k (length out) then out else if contains selected e.event_id then skip else go_on

unfoldable pub clamp_percent : Float64 → Float64
clamp_percent d =
    let low = if lt_f d f_zero then f_zero else d in if lt_f f_hundred low then f_hundred else low

-- An int, moved into the range from 0 to `n`.
clamp_count : ℕ → ℤ → ℕ
clamp_count n (pos d) = if ltb n d then n else d
clamp_count n (negsuc d) = 0

newer_candidate : Option Event → Event → Option Event
newer_candidate none e = some e
newer_candidate (some cur) e = some (if later e cur then e else cur)

-- The latest event of a preferred source.
candidate_from : List String → Option Event → List Event → Option Event
candidate_from preferred best [] = best
candidate_from preferred best (e ∷ more) =
    candidate_from preferred
      (if contains preferred e.source_id then newer_candidate best e else best) more

-- The place of the oldest event: `best` is the place of the oldest so far, `at` its time.
oldest_from : ℕ → ℕ → ℕ → List Event → ℕ
oldest_from best at i [] = best
oldest_from best at i (e ∷ more) =
    oldest_from (if ltb e.timestamp at then i else best)
      (if ltb e.timestamp at then e.timestamp else at) (suc i) more

oldest_index : List Event → ℕ
unfolding oldest_from
oldest_index [] = 0
oldest_index (e ∷ more) = oldest_from 0 e.timestamp 0 (e ∷ more)

replace_oldest : List Event → Option Event → List Event
unfolding oldest_index
replace_oldest result none = result
replace_oldest result (some e) = set result (oldest_index result) e

-- How many of `n` sources are dropped.
unfoldable pub to_drop : Arithmetic → ℕ → Float64 → ℕ
unfolding clamp_count f_one f_hundred
to_drop arith64 n d =
    clamp_count n (
      arith64.to_int (arith64.mul (arith64.of_int n) (arith64.sub f_one (arith64.div d f_hundred))))

module _ (world : Nondeterminism) where
  unfoldable pub select_latest_per_source : List Event → ℕ → List Event
  select_latest_per_source events k =
      let out = sort_by_timestamp_desc (values (world.range (latest_per_source events))) in
      if ltb k (length out) then take k out else out

  unfoldable pub select_hybrid : List Event → ℕ → List Event
  unfolding gather fill
  select_hybrid events k =
      let (out, selected) = gather k [] [] (values (world.range (latest_per_source events))) in
      if leb k (length out) then take k out else fill k out selected (sort_by_timestamp_desc events)

  ranked : Bool → List (String × Event) → List (String × Event)
  ranked true sources = world.shuffle sources
  ranked false sources = sort (λ a b. earlier a.1 b.1) sources

  module _ (arith64 : Arithmetic) where
    unfoldable pub guaranteed_diversity_core : List Event → ℕ → Float64 → Bool → List Event
    unfolding clamp_percent ranked gather fill
    guaranteed_diversity_core events k diversity_percent evict_random =
        let by_source = latest_per_source events in
        let order = ranked evict_random (world.range by_source) in
        let dropped = to_drop arith64 (length by_source) (clamp_percent diversity_percent) in
        let (kept, selected) = gather k [] [] (values (drop dropped order)) in
        if leb k (length kept) then kept else fill k kept selected (sort_by_timestamp_desc events)

    unfoldable pub select_guaranteed_diversity : List Event → ℕ → Float64 → List Event
    select_guaranteed_diversity events k d = guaranteed_diversity_core events k d false

    unfoldable pub select_guaranteed_diversity_random : List Event → ℕ → Float64 → List Event
    select_guaranteed_diversity_random events k d = guaranteed_diversity_core events k d true

    unfoldable pub select_preferred_sources : List Event → ℕ → Float64 → List String → List Event
    unfolding candidate_from newer_candidate replace_oldest
    select_preferred_sources events k d preferred =
        let result = select_guaranteed_diversity events k d in
        if is_nil preferred || is_nil result
        then result
        else if any (λ e. contains preferred e.source_id) result
        then result
        else replace_oldest result (candidate_from preferred none events)
