-- ===== src/Curation/Tests.antt =====
-- Digests of four events of three sources, and the theorems on them. Maps are ranged over in the
-- order of their entries, and the arithmetic counts whole numbers only.
use mathlib.Core.List.Permᴰ
use flux_lens.Base.{ℕ, ◌≤◌, ◌<◌, String, ◌≡◌, refl, List, [], ◌∷◌, arith, length, All}
use flux_lens.Base.Signed.{ℤ, pos}
use flux_lens.Base.Float.{fin, lt_f, f_zero, f_one, f_hundred, Arithmetic}
use flux_lens.Base.Dict.{find, assign}
use flux_lens.Base.Sorting.{IsSorted, sort}
use flux_lens.Base.Json.{null}
use flux_lens.Canonical.{Event, age_at, severity_info, source_kafka, schema_version}
use flux_lens.Curation.{Request, Result, Outcome, ok, unknown_strategy, negative_k, choose, select}
use flux_lens.Curation.Scores.{
  compute_freshness, compute_diversity, redundancy_ratio, max_age, sources_of,
}
use flux_lens.Curation.Strategies.{
  Nondeterminism, later, filter_suppressed, sort_by_timestamp_desc, select_latest,
  latest_per_source, to_drop, clamp_percent, select_latest_per_source, select_hybrid,
  guaranteed_diversity_core, select_guaranteed_diversity, select_guaranteed_diversity_random,
  select_preferred_sources,
}
use flux_lens.Curation.Strategies.Members.{IsFair}
use flux_lens.Curation.Guarantees.{IsEligible, select-All, length-select}

abbrev event : String → String → ℕ → Event
event id src time = record {
  event_id = id;
  source_id = src;
  source_type = source_kafka;
  event_type = "reading";
  severity = severity_info;
  timestamp = time;
  ingested_at = time;
  payload = null;
  metadata = record { trace_id = ""; ingestion_pod = ""; schema = schema_version; tenant_id = "" };
}

abbrev given : List Event
given = event "1" "a" 10 ∷ event "2" "a" 40 ∷ event "3" "b" 30 ∷ event "4" "c" 20 ∷ []

abbrev world : Nondeterminism
world = record { range = λ m. m; shuffle = λ xs. xs }

world-IsFair : IsFair world
world-IsFair = record { ranges = λ m. Permᴰ.refl _; shuffles = λ xs. Permᴰ.refl _ }

-- Arithmetic that knows no sum or quotient: every score is 0, and no source is dropped.
abbrev arith64 : Arithmetic
arith64 = record {
  of_int = λ n. fin (pos n);
  add = λ x y. fin (pos 0);
  sub = λ x y. fin (pos 0);
  mul = λ x y. fin (pos 0);
  div = λ x y. fin (pos 0);
  to_int = λ x. pos 0;
}

abbrev request : ℕ → ℤ → List String → List String → Request
request strategy k preferred suppressed = record {
  strategy = pos strategy;
  events = given;
  k = k;
  diversity_percent = fin (pos 0);
  preferred_sources = preferred;
  suppression_set = suppressed;
  now = 50;
}

run : Unit {0}
unfolding select choose filter_suppressed sort_by_timestamp_desc sort select_latest
    latest_per_source find assign to_drop clamp_percent lt_f f_zero f_one f_hundred
    select_latest_per_source select_hybrid guaranteed_diversity_core select_guaranteed_diversity
    select_guaranteed_diversity_random select_preferred_sources compute_freshness compute_diversity
    redundancy_ratio max_age sources_of age_at
run = tt

abbrev ids : List Event → List String
ids [] = []
ids (e ∷ more) = e.event_id ∷ ids more

abbrev chosen : Outcome → List String
chosen (ok r) = ids r.selected
chosen negative_k = "negative k" ∷ []
chosen unknown_strategy = "unknown strategy" ∷ []

latest_two : chosen (select world arith64 (request 1 (pos 2) [] []) 0) ≡ "2" ∷ "3" ∷ []
unfolding run
latest_two = refl

one_per_source : chosen (select world arith64 (request 2 (pos 9) [] ("3" ∷ [])) 0) ≡ "2" ∷ "4" ∷ []
unfolding run
one_per_source = refl

hybrid : chosen (select world arith64 (request 3 (pos 4) [] []) 0) ≡ "2" ∷ "3" ∷ "4" ∷ "1" ∷ []
unfolding run
hybrid = refl

-- The digest of one event gives its place to the preferred source.
preferred_one : chosen (select world arith64 (request 6 (pos 1) ("b" ∷ []) []) 0) ≡ "3" ∷ []
unfolding run
preferred_one = refl

no_such_strategy : select world arith64 (request 7 (pos 1) [] []) 0 ≡ unknown_strategy
unfolding run
no_such_strategy = refl

abbrev digest : Result
digest = record {
  selected = event "2" "a" 40 ∷ event "3" "b" 30 ∷ [];
  strategy = pos 1;
  freshness_score = fin (pos 0);
  diversity_score = fin (pos 0);
  redundancy_score = fin (pos 0);
}

selected_digest : select world arith64 (request 1 (pos 2) [] ("1" ∷ [])) 0 ≡ ok digest
unfolding run
selected_digest = refl

select-All_example :
    All (IsEligible (request 1 (pos 2) [] ("1" ∷ []))) digest.selected
    × IsSorted later digest.selected
select-All_example =
    select-All world arith64 world-IsFair (request 1 (pos 2) [] ("1" ∷ [])) 0 digest selected_digest

length-select_example : length digest.selected ≤ 2
length-select_example =
    length-select world arith64 world-IsFair (request 1 (pos 2) [] ("1" ∷ [])) 0 2 digest refl
      (omega arith) selected_digest

three_sources :
    to_drop arith64 (length (latest_per_source given)) (clamp_percent (fin (pos 0)))
    < length (latest_per_source given)
unfolding run
three_sources = omega arith
