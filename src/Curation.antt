-- ===== src/Curation.antt =====
-- internal/curation/strategies.go: the curated digest. The selection strategies stand in Strategies,
-- the scores in Scores.
pub mod Strategies
pub mod Scores
pub mod Guarantees
pub mod Tests
use flux_lens.Base.{ℕ, String, Bool, true, false, List, [], ◌∷◌, length, eqb, if◌then◌else◌}
use flux_lens.Base.Signed.{ℤ, pos, negsuc}
use flux_lens.Base.Float.{Float64, Arithmetic}
use flux_lens.Canonical.{Event}
use flux_lens.Curation.Strategies.{
  Nondeterminism, sort_by_timestamp_desc, filter_suppressed, select_latest,
  select_latest_per_source, select_hybrid, select_guaranteed_diversity,
  select_guaranteed_diversity_random, select_preferred_sources,
}
use flux_lens.Curation.Scores.{compute_freshness, compute_diversity, redundancy_ratio}

-- A set is the list of its members; the PRNG is in `Nondeterminism`.
pub record Request : Type 0 where
  pub strategy : ℤ
  pub events : List Event
  pub k : ℤ
  pub diversity_percent : Float64
  pub preferred_sources : List String
  pub suppression_set : List String
  pub now : ℕ

pub record Result : Type 0 where
  pub selected : List Event
  pub strategy : ℤ
  pub freshness_score : Float64
  pub diversity_score : Float64
  pub redundancy_score : Float64

pub data Outcome : Type 0 where
  ok : Result → Outcome
  negative_k unknown_strategy : Outcome

pub data Chosen : Type 0 where
  events : List Event → Chosen
  unknown : Chosen

module _ (world : Nondeterminism) (arith64 : Arithmetic) where
  -- The switch on the strategy, on the events that are not suppressed.
  unfoldable pub choose : ℤ → Request → ℕ → List Event → Chosen
  choose (pos n) req k prefiltered =
      if eqb n 1
      then events (select_latest prefiltered k)
      else if eqb n 2
      then events (select_latest_per_source world prefiltered k)
      else if eqb n 3
      then events (select_hybrid world prefiltered k)
      else if eqb n 4
      then events (select_guaranteed_diversity world arith64 prefiltered k req.diversity_percent)
      else if eqb n 5
      then events
          (select_guaranteed_diversity_random world arith64 prefiltered k req.diversity_percent)
      else if eqb n 6
      then events (
          select_preferred_sources world arith64 prefiltered k req.diversity_percent
            req.preferred_sources)
      else unknown
  choose (negsuc n) req k prefiltered = unknown

  -- The sorted result and its scores.
  unfoldable pub finish : Request → ℕ → ℕ → Chosen → Outcome
  finish req now removed unknown = unknown_strategy
  finish req now removed (events chosen) =
      let selected = sort_by_timestamp_desc chosen in
      ok (record {
        selected = selected;
        strategy = req.strategy;
        freshness_score = compute_freshness arith64 selected req.events now;
        diversity_score = compute_diversity arith64 selected req.events;
        redundancy_score = redundancy_ratio arith64 removed (length req.events);
      })

  unfoldable pub with_size : Request → ℕ → ℤ → Outcome
  unfolding finish
  with_size req clock (negsuc n) = negative_k
  with_size req clock (pos k) =
      let now = if eqb req.now 0 then clock else req.now in
      let (prefiltered, removed) = filter_suppressed req.events req.suppression_set in
      finish req now removed (choose req.strategy req k prefiltered)

  -- Select; `clock` is what time.Now() returns.
  unfoldable pub select : Request → ℕ → Outcome
  unfolding with_size
  select req clock = with_size req clock req.k
