-- ===== src/Curation/Scores.antt =====
-- The three scores of a digest.
use flux_lens.Base.{ℕ, String, List, [], ◌∷◌, ltb, eqb, if◌then◌else◌, length, ◌||◌}
use flux_lens.Base.Float.{Float64, f_zero, f_one, Arithmetic}
use flux_lens.Canonical.{Event, age_at}
use flux_lens.Curation.Strategies.{contains, is_nil}

max_age_from : ℕ → ℕ → List Event → ℕ
max_age_from ref greatest [] = greatest
max_age_from ref greatest (e ∷ more) =
    max_age_from ref (if ltb greatest (age_at e ref) then age_at e ref else greatest) more

unfoldable pub max_age : ℕ → List Event → ℕ
unfolding max_age_from
max_age ref events = max_age_from ref 0 events

-- The set of the sources, as the list of its members.
sources_from : List String → List Event → List String
sources_from sources [] = sources
sources_from sources (e ∷ more) =
    sources_from (if contains sources e.source_id then sources else e.source_id ∷ sources) more

unfoldable pub sources_of : List Event → List String
unfolding sources_from
sources_of events = sources_from [] events

module _ (arith64 : Arithmetic) where
  total_from : ℕ → ℕ → Float64 → List Event → Float64
  total_from ref greatest total [] = total
  total_from ref greatest total (e ∷ more) =
      total_from ref greatest
        (arith64.add total (
          arith64.sub f_one
            (arith64.div (arith64.of_int (age_at e ref)) (arith64.of_int greatest))))
        more

  unfoldable pub compute_freshness : List Event → List Event → ℕ → Float64
  unfolding total_from f_zero f_one
  compute_freshness selected all ref =
      if is_nil selected || is_nil all
      then f_zero
      else if eqb (max_age ref all) 0
      then f_one
      else arith64.div (total_from ref (max_age ref all) f_zero selected)
          (arith64.of_int (length selected))

  unfoldable pub compute_diversity : List Event → List Event → Float64
  unfolding f_zero
  compute_diversity selected all =
      if is_nil all
      then f_zero
      else if is_nil (sources_of all)
      then f_zero
      else arith64.div (arith64.of_int (length (sources_of selected)))
          (arith64.of_int (length (sources_of all)))

  unfoldable pub redundancy_ratio : ℕ → ℕ → Float64
  unfolding f_zero
  redundancy_ratio removed total =
      if eqb total 0 then f_zero else arith64.div (arith64.of_int removed) (arith64.of_int total)
