-- ===== src/Curation/Guarantees.antt =====
-- What Select guarantees of a digest.
use mathlib.Core.Path.{subst}
use mathlib.Core.List.{Memᴰ}
use flux_lens.Base.{
  ℕ, ◌≤◌, ◌<◌, String, Bool, true, false, not, ◌≡◌, refl, List, [], ◌∷◌, arith, length, All,
  if◌then◌else◌, eqb,
}
use flux_lens.Base.Lists.{All-of_mem, All-mem, mem_of_keep_if, All-keep_if_test}
use flux_lens.Base.Sorting.{IsSorted, sort-IsSorted, IsStrictOrder, length-sort}
use flux_lens.Base.Signed.{ℤ, pos, negsuc}
use flux_lens.Base.Float.{Arithmetic}
use flux_lens.Canonical.{Event}
use flux_lens.Curation.{
  Request, Result, ok, Chosen, events, unknown, choose, finish, with_size, select,
}
use flux_lens.Curation.Strategies.{
  Nondeterminism, later, select_guaranteed_diversity, select_guaranteed_diversity_random, contains,
  filter_suppressed, sort_by_timestamp_desc,
}
use flux_lens.Curation.Strategies.Sizes.{
  length-select_latest, length-select_latest_per_source, length-select_hybrid,
  length-guaranteed_diversity_core, length-select_preferred_sources,
}
use flux_lens.Curation.Strategies.Members.{
  IsFair, All-sort_by_timestamp, All-select_latest, All-select_latest_per_source, All-select_hybrid,
  All-guaranteed_diversity_core, All-select_preferred_sources,
}

-- An event of the request that is not suppressed.
abbrev pub IsEligible : Request → Event → Type 0
IsEligible req e = Memᴰ e req.events × (contains req.suppression_set e.event_id ≡ false)

later-IsStrictOrder : IsStrictOrder later
later-IsStrictOrder = record {
  asymmetric = λ a b h. ground arith;
  transitive = λ a b c h k. ground arith;
}

filtered-All :
    (given : List Event) (suppress : List String)
    → All
        (λ e. Memᴰ e given × (contains suppress e.event_id ≡ false))
        (filter_suppressed given suppress).0
unfolding filter_suppressed
filtered-All given [] = All-of_mem _ given (λ e m. (m, refl))
filtered-All given (s ∷ suppress) = All-of_mem _ _ (λ e m. (
  mem_of_keep_if (λ e. not (contains (s ∷ suppress) e.event_id)) given m,
  not-true _ (All-mem _ (All-keep_if_test (λ e. not (contains (s ∷ suppress) e.event_id)) given) m),
))
  where
    not-true : (b : Bool) → not b ≡ true → b ≡ false
    not-true true h = cc
    not-true false h = refl

AllOf : (Event → Type 0) → Chosen → Type 0
AllOf P (events chosen) = All P chosen
AllOf P unknown = Unit

module _ (world : Nondeterminism) (arith64 : Arithmetic) (fair : IsFair world) where
  -- The cases of the switch, one below the other.
  AllOf-if :
      (P : Event → Type 0) (b : Bool) (x y : Chosen)
      → AllOf P x
      → AllOf P y
      → AllOf P (if b then x else y)
  AllOf-if P true x y h k = h
  AllOf-if P false x y h k = k

  choose-AllOf :
      (P : Event → Type 0) (strategy : ℤ) (req : Request) (k : ℕ) (given : List Event)
      → All P given
      → AllOf P (choose world arith64 strategy req k given)
  unfolding choose AllOf select_guaranteed_diversity select_guaranteed_diversity_random
  choose-AllOf P (negsuc n) req k given h = tt
  choose-AllOf P (pos n) req k given h =
      let d = req.diversity_percent in
      AllOf-if P (eqb n 1) _ _ (All-select_latest P given k h) (
        AllOf-if P (eqb n 2) _ _ (All-select_latest_per_source P world fair given k h) (
          AllOf-if P (eqb n 3) _ _ (All-select_hybrid P world fair given k h) (
            AllOf-if P (eqb n 4) _ _
              (All-guaranteed_diversity_core P world fair arith64 given k d false h)
              (AllOf-if P (eqb n 5) _ _
                (All-guaranteed_diversity_core P world fair arith64 given k d true h)
                (AllOf-if P (eqb n 6) _ unknown
                  (All-select_preferred_sources P world fair arith64 given k d req.preferred_sources
                    h)
                  tt)))))

  finish-All :
      (P : Event → Type 0) (req : Request) (now removed : ℕ) (o : Chosen) (r : Result)
      → AllOf P o
      → finish world arith64 req now removed o ≡ ok r
      → All P r.selected × IsSorted later r.selected
  unfolding finish AllOf
  finish-All P req now removed unknown r h e = cc
  finish-All P req now removed (events chosen) r h e =
      let same : sort_by_timestamp_desc chosen ≡ r.selected = ground arith in
      subst (λ (xs : List Event). All P xs × IsSorted later xs) same
        (
          All-sort_by_timestamp P chosen h,
          (unfold sort_by_timestamp_desc in sort-IsSorted later later-IsStrictOrder chosen),
        )

  with_size-All :
      (req : Request) (clock : ℕ) (k : ℤ) (r : Result)
      → with_size world arith64 req clock k ≡ ok r
      → All (IsEligible req) r.selected × IsSorted later r.selected
  unfolding with_size
  with_size-All req clock (negsuc n) r e = cc
  with_size-All req clock (pos k) r e =
      finish-All (IsEligible req) req _ _ _ r
        (choose-AllOf (IsEligible req) req.strategy req k _
          (filtered-All req.events req.suppression_set))
        e

  -- If ranging over a map and shuffling keep the elements then, whatever the strategy, a digest of
  -- Select holds events of the request only, none of them suppressed, and no event stands behind an
  -- older one.
  pub select-All :
      (req : Request) (clock : ℕ) (r : Result)
      → select world arith64 req clock ≡ ok r
      → All (IsEligible req) r.selected × IsSorted later r.selected
  unfolding select
  select-All req clock r e = with_size-All req clock req.k r e

  Fits : ℕ → Chosen → Type 0
  Fits k (events chosen) = length chosen ≤ k
  Fits k unknown = Unit

  Fits-if : (k : ℕ) (b : Bool) (x y : Chosen) → Fits k x → Fits k y → Fits k (if b then x else y)
  Fits-if k true x y h j = h
  Fits-if k false x y h j = j

  choose-Fits :
      (strategy : ℤ) (req : Request) (k : ℕ) (given : List Event)
      → 0 < k
      → Fits k (choose world arith64 strategy req k given)
  unfolding choose Fits select_guaranteed_diversity select_guaranteed_diversity_random
  choose-Fits (negsuc n) req k given h = tt
  choose-Fits (pos n) req k given h =
      let d = req.diversity_percent in
      Fits-if k (eqb n 1) _ _ (length-select_latest given k) (
        Fits-if k (eqb n 2) _ _ (length-select_latest_per_source world given k) (
          Fits-if k (eqb n 3) _ _ (length-select_hybrid world given k) (
            Fits-if k (eqb n 4) _ _
              (length-guaranteed_diversity_core world arith64 given k d false h)
              (Fits-if k (eqb n 5) _ _
                (length-guaranteed_diversity_core world arith64 given k d true h)
                (Fits-if k (eqb n 6) _ unknown
                  (length-select_preferred_sources world arith64 given k d req.preferred_sources h)
                  tt)))))

  finish-Fits :
      (req : Request) (now removed k : ℕ) (o : Chosen) (r : Result)
      → Fits k o
      → finish world arith64 req now removed o ≡ ok r
      → length r.selected ≤ k
  unfolding finish Fits
  finish-Fits req now removed k unknown r h e = cc
  finish-Fits req now removed k (events chosen) r h e =
      let same : sort_by_timestamp_desc chosen ≡ r.selected = ground arith in
      subst (λ (xs : List Event). length xs ≤ k) same
        (unfold sort_by_timestamp_desc in omega (arith, h, length-sort later chosen))

  -- If ranging over a map and shuffling keep the elements then, whatever the strategy, a digest of
  -- Select for a positive K holds K events at most.
  pub length-select :
      (req : Request) (clock k : ℕ) (r : Result)
      → req.k ≡ pos k
      → 0 < k
      → select world arith64 req clock ≡ ok r
      → length r.selected ≤ k
  unfolding select with_size
  length-select req clock k r size h e =
      finish-Fits req _ _ k _ r (choose-Fits req.strategy req k _ h) (rw (size, with_size) at e)
