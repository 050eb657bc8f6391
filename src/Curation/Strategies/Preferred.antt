-- ===== src/Curation/Strategies/Preferred.antt =====
-- The promise of the strategy with preferred sources.
use flux_lens.Base.{
  ℕ, zero, suc, ◌+◌, ◌≤◌, ◌<◌, String, Bool, true, false, ◌≡◌, refl, ◌⊎◌, inl, inr, Option, none,
  some, List, [], ◌∷◌, ◌++◌, arith, leb, if◌then◌else◌, length, any, set, Bool-cases, length-append,
  ltb,
}
use flux_lens.Base.Sorting.{length-sort}
use flux_lens.Base.Float.{Float64, Arithmetic}
use flux_lens.Canonical.{Event}
use flux_lens.Curation.Strategies.{
  Nondeterminism, later, contains, is_nil, sort_by_timestamp_desc, gather, fill,
  guaranteed_diversity_core, select_guaranteed_diversity, newer_candidate, candidate_from,
  oldest_from, oldest_index, replace_oldest, select_preferred_sources,
}

-- Whether an event comes from a preferred source.
abbrev pub is_preferred : List String → Event → Bool
is_preferred preferred e = contains preferred e.source_id

module _ (preferred : List String) where
  IsWanted : Option Event → Type 0
  IsWanted none = ⊥
  IsWanted (some e) = is_preferred preferred e ≡ true

  newer_candidate-IsWanted :
      (best : Option Event) (e : Event)
      → ((best ≡ none) ⊎ IsWanted best)
      → is_preferred preferred e ≡ true
      → IsWanted (newer_candidate best e)
  unfolding newer_candidate IsWanted
  newer_candidate-IsWanted none e h k = k
  newer_candidate-IsWanted (some cur) e (inl h) k = cc
  newer_candidate-IsWanted (some cur) e (inr h) k = elim (Bool-cases (later e cur)) [
    | inl newer ↦ rw newer k
    | inr older ↦ rw older h
  ]

  candidate_from-IsWanted :
      (best : Option Event) (events : List Event)
      → (IsWanted best ⊎ ((best ≡ none) × (any (is_preferred preferred) events ≡ true)))
      → IsWanted (candidate_from preferred best events)
  unfolding candidate_from
  candidate_from-IsWanted best [] (inl w) = w
  candidate_from-IsWanted best [] (inr w) = cc (w.1)
  candidate_from-IsWanted best (e ∷ events) h = elim (Bool-cases (is_preferred preferred e)) [
    | inl wanted ↦ rw wanted (
        candidate_from-IsWanted (newer_candidate best e) events
          (inl (newer_candidate-IsWanted best e (either h) wanted)))
    | inr other ↦ rw other (candidate_from-IsWanted best events (pass h other))
  ]
    where
      either :
          (IsWanted best ⊎ ((best ≡ none) × (any (is_preferred preferred) (e ∷ events) ≡ true)))
          → (best ≡ none) ⊎ IsWanted best
      either (inl w) = inr w
      either (inr w) = inl w.0

      pass :
          (IsWanted best ⊎ ((best ≡ none) × (any (is_preferred preferred) (e ∷ events) ≡ true)))
          → is_preferred preferred e ≡ false
          → IsWanted best ⊎ ((best ≡ none) × (any (is_preferred preferred) events ≡ true))
      pass (inl w) f = inl w
      pass (inr w) f = inr (w.0, (rw f at w.1))

any-set :
    (p : Event → Bool) (xs : List Event) (i : ℕ) (e : Event)
    → i < length xs
    → p e ≡ true
    → any p (set xs i e) ≡ true
any-set p [] i e h k = absurd (omega arith)
any-set p (x ∷ xs) zero e h k = rw k
any-set p (x ∷ xs) (suc i) e h k = rw (any-set p xs i e (omega arith) k) (ground arith)

oldest_from-lt :
    (best at i : ℕ) (events : List Event)
    → best < i + length events
    → oldest_from best at i events < i + length events
unfolding oldest_from
oldest_from-lt best at i [] h = h
oldest_from-lt best at i (e ∷ events) h =
    let next =
      oldest_from-lt (if ltb e.timestamp at then i else best)
        (if ltb e.timestamp at then e.timestamp else at) (suc i) events (ground arith) in
    omega (arith, next)

oldest_index-lt :
    (events : List Event) → is_nil events ≡ false → oldest_index events < length events
unfolding oldest_index
oldest_index-lt [] h = cc
oldest_index-lt (e ∷ events) h =
    let bound = oldest_from-lt 0 e.timestamp 0 (e ∷ events) (omega arith) in omega (arith, bound)

gather-grows :
    (k : ℕ) (out : List Event) (selected : List String) (more : List Event)
    → length out ≤ length (gather k out selected more).0
unfolding gather
gather-grows k out selected [] = omega arith
gather-grows k out selected (e ∷ more) =
    let next = gather-grows k (out ++ e ∷ []) (e.event_id ∷ selected) more in
    let grown = length-append out (e ∷ []) in
    elim (Bool-cases (leb k (length (out ++ e ∷ [])))) [
      | inl full ↦ rw full (omega (arith, grown))
      | inr open_still ↦ rw open_still (omega (arith, next, grown))
    ]

fill-grows :
    (k : ℕ) (out : List Event) (selected : List String) (more : List Event)
    → length out ≤ length (fill k out selected more)
unfolding fill
fill-grows k out selected [] = omega arith
fill-grows k out selected (e ∷ more) = ground (
  arith,
  fill-grows k out selected more,
  fill-grows k (out ++ e ∷ []) (e.event_id ∷ selected) more,
  length-append out (e ∷ []),
)

-- From an event at hand, and with room, one is selected.
fill-starts : (k : ℕ) (more : List Event) → 0 < k → 0 < length more → 0 < length (fill k [] [] more)
unfolding fill
fill-starts k [] h j = absurd (omega arith)
fill-starts k (e ∷ more) h j =
    let room : leb k 0 ≡ false = ground arith in
    let next = fill-grows k (e ∷ []) (e.event_id ∷ []) more in rw room (omega (arith, next))

gather-starts : (k : ℕ) (e : Event) (left : List Event) → 0 < length (gather k [] [] (e ∷ left)).0
unfolding gather
gather-starts k e left =
    let next = gather-grows k (e ∷ []) (e.event_id ∷ []) left in
    elim (Bool-cases (leb k 1)) [
      | inl full ↦ rw full (omega arith)
      | inr open_still ↦ rw open_still (omega (arith, next))
    ]

gather-fill-starts :
    (k : ℕ) (left sorted : List Event)
    → 0 < k
    → 0 < length sorted
    → 0
      < length (
          if leb k (length (gather k [] [] left).0)
          then (gather k [] [] left).0
          else fill k (gather k [] [] left).0 (gather k [] [] left).1 sorted)
gather-fill-starts k [] sorted h j =
    let room : leb k 0 ≡ false = ground arith in unfold gather in rw room (fill-starts k sorted h j)
gather-fill-starts k (e ∷ left) sorted h j =
    let (kept, selected) = gather k [] [] (e ∷ left) in
    let some_kept = gather-starts k e left in
    elim (Bool-cases (leb k (length kept))) [
      | inl full ↦ rw full some_kept
      | inr more ↦
          rw more (let next = fill-grows k kept selected sorted in omega (arith, next, some_kept))
    ]

is_nil_of_pos : {A : Type 0} (xs : List A) → 0 < length xs → is_nil xs ≡ false
is_nil_of_pos [] h = absurd (omega arith)
is_nil_of_pos (x ∷ xs) h = refl

length_of_any : (p : Event → Bool) (xs : List Event) → any p xs ≡ true → 0 < length xs
length_of_any p [] h = cc
length_of_any p (x ∷ xs) h = omega arith

none_preferred : (events : List Event) → any (is_preferred []) events ≡ false
none_preferred [] = refl
none_preferred (e ∷ events) = none_preferred events

some_preferred :
    (preferred : List String) (events : List Event)
    → any (is_preferred preferred) events ≡ true
    → is_nil preferred ≡ false
some_preferred [] events h = cc (none_preferred events)
some_preferred (p ∷ preferred) events h = refl

module _ (world : Nondeterminism) (arith64 : Arithmetic) where
  core-starts :
      (events : List Event) (k : ℕ) (percent : Float64) (evict_random : Bool)
      → 0 < k
      → 0 < length events
      → 0 < length (guaranteed_diversity_core world arith64 events k percent evict_random)
  unfolding guaranteed_diversity_core sort_by_timestamp_desc
  core-starts events k percent evict_random h j =
      gather-fill-starts k _ (sort_by_timestamp_desc events) h
        (omega (arith, length-sort later events))

  replace_oldest-is_preferred :
      (preferred : List String) (result : List Event) (o : Option Event)
      → is_nil result ≡ false
      → IsWanted preferred o
      → any (is_preferred preferred) (replace_oldest result o) ≡ true
  unfolding replace_oldest IsWanted
  replace_oldest-is_preferred preferred result none h w = absurd w
  replace_oldest-is_preferred preferred result (some e) h w =
      any-set (is_preferred preferred) result (oldest_index result) e (oldest_index-lt result h) w

  -- With room for one event, and an event of a preferred source among those given, an event of a
  -- preferred source is selected.
  pub select_preferred_sources_prefers :
      (events : List Event) (k : ℕ) (percent : Float64) (preferred : List String)
      → 0 < k
      → any (is_preferred preferred) events ≡ true
      → any
          (is_preferred preferred)
          (select_preferred_sources world arith64 events k percent preferred)
        ≡ true
  unfolding select_preferred_sources select_guaranteed_diversity
  select_preferred_sources_prefers events k percent preferred h w =
      let result = guaranteed_diversity_core world arith64 events k percent false in
      let some_result =
        is_nil_of_pos result (core-starts events k percent false h (length_of_any _ events w)) in
      rw (some_preferred preferred events w, some_result)
        (elim (Bool-cases (any (is_preferred preferred) result)) [
          | inl there ↦ rw there there
          | inr missing ↦ rw missing (
              replace_oldest-is_preferred preferred result (candidate_from preferred none events)
                some_result (candidate_from-IsWanted preferred none events (inr (refl, w))))
        ])
