-- ===== src/Curation/Strategies/Latest.antt =====
-- The map of the latest event of each source.
use mathlib.Core.Path.{subst}
use mathlib.Core.List.{Memᴰ}
use flux_lens.Base.{
  ◌≤◌, String, true, false, ◌≡◌, ◌≢◌, refl, ◌⊎◌, inl, inr, Option, none, some, List, [], ◌∷◌, arith,
  eq_iff, All, Bool-cases, text_cases, ==-false→ne,
}
use flux_lens.Base.Lists.{All-imp}
use flux_lens.Base.Dict.{Dict, find, find-assign}
use flux_lens.Canonical.{Event}
use flux_lens.Curation.Strategies.{newest_of, absorb, latest_from, latest_per_source}

-- The latest of the events of one source, or none where the source has none.
abbrev pub IsLatest : List Event → String → Option Event → Type 0
IsLatest events src none = All (λ d. d.source_id ≢ src) events
IsLatest events src (some e) =
    Memᴰ e events
    × (e.source_id ≡ src)
    × All (λ d. (d.source_id ≢ src) ⊎ (d.timestamp ≤ e.timestamp)) events

-- An event of another source changes nothing.
IsLatest-other :
    (e : Event) (seen : List Event) (src : String) (o : Option Event)
    → e.source_id ≢ src
    → IsLatest seen src o
    → IsLatest (e ∷ seen) src o
IsLatest-other e seen src none h l = (h, l)
IsLatest-other e seen src (some cur) h l = (Memᴰ.tail l.0, l.1, (inl h, l.2))

-- An event of the source replaces one that is older.
IsLatest-newest :
    (e : Event) (seen : List Event) (src : String) (o : Option Event)
    → e.source_id ≡ src
    → newest_of e o ≡ true
    → IsLatest seen src o
    → IsLatest (e ∷ seen) src (some e)
unfolding newest_of
IsLatest-newest e seen src none same n l =
    (Memᴰ.head refl, same, (inr (omega arith), All-imp _ _ seen (λ d other. inl other) l))
IsLatest-newest e seen src (some cur) same n l =
    (Memᴰ.head refl, same, (inr (omega arith), All-imp _ _ seen (λ d older. ground arith) l.2))

IsLatest-older :
    (e : Event) (seen : List Event) (src : String) (o : Option Event)
    → newest_of e o ≡ false
    → IsLatest seen src o
    → IsLatest (e ∷ seen) src o
unfolding newest_of
IsLatest-older e seen src none n l = cc
IsLatest-older e seen src (some cur) n l = (Memᴰ.tail l.0, l.1, (inr (ground arith), l.2))

Holds : Dict Event → List Event → Type 0
Holds m seen = (src : String) → IsLatest seen src (find m src)

absorb-Holds :
    (m : Dict Event) (e : Event) (seen : List Event) → Holds m seen → Holds (absorb m e) (e ∷ seen)
unfolding absorb Holds
absorb-Holds m e seen h src = elim (Bool-cases (newest_of e (find m e.source_id))) [
  | inl newest ↦
      rw (newest, find-assign m e.source_id src e)
        (elim (text_cases e.source_id src) [
          | inl same ↦ rw ((eq_iff _ _).1 same) (
              subst (λ s. IsLatest (e ∷ seen) s (some e)) same
                (IsLatest-newest e seen e.source_id (find m e.source_id) refl newest
                  (h e.source_id)))
          | inr other ↦
              rw other (IsLatest-other e seen src (find m src) (==-false→ne _ _ other) (h src))
        ])
  | inr older ↦ rw older (elim (text_cases e.source_id src) [
    | inl same ↦
        subst (λ s. IsLatest (e ∷ seen) s (find m s)) same
          (IsLatest-older e seen e.source_id (find m e.source_id) older (h e.source_id))
    | inr other ↦ IsLatest-other e seen src (find m src) (==-false→ne _ _ other) (h src)
  ])
]

-- The events that the loop has met, the last one first.
met : List Event → List Event → List Event
met seen [] = seen
met seen (e ∷ more) = met (e ∷ seen) more

latest_from-Holds :
    (m : Dict Event) (seen more : List Event)
    → Holds m seen
    → Holds (latest_from m more) (met seen more)
unfolding latest_from met
latest_from-Holds m seen [] h = h
latest_from-Holds m seen (e ∷ more) h =
    latest_from-Holds (absorb m e) (e ∷ seen) more (absorb-Holds m e seen h)

All-met :
    (P : Event → Type 0) (seen more : List Event) → All P (met seen more) → All P seen × All P more
unfolding met
All-met P seen [] h = (h, tt)
All-met P seen (e ∷ more) h =
    let ((here, before), after) = split (All-met P (e ∷ seen) more h) in (before, (here, after))
  where
    split : {A B C : Type 0} → (A × B) × C → (A × B) × C
    split x = x

mem_of_met :
    {a : Event} (seen more : List Event) → Memᴰ a (met seen more) → Memᴰ a seen ⊎ Memᴰ a more
unfolding met
mem_of_met seen [] m = inl m
mem_of_met {a} seen (e ∷ more) m = elim (mem_of_met (e ∷ seen) more m) [
  | inl before ↦ first before
  | inr after ↦ inr (Memᴰ.tail after)
]
  where
    first : Memᴰ a (e ∷ seen) → Memᴰ a seen ⊎ Memᴰ a (e ∷ more)
    first (Memᴰ.head h) = inr (Memᴰ.head h)
    first (Memᴰ.tail t) = inl t

IsLatest-met :
    (events : List Event) (src : String) (o : Option Event)
    → IsLatest (met [] events) src o
    → IsLatest events src o
IsLatest-met events src none h = (All-met _ [] events h).1
IsLatest-met events src (some e) h = (
  elim (mem_of_met [] events h.0) [ inl never ↦ elim never [ ] | inr m ↦ m ],
  h.1,
  (All-met _ [] events h.2).1,
)

-- The map of latestPerSource holds, for each source of the events, an event of it that no event of the source is later
-- than, and it holds nothing for any other source.
pub latest_per_source-IsLatest :
    (events : List Event) (src : String) → IsLatest events src (find (latest_per_source events) src)
unfolding latest_per_source
latest_per_source-IsLatest events src =
    IsLatest-met events src (find (latest_from [] events) src)
      (unfold Holds in latest_from-Holds [] [] events (λ s. unfold find in tt) src)
