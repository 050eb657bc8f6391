-- ===== src/Gateway/Recent.antt =====
-- The recent events: the newest of those remembered, and the search for an event among them.
use mathlib.Core.List.{append-nil, append_assoc}
use flux_lens.Base.{
  ℕ, ◌-◌, ◌≤◌, String, ◌≡◌, ◌≢◌, refl, sym, ap, ◌∙◌, none, some, List, [], ◌∷◌, ◌++◌, ◌==◌, arith,
  inl, inr, Bool-cases, length, drop, ltb, ltb→le, length-drop, drop-drop, drop-append, All,
  length-append, eq_iff, ==-false→ne, ◌⊎◌,
}
use flux_lens.Canonical.{Event}
use flux_lens.Gateway.{
  Runtime, Readings, Gateway, Server, new_server, keep_newest, find_in, add_recent, find_event,
}
use flux_lens.Gateway.Live.{add_all_recent}

-- At most `max` elements: those from the end.
pub keep_newest_lem :
    {A : Type 0} (max : ℕ) (xs : List A) → keep_newest max xs ≡ drop (length xs - max) xs
unfolding keep_newest
keep_newest_lem max xs = elim (Bool-cases (ltb max (length xs))) [
  | inl more ↦ rw more refl
  | inr few ↦
      let nothing : length xs - max ≡ 0 = omega (arith, ltb→le max (length xs) few) in
      rw (few, nothing) refl
]

pub length-keep_newest : {A : Type 0} (max : ℕ) (xs : List A) → length (keep_newest max xs) ≤ max
length-keep_newest max xs =
    rw (keep_newest_lem max xs) (omega (arith, length-drop (length xs - max) xs))

pub keep_newest_short :
    {A : Type 0} (max : ℕ) (xs : List A) → length xs ≤ max → keep_newest max xs ≡ xs
keep_newest_short max xs h =
    let nothing : length xs - max ≡ 0 = omega (arith, h) in
    rw (keep_newest_lem max xs, nothing) refl

-- What was cut off before does not matter later.
pub keep_newest-append :
    {A : Type 0} (max : ℕ) (xs ys : List A)
    → keep_newest max (keep_newest max xs ++ ys) ≡ keep_newest max (xs ++ ys)
keep_newest-append max xs ys =
    rw
      (
        keep_newest_lem max xs,
        keep_newest_lem max (drop (length xs - max) xs ++ ys),
        keep_newest_lem max (xs ++ ys),
        ← (drop-append (length xs - max) xs ys (omega arith)),
        drop-drop,
      )
      (ap (λ n. drop n (xs ++ ys))
        (omega (arith, length-append xs ys, length-drop (length xs - max) (xs ++ ys))))

-- The first event of the list with the identifier.
pub record IsFirst (id : String) (xs : List Event) (e : Event) : Type 0 where
  pub before : List Event
  pub after : List Event
  pub placed : xs ≡ before ++ e ∷ after
  pub named : e.event_id ≡ id
  pub others : All (λ x. x.event_id ≢ id) before

pub find_in_lem :
    (id : String) (xs : List Event)
    → ((find_in id xs ≡ none) × All (λ x. x.event_id ≢ id) xs)
      ⊎ ((e : Event) × (find_in id xs ≡ some e) × IsFirst id xs e)
unfolding find_in
find_in_lem id [] = inl (refl, tt)
find_in_lem id (x ∷ xs) = elim (Bool-cases (x.event_id == id)) [
  | inl same ↦ inr (
    x,
    rw same refl,
    record {
      before = [];
      after = xs;
      placed = refl;
      named = ground (arith, eq_iff x.event_id id);
      others = tt;
    },
  )
  | inr different ↦ elim (find_in_lem id xs) [
    | inl (nothing, absent) ↦
        inl (rw different nothing, (==-false→ne x.event_id id different, absent))
    | inr (e, there, f) ↦ inr (
      e,
      rw different there,
      record {
        before = x ∷ f.before;
        after = f.after;
        placed = ap (λ ys. x ∷ ys) f.placed;
        named = f.named;
        others = (==-false→ne x.event_id id different, f.others);
      },
    )
  ]
]

module _ {S : Type 0} (rt : Runtime) (gate : Gateway S) (at : Readings) where
  -- Remembering events one after the other leaves the newest of them and of those before, as many as
  -- the bound allows.
  pub recent-add_all_recent :
      (es : List Event) (s : Server S)
      → length s.recent ≤ gate.max_recent
      → (add_all_recent rt gate at es s).recent ≡ keep_newest gate.max_recent (s.recent ++ es)
  unfolding add_all_recent add_recent
  recent-add_all_recent [] s h =
      sym (rw (append-nil s.recent) (keep_newest_short gate.max_recent s.recent h))
  recent-add_all_recent (e ∷ es) s h =
      recent-add_all_recent es (add_recent rt gate e s)
        (length-keep_newest gate.max_recent (s.recent ++ e ∷ []))
      ∙ keep_newest-append gate.max_recent (s.recent ++ e ∷ []) es
      ∙ ap (keep_newest gate.max_recent) (append_assoc s.recent (e ∷ []) es)

  -- After events were remembered on a fresh server, findEvent looks at the newest of them, as many as
  -- the bound allows: it returns the first of these with the identifier, or nothing, and then none of
  -- them has it.
  pub find_event-add_all_recent :
      (es : List Event) (log : S) (id : String)
      → let s = add_all_recent rt gate at es (new_server log) in
        let newest = keep_newest gate.max_recent es in
        ((find_event rt gate id s ≡ none) × All (λ x. x.event_id ≢ id) newest)
        ⊎ ((e : Event) × (find_event rt gate id s ≡ some e) × IsFirst id newest e)
  unfolding find_event new_server
  find_event-add_all_recent es log id =
      rw (recent-add_all_recent es (new_server log) (omega arith))
        (find_in_lem id (keep_newest gate.max_recent es))
