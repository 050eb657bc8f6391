-- ===== src/Alerts/Store/History.antt =====
-- What the store promises, by the list of the alerts that it took: the newest stands first.
use mathlib.Core.List.{reverse, reverse-cons, reverse-append, reverse-reverse}
use flux_lens.Base.{
  ℕ, zero, suc, ◌-◌, ◌*◌, ◌≤◌, ◌<◌, String, ◌≡◌, refl, sym, ap, ◌∙◌, ◌⊎◌, inl, inr, Bool, true,
  false, Option, none, some, List, [], ◌∷◌, ◌++◌, arith, ltb, ◌==◌, if◌then◌else◌, length, take,
  Bool-cases, length-append, length-take,
}
use flux_lens.Base.Positions.{length-reverse}
use flux_lens.Base.Signed.{ℤ, pos, positive_or, lt_ℤ}
use flux_lens.Base.Time.{second, sub_time}
use flux_lens.Base.Dict.{find, assign, find-assign}
use flux_lens.Alerts.{Alert}
use flux_lens.Alerts.Store.{Store, new_store, dedupe_key, trim, add, snapshot}
use flux_lens.Alerts.Store.Reversal.{snapshot-eq-reverse}

-- One call of Add, with the two times that it reads.
pub record Call : Type 0 where
  pub since : ℕ
  pub now : ℕ
  pub alert : Alert

abbrev pub alerts_of : List Call → List Alert
alerts_of [] = []
alerts_of (c ∷ h) = c.alert ∷ alerts_of h

-- When the newest taken alert of a key was taken.
unfoldable pub last_time : String → List Call → Option ℕ
last_time key [] = none
last_time key (c ∷ h) = if dedupe_key c.alert == key then some c.now else last_time key h

abbrev pub window : ℕ
window = 45 * second

-- Whether less than the window has passed since then.
unfoldable pub repeats : Call → Option ℕ → Bool
repeats c none = false
repeats c (some t) = lt_ℤ (sub_time c.since t) (pos window)

-- The alerts that are taken from a list of calls, on top of those taken before.
unfoldable pub take_in : List Call → Call → List Call
unfolding last_time repeats
take_in h c = if repeats c (last_time (dedupe_key c.alert) h) then h else c ∷ h

unfoldable pub taken : List Call → List Call → List Call
taken h [] = h
taken h (c ∷ calls) = taken (take_in h c) calls

unfoldable pub add_all : List Call → Store → Store
add_all [] s = s
add_all (c ∷ calls) s = add_all calls (add c.since c.now c.alert s)

record Tracks (s : Store) (h : List Call) : Type 0 where
  window_set : s.dedupe ≡ window
  room : 0 < s.max
  held : s.buf ≡ reverse (take s.max (alerts_of h))
  times : (key : String) → find s.last_rule key ≡ last_time key h

take-suc :
    {A : Type 0} (n : ℕ) (xs : List A)
    → ((take (suc n) xs ≡ take n xs) × (length xs ≤ n))
      ⊎ ((x : A) × (take (suc n) xs ≡ take n xs ++ x ∷ []) × (n < length xs))
take-suc zero [] = inl (refl, omega arith)
take-suc (suc n) [] = inl (refl, omega arith)
take-suc zero (x ∷ xs) = inr (x, refl, omega arith)
take-suc (suc n) (x ∷ xs) = elim (take-suc n xs) [
  | inl (same, l) ↦ inl (ap (λ ys. x ∷ ys) same, omega arith)
  | inr (y, more, l) ↦ inr (y, ap (λ ys. x ∷ ys) more, omega arith)
]

trim_short : (m : ℕ) (xs : List Alert) → length xs ≤ m → trim m xs ≡ xs
unfolding trim
trim_short m xs h = ground arith

trim_one : (m : ℕ) (x : Alert) (xs : List Alert) → length xs ≡ m → trim m (x ∷ xs) ≡ xs
unfolding trim
trim_one m x xs h =
    let more : ltb m (length (x ∷ xs)) ≡ true = ground arith in
    let one : length (x ∷ xs) - m ≡ 1 = omega arith in rw (more, one)

-- Trimming from the front what grows at the back keeps the newest.
trimmed :
    (n : ℕ) (a : Alert) (h : List Alert)
    → trim (suc n) (reverse (take (suc n) h) ++ a ∷ []) ≡ reverse (take (suc n) (a ∷ h))
trimmed n a h = elim (take-suc n h) [
  | inl (same, few) ↦ rw same (
      trim_short (suc n) (reverse (take n h) ++ a ∷ []) (
        omega (
          arith,
          length-append (reverse (take n h)) (a ∷ []),
          length-reverse (take n h),
          length-take n h,
        ))
      ∙ sym (reverse-cons a (take n h)))
  | inr (x, more, many) ↦
      rw (more, reverse-append (take n h) (x ∷ []))
        (trim_one (suc n) x (reverse (take n h) ++ a ∷ []) (
            omega (
              arith,
              length-append (reverse (take n h)) (a ∷ []),
              length-reverse (take n h),
              length-take n h,
            ))
          ∙ sym (reverse-cons a (take n h)))
]

-- What Add stores when it takes an alert.
abbrev with_alert : Call → Store → Store
with_alert c s = record s {
  buf = trim s.max (s.buf ++ c.alert ∷ []);
  last_rule = assign s.last_rule (dedupe_key c.alert) c.now;
}

add_lem :
    (s : Store) (c : Call) (o : Option ℕ)
    → s.dedupe ≡ window
    → find s.last_rule (dedupe_key c.alert) ≡ o
    → add c.since c.now c.alert s ≡ (if repeats c o then s else with_alert c s)
unfolding add repeats
add_lem s c none w e = rw (w, e, add)
add_lem s c (some t) w e = rw (w, e, add)

with_alert-Tracks :
    (s : Store) (h : List Call) (c : Call) → Tracks s h → Tracks (with_alert c s) (c ∷ h)
unfolding last_time
with_alert-Tracks s h c t =
    let (n, is_suc) = room_suc s.max t.room in
    record {
      window_set = t.window_set;
      room = t.room;
      held = rw (t.held, is_suc) (trimmed n c.alert (alerts_of h));
      times = λ key. find-assign s.last_rule (dedupe_key c.alert) key c.now ∙ rw (t.times key);
    }
  where
    room_suc : (m : ℕ) → 0 < m → (n : ℕ) × (m ≡ suc n)
    room_suc zero h = absurd (omega arith)
    room_suc (suc n) h = (n, refl)

add-Tracks :
    (s : Store) (h : List Call) (c : Call)
    → Tracks s h
    → Tracks (add c.since c.now c.alert s) (take_in h c)
unfolding take_in
add-Tracks s h c t =
    rw (add_lem s c (last_time (dedupe_key c.alert) h) t.window_set (t.times (dedupe_key c.alert)))
      (elim (Bool-cases (repeats c (last_time (dedupe_key c.alert) h))) [
        | inl old ↦ rw old t
        | inr new ↦ rw new (with_alert-Tracks s h c t)
      ])

add_all-Tracks :
    (calls : List Call) (s : Store) (h : List Call)
    → Tracks s h
    → Tracks (add_all calls s) (taken h calls)
unfolding add_all taken
add_all-Tracks [] s h t = t
add_all-Tracks (c ∷ calls) s h t =
    add_all-Tracks calls (add c.since c.now c.alert s) (take_in h c) (add-Tracks s h c t)

max-add_all : (calls : List Call) (s : Store) → (add_all calls s).max ≡ s.max
unfolding add_all add
max-add_all [] s = refl
max-add_all (c ∷ calls) s = max-add_all calls (add c.since c.now c.alert s) ∙ ground arith

new_store-Tracks : (max : ℤ) → Tracks (new_store max) []
unfolding new_store find last_time
new_store-Tracks max = record {
  window_set = refl;
  room = positive max;
  held = empty max;
  times = λ key. refl;
}
  where
    positive : (m : ℤ) → 0 < positive_or m 200
    positive m = ground arith

    empty : (m : ℤ) → ◌≡◌ {A = List Alert} [] (reverse (take (positive_or m 200) []))
    empty m = ground arith

-- After any calls of Add on a fresh store, Snapshot returns the newest alerts that were taken, newest
-- first, as many as fit. An alert is taken unless one of its key was taken less than 45 seconds
-- before; what was trimmed still counts for that.
pub snapshot-add_all :
    (max : ℤ) (calls : List Call)
    → snapshot (add_all calls (new_store max))
      ≡ take (positive_or max 200) (alerts_of (taken [] calls))
unfolding new_store
snapshot-add_all max calls =
    let t = add_all-Tracks calls (new_store max) [] (new_store-Tracks max) in
    snapshot-eq-reverse (add_all calls (new_store max))
    ∙ ap reverse t.held
    ∙ reverse-reverse _
    ∙ ap (λ m. take m (alerts_of (taken [] calls))) (max-add_all calls (new_store max))
