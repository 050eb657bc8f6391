-- ===== src/Base/Dict.antt =====
-- A Go map with string keys, as an association list. A write replaces the entry in place; the
-- order of the list is one of the orders in which Go may range over the map.
use Prim.Native.String.{String}
use mathlib.Core.Path.{◌≡◌, refl}
use mathlib.Core.Bool.{Bool, true, false}
use mathlib.Core.Option.{Option, none, some}
use mathlib.Core.List.{List, [], ◌∷◌}
use native.Mathlib.Omega.{arith}
use text.Mathlib.Text.{◌==◌}
use text.Mathlib.TextEquality.{eq_iff}
use flux_lens.Base.Tests.{if◌then◌else◌}

abbrev pub Dict {ℓ} : Type ℓ → Type ℓ
Dict V = List (String × V)

abbrev pub is_some {ℓ} : {A : Type ℓ} → Option A → Bool
is_some none = false
is_some (some a) = true

module _ {ℓ} {V : Type ℓ} where
  -- v, ok := m[key]
  unfoldable pub find : Dict V → String → Option V
  find [] key = none
  find (entry ∷ rest) key = if entry.0 == key then some entry.1 else find rest key

  -- m[key] = val
  unfoldable pub assign : Dict V → String → V → Dict V
  assign [] key val = (key, val) ∷ []
  assign (entry ∷ rest) key val =
      if entry.0 == key then (key, val) ∷ rest else entry ∷ assign rest key val

  -- Reading back after a write.
  pub find-assign :
      (m : Dict V) (key other : String) (val : V)
      → find (assign m key val) other ≡ (if key == other then some val else find m other)
  unfolding find assign
  find-assign [] key other val = refl
  find-assign (entry ∷ rest) key other val = ground (
    arith,
    find-assign rest key other val,
    eq_iff entry.0 key,
    eq_iff entry.0 other,
    eq_iff key other,
  )

  -- m[key] with a key that is held
  abbrev pub holds : Dict V → String → Bool
  holds m key = is_some (find m key)
