-- ===== src/Base/Text/Trim.antt =====
-- Trimming twice is trimming once.
use Prim.Native.Char.{Char, code}
use Prim.Native.String.{String}
use mathlib.Core.Path.{◌≡◌, refl, ap, ◌∙◌}
use mathlib.Core.Bool.{false, ◌&&◌}
use mathlib.Core.Logic.{inl, inr}
use flux_lens.Base.Tests.{Bool-cases}
use flux_lens.Base.Text.{is_space, is_empty, trim_left, join_trimmed, trim_right, trim_space}

-- Empty, or with a first character that is no space.
abbrev IsFlush : String → Type 0
IsFlush String.[] = Unit
IsFlush (String.◌∷◌ c s) = is_space (code c) ≡ false

trim_left-IsFlush : (s : String) → IsFlush (trim_left s)
unfolding trim_left
trim_left-IsFlush String.[] = tt
trim_left-IsFlush (String.◌∷◌ c s) = elim (Bool-cases (is_space (code c))) [
  | inl space ↦ rw space (trim_left-IsFlush s)
  | inr flush ↦ rw flush flush
]

trim_left_flush : (s : String) → IsFlush s → trim_left s ≡ s
unfolding trim_left
trim_left_flush String.[] h = refl
trim_left_flush (String.◌∷◌ c s) h = rw h

trim_right-IsFlush : (s : String) → IsFlush s → IsFlush (trim_right s)
unfolding trim_right join_trimmed
trim_right-IsFlush String.[] h = tt
trim_right-IsFlush (String.◌∷◌ c s) h = elim (Bool-cases (is_empty (trim_right s))) [
  | inl e ↦ rw (e, h) h
  | inr e ↦ rw e h
]

trim_right-join_trimmed :
    (c : Char) (s : String) → trim_right s ≡ s → trim_right (join_trimmed c s) ≡ join_trimmed c s
unfolding join_trimmed
trim_right-join_trimmed c s h = elim (Bool-cases (is_empty s && is_space (code c))) [
  | inl gone ↦ rw gone (unfold trim_right in refl)
  | inr kept ↦ rw kept (unfold trim_right in rw (h, kept))
]

trim_right_idem : (s : String) → trim_right (trim_right s) ≡ trim_right s
unfolding trim_right
trim_right_idem String.[] = refl
trim_right_idem (String.◌∷◌ c s) = trim_right-join_trimmed c (trim_right s) (trim_right_idem s)

pub trim_space_idem : (s : String) → trim_space (trim_space s) ≡ trim_space s
unfolding trim_space
trim_space_idem s =
    ap trim_right
      (trim_left_flush (trim_right (trim_left s)) (trim_right-IsFlush _ (trim_left-IsFlush s)))
    ∙ trim_right_idem (trim_left s)
