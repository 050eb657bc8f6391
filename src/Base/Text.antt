-- ===== src/Base/Text.antt =====
-- The functions of Go's `strings` package that the program calls, over code points. Invalid UTF-8
-- is not modelled: a text is a sequence of Unicode scalar values.
pub mod Trim
use Prim.Native.Nat.{ℕ}
use Prim.Native.Char.{Char, code}
use Prim.Native.String.{String}
use mathlib.Core.Path.{◌≡◌, refl}
use mathlib.Core.Bool.{Bool, true, false, ◌&&◌, ◌||◌}
use mathlib.Core.List.{List, [], ◌∷◌}
use flux_lens.Base.Tests.{leb, eqb, if◌then◌else◌}

-- unicode.IsSpace
is_space : ℕ → Bool
is_space c =
    (leb 9 c && leb c 13)
    || eqb c 32
    || eqb c 133
    || eqb c 160
    || eqb c 5760
    || (leb 8192 c && leb c 8202)
    || eqb c 8232
    || eqb c 8233
    || eqb c 8239
    || eqb c 8287
    || eqb c 12288

abbrev pub is_empty : String → Bool
is_empty String.[] = true
is_empty (String.◌∷◌ c s) = false

trim_left : String → String
trim_left String.[] = ""
trim_left (String.◌∷◌ c s) =
    let rest = trim_left s in if is_space (code c) then rest else String.◌∷◌ c s

-- Drops the spaces at the end: a space goes when all behind it goes.
join_trimmed : Char → String → String
join_trimmed c rest = if is_empty rest && is_space (code c) then "" else String.◌∷◌ c rest

trim_right : String → String
trim_right String.[] = ""
trim_right (String.◌∷◌ c s) = join_trimmed c (trim_right s)

-- strings.TrimSpace
unfoldable pub trim_space : String → String
unfolding trim_left trim_right join_trimmed is_space
trim_space s = trim_right (trim_left s)

-- The head of a list of parts takes one more character.
extend : Char → List String → List String
extend c [] = String.◌∷◌ c "" ∷ []
extend c (part ∷ parts) = String.◌∷◌ c part ∷ parts

-- strings.Split at a separator of one character
unfoldable pub split_on : ℕ → String → List String
unfolding extend
split_on sep String.[] = "" ∷ []
split_on sep (String.◌∷◌ c s) =
    let parts = split_on sep s in if eqb (code c) sep then "" ∷ parts else extend c parts

-- strings.Cut at a separator of one character: what stands before it, what stands behind it, and
-- whether it was found.
unfoldable pub cut : ℕ → String → String × String × Bool
cut sep String.[] = ("", "", false)
cut sep (String.◌∷◌ c s) =
    let (before, after, found) = cut sep s in
    if eqb (code c) sep then ("", s, true) else (String.◌∷◌ c before, after, found)

-- strings.EqualFold. `fold` takes a code point to the representative of its class under Unicode's
-- simple case folding, a table of the standard library.
unfoldable pub equal_fold : (ℕ → ℕ) → String → String → Bool
equal_fold fold String.[] String.[] = true
equal_fold fold (String.◌∷◌ c s) (String.◌∷◌ d t) =
    eqb (fold (code c)) (fold (code d)) && equal_fold fold s t
equal_fold fold _ _ = false

trim_test : trim_space "  a b\n" ≡ "a b"
unfolding trim_space
trim_test = refl

split_test : split_on b',' "a,,b" ≡ "a" ∷ "" ∷ "b" ∷ []
unfolding split_on
split_test = refl

cut_test : cut b':' "k:x:y" ≡ ("k", "x:y", true)
unfolding cut
cut_test = refl
