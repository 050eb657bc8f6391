-- ===== src/Base/Pattern.antt =====
-- The regular expressions that the program compiles, all of them with (?i), and strings.ToLower.
-- A pattern is a list of pieces, and matching keeps the list of what may be left behind a piece.
use Prim.Native.Nat.{ℕ}
use Prim.Native.Char.{Char, code}
use Prim.Native.String.{String}
use mathlib.Core.Bool.{Bool, true, false, ◌||◌}
use mathlib.Core.List.{List, [], ◌∷◌, ◌++◌}
use flux_lens.Base.Tests.{leb, eqb, if◌then◌else◌}
use flux_lens.Base.Lists.{any}

-- The tables of Unicode that Go's library holds: the representative of a code point's class under
-- simple case folding, and unicode.ToLower.
pub record CaseTables : Type 0 where
  pub fold : ℕ → ℕ
  pub lower : Char → Char

pub data Piece : Type 0 where
  -- The text itself, the text or nothing, one of the texts, and [a-z]+
  word : String → Piece
  maybe : String → Piece
  one_of : List String → Piece
  letters : Piece

-- strings.ToLower
unfoldable pub to_lower : CaseTables → String → String
to_lower tables String.[] = ""
to_lower tables (String.◌∷◌ c s) = String.◌∷◌ (tables.lower c) (to_lower tables s)

alphabet : List ℕ
alphabet =
    97 ∷ 98 ∷ 99 ∷ 100 ∷ 101 ∷ 102 ∷ 103 ∷ 104 ∷ 105 ∷ 106 ∷ 107 ∷ 108 ∷ 109 ∷ 110 ∷ 111 ∷ 112 ∷ 113
    ∷ 114 ∷ 115 ∷ 116 ∷ 117 ∷ 118 ∷ 119 ∷ 120 ∷ 121 ∷ 122 ∷ []

module _ (tables : CaseTables) where
  is_letter : Char → Bool
  unfolding alphabet
  is_letter c = any (λ l. eqb (tables.fold l) (tables.fold (code c))) alphabet

  -- What is left behind a prefix, up to case.
  strip : String → String → List String
  strip String.[] s = s ∷ []
  strip (String.◌∷◌ c w) String.[] = []
  strip (String.◌∷◌ c w) (String.◌∷◌ d s) =
      let rest = strip w s in if eqb (tables.fold (code c)) (tables.fold (code d)) then rest else []

  strip_any : List String → String → List String
  strip_any [] s = []
  strip_any (w ∷ words) s = strip w s ++ strip_any words s

  after_letters : String → List String
  after_letters String.[] = []
  after_letters (String.◌∷◌ c s) =
      let rest = after_letters s in if is_letter c then s ∷ rest else []

  remainders : Piece → String → List String
  remainders (word w) s = strip w s
  remainders (maybe w) s = s ∷ strip w s
  remainders (one_of words) s = strip_any words s
  remainders letters s = after_letters s

  all_remainders : Piece → List String → List String
  all_remainders p [] = []
  all_remainders p (s ∷ more) = remainders p s ++ all_remainders p more

  match_here : List Piece → List String → Bool
  match_here pieces [] = false
  match_here [] (s ∷ more) = true
  match_here (p ∷ pieces) (s ∷ more) = match_here pieces (all_remainders p (s ∷ more))

  -- MatchString: at any place of the text.
  unfoldable pub matches : List Piece → String → Bool
  unfolding match_here all_remainders remainders strip strip_any after_letters is_letter
  matches pieces String.[] = match_here pieces ("" ∷ [])
  matches pieces (String.◌∷◌ c s) = match_here pieces (String.◌∷◌ c s ∷ []) || matches pieces s

-- The bytes of a code point in UTF-8.
byte_size : ℕ → ℕ
byte_size c = if leb c 127 then 1 else if leb c 2047 then 2 else if leb c 65535 then 3 else 4

-- len of a string
unfoldable pub byte_length : String → ℕ
unfolding byte_size
byte_length String.[] = 0
byte_length (String.◌∷◌ c s) = Prim.Native.Nat.◌+◌ (byte_size (code c)) (byte_length s)
