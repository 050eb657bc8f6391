-- ===== src/Cdc/Postgres/Quoting.antt =====
-- Identifiers of SQL: what quoteIdent writes reads back.

use Prim.Native.String.{◌++◌ as join}
use Prim.Native.Char.{Char, code}
use text.Mathlib.TextLemmas.{cons-append, append_assoc, nil-append}
use flux_lens.Base.{
  String, Bool, true, false, ◌≡◌, refl, ◌∙◌, Option, none, some, inl, inr, Bool-cases, eqb,
  if◌then◌else◌,
}
use flux_lens.Cdc.Postgres.Publication.{double_quotes, quote_ident}

prepend : Char → Option (String × String) → Option (String × String)
prepend c none = none
prepend c (some (name, rest)) = some (String.◌∷◌ c name, rest)

-- The rest of a quoted identifier: two quotes stand for one, a single one ends it. The flag tells that a
-- quote was just read.
unfoldable pub read_quoted : Bool → String → Option (String × String)
unfolding prepend
read_quoted false String.[] = none
read_quoted true String.[] = some ("", "")
read_quoted false (String.◌∷◌ c s) =
    let ended = read_quoted true s in
    let rest = read_quoted false s in if eqb (code c) b'"' then ended else prepend c rest
read_quoted true (String.◌∷◌ c s) =
    let rest = read_quoted false s in
    if eqb (code c) b'"' then prepend c rest else some ("", String.◌∷◌ c s)

-- A quoted identifier at the beginning of a text, as SQL reads it: the name, and what stands behind.
unfoldable pub read_ident : String → Option (String × String)
unfolding read_quoted
read_ident String.[] = none
read_ident (String.◌∷◌ c s) =
    let body = read_quoted false s in if eqb (code c) b'"' then body else none

-- The text does not begin with a quote.
abbrev pub IsUnquoted : String → Type 0
IsUnquoted String.[] = Unit
IsUnquoted (String.◌∷◌ c s) = eqb (code c) b'"' ≡ false

read_end : (rest : String) → IsUnquoted rest → read_quoted true rest ≡ some ("", rest)
unfolding read_quoted
read_end String.[] h = refl
read_end (String.◌∷◌ c s) h = rw h refl

quote_ends : (rest : String) → read_quoted false (join "\"" rest) ≡ read_quoted true rest
unfolding read_quoted
quote_ends rest = rw (cons-append _ "" rest, nil-append rest) refl

read_doubled :
    (name rest : String)
    → IsUnquoted rest
    → read_quoted false (join (double_quotes name) (join "\"" rest)) ≡ some (name, rest)
unfolding read_quoted double_quotes
read_doubled String.[] rest h = rw (nil-append (join "\"" rest)) (quote_ends rest ∙ read_end rest h)
read_doubled (String.◌∷◌ c s) rest h =
    let later = read_doubled s rest h in
    elim (Bool-cases (eqb (code c) b'"')) [
      | inl quote ↦
          rw
            (
              quote,
              cons-append c (String.◌∷◌ c (double_quotes s)) (join "\"" rest),
              cons-append c (double_quotes s) (join "\"" rest),
              quote,
              later,
            )
            refl
      | inr plain ↦ rw (plain, cons-append c (double_quotes s) (join "\"" rest), plain, later) refl
    ]

-- Whatever the name, the identifier that quoteIdent writes reads back as the name and ends where it
-- was written to end, in front of any text that does not begin with a quote.
pub read_ident-quote_ident :
    (name rest : String)
    → IsUnquoted rest
    → read_ident (join (quote_ident name) rest) ≡ some (name, rest)
unfolding read_ident quote_ident
read_ident-quote_ident name rest h =
    rw
      (
        append_assoc "\"" (join (double_quotes name) "\"") rest,
        append_assoc (double_quotes name) "\"" rest,
        cons-append _ "" (join (double_quotes name) (join "\"" rest)),
        nil-append (join (double_quotes name) (join "\"" rest)),
      )
      (read_doubled name rest h)
