-- ===== src/Cdc/Postgres/Publication.antt =====
-- quoteIdent and ensurePublication of internal/cdc/postgres/connector.go: the statement that names
-- the tables.

use Prim.Native.String.{◌++◌ as join}
use Prim.Native.Char.{code}
use flux_lens.Base.{
  String, Bool, true, false, Option, none, some, List, [], ◌∷◌, eqb, if◌then◌else◌,
}
use flux_lens.Base.Text.{cut}

-- strings.ReplaceAll(name, `"`, `""`)
unfoldable pub double_quotes : String → String
double_quotes String.[] = ""
double_quotes (String.◌∷◌ c s) =
    let rest = double_quotes s in
    if eqb (code c) b'"' then String.◌∷◌ c (String.◌∷◌ c rest) else String.◌∷◌ c rest

unfoldable pub quote_ident : String → String
unfolding double_quotes
quote_ident name = join "\"" (join (double_quotes name) "\"")

pub data Publication : Type 0 where
  statement : String → Publication
  no_tables : Publication
  invalid_table : String → Publication

-- strings.SplitN(t, ".", 2) gives two parts exactly where there is a dot.
unfoldable pub quoted_table : String → Option String
unfolding quote_ident
quoted_table t =
    let (schema, table, found) = cut b'.' t in
    if found then some (join (quote_ident schema) (join "." (quote_ident table))) else none

-- A name without a dot ends the loop.
unfoldable pub add_table : String → Option String → Publication → Publication
add_table t none rest = invalid_table t
add_table t (some quoted) rest = rest

-- The loop over the tables; `sofar` is what was written.
unfoldable pub publication_from : String → Bool → List String → Publication
unfolding add_table
publication_from sofar first [] = statement sofar
publication_from sofar first (t ∷ more) = add_table t (quoted_table t) (
    publication_from (join sofar (join (if first then "" else ", ") (or_blank (quoted_table t))))
      false more)
  where
    or_blank : Option String → String
    or_blank none = ""
    or_blank (some s) = s

-- ensurePublication, up to the execution of the statement, whose errors are only logged.
unfoldable pub ensure_publication : List String → Publication
unfolding publication_from
ensure_publication [] = no_tables
ensure_publication (t ∷ more) =
    publication_from "CREATE PUBLICATION fluxlens_pub FOR TABLE " true (t ∷ more)
