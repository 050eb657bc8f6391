-- ===== src/Cdc/Mysql/Filter.antt =====
-- Which tables the filter lets through.
use mathlib.Core.List.{Memᴰ}
use Prim.Native.String.{◌++◌ as join}
use flux_lens.Base.{
  String, true, ◌≡◌, ◌≢◌, ◌⊎◌, ◌↔◌, refl, inl, inr, List, [], ◌∷◌, ◌==◌, arith, eq_iff, any,
  Bool-cases, text_cases, ==-false→ne, ne→==-false,
}
use flux_lens.Base.Text.{trim_space}
use flux_lens.Base.Pattern.{CaseTables, to_lower}
use flux_lens.Cdc.Mysql.{lowered, new_table_filter, allow}

-- The name of a table as the filter holds it.
abbrev pub table_key : CaseTables → String → String → String
table_key tables schema table = join (to_lower tables schema) (join "." (to_lower tables table))

module _ (tables : CaseTables) (key : String) where
  Lists : List String → Type 0
  Lists names =
      (t : String) × Memᴰ t names × (trim_space t ≢ "") × (to_lower tables (trim_space t) ≡ key)

  later : (t : String) (names : List String) → Lists names → Lists (t ∷ names)
  unfolding Lists
  later t names (u, m, full, h) = (u, Memᴰ.tail m, full, h)

  held :
      (names : List String) → any (λ name. name == key) (lowered tables names) ≡ true → Lists names
  unfolding lowered Lists
  held [] h = cc
  held (t ∷ names) h = elim (Bool-cases (trim_space t == "")) [
    | inl blank ↦ later t names (held names (rw (blank, lowered) at h))
    | inr full ↦ elim (text_cases (to_lower tables (trim_space t)) key) [
      | inl same ↦ (t, Memᴰ.head refl, ==-false→ne _ _ full, same)
      | inr different ↦ later t names (held names (rw (full, different, lowered) at h))
    ]
  ]

  found :
      (names : List String) → Lists names → any (λ name. name == key) (lowered tables names) ≡ true
  unfolding lowered Lists
  found [] (t, m, full, h) = elim m [ ]
  found (t ∷ names) (u, Memᴰ.head e, full, same) =
      rw (← e, ne→==-false _ _ full, same) (ground (arith, eq_iff key key))
  found (t ∷ names) (u, Memᴰ.tail m, full, h) =
      let rest = found names (u, m, full, h) in
      elim (Bool-cases (trim_space t == "")) [
        | inl blank ↦ rw blank rest
        | inr filled ↦ rw filled (ground (arith, rest))
      ]

-- With no names configured every table is let through; otherwise a table is let through exactly if
-- one of the configured names, trimmed and in lower case, is that of the table.
pub allow_iff :
    (tables : CaseTables) (names : List String) (schema table : String)
    → (allow tables (new_table_filter tables names) schema table ≡ true) ↔ (
        (names ≡ [])
        ⊎ ((t : String) × Memᴰ t names
            × (trim_space t ≢ "")
            × (to_lower tables (trim_space t) ≡ table_key tables schema table)))
unfolding allow new_table_filter Lists
allow_iff tables [] schema table = (λ h. inl refl, λ h. refl)
allow_iff tables (t ∷ names) schema table = (
  λ h. inr (held tables (table_key tables schema table) (t ∷ names) h),
  λ h. elim h [
    | inl empty ↦ cc
    | inr listed ↦ found tables (table_key tables schema table) (t ∷ names) listed
  ],
)
