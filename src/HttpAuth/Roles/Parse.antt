-- ===== src/HttpAuth/Roles/Parse.antt =====
-- What ParseKeyRoles grants.
use flux_lens.Base.{
  String, Bool, ◌≢◌, inl, inr, List, [], ◌∷◌, ◌==◌, arith, eq_iff, All, Bool-cases, ==-false→ne,
  ◌||◌, not,
}
use flux_lens.Base.Lists.{All-imp}
use flux_lens.Base.Text.{trim_space, split_on, cut}
use flux_lens.Base.Dict.{Dict, assign}
use flux_lens.HttpAuth.Keys.{IsTrimmed, trimmed_keys-All}
use flux_lens.HttpAuth.Roles.{
  roles_or_operator, entry_roles, add_entry, parse_from, parse_key_roles, role_operator,
}

-- A key and its roles: none is empty, and there is a role.
abbrev pub IsGrant : String × List String → Type 0
IsGrant entry = (entry.0 ≢ "") × (entry.1 ≢ []) × All (λ role. role ≢ "") entry.1

operator_named : role_operator ≢ ""
operator_named e = ground (arith, eq_iff role_operator "")

only_operator :
    (◌≢◌ {A = List String} (role_operator ∷ []) []) × All (λ role. role ≢ "") (role_operator ∷ [])
only_operator = (λ e. cc, (operator_named, tt))

roles_or_operator-All :
    (roles : List String)
    → All (λ role. role ≢ "") roles
    → (roles_or_operator roles ≢ []) × All (λ role. role ≢ "") (roles_or_operator roles)
unfolding roles_or_operator
roles_or_operator-All [] h = only_operator
roles_or_operator-All (r ∷ roles) h = (λ e. cc, h)

entry_roles-All :
    (role_part : String) (found : Bool)
    → (entry_roles role_part found ≢ []) × All (λ role. role ≢ "") (entry_roles role_part found)
unfolding entry_roles
entry_roles-All role_part found = elim (Bool-cases (not found || trim_space role_part == "")) [
  | inl no_roles ↦ rw no_roles only_operator
  | inr named ↦ rw named (
      roles_or_operator-All _
        (All-imp IsTrimmed _ _ (λ k t. t.0) (trimmed_keys-All (split_on b'+' role_part))))
]

All-assign :
    (m : Dict (List String)) (key : String) (roles : List String)
    → IsGrant (key, roles)
    → All IsGrant m
    → All IsGrant (assign m key roles)
unfolding assign
All-assign [] key roles g h = (g, tt)
All-assign (entry ∷ m) key roles g h = elim (Bool-cases (entry.0 == key)) [
  | inl same ↦ rw same (g, h.1)
  | inr other ↦ rw other (h.0, All-assign m key roles g h.1)
]

add_entry-All :
    (m : Dict (List String)) (entry : String) → All IsGrant m → All IsGrant (add_entry m entry)
unfolding add_entry
add_entry-All m entry h =
    let (key, role_part, found) = cut b':' entry in
    elim (Bool-cases (entry == "")) [
      | inl blank ↦ rw blank h
      | inr full ↦ rw full (elim (Bool-cases (trim_space key == "")) [
        | inl no_key ↦ rw no_key h
        | inr keyed ↦ rw keyed (
            All-assign m (trim_space key) (entry_roles role_part found)
              (
                ==-false→ne _ _ keyed,
                (entry_roles-All role_part found).0,
                (entry_roles-All role_part found).1,
              )
              h)
      ])
    ]

parse_from-All :
    (m : Dict (List String)) (entries : List String)
    → All IsGrant m
    → All IsGrant (parse_from m entries)
unfolding parse_from
parse_from-All m [] h = h
parse_from-All m (entry ∷ more) h =
    parse_from-All (add_entry m (trim_space entry)) more (add_entry-All m (trim_space entry) h)

-- Whatever the entries, ParseKeyRoles grants every key at least one role, and neither a key nor a
-- role is empty.
pub parse_key_roles-All : (entries : List String) → All IsGrant (parse_key_roles entries)
unfolding parse_key_roles
parse_key_roles-All entries = parse_from-All [] entries tt
