-- ===== src/HttpAuth/Roles.antt =====
-- internal/httpauth/rbac.go: roles.
pub mod Parse
pub mod Access
use flux_lens.Base.{
  ℕ, String, Bool, true, false, not, ◌||◌, Option, none, some, List, [], ◌∷◌, ◌==◌, any,
  if◌then◌else◌,
}
use flux_lens.Base.Text.{trim_space, split_on, cut}
use flux_lens.Base.Pattern.{CaseTables}
use flux_lens.Base.Dict.{Dict, find, assign}
use flux_lens.HttpAuth.{
  Request, Principal, Answer, http_error, Handler, is_public_path, extract_key, trimmed_keys,
}

abbrev pub role_operator : String
role_operator = "operator"

abbrev pub role_reviewer : String
role_reviewer = "reviewer"

abbrev pub role_admin : String
role_admin = "admin"

abbrev pub role_auditor : String
role_auditor = "auditor"

roles_or_operator : List String → List String
roles_or_operator [] = role_operator ∷ []
roles_or_operator (r ∷ roles) = r ∷ roles

-- The roles of an entry with the key `key`: what stands behind the colon, if there is one.
unfoldable pub entry_roles : String → Bool → List String
unfolding roles_or_operator
entry_roles role_part found =
    if not found || trim_space role_part == ""
    then role_operator ∷ []
    else roles_or_operator (trimmed_keys (split_on b'+' role_part))

-- One round of the loop, for a trimmed entry.
add_entry : Dict (List String) → String → Dict (List String)
add_entry out entry =
    let (key, role_part, found) = cut b':' entry in
    if entry == ""
    then out
    else if trim_space key == ""
    then out
    else assign out (trim_space key) (entry_roles role_part found)

parse_from : Dict (List String) → List String → Dict (List String)
unfolding add_entry
parse_from out [] = out
parse_from out (entry ∷ more) = parse_from (add_entry out (trim_space entry)) more

unfoldable pub parse_key_roles : List String → Dict (List String)
unfolding parse_from
parse_key_roles entries = parse_from [] entries

-- What requests get when no keys are configured.
abbrev pub dev_principal : Principal
dev_principal = record {
  key = "";
  roles = role_admin ∷ role_operator ∷ role_reviewer ∷ role_auditor ∷ [];
}

unfoldable pub with_roles :
    {R : Type 0} → String → Option (List String) → Handler R → Request → Answer R
with_roles key none next r = http_error 401 "unauthorized"
with_roles key (some roles) next r = next r (some (record { key = key; roles = roles }))

unfoldable pub by_roles :
    {R : Type 0} → CaseTables → Dict (List String) → Handler R → Request → Answer R
unfolding with_roles
by_roles tables [] next r = next r (some dev_principal)
by_roles tables (entry ∷ more) next r =
    with_roles (extract_key tables r) (find (entry ∷ more) (extract_key tables r)) next r

unfoldable pub rbac_middleware :
    {R : Type 0} → CaseTables → Dict (List String) → Handler R → Handler R
unfolding by_roles
rbac_middleware tables key_roles next r principal =
    if is_public_path r.path || r.path == "/api/v1/stream"
    then next r principal
    else by_roles tables key_roles next r

unfoldable pub has_role : List String → String → Bool
has_role roles want = any (λ r. r == want) roles

unfoldable pub require_roles : {R : Type 0} → List String → Handler R → Handler R
unfolding has_role
require_roles allowed next r none = http_error 403 "forbidden"
require_roles allowed next r (some p) =
    if has_role p.roles role_admin
    then next r (some p)
    else if any (λ have. any (λ a. a == have) allowed) p.roles
    then next r (some p)
    else http_error 403 "forbidden: insufficient role"

-- The wiring in main of cmd/api-gateway: keys without roles are operators.
default_roles : List String → Dict (List String) → Dict (List String)
default_roles [] key_roles = key_roles
default_roles (k ∷ keys) key_roles = default_roles keys (or_operator (find key_roles k))
  where
    or_operator : Option (List String) → Dict (List String)
    or_operator none = assign key_roles k (role_operator ∷ [])
    or_operator (some roles) = key_roles

abbrev pub keys_of : Dict (List String) → List String
keys_of [] = []
keys_of (entry ∷ more) = entry.0 ∷ keys_of more

-- The keys and the roles that the two middlewares are given, from the lists of keys and entries.
unfoldable pub configured : List String → List String → List String × Dict (List String)
unfolding default_roles
configured [] entries = (keys_of (parse_key_roles entries), parse_key_roles entries)
configured (k ∷ keys) entries = (k ∷ keys, default_roles (k ∷ keys) (parse_key_roles entries))
