-- ===== src/HttpAuth/Tests.antt =====
-- Requests with and without keys, and the theorems on them.
use mathlib.Core.List.{Memᴰ}
use flux_lens.Base.{String, false, ◌≡◌, ◌≢◌, refl, none, some, List, [], ◌∷◌, All}
use flux_lens.Base.Text.{trim_space, split_on, cut}
use flux_lens.Base.Pattern.{CaseTables, to_lower}
use flux_lens.Base.Dict.{find, assign}
use flux_lens.HttpAuth.{
  Request, http_error, served, Handler, is_public_path, extract_key, trimmed_keys, split_keys,
  api_key_middleware,
}
use flux_lens.HttpAuth.Keys.{IsTrimmed, split_keys-All, api_key_middleware_lem}
use flux_lens.HttpAuth.Roles.{
  parse_key_roles, entry_roles, dev_principal, rbac_middleware, require_roles, has_role, configured,
}
use flux_lens.HttpAuth.Roles.Access.{Grants, rbac_middleware-served, IsKeyless, keyless_opens}

abbrev tables : CaseTables
tables = record { fold = λ c. c; lower = λ c. c }

run : Unit {0}
unfolding is_public_path extract_key trimmed_keys split_keys api_key_middleware parse_key_roles
    entry_roles rbac_middleware require_roles has_role configured trim_space split_on cut to_lower
    find assign
run = tt

abbrev request : String → String → Request
request path auth = record { path = path; x_api_key = ""; authorization = auth }

-- A handler that reports the roles that it runs with.
abbrev roles_of : Handler (List String)
roles_of r none = served []
roles_of r (some p) = served p.roles

split_test : split_keys " k1, ,k2 " ≡ "k1" ∷ "k2" ∷ []
unfolding run
split_test = refl

parse_test :
    parse_key_roles ("k1:admin+ reviewer" ∷ "k2" ∷ ":admin" ∷ "k3: + " ∷ [])
    ≡ ("k1", "admin" ∷ "reviewer" ∷ []) ∷ ("k2", "operator" ∷ []) ∷ ("k3", "operator" ∷ []) ∷ []
unfolding run
parse_test = refl

bearer_test : extract_key tables (request "/x" "bearer  k1 ") ≡ "k1"
unfolding run
bearer_test = refl

forbidden_test :
    rbac_middleware tables
      (parse_key_roles ("k1:auditor" ∷ []))
      (require_roles ("operator" ∷ []) roles_of)
      (request "/x" "bearer k1")
      none
    ≡ http_error 403 "forbidden: insufficient role"
unfolding run
forbidden_test = refl

split_keys-All_example : All IsTrimmed (split_keys " k1, ,k2 ")
split_keys-All_example = split_keys-All " k1, ,k2 "

some_keys : split_keys " k1, ,k2 " ≢ []
unfolding run
some_keys e = cc

private_path : is_public_path "/api/v1/events" ≡ false
unfolding run
private_path = refl

api_key_middleware_lem_example :
    (Memᴰ (extract_key tables (request "/api/v1/events" "")) (split_keys " k1, ,k2 ")
      → api_key_middleware tables
          (split_keys " k1, ,k2 ")
          roles_of
          (request "/api/v1/events" "")
          none
        ≡ served [])
    × (¬ Memᴰ (extract_key tables (request "/api/v1/events" "")) (split_keys " k1, ,k2 ")
        → api_key_middleware tables
            (split_keys " k1, ,k2 ")
            roles_of
            (request "/api/v1/events" "")
            none
          ≡ http_error 401 "unauthorized")
    × (extract_key tables (request "/api/v1/events" "") ≡ ""
        → api_key_middleware tables
            (split_keys " k1, ,k2 ")
            roles_of
            (request "/api/v1/events" "")
            none
          ≡ http_error 401 "unauthorized")
api_key_middleware_lem_example =
    api_key_middleware_lem tables " k1, ,k2 " roles_of (request "/api/v1/events" "") none some_keys
      private_path

some_grants : parse_key_roles ("k1:reviewer" ∷ []) ≢ []
unfolding run
some_grants e = cc

served_reviewer :
    rbac_middleware tables
      (parse_key_roles ("k1:reviewer" ∷ []))
      (require_roles ("operator" ∷ "reviewer" ∷ []) roles_of)
      (request "/api/v1/events" "bearer k1")
      none
    ≡ served ("reviewer" ∷ [])
unfolding run
served_reviewer = refl

rbac_middleware-served_example :
    (roles : List String) × (find
        (parse_key_roles ("k1:reviewer" ∷ []))
        (extract_key tables (request "/api/v1/events" "bearer k1"))
      ≡ some roles)
    × Grants ("operator" ∷ "reviewer" ∷ []) roles
    × (served roles ≡ served ("reviewer" ∷ []))
rbac_middleware-served_example =
    rbac_middleware-served tables ("operator" ∷ "reviewer" ∷ []) roles_of
      (parse_key_roles ("k1:reviewer" ∷ [])) (request "/api/v1/events" "bearer k1") none
      ("reviewer" ∷ []) some_grants private_path served_reviewer

colon_admin : All IsKeyless (":admin" ∷ [])
unfolding run
colon_admin = (refl, tt)

keyless_opens_example :
    api_key_middleware tables
      (configured [] (":admin" ∷ [])).0
      (rbac_middleware tables (configured [] (":admin" ∷ [])).1 roles_of)
      (request "/api/v1/events" "")
      none
    ≡ served dev_principal.roles
keyless_opens_example =
    keyless_opens tables (":admin" ∷ []) roles_of (request "/api/v1/events" "") none colon_admin
      private_path
