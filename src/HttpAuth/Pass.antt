-- ===== src/HttpAuth/Pass.antt =====
-- What the middlewares can answer: an error of their own, or what the handler behind them answers.
use flux_lens.Base.{
  ℕ, String, Option, none, some, List, [], ◌∷◌, ◌==◌, ◌||◌, inl, inr, Bool-cases, any,
}
use flux_lens.Base.Pattern.{CaseTables}
use flux_lens.Base.Dict.{Dict}
use flux_lens.HttpAuth.{
  Request, Principal, Answer, http_error, Handler, api_key_middleware, check_key, is_public_path,
  is_allowed, extract_key, trimmed_keys,
}
use flux_lens.HttpAuth.Roles.{
  rbac_middleware, by_roles, with_roles, require_roles, has_role, role_admin,
}

module _ {R : Type 0} (tables : CaseTables) (next : Handler R) (r : Request) (Q : Answer R → Type 0)
    (errors : (code : ℕ) (text : String) → Q (http_error code text))
    (passes : (p : Option Principal) → Q (next r p)) where
  check_key_answers :
      (allowed : List String) (p : Option Principal) → Q (check_key tables allowed next r p)
  unfolding check_key
  check_key_answers allowed p = elim (Bool-cases (is_public_path r.path)) [
    | inl exempt ↦ rw exempt (passes p)
    | inr shut ↦ elim (Bool-cases (is_allowed allowed (extract_key tables r))) [
      | inl known ↦ rw (shut, known) (passes p)
      | inr unknown ↦ rw (shut, unknown) (errors _ _)
    ]
  ]

  pub api_key_middleware_answers :
      (keys : List String) (p : Option Principal) → Q (api_key_middleware tables keys next r p)
  unfolding api_key_middleware
  api_key_middleware_answers [] p = passes p
  api_key_middleware_answers (k ∷ keys) p = check_key_answers (trimmed_keys (k ∷ keys)) p

  with_roles_answers :
      (key : String) (roles : Option (List String)) → Q (with_roles key roles next r)
  unfolding with_roles
  with_roles_answers key none = errors _ _
  with_roles_answers key (some roles) = passes _

  by_roles_answers : (m : Dict (List String)) → Q (by_roles tables m next r)
  unfolding by_roles
  by_roles_answers [] = passes _
  by_roles_answers (entry ∷ m) = with_roles_answers _ _

  pub rbac_middleware_answers :
      (m : Dict (List String)) (p : Option Principal) → Q (rbac_middleware tables m next r p)
  unfolding rbac_middleware
  rbac_middleware_answers m p =
      elim (Bool-cases (is_public_path r.path || r.path == "/api/v1/stream")) [
        | inl exempt ↦ rw exempt (passes p)
        | inr shut ↦ rw shut (by_roles_answers m)
      ]

  pub require_roles_answers :
      (allowed : List String) (p : Option Principal) → Q (require_roles allowed next r p)
  unfolding require_roles
  require_roles_answers allowed none = errors _ _
  require_roles_answers allowed (some p) = elim (Bool-cases (has_role p.roles role_admin)) [
    | inl admin ↦ rw admin (passes _)
    | inr other ↦ elim (Bool-cases (any (λ have. any (λ a. a == have) allowed) p.roles)) [
      | inl listed ↦ rw (other, listed) (passes _)
      | inr unlisted ↦ rw (other, unlisted) (errors _ _)
    ]
  ]
