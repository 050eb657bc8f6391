-- ===== src/Gateway/Guarded.antt =====
-- Who reaches the operator's and the auditor's routes of the wired gateway.
use flux_lens.Base.{
  String, false, ◌≡◌, ◌≢◌, refl, sym, ◌∙◌, Option, none, some, List, [], ◌∷◌, ◌==◌, ◌||◌, inl, inr,
  Bool-cases,
}
use flux_lens.Base.Dict.{Dict, find}
use flux_lens.Base.Pattern.{CaseTables}
use flux_lens.HttpAuth.{
  Request, Principal, Answer, http_error, served, Handler, api_key_middleware, check_key,
  is_public_path, is_allowed, extract_key, trimmed_keys, keys_to_set,
}
use flux_lens.HttpAuth.Roles.{
  rbac_middleware, by_roles, with_roles, require_roles, configured, role_operator, role_reviewer,
  role_admin, role_auditor,
}
use flux_lens.HttpAuth.Roles.Access.{Grants, rbac_middleware-served}
use flux_lens.Gateway.{Runtime, Readings, Gateway, Server}
use flux_lens.Gateway.Bodies.{Reply}
use flux_lens.Gateway.Handlers.{handle_operator_export}
use flux_lens.Gateway.Operator.{
  quiet, handle_operator_suggest, handle_operator_suggest_precedents, handle_operator_resolve,
}
use flux_lens.Gateway.Live.{System}
use flux_lens.Gateway.Routes.{
  HttpRequest, Operation, on_server, operators, auditors, operator_route, auditor_route, routes,
  wired, Served, refused, answered, finish_answer, serve,
}

-- An answer of the next handler that comes through the check of the key.
module _ {R : Type 0} (tables : CaseTables) (next : Handler R) (r : Request) (p : Option Principal)
    (x : R) where
  check_key-served :
      (allowed : List String) → check_key tables allowed next r p ≡ served x → next r p ≡ served x
  unfolding check_key
  check_key-served allowed h = elim (Bool-cases (is_public_path r.path)) [
    | inl exempt ↦ rw (exempt, check_key) at h
    | inr shut ↦ elim (Bool-cases (is_allowed allowed (extract_key tables r))) [
      | inl known ↦ rw (shut, known, check_key) at h
      | inr unknown ↦ absurd (clash (rw (shut, unknown, check_key) at h))
    ]
  ]
    where
      clash : http_error 401 "unauthorized" ≡ served x → ⊥
      clash h = cc

  api_key_middleware-served :
      (keys : List String)
      → api_key_middleware tables keys next r p ≡ served x
      → next r p ≡ served x
  unfolding api_key_middleware
  api_key_middleware-served [] h = h
  api_key_middleware-served (k ∷ keys) h = check_key-served (trimmed_keys (k ∷ keys)) h

-- The role middleware looks at the next handler at this request only.
rbac_middleware_local :
    {R : Type 0} (tables : CaseTables) (m : Dict (List String)) (f g : Handler R) (r : Request)
    (p : Option Principal)
    → ((q : Option Principal) → f r q ≡ g r q)
    → rbac_middleware tables m f r p ≡ rbac_middleware tables m g r p
unfolding rbac_middleware by_roles
rbac_middleware_local tables m f g r p same =
    elim (Bool-cases (is_public_path r.path || r.path == "/api/v1/stream")) [
      | inl exempt ↦ rw exempt (same p)
      | inr shut ↦ rw shut (roles m)
    ]
  where
    with :
        (roles : Option (List String))
        → with_roles (extract_key tables r) roles f r ≡ with_roles (extract_key tables r) roles g r
    with none = unfold with_roles in refl
    with (some rs) = unfold with_roles in same _

    roles : (m : Dict (List String)) → by_roles tables m f r ≡ by_roles tables m g r
    roles [] = same _
    roles (entry ∷ m) = with _

-- The routes that RequireRoles guards, with the roles of each.
pub data IsGuarded : String → List String → Type 0 where
  suggest : IsGuarded "/api/v1/operator/suggest" (role_operator ∷ role_reviewer ∷ role_admin ∷ [])
  precedents :
      IsGuarded "/api/v1/operator/suggest-precedents"
        (role_operator ∷ role_reviewer ∷ role_admin ∷ [])
  resolve : IsGuarded "/api/v1/operator/resolve" (role_operator ∷ role_reviewer ∷ role_admin ∷ [])
  export : IsGuarded "/api/v1/operator/export" (role_auditor ∷ role_admin ∷ [])

module _ {S : Type 0} (rt : Runtime) (gate : Gateway S) (at : Readings) (req : HttpRequest) where
  -- At a guarded path the mux runs an operation behind RequireRoles.
  routes_guarded :
      (allowed : Option (List String)) (r : Request) (path : String) (roles : List String)
      → r.path ≡ path
      → IsGuarded path roles
      → (f : (Server S → Server S × Reply)) × ((q : Option Principal)
          → routes rt gate at req allowed r q
            ≡ require_roles roles (λ r p. served (on_server f)) r q)
  unfolding routes operator_route auditor_route operators auditors
  routes_guarded allowed r _ _ e suggest =
      (handle_operator_suggest rt gate at (quiet rt gate at) req.method req.suggest, λ q. rw e refl)
  routes_guarded allowed r _ _ e precedents = (
    handle_operator_suggest_precedents rt gate at (quiet rt gate at) req.method req.precedents,
    λ q. rw e refl,
  )
  routes_guarded allowed r _ _ e resolve =
      (handle_operator_resolve rt gate at req.method req.resolve, λ q. rw e refl)
  routes_guarded allowed r _ _ e export =
      (handle_operator_export rt gate at req.method, λ q. rw e refl)

  guarded_private :
      (path : String) (roles : List String) → IsGuarded path roles → is_public_path path ≡ false
  unfolding is_public_path
  guarded_private _ _ suggest = refl
  guarded_private _ _ precedents = refl
  guarded_private _ _ resolve = refl
  guarded_private _ _ export = refl

  finish_answer-answered :
      (a : Answer (Operation S)) (x x' : System S) (r : Reply)
      → finish_answer a x ≡ (x', answered r)
      → (f : Operation S) × (a ≡ served f)
  unfolding finish_answer
  finish_answer-answered (http_error code text) x x' r h = absurd (clash h)
    where
      clash : ◌≡◌ {A = System S × Served} (x, refused code text) (x', answered r) → ⊥
      clash h = cc
  finish_answer-answered (served f) x x' r h = (f, refl)

  -- With roles configured, a request for an operator's route reaches its handler only with a key that
  -- is configured with one of the roles of the route or with the role admin.
  pub serve_guarded :
      (keys entries : List String) (roles : List String) (x x' : System S) (r : Reply)
      → (configured keys entries).1 ≢ []
      → IsGuarded req.auth.path roles
      → serve rt gate keys entries at req x ≡ (x', answered r)
      → (held : List String) × (find (configured keys entries).1 (extract_key rt.tables req.auth)
          ≡ some held)
        × Grants roles held
  unfolding serve wired
  serve_guarded keys entries roles x x' r filled guarded h =
      let (api_keys, key_roles) = configured keys entries in
      let allowed = keys_to_set api_keys in
      let (g, run) = finish_answer-answered _ x x' r h in
      let (f, local) = routes_guarded allowed req.auth req.auth.path roles refl guarded in
      let passed =
        api_key_middleware-served rt.tables
          (rbac_middleware rt.tables key_roles (routes rt gate at req allowed)) req.auth none g
          api_keys run in
      let (held, there, grants, _) =
        rbac_middleware-served rt.tables roles (λ r p. served (on_server f)) key_roles req.auth none
          g filled (guarded_private req.auth.path roles guarded)
          (sym (
              rbac_middleware_local rt.tables key_roles (routes rt gate at req allowed)
                (require_roles roles (λ r p. served (on_server f))) req.auth none local)
            ∙ passed) in
      (held, there, grants)
