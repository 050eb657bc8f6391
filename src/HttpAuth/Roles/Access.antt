-- ===== src/HttpAuth/Roles/Access.antt =====
-- Who passes the role checks under a configuration.
use mathlib.Core.List.{Memᴰ}
use flux_lens.Base.{
  String, true, false, ◌≡◌, ◌≢◌, ◌⊎◌, refl, sym, inl, inr, Option, none, some, List, [], ◌∷◌, ◌==◌,
  arith, eq_iff, any, All, Bool-cases, text_cases, Option-cases,
}
use flux_lens.Base.Text.{trim_space, cut}
use flux_lens.Base.Pattern.{CaseTables}
use flux_lens.Base.Dict.{Dict, find, assign, find-assign, holds}
use flux_lens.HttpAuth.{
  Request, Principal, http_error, served, Handler, is_public_path, extract_key, api_key_middleware,
}
use flux_lens.HttpAuth.Roles.{
  role_admin, add_entry, parse_from, parse_key_roles, dev_principal, with_roles, by_roles,
  rbac_middleware, has_role, require_roles, default_roles, keys_of, configured, role_operator,
}

holds-assign :
    (m : Dict (List String)) (key other : String) (roles : List String)
    → (holds m other ≡ true) ⊎ (key ≡ other)
    → holds (assign m key roles) other ≡ true
holds-assign m key other roles h = rw (find-assign m key other roles) (elim (text_cases key other) [
  | inl same ↦ ground (arith, eq_iff key other)
  | inr different ↦ ground (arith, eq_iff key other)
])

default_roles-holds :
    (keys : List String) (m : Dict (List String)) (key : String)
    → (holds m key ≡ true) ⊎ Memᴰ key keys
    → holds (default_roles keys m) key ≡ true
unfolding default_roles
default_roles-holds [] m key (inl h) = h
default_roles-holds [] m key (inr h) = elim h [ ]
default_roles-holds (k ∷ keys) m key h =
    default_roles-holds keys _ key (elim (Option-cases (find m k)) [
      | inl missing ↦ rw missing (first missing h)
      | inr (roles, there) ↦ rw there (again roles there h)
    ])
  where
    first :
        find m k ≡ none
        → (holds m key ≡ true) ⊎ Memᴰ key (k ∷ keys)
        → (holds (assign m k (role_operator ∷ [])) key ≡ true) ⊎ Memᴰ key keys
    first missing (inl h) = inl (holds-assign m k key (role_operator ∷ []) (inl h))
    first missing (inr (Memᴰ.head e)) =
        inl (holds-assign m k key (role_operator ∷ []) (inr (sym e)))
    first missing (inr (Memᴰ.tail t)) = inr t

    again :
        (roles : List String)
        → find m k ≡ some roles
        → (holds m key ≡ true) ⊎ Memᴰ key (k ∷ keys)
        → (holds m key ≡ true) ⊎ Memᴰ key keys
    again roles there (inl h) = inl h
    again roles there (inr (Memᴰ.head e)) = inl (rw (e, there))
    again roles there (inr (Memᴰ.tail t)) = inr t

holds-keys_of : (m : Dict (List String)) (key : String) → Memᴰ key (keys_of m) → holds m key ≡ true
unfolding find
holds-keys_of [] key h = elim h [ ]
holds-keys_of (entry ∷ m) key (Memᴰ.head e) = ground (arith, eq_iff entry.0 key)
holds-keys_of (entry ∷ m) key (Memᴰ.tail t) =
    let rest = holds-keys_of m key t in
    elim (Bool-cases (entry.0 == key)) [ inl same ↦ rw same refl | inr other ↦ rw other rest ]

-- However the gateway is configured, with keys, with entries for roles or with both: every key that
-- the API key middleware is given has roles in what the role middleware is given.
pub configured-holds :
    (keys entries : List String) (key : String)
    → Memᴰ key (configured keys entries).0
    → holds (configured keys entries).1 key ≡ true
unfolding configured
configured-holds [] entries key h = holds-keys_of (parse_key_roles entries) key h
configured-holds (k ∷ keys) entries key h =
    default_roles-holds (k ∷ keys) (parse_key_roles entries) key (inr h)

not_stream : (path : String) → is_public_path path ≡ false → (path == "/api/v1/stream") ≡ false
unfolding is_public_path
not_stream path h = ground arith

-- The roles let one pass: one of them is admin or allowed.
abbrev pub Grants : List String → List String → Type 0
Grants allowed roles =
    (has_role roles role_admin ≡ true) ⊎ (any (λ have. any (λ a. a == have) allowed) roles ≡ true)

module _ {R : Type 0} (tables : CaseTables) (allowed : List String) (next : Handler R) where
  require_roles-served :
      (r : Request) (p : Principal) (x : R)
      → require_roles allowed next r (some p) ≡ served x
      → Grants allowed p.roles × (next r (some p) ≡ served x)
  unfolding require_roles
  require_roles-served r p x h = elim (Bool-cases (has_role p.roles role_admin)) [
    | inl admin ↦ (inl admin, rw (admin, require_roles) at h)
    | inr other ↦ elim (Bool-cases (any (λ have. any (λ a. a == have) allowed) p.roles)) [
      | inl listed ↦ (inr listed, rw (other, listed, require_roles) at h)
      | inr unlisted ↦ absurd (clash (rw (other, unlisted, require_roles) at h))
    ]
  ]
    where
      clash : {text : String} → http_error 403 text ≡ served x → ⊥
      clash h = cc

  by_roles-served :
      (m : Dict (List String)) (r : Request) (x : R)
      → m ≢ []
      → by_roles tables m (require_roles allowed next) r ≡ served x
      → (roles : List String) × (find m (extract_key tables r) ≡ some roles)
        × Grants allowed roles
        × (next r (some (record { key = extract_key tables r; roles = roles })) ≡ served x)
  unfolding by_roles with_roles
  by_roles-served [] r x filled h = absurd (filled refl)
  by_roles-served (entry ∷ m) r x filled h =
      elim (Option-cases (find (entry ∷ m) (extract_key tables r))) [
        | inl missing ↦ absurd (clash (rw (missing, by_roles) at h))
        | inr (roles, there) ↦
            let (grants, run) = require_roles-served r _ x (rw (there, by_roles) at h) in
            (roles, there, grants, run)
      ]
    where
      clash : http_error 401 "unauthorized" ≡ served x → ⊥
      clash h = cc

  -- With roles configured, an operation behind the role check serves a request for a path that is
  -- not public only if the request's key is configured with the role admin or one of the allowed roles,
  -- and it then runs for this key and these roles.
  pub rbac_middleware-served :
      (m : Dict (List String)) (r : Request) (p : Option Principal) (x : R)
      → m ≢ []
      → is_public_path r.path ≡ false
      → rbac_middleware tables m (require_roles allowed next) r p ≡ served x
      → (roles : List String) × (find m (extract_key tables r) ≡ some roles)
        × Grants allowed roles
        × (next r (some (record { key = extract_key tables r; roles = roles })) ≡ served x)
  unfolding rbac_middleware
  rbac_middleware-served m r p x filled private_path h =
      by_roles-served m r x filled
        (rw (private_path, not_stream r.path private_path, rbac_middleware) at h)

-- The entry has no key.
abbrev pub IsKeyless : String → Type 0
IsKeyless entry = trim_space (cut b':' (trim_space entry)).0 ≡ ""

parse_keyless : (entries : List String) → All IsKeyless entries → parse_key_roles entries ≡ []
unfolding parse_key_roles parse_from add_entry
parse_keyless [] h = refl
parse_keyless (entry ∷ more) h = elim (Bool-cases (trim_space entry == "")) [
  | inl blank ↦ rw blank (parse_keyless more h.1)
  | inr full ↦ rw (full, h.0) (parse_keyless more h.1)
]

-- Without keys, and with entries for roles none of which has a key, the gateway is open: every
-- request for a path that is not public runs with every role.
pub keyless_opens :
    {R : Type 0} (tables : CaseTables) (entries : List String) (next : Handler R) (r : Request)
    (p : Option Principal)
    → All IsKeyless entries
    → is_public_path r.path ≡ false
    → api_key_middleware tables
        (configured [] entries).0
        (rbac_middleware tables (configured [] entries).1 next)
        r
        p
      ≡ next r (some dev_principal)
unfolding configured by_roles api_key_middleware
keyless_opens tables entries next r p h private_path =
    rw (parse_keyless entries h)
      (unfold rbac_middleware in rw (private_path, not_stream r.path private_path) refl)
