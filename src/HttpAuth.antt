-- ===== src/HttpAuth.antt =====
-- internal/httpauth/apikey.go: API keys. A handler takes a request with the principal that its
-- context holds, and returns an HTTP error or what the handler behind it returns.
pub mod Roles
pub mod Keys
pub mod Pass
pub mod Tests
use flux_lens.Base.{
  ℕ, zero, suc, String, Bool, true, false, not, ◌||◌, Option, none, some, List, [], ◌∷◌, ◌==◌, any,
  if◌then◌else◌,
}
use flux_lens.Base.Text.{trim_space, split_on}
use flux_lens.Base.Pattern.{CaseTables, to_lower}

-- The two headers as Header.Get returns them, empty when absent.
pub record Request : Type 0 where
  pub path : String
  pub x_api_key : String
  pub authorization : String

pub record Principal : Type 0 where
  pub key : String
  pub roles : List String

pub data Answer (R : Type 0) : Type 0 where
  http_error : ℕ → String → Answer R
  served : R → Answer R

abbrev pub Handler : Type 0 → Type 0
Handler R = Request → Option Principal → Answer R

unfoldable pub is_public_path : String → Bool
is_public_path path =
    path == "/api/v1/health"
    || path == "/metrics"
    || path == "/api/openapi.yaml"
    || path == "/api/v1/stream"

-- strings.HasPrefix
starts_with : String → String → Bool
starts_with s String.[] = true
starts_with String.[] (String.◌∷◌ d w) = false
starts_with (String.◌∷◌ c s) (String.◌∷◌ d w) =
    let rest = starts_with s w in if String.◌∷◌ c "" == String.◌∷◌ d "" then rest else false

-- A slice from the n-th character on
drop_text : ℕ → String → String
drop_text zero s = s
drop_text (suc n) String.[] = ""
drop_text (suc n) (String.◌∷◌ c s) = drop_text n s

-- The slice auth[7:] cuts bytes: a text that lowers to one that begins with "bearer " begins with
-- seven ASCII characters.
unfoldable pub extract_key : CaseTables → Request → String
unfolding starts_with drop_text
extract_key tables r =
    if not (r.x_api_key == "")
    then trim_space r.x_api_key
    else if starts_with (to_lower tables r.authorization) "bearer "
    then trim_space (drop_text 7 r.authorization)
    else ""

-- The loop that trims keys and leaves out the empty ones.
unfoldable pub trimmed_keys : List String → List String
trimmed_keys [] = []
trimmed_keys (k ∷ keys) =
    let rest = trimmed_keys keys in if trim_space k == "" then rest else trim_space k ∷ rest

-- A nil set is `none`.
unfoldable pub keys_to_set : List String → Option (List String)
keys_to_set [] = none
keys_to_set (k ∷ keys) = some (trimmed_keys (k ∷ keys))

unfoldable pub split_keys : String → List String
split_keys raw = if trim_space raw == "" then [] else trimmed_keys (split_on b',' raw)

abbrev pub is_allowed : List String → String → Bool
is_allowed allowed key = any (λ k. k == key) allowed

unfoldable pub check_key : {R : Type 0} → CaseTables → List String → Handler R → Handler R
check_key tables allowed next r principal =
    if is_public_path r.path
    then next r principal
    else if is_allowed allowed (extract_key tables r)
    then next r principal
    else http_error 401 "unauthorized"

unfoldable pub api_key_middleware : {R : Type 0} → CaseTables → List String → Handler R → Handler R
unfolding check_key
api_key_middleware tables [] next = next
api_key_middleware tables (k ∷ keys) next = check_key tables (trimmed_keys (k ∷ keys)) next
