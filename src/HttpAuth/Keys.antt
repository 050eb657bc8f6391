-- ===== src/HttpAuth/Keys.antt =====
-- Which requests the API key middleware lets pass.
use mathlib.Core.List.{Memᴰ}
use flux_lens.Base.{
  String, true, false, ◌≡◌, ◌≢◌, ◌↔◌, refl, sym, ◌∙◌, ap, inl, inr, Option, List, [], ◌∷◌, ◌==◌,
  arith, eq_iff, All, Bool-cases, text_cases, ==-false→ne, ne→==-false,
}
use flux_lens.Base.Lists.{All-mem}
use flux_lens.Base.Text.{trim_space, split_on}
use flux_lens.Base.Text.Trim.{trim_space_idem}
use flux_lens.Base.Pattern.{CaseTables}
use flux_lens.HttpAuth.{
  Request, Principal, http_error, Handler, is_public_path, extract_key, trimmed_keys, split_keys,
  is_allowed, check_key, api_key_middleware,
}

abbrev pub IsTrimmed : String → Type 0
IsTrimmed k = (k ≢ "") × (trim_space k ≡ k)

pub trimmed_keys-All : (keys : List String) → All IsTrimmed (trimmed_keys keys)
unfolding trimmed_keys
trimmed_keys-All [] = tt
trimmed_keys-All (k ∷ keys) = elim (Bool-cases (trim_space k == "")) [
  | inl blank ↦ rw blank (trimmed_keys-All keys)
  | inr full ↦ rw full ((==-false→ne _ _ full, trim_space_idem k), trimmed_keys-All keys)
]

trimmed_keys_fixed : (keys : List String) → All IsTrimmed keys → trimmed_keys keys ≡ keys
unfolding trimmed_keys
trimmed_keys_fixed [] h = refl
trimmed_keys_fixed (k ∷ keys) h =
    rw (h.0.1, ne→==-false k "" h.0.0) (ap (λ ks. k ∷ ks) (trimmed_keys_fixed keys h.1))

-- Whatever the text that SplitKeys is given, no key that it returns is empty or has spaces around it.
pub split_keys-All : (raw : String) → All IsTrimmed (split_keys raw)
unfolding split_keys
split_keys-All raw = elim (Bool-cases (trim_space raw == "")) [
  | inl blank ↦ rw blank tt
  | inr full ↦ rw full (trimmed_keys-All (split_on b',' raw))
]

pub is_allowed_iff :
    (keys : List String) (key : String) → (is_allowed keys key ≡ true) ↔ Memᴰ key keys
is_allowed_iff keys key = (there keys, back keys)
  where
    there : (keys : List String) → is_allowed keys key ≡ true → Memᴰ key keys
    there [] h = cc
    there (k ∷ keys) h = elim (text_cases k key) [
      | inl same ↦ Memᴰ.head (sym same)
      | inr other ↦ Memᴰ.tail (there keys (rw (other) at h))
    ]

    back : (keys : List String) → Memᴰ key keys → is_allowed keys key ≡ true
    back [] m = elim m [ ]
    back (k ∷ keys) (Memᴰ.head e) = ground (arith, eq_iff k key)
    back (k ∷ keys) (Memᴰ.tail m) = let rest = back keys m in ground (arith, rest)

module _ {R : Type 0} (tables : CaseTables) (raw : String) (next : Handler R) (r : Request)
    (p : Option Principal) where
  split_checked :
      split_keys raw ≢ []
      → api_key_middleware tables (split_keys raw) next r p
        ≡ check_key tables (split_keys raw) next r p
  unfolding api_key_middleware
  split_checked h =
      from (split_keys raw) h (trimmed_keys_fixed (split_keys raw) (split_keys-All raw))
    where
      from :
          (keys : List String)
          → keys ≢ []
          → trimmed_keys keys ≡ keys
          → api_key_middleware tables keys next r p ≡ check_key tables keys next r p
      from [] h e = absurd (h refl)
      from (k ∷ keys) h e = ap (λ ks. check_key tables ks next r p) e

  -- With keys configured, a request for a path that is not public reaches the next handler exactly if
  -- its key is one of those that SplitKeys returned, and gets status 401 otherwise; a request
  -- without a key gets status 401.
  pub api_key_middleware_lem :
      split_keys raw ≢ []
      → is_public_path r.path ≡ false
      → (Memᴰ (extract_key tables r) (split_keys raw)
          → api_key_middleware tables (split_keys raw) next r p ≡ next r p)
        × (¬ Memᴰ (extract_key tables r) (split_keys raw)
            → api_key_middleware tables (split_keys raw) next r p ≡ http_error 401 "unauthorized")
        × (extract_key tables r ≡ ""
            → api_key_middleware tables (split_keys raw) next r p ≡ http_error 401 "unauthorized")
  unfolding check_key
  api_key_middleware_lem h private_path =
      let refused : ¬ Memᴰ (extract_key tables r) (split_keys raw)
          → api_key_middleware tables (split_keys raw) next r p ≡ http_error 401 "unauthorized" =
        λ stranger.
          split_checked h ∙ elim (Bool-cases (is_allowed (split_keys raw) (extract_key tables r))) [
            | inl known ↦ absurd (stranger ((is_allowed_iff _ _).0 known))
            | inr unknown ↦ rw (private_path, unknown) refl
          ] in
      (
        λ known. split_checked h ∙ rw (private_path, (is_allowed_iff _ _).1 known) refl,
        refused,
        λ none_given. refused (λ m. (All-mem _ (split_keys-All raw) m).0 none_given),
      )
