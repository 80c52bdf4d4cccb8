-- ===== src/Auth/Paths.antt =====
-- crates/proxy/src/auth.rs: paths and credentials of a request.
use better_ccflare_rs.Base.{
  or_else, and_then, ℕ, String, Bool, true, false, not, ◌&&◌, ◌||◌, Option, none, some, List, [],
  ◌∷◌, str_eq, ◌==◌, if◌then◌else◌, any,
}
use better_ccflare_rs.Base.Text.{codes, starts_with, strip_prefix, trim, same, from_utf8}
use better_ccflare_rs.Auth.{Request}

-- `get(..)`, then `to_str().ok()`.
unfoldable pub header_text : Request → String → Option (List ℕ)
header_text req name = and_then (req.headers name) (λ v. v)

unfoldable pub non_empty : List ℕ → Option (List ℕ)
non_empty [] = none
non_empty (c ∷ cs) = some (c ∷ cs)

unfoldable pub extract_api_key : Request → Option (List ℕ)
extract_api_key req = or_else (and_then (header_text req "x-api-key") (λ s. non_empty (trim s))) (
    and_then (header_text req "authorization")
      (λ s. and_then (strip_prefix (codes "Bearer ") s) (λ token. non_empty (trim token))))

-- `splitn(2, ':').nth(1)`: what follows the first colon.
unfoldable pub after_colon : List ℕ → Option (List ℕ)
after_colon [] = none
after_colon (c ∷ cs) = let rest = after_colon cs in if c == b':' then some cs else rest

unfoldable pub extract_basic_auth_password : (List ℕ → Option (List ℕ)) → Request → Option (List ℕ)
extract_basic_auth_password decode req = and_then (header_text req "authorization") (λ s.
    and_then (strip_prefix (codes "Basic ") s) (λ encoded.
      and_then (decode (trim encoded))
        (λ bytes. and_then (from_utf8 bytes) (λ text. and_then (after_colon text) non_empty))))

unfoldable pub trim_start_slashes : List ℕ → List ℕ
trim_start_slashes [] = []
trim_start_slashes (c ∷ cs) = let rest = trim_start_slashes cs in if c == b'/' then rest else c ∷ cs

unfoldable pub normalize_path : List ℕ → List ℕ
normalize_path path = b'/' ∷ trim_start_slashes path

unfoldable pub under : String → List ℕ → Bool
under prefix path = starts_with (normalize_path path) (codes prefix)

unfoldable pub is_path_exempt : List ℕ → Bool
is_path_exempt path =
    same (normalize_path path) (codes "/health")
    || same (normalize_path path) (codes "/api/oauth/callback")
    || under "/dashboard/assets/" path

-- Whether a rejection asks the browser for a password.
unfoldable pub asks_browser : List ℕ → Bool → Bool
asks_browser path has_dashboard_password =
    not (under "/api/" path)
    && not (under "/v1/" path)
    && not (under "/messages/" path)
    && has_dashboard_password

unfoldable pub is_dashboard_get : Request → Bool
is_dashboard_get req =
    str_eq req.method "GET"
    && (same (normalize_path req.path) (codes "/dashboard") || under "/dashboard/" req.path)

unfoldable pub is_mutating_method : String → Bool
is_mutating_method method = any (str_eq method) ("POST" ∷ "PUT" ∷ "DELETE" ∷ "PATCH" ∷ [])

abbrev pub is_some {ℓ} : {A : Type ℓ} → Option A → Bool
is_some none = false
is_some (some a) = true

unfoldable pub has_json_content_type : Request → Bool
has_json_content_type req = elim (header_text req "content-type") [
  | none ↦ false
  | some ct ↦ starts_with ct (codes "application/json")
]

-- A request that the check against cross-site forgery turns down.
unfoldable pub csrf_fails : Request → Bool
csrf_fails req =
    is_mutating_method req.method
    && under "/api/" req.path
    && not (is_some (extract_api_key req))
    && (not (is_some (req.headers "x-requested-with")) && not (has_json_content_type req))
