-- ===== src/Auth/Middleware.antt =====
-- crates/proxy/src/auth.rs: the middleware.
use better_ccflare_rs.Base.{
  ℕ, String, Bool, true, false, not, ◌&&◌, ◌||◌, Option, none, some, List, if◌then◌else◌,
}
use better_ccflare_rs.Base.Text.{same}
use better_ccflare_rs.Limiter.{Tracker, check_and_record}
use better_ccflare_rs.Auth.{AuthInfo, Request, KeyResult, AuthEnabledCache, is_proxy}
use better_ccflare_rs.Auth.Paths.{
  extract_api_key, extract_basic_auth_password, under, is_path_exempt, asks_browser,
  is_dashboard_get, csrf_fails, is_some,
}
use better_ccflare_rs.Auth.Keys.{Db, KeyCache, verify_api_key_cached, is_auth_enabled}

-- The request goes on with what is known of it, or is turned down with a status.
pub data Reply : Type 0 where
  next : AuthInfo → Reply
  unauthorized : (asks_browser : Bool) → Reply
  csrf_forbidden scope_forbidden too_many_requests database_error : Reply

pub record Settings : Type 0 where
  pub allow_unauthenticated : Bool
  pub rpm_limit : Option ℕ
  pub dashboard_password : Option (List ℕ)

pub record AuthState : Type 0 where
  pub key_cache : KeyCache
  pub enabled_cache : Option AuthEnabledCache
  pub rpm_tracker : Tracker

abbrev pub anonymous : AuthInfo
anonymous = record {
  is_authenticated = true;
  api_key_id = none;
  api_key_name = none;
  key_scope = none;
}

abbrev pub known : KeyResult → AuthInfo
known k = record {
  is_authenticated = true;
  api_key_id = some k.id;
  api_key_name = some k.name;
  key_scope = some k.scope;
}

-- What stands outside the repository: base64, the hash of the cache and the check of a stored hash.
pub record Outside : Type 0 where
  pub decode : List ℕ → Option (List ℕ)
  pub hash_for_cache : List ℕ → String
  pub verify_hash : List ℕ → String → Bool

abbrev pub matches : Option (List ℕ) → List ℕ → Bool
matches none expected = false
matches (some given) expected = same given expected

unfoldable pub password_given : Outside → Settings → Request → Bool
password_given out settings req = elim settings.dashboard_password [
  | none ↦ false
  | some expected ↦
      matches (extract_basic_auth_password out.decode req) expected
      || matches (extract_api_key req) expected
]

-- The limit of requests per key.
unfoldable pub within_limit : Settings → AuthState → KeyResult → ℕ → AuthState × Reply
within_limit settings s k now = elim settings.rpm_limit [
  | none ↦ (s, next (known k))
  | some limit ↦
      let (tracker, allowed) = check_and_record s.rpm_tracker k.id limit now in
      (record s { rpm_tracker = tracker }, if allowed then next (known k) else too_many_requests)
]

-- The check of the key against the database.
unfoldable pub check_key :
    Outside → Settings → Db → AuthState → Request → List ℕ → ℕ → AuthState × Reply
check_key out settings db s req key now =
    let checked = verify_api_key_cached out.hash_for_cache out.verify_hash db s.key_cache key now in
    let t : AuthState = record s { key_cache = checked.0 } in
    elim checked.1 [
      | none ↦ (t, unauthorized (asks_browser req.path (is_some settings.dashboard_password)))
      | some k ↦
          if is_proxy k.scope && under "/api/" req.path
          then (t, scope_forbidden)
          else within_limit settings t k now
    ]

-- The credentials, once it is known whether keys are active.
unfoldable pub check_credentials :
    Outside → Settings → Option Db → Bool → AuthState → Request → ℕ → AuthState × Reply
check_credentials out settings pool auth_enabled s req now =
    let refused = unauthorized (asks_browser req.path (is_some settings.dashboard_password)) in
    if csrf_fails req
    then (s, csrf_forbidden)
    else if password_given out settings req
    then (s, next anonymous)
    else if not auth_enabled
    then (s, refused)
    else elim (extract_api_key req) [
      | none ↦ (s, refused)
      | some key ↦ elim pool [
        | none ↦ (s, refused)
        | some db ↦ check_key out settings db s req key now
      ]
    ]

unfoldable pub after_enabled :
    Outside → Settings → Option Db → Bool → AuthState → Request → ℕ → AuthState × Reply
after_enabled out settings pool auth_enabled s req now =
    if not auth_enabled && not (is_some settings.dashboard_password)
    then (
      s,
      if is_dashboard_get req then next anonymous else unauthorized (asks_browser req.path false),
    )
    else check_credentials out settings pool auth_enabled s req now

-- An error of the database counts as no active keys where there is a password.
unfoldable pub ask_enabled : Outside → Settings → Db → AuthState → Request → ℕ → AuthState × Reply
ask_enabled out settings db s req now =
    let asked = is_auth_enabled db s.enabled_cache now in
    let t : AuthState = record s { enabled_cache = asked.0 } in
    elim asked.1 [
      | some enabled ↦ after_enabled out settings (some db) enabled t req now
      | none ↦
          if not (is_some settings.dashboard_password)
          then (t, database_error)
          else after_enabled out settings (some db) false t req now
    ]

unfoldable pub auth_middleware :
    Outside → Settings → Option Db → AuthState → Request → ℕ → AuthState × Reply
auth_middleware out settings pool s req now =
    if is_path_exempt req.path
    then (s, next anonymous)
    else if settings.allow_unauthenticated
    then (s, next anonymous)
    else elim pool [
      | none ↦ after_enabled out settings none false s req now
      | some db ↦ ask_enabled out settings db s req now
    ]
