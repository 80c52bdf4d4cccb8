-- ===== src/Tokens.antt =====
-- crates/proxy/src/token_manager.rs: the token that a request uses, and its refresh. A call is two
-- steps: up to the lock of the account, and after it; other tasks may run between the two. Logs and
-- the locks themselves are left out. The refresher and the database are parameters.
pub mod Backoff
pub mod Minute
pub mod Result
use better_ccflare_rs.Base.{
  ◌^◌, ◌%◌, ℕ, zero, suc, ◌+◌, ◌-◌, ◌*◌, ◌/◌, ◌≤◌, ◌<◌, min, max, String, ◌≡◌, refl, sym, ap, subst,
  ◌∙◌, ◌≢◌, ◌↔◌, ◌⊎◌, inl, inr, Bool, true, false, not, ◌&&◌, ◌||◌, Option, none, some, List, [],
  ◌∷◌, ◌++◌, map, arith, str_eq, str_eq_iff, ltb, leb, ◌==◌, if◌then◌else◌, Bool-cases, length,
  take, get_elem?, filter, any, In, All, Pairs, All-In, All-of_In, length-append, length-take,
}
use better_ccflare_rs.Base.Int.{ℤ, pos, ◌-ℤ◌, leb_ℤ, ltb_ℤ}
use better_ccflare_rs.Account.{Account}
use better_ccflare_rs.Provider.{from_str_loose, uses_api_key}
use better_ccflare_rs.Health.{
  OauthError, get_oauth_error_message, token_safety_window_ms, token_refresh_backoff_ms,
  failure_ttl_ms, max_backoff_retries, is_empty,
}

pub record TokenRefreshResult : Type 0 where
  pub access_token : String
  pub expires_at : ℤ
  pub refresh_token : String
  pub subscription_tier : Option String
  pub email : Option String

pub data TokenError : Type 0 where
  refresh_failed : String → OauthError → TokenError
  in_backoff : String → TokenError
  no_api_key : String → TokenError

-- What a call returns, and what `refresh_token` of the provider does.
pub data Answer (A E : Type 0) : Type 0 where
  ok : A → Answer A E
  err : E → Answer A E

pub record FailureRecord : Type 0 where
  pub timestamp : ℤ
  pub backoff_count : ℕ

abbrev pub Failures : Type 0
Failures = String → Option FailureRecord

pub record TokenManager : Type 0 where
  pub failures : Failures
  pub client_id : String
  pub last_cleanup : ℤ

abbrev pub cleanup_interval_ms : ℤ
cleanup_interval_ms = pos 60_000

-- The writes to the database, in order.
pub data Persist : Type 0 where
  persist_tokens : String → String → ℤ → String → Persist
  persist_subscription_tier persist_email : String → Option String → Persist

unfoldable pub set_failure : Failures → String → Option FailureRecord → Failures
set_failure f id r k = if str_eq k id then r else f k

-- What a step leaves behind: no result means that the task goes on to the lock.
pub record Call : Type 0 where
  pub manager : TokenManager
  pub account : Account
  pub result : Option (Answer String TokenError)
  pub refreshed : Bool
  pub writes : List Persist

unfoldable pub is_api_key_provider : String → Bool
is_api_key_provider provider = elim (from_str_loose provider) [
  | none ↦ false
  | some p ↦ uses_api_key p
]

abbrev pub is_some : Option String → Bool
is_some none = false
is_some (some s) = true

-- The token of an account that lasts beyond the safety window.
unfoldable pub fresh : Option String → Option ℤ → ℤ → Option String
fresh (some token) (some expires_at) now =
    if ltb_ℤ token_safety_window_ms (expires_at -ℤ now) then some token else none
fresh _ _ now = none

-- `retain` on the failure records, at most once per minute. No other task gets between the load and
-- the exchange of `last_cleanup`.
unfoldable pub cleanup_expired_failures : TokenManager → ℤ → TokenManager
cleanup_expired_failures m now =
    if ltb_ℤ (now -ℤ m.last_cleanup) cleanup_interval_ms then m else record m {
      last_cleanup = now;
      failures = λ id. elim (m.failures id) [
        | none ↦ none
        | some r ↦ if leb_ℤ (now -ℤ r.timestamp) failure_ttl_ms then some r else none
      ];
    }

abbrev pub stop : TokenManager → Account → Answer String TokenError → Call
stop m account r = record {
  manager = m;
  account = account;
  result = some r;
  refreshed = false;
  writes = [];
}

abbrev pub await_lock : TokenManager → Account → Call
await_lock m account = record {
  manager = m;
  account = account;
  result = none;
  refreshed = false;
  writes = [];
}

-- `account.access_token.as_deref() != Some(db_token)`.
abbrev pub differs : Option String → String → Bool
differs none token = true
differs (some t) token = not (str_eq t token)

-- The token of the account that the database holds, if it is fresh and new.
unfoldable pub recovered : Account → Account → ℤ → Option (String × ℤ)
recovered account db now = elim db.access_token [
  | none ↦ none
  | some token ↦ elim db.expires_at [
    | none ↦ none
    | some expires ↦
        if ltb_ℤ token_safety_window_ms (expires -ℤ now) && differs account.access_token token
        then some (token, expires)
        else none
  ]
]

unfoldable pub try_db_recovery : (String → Option Account) → TokenManager → Account → ℤ → Call
try_db_recovery load_account m account now = elim (load_account account.id) [
  | none ↦ stop m account (err (in_backoff account.id))
  | some db ↦ elim (recovered account db now) [
    | none ↦ stop m account (err (in_backoff account.id))
    | some (token, expires) ↦
        stop (record m { failures = set_failure m.failures account.id none })
          (record account {
            access_token = some token;
            expires_at = some expires;
            refresh_token =
                if not (is_empty db.refresh_token) then db.refresh_token else account.refresh_token;
          })
          (ok token)
  ]
]

-- A record younger than the back-off counts the call, and ends it.
unfoldable pub back_off :
    (String → Option Account) → TokenManager → Account → FailureRecord → ℤ → Call
back_off load_account m account r now =
    let count = (r.backoff_count + 1) % 2 ^ 32 in
    let counted = record m {
      failures = set_failure m.failures account.id (some (record r { backoff_count = count }));
    } in
    if ltb_ℤ (now -ℤ r.timestamp) token_refresh_backoff_ms
    then if leb max_backoff_retries count
      then try_db_recovery load_account counted account now
      else stop counted account (err (in_backoff account.id))
    else await_lock (record m { failures = set_failure m.failures account.id none }) account

-- `refresh_access_token` up to the lock.
unfoldable pub before_lock : (String → Option Account) → TokenManager → Account → ℤ → Call
before_lock load_account m account now =
    let cleaned = cleanup_expired_failures m now in
    elim (cleaned.failures account.id) [
      | none ↦ await_lock cleaned account
      | some r ↦ back_off load_account cleaned account r now
    ]

-- `get_valid_access_token` up to the lock.
unfoldable pub begin_call : (String → Option Account) → TokenManager → Account → ℤ → Call
begin_call load_account m account now =
    if is_api_key_provider account.provider
    then elim account.api_key [
      | some key ↦ stop m account (ok key)
      | none ↦
          if not (is_empty account.refresh_token)
          then stop m account (ok account.refresh_token)
          else stop m account (err (no_api_key account.name))
    ]
    else if is_empty account.refresh_token && is_some account.api_key
    then stop m account (ok "")
    else elim (fresh account.access_token account.expires_at now) [
      | some token ↦ stop m account (ok token)
      | none ↦ before_lock load_account m account now
    ]

abbrev pub or_keep : Option String → Option String → Option String
or_keep none old = old
or_keep (some s) old = some s

abbrev pub optional_write : (Option String → Persist) → Option String → List Persist
optional_write f none = []
optional_write f (some s) = f (some s) ∷ []

-- The refresh went through: the database first, then the account in memory.
unfoldable pub on_refreshed : TokenManager → Account → TokenRefreshResult → Call
on_refreshed m account r = record {
  manager = record m { failures = set_failure m.failures account.id none };
  account = record account {
    access_token = some r.access_token;
    expires_at = some r.expires_at;
    refresh_token =
        if not (is_empty r.refresh_token) then r.refresh_token else account.refresh_token;
    subscription_tier = or_keep r.subscription_tier account.subscription_tier;
    email = or_keep r.email account.email;
  };
  result = some (ok r.access_token);
  refreshed = true;
  writes =
      persist_tokens account.id r.access_token r.expires_at r.refresh_token
      ∷ (optional_write (persist_subscription_tier account.id) r.subscription_tier
          ++ optional_write (persist_email account.id) r.email);
}

unfoldable pub on_refresh_error : TokenManager → Account → String → ℤ → Call
on_refresh_error m account message now = record {
  manager = record m {
    failures =
        set_failure m.failures account.id (some (record { timestamp = now; backoff_count = 0 }));
  };
  account = account;
  result = some (err (refresh_failed account.id (get_oauth_error_message account message now)));
  refreshed = true;
  writes = [];
}

-- `refresh_access_token` after the lock, with the manager as it is by then.
unfoldable pub after_lock :
    (Account → String → Answer TokenRefreshResult String) → TokenManager → Account → ℤ → Call
after_lock refresh_token m account now = elim (fresh account.access_token account.expires_at now) [
  | some token ↦ stop m account (ok token)
  | none ↦ elim (refresh_token account m.client_id) [
    | ok r ↦ on_refreshed m account r
    | err message ↦ on_refresh_error m account message now
  ]
]

-- A whole call; `others` is what other tasks do to the manager while this one waits for the lock.
unfoldable pub get_valid_access_token :
    (String → Option Account)
    → (Account → String → Answer TokenRefreshResult String)
    → (TokenManager → TokenManager)
    → TokenManager
    → Account
    → ℤ
    → Call
get_valid_access_token load_account refresh_token others m account now =
    let c = begin_call load_account m account now in
    elim c.result [ some r ↦ c | none ↦ after_lock refresh_token (others c.manager) c.account now ]

unfoldable pub clear_account_state : TokenManager → String → TokenManager
clear_account_state m account_id = record m { failures = set_failure m.failures account_id none }
