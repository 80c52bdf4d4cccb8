-- ===== src/Refresher.antt =====
-- crates/providers/src/token_manager.rs: the token of an account, and its refresh under a lock of the
-- account. A call is two steps, up to the lock and after it; steps of other tasks may run between
-- them. The locks and the refreshes in flight are their keys, the texts of errors are their parts,
-- and the log is left out. The provider's refresh is a parameter. Times are unbounded integers.
pub mod Bounds
use better_ccflare_rs.Base.{
  ◌%◌, ℕ, zero, suc, ◌+◌, ◌-◌, ◌*◌, ◌/◌, ◌≤◌, ◌<◌, min, max, String, ◌≡◌, refl, sym, ap, subst, ◌∙◌,
  ◌≢◌, ◌↔◌, ◌⊎◌, inl, inr, Bool, true, false, not, ◌&&◌, ◌||◌, Option, none, some, List, [], ◌∷◌,
  ◌++◌, map, arith, str_eq, str_eq_iff, ltb, leb, ◌==◌, if◌then◌else◌, Bool-cases, length, take,
  get_elem?, filter, any, In, All, Pairs, All-In, All-of_In, Yields, Ensures, all, ◌^◌,
  length-append, length-take,
}
use better_ccflare_rs.Base.Int.{ℤ, pos, ◌-ℤ◌, ltb_ℤ, cmp_ℤ}
use better_ccflare_rs.Base.Sort.{sort_by}
use better_ccflare_rs.Base.Maps.{Map, get, set, remove}
use better_ccflare_rs.Account.{Account}
use better_ccflare_rs.Health.{is_empty}
use better_ccflare_rs.Tokens.{TokenRefreshResult, Answer, ok, err}

abbrev pub token_safety_window_ms : ℤ
token_safety_window_ms = pos (30 * 60 * 1000)

abbrev pub token_refresh_backoff_ms : ℤ
token_refresh_backoff_ms = pos 60_000

abbrev pub failure_ttl_ms : ℤ
failure_ttl_ms = pos (5 * 60 * 1000)

abbrev pub max_failure_records : ℕ
max_failure_records = 1000

abbrev pub api_key_providers : List String
api_key_providers =
    "openai-compatible" ∷ "zai" ∷ "claude-console-api" ∷ "anthropic-compatible" ∷ "minimax"
    ∷ "nanogpt" ∷ []

unfoldable pub is_api_key_provider : String → Bool
is_api_key_provider provider = any (str_eq provider) api_key_providers

pub data RefreshMessage : Type 0 where
  no_api_key : RefreshMessage
  in_backoff : String → ℕ → RefreshMessage
  text : String → RefreshMessage

pub data ProviderError : Type 0 where
  token_refresh : RefreshMessage → ProviderError
  auth request_build request_transform http json : String → ProviderError
  configuration not_found pkce other : String → ProviderError

pub record TokenManager : Type 0 where
  pub refresh_locks : List String
  pub in_flight : List String
  pub failures : Map ℤ
  pub backoff_counters : Map ℕ

unfoldable pub new : TokenManager
new = record { refresh_locks = []; in_flight = []; failures = []; backoff_counters = [] }

pub record TokenResult : Type 0 where
  pub token : String
  pub refresh_result : Option TokenRefreshResult

unfoldable pub existing : String → TokenResult
existing token = record { token = token; refresh_result = none }

unfoldable pub refreshed : TokenRefreshResult → TokenResult
refreshed r = record { token = r.access_token; refresh_result = some r }

unfoldable pub was_refreshed : TokenResult → Bool
was_refreshed r = elim r.refresh_result [ none ↦ false | some x ↦ true ]

-- The loop that drops the record and the counter of each key.
unfoldable pub remove_each : Map ℤ → TokenManager → TokenManager
remove_each [] m = m
remove_each (e ∷ es) m = remove_each es (record m {
  failures = remove e.0 m.failures;
  backoff_counters = remove e.0 m.backoff_counters;
})

unfoldable pub cleanup_expired_failures : TokenManager → ℤ → TokenManager
cleanup_expired_failures m now =
    remove_each (filter (λ e. ltb_ℤ e.1 (now -ℤ failure_ttl_ms)) m.failures) m

unfoldable pub enforce_max_failures : TokenManager → TokenManager
enforce_max_failures m =
    if leb (length m.failures) max_failure_records
    then m
    else remove_each
        (take (length m.failures - max_failure_records) (sort_by (λ d e. cmp_ℤ d.1 e.1) m.failures))
        m

-- What a step leaves behind: no answer means that the task goes on to the lock.
pub record Call : Type 0 where
  pub manager : TokenManager
  pub answer : Option (Answer TokenResult ProviderError)

abbrev pub stop : TokenManager → Answer TokenResult ProviderError → Call
stop m a = record { manager = m; answer = some a }

-- `entry(id).or_insert(0)`, then `+= 1` on a `u32`.
unfoldable pub next_count : TokenManager → String → ℕ
next_count m id = elim (get id m.backoff_counters) [ none ↦ 1 | some n ↦ (n + 1) % 2 ^ 32 ]

unfoldable pub add_lock : String → List String → List String
add_lock id locks = if any (str_eq id) locks then locks else id ∷ locks

abbrev pub await_lock : TokenManager → String → Call
await_lock m id = record {
  manager = record m { refresh_locks = add_lock id m.refresh_locks };
  answer = none;
}

-- `refresh_token_safe` up to the lock.
unfoldable pub before_lock : TokenManager → Account → ℤ → Call
before_lock m account now =
    let m = cleanup_expired_failures m now in
    elim (get account.id m.failures) [
      | none ↦ await_lock m account.id
      | some failure_time ↦
          if ltb_ℤ (now -ℤ failure_time) token_refresh_backoff_ms
          then stop
              (record m {
                backoff_counters = set account.id (next_count m account.id) m.backoff_counters;
              })
              (err (token_refresh (in_backoff account.id (next_count m account.id))))
          else await_lock (record m { backoff_counters = remove account.id m.backoff_counters })
              account.id
    ]

-- `refresh_token_safe` after the lock, with what the provider answered.
unfoldable pub after_lock :
    TokenManager → Account → ℤ → Answer TokenRefreshResult ProviderError → Call
after_lock m account now (ok result) =
    stop
      (record m {
        failures = remove account.id m.failures;
        backoff_counters = remove account.id m.backoff_counters;
      })
      (ok (refreshed result))
after_lock m account now (err e) =
    stop (enforce_max_failures (record m { failures = set account.id now m.failures })) (err e)

unfoldable pub key_of : Account → Answer TokenResult ProviderError
key_of account = elim account.api_key [
  | some key ↦ ok (existing key)
  | none ↦
      if not (is_empty account.refresh_token)
      then ok (existing account.refresh_token)
      else err (token_refresh no_api_key)
]

-- The account's token, where it lasts beyond the safety window.
unfoldable pub valid_token : Account → ℤ → Option String
valid_token account now = elim account.access_token [
  | none ↦ none
  | some token ↦ elim account.expires_at [
    | none ↦ none
    | some expires_at ↦
        if ltb_ℤ token_safety_window_ms (expires_at -ℤ now) then some token else none
  ]
]

-- `get_valid_token` up to the lock.
unfoldable pub begin_call : TokenManager → Account → ℤ → Call
begin_call m account now =
    if is_api_key_provider account.provider
    then stop m (key_of account)
    else elim (valid_token account now) [
      | some token ↦ stop m (ok (existing token))
      | none ↦ before_lock m account now
    ]

-- A whole call; `others` is what other tasks do to the manager while this one waits for the lock.
unfoldable pub get_valid_token :
    (Account → String → Answer TokenRefreshResult ProviderError)
    → (TokenManager → TokenManager)
    → TokenManager
    → Account
    → String
    → ℤ
    → Call
get_valid_token refresh_token others m account client_id now =
    let c = begin_call m account now in
    elim c.answer [
      | some a ↦ c
      | none ↦ after_lock (others c.manager) account now (refresh_token account client_id)
    ]

unfoldable pub clear_account : TokenManager → String → TokenManager
clear_account m account_id = record {
  failures = remove account_id m.failures;
  backoff_counters = remove account_id m.backoff_counters;
  in_flight = filter (λ k. not (str_eq k account_id)) m.in_flight;
  refresh_locks = filter (λ k. not (str_eq k account_id)) m.refresh_locks;
}

unfoldable pub clear_all : TokenManager → TokenManager
clear_all m = record { failures = []; backoff_counters = []; in_flight = []; refresh_locks = [] }

-- The steps that tasks take on a shared manager, in any order.
pub data Step : Type 0 where
  begins : Account → ℤ → Step
  ends : Account → ℤ → Answer TokenRefreshResult ProviderError → Step
  clears : String → Step
  clears_all : Step

unfoldable pub step : TokenManager → Step → TokenManager
step m (begins account now) = (begin_call m account now).manager
step m (ends account now answer) = (after_lock m account now answer).manager
step m (clears account_id) = clear_account m account_id
step m clears_all = clear_all m

unfoldable pub run : TokenManager → List Step → TokenManager
run m [] = m
run m (s ∷ steps) = run (step m s) steps
