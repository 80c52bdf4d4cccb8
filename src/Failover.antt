-- ===== src/Failover.antt =====
-- crates/proxy/src/handler.rs: the failover of one request over the accounts in the router's order.
pub mod Order
pub mod Reasons
pub mod Outcome
use better_ccflare_rs.Base.{
  ◌++◌, ◌&&◌, length, str_eq, some, min, leb, ◌==◌, take, suc, any, none, if◌then◌else◌, [], Option,
  Bool, ◌∷◌, String, List, ℕ,
}
use better_ccflare_rs.Account.{Account}

-- `Response` and `RateLimitInfo` come from crates that the loop only passes on.
pub data AccountResult (Response RateLimitInfo : Type 0) : Type 0 where
  success : Response → AccountResult Response RateLimitInfo
  rate_limited : RateLimitInfo → AccountResult Response RateLimitInfo
  auth_failed : ℕ → AccountResult Response RateLimitInfo
  failed : String → AccountResult Response RateLimitInfo

abbrev pub max_failover_attempts : ℕ
max_failover_attempts = 5

-- What the loop does: the accounts that it calls, each with the number of the attempt, and what it
-- returns.
pub record Failover (Response : Type 0) : Type 0 where
  pub tried : List (Account × ℕ)
  pub answer : Option (Response × String)

-- `rate_limited_providers.contains(&account.provider)`.
unfoldable pub is_limited : List String → Account → Bool
is_limited providers account = any (λ p. str_eq p account.provider) providers

abbrev pub record_call : {Response : Type 0} → Account → ℕ → Failover Response → Failover Response
record_call account attempt f = record f { tried = (account, attempt) ∷ f.tried }

module _ {Response RateLimitInfo : Type 0} where
  -- The `match` on what the call of one account gave: return, or `go` on.
  abbrev pub on_result :
      (List String → Failover Response)
      → List String
      → Account
      → AccountResult Response RateLimitInfo
      → Failover Response
  on_result go limited account (success response) = record {
    tried = [];
    answer = some (response, account.id);
  }
  on_result go limited account (rate_limited info) = go (limited ++ (account.provider ∷ []))
  on_result go limited account (auth_failed status) = go limited
  on_result go limited account (failed message) = go limited

  -- The loop. `try_account` is the closure of the caller; it gets the number of the attempt.
  unfoldable pub try_loop :
      (Account → ℕ → AccountResult Response RateLimitInfo)
      → List String
      → ℕ
      → List Account
      → Failover Response
  try_loop try_account limited attempt [] = record { tried = []; answer = none }
  try_loop try_account limited attempt (account ∷ accounts) =
      let go = λ (providers : List String). try_loop try_account providers (suc attempt) accounts in
      if is_limited limited account
      then go limited
      else record_call account attempt (on_result go limited account (try_account account attempt))

  unfoldable pub try_accounts_in_order :
      (Account → ℕ → AccountResult Response RateLimitInfo) → List Account → Failover Response
  try_accounts_in_order try_account accounts =
      try_loop try_account [] 0 (take (min (length accounts) max_failover_attempts) accounts)

-- The error type of the Anthropic API for a status.
unfoldable pub anthropic_error_type : ℕ → String
anthropic_error_type status =
    if status == 400
    then "invalid_request_error"
    else if status == 401
    then "authentication_error"
    else if status == 403
    then "permission_error"
    else if status == 404
    then "not_found_error"
    else if status == 413
    then "request_too_large"
    else if status == 429
    then "rate_limit_error"
    else if status == 529
    then "overloaded_error"
    else if leb 500 status && leb status 599
    then "api_error"
    else "invalid_request_error"
