-- ===== src/Tokens/Result.antt =====
-- crates/proxy/src/token_manager.rs: the token that a call returns.
use better_ccflare_rs.Base.{String, ◌≡◌, false, ◌&&◌, Option, some, arith}
use better_ccflare_rs.Base.Int.{ℤ}
use better_ccflare_rs.Account.{Account}
use better_ccflare_rs.Health.{is_empty}
use better_ccflare_rs.Tokens.{
  TokenRefreshResult, Answer, ok, FailureRecord, TokenManager, Call, is_api_key_provider, fresh,
  try_db_recovery, back_off, before_lock, begin_call, after_lock, on_refreshed, on_refresh_error,
  get_valid_access_token, is_some,
}

-- A token that a step returns is the account's own from then on.
abbrev pub Own : Call → Type 0
Own c = (token : String) → c.result ≡ some (ok token) → c.account.access_token ≡ some token

fresh-own :
    (t : Option String) (e : Option ℤ) (now : ℤ) (token : String)
    → fresh t e now ≡ some token
    → t ≡ some token
unfolding fresh
fresh-own t e now token h = ground (arith, h)

try_db_recovery-Own :
    (load_account : String → Option Account) (m : TokenManager) (account : Account) (now : ℤ)
    → Own (try_db_recovery load_account m account now)
unfolding try_db_recovery
try_db_recovery-Own load_account m account now token h = ground (arith, h)

back_off-Own :
    (load_account : String → Option Account) (m : TokenManager) (account : Account)
    → (r : FailureRecord) (now : ℤ) → Own (back_off load_account m account r now)
unfolding back_off
back_off-Own load_account m account r now token h = grind (arith, try_db_recovery-Own, h)

before_lock-Own :
    (load_account : String → Option Account) (m : TokenManager) (account : Account) (now : ℤ)
    → Own (before_lock load_account m account now)
unfolding before_lock
before_lock-Own load_account m account now token h = grind (arith, back_off-Own, h)

begin_call-Own :
    (load_account : String → Option Account) (m : TokenManager) (account : Account) (now : ℤ)
    → is_api_key_provider account.provider ≡ false
    → (is_empty account.refresh_token && is_some account.api_key) ≡ false
    → Own (begin_call load_account m account now)
unfolding begin_call
begin_call-Own load_account m account now p q token h =
    grind (arith, before_lock-Own load_account m account now token, fresh-own, p, q, h)

after_lock-Own :
    (refresh_token : Account → String → Answer TokenRefreshResult String) (m : TokenManager)
    → (account : Account) (now : ℤ) → Own (after_lock refresh_token m account now)
unfolding after_lock on_refreshed on_refresh_error
after_lock-Own refresh_token m account now token h = grind (arith, fresh-own, h)

-- For an account of a provider without API keys that has a refresh token or no API key: a token that
-- a call returns is the account's access token once the call is over, whether it was still fresh,
-- came from the database or from the provider.
pub returned_token :
    (load_account : String → Option Account)
    → (refresh_token : Account → String → Answer TokenRefreshResult String)
    → (others : TokenManager → TokenManager) (m : TokenManager) (account : Account) (now : ℤ)
    → is_api_key_provider account.provider ≡ false
    → (is_empty account.refresh_token && is_some account.api_key) ≡ false
    → (token : String)
    → (get_valid_access_token load_account refresh_token others m account now).result
      ≡ some (ok token)
    → (get_valid_access_token load_account refresh_token others m account now).account.access_token
      ≡ some token
unfolding get_valid_access_token
returned_token load_account refresh_token others m account now p q token h =
    grind (arith, begin_call-Own load_account m account now p q token, after_lock-Own, h)
