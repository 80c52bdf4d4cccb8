-- ===== src/Examples/Requests.antt =====
-- Failover, tokens, rate limits and paths, on concrete requests.
use better_ccflare_rs.Base.{
  inr, List, All, ℕ, ◌+◌, ◌≤◌, String, ◌≡◌, refl, ◌↔◌, ◌⊎◌, true, false, Option, none, some, [],
  ◌∷◌, arith, str_eq, ltb, if◌then◌else◌, length, Pairs,
}
use better_ccflare_rs.Base.Int.{◌+ℤ◌, pos, ◌-ℤ◌, ltb_ℤ}
use better_ccflare_rs.Account.{Account}
use better_ccflare_rs.Failover.{
  is_limited, try_loop, is_limited, try_loop, AccountResult, success, rate_limited, auth_failed,
  try_accounts_in_order,
}
use better_ccflare_rs.Failover.Order.{Apart}
use better_ccflare_rs.Failover.Reasons.{Called}
use better_ccflare_rs.Failover.Outcome.{gives_up, PassedOver, tried-Apart}
use better_ccflare_rs.Health.{
  check_refresh_token_health, check_all_accounts_health, token_issued_at, refresh_token_max_age_ms,
  token_refresh_backoff_ms,
}
use better_ccflare_rs.Health
use better_ccflare_rs.Health.Ladder.{severity, health_mono}
use better_ccflare_rs.Report.{check_token_health, generate_report}
use better_ccflare_rs.Report
use better_ccflare_rs.Report.Agreement.{InReach, left_of, proxied, same_verdict}
use better_ccflare_rs.Tokens.{
  on_refresh_error, after_lock, cleanup_expired_failures, before_lock, fresh, on_refresh_error,
  after_lock, cleanup_expired_failures, before_lock, fresh, on_refreshed, after_lock,
  cleanup_expired_failures, before_lock, fresh, cleanup_expired_failures, before_lock, fresh,
  TokenManager, TokenRefreshResult, TokenError, Answer, ok, err, begin_call, get_valid_access_token,
  is_api_key_provider, refresh_failed,
}
use better_ccflare_rs.Tokens.Backoff.{waiter_refreshes}
use better_ccflare_rs.Tokens.Minute.{Later, NotAsked, calls_from, failed_then_backs_off}
use better_ccflare_rs.Tokens.Result.{returned_token}
use better_ccflare_rs.Limiter.{new_tracker, check_and_record}
use better_ccflare_rs.Limiter.Window.{recent, run, run_bounded, check_and_record_lem}
use better_ccflare_rs.RequestPath.{is_safe_request_path, is_bad, max_rounds}
use better_ccflare_rs.RequestPath.Rounds.{safe_iff, decoded}
use better_ccflare_rs.Levenshtein.{distance}
use better_ccflare_rs.Levenshtein.Distance.{distance-edit, edit, onto}
use better_ccflare_rs.Base.Text.{codes}
use better_ccflare_rs.Examples.{work, home, metered, now, later}
use better_ccflare_rs.Provider.{
  uses_api_key, from_str_loose, uses_api_key, from_str_loose, uses_api_key, from_str_loose,
  uses_api_key, from_str_loose, uses_api_key, from_str_loose,
}

-- Anthropic answers 429, the other provider answers.
abbrev closure : Account → ℕ → AccountResult String ℕ
closure a n = if str_eq a.provider "anthropic" then rate_limited 60 else success "response"

-- Every account is turned down.
abbrev refusing : Account → ℕ → AccountResult String ℕ
refusing a n = if str_eq a.provider "anthropic" then rate_limited 60 else auth_failed 401

refused : (try_accounts_in_order refusing (work ∷ home ∷ metered ∷ [])).answer ≡ none
unfolding try_accounts_in_order try_loop is_limited
refused = refl

gives_up_example :
    Called refusing (try_accounts_in_order refusing (work ∷ home ∷ metered ∷ [])) 1 home
    ⊎ PassedOver refusing (work ∷ home ∷ metered ∷ []) 1 home
gives_up_example = gives_up refusing (work ∷ home ∷ metered ∷ []) refused 1 home (omega arith) refl

tried-Apart_example :
    Pairs (Apart closure) (try_accounts_in_order closure (work ∷ home ∷ metered ∷ [])).tried
tried-Apart_example = tried-Apart closure (work ∷ home ∷ metered ∷ [])

answered :
    (try_accounts_in_order closure (work ∷ home ∷ metered ∷ [])).answer
    ≡ some ("response", "metered")
unfolding try_accounts_in_order try_loop is_limited
answered = refl

abbrev manager : TokenManager
manager = record { failures = λ id. none; client_id = "client"; last_cleanup = pos 0 }

abbrev no_account : String → Option Account
no_account id = none

abbrev renew : Account → String → Answer TokenRefreshResult String
renew a client = ok (record {
  access_token = "new";
  expires_at = pos 1_700_003_600_000;
  refresh_token = "";
  subscription_tier = none;
  email = none;
})

abbrev refuse : Account → String → Answer TokenRefreshResult String
refuse a client = err "invalid_grant"

abbrev alone : TokenManager → TokenManager
alone m = m

waits : (begin_call no_account manager work now).result ≡ none
unfolding begin_call is_api_key_provider from_str_loose uses_api_key fresh ◌-ℤ◌ before_lock
    cleanup_expired_failures
waits = refl

waiter_refreshes_example :
    (get_valid_access_token no_account renew alone manager work now).refreshed ≡ true
waiter_refreshes_example = waiter_refreshes no_account renew alone manager work now waits

renewed : (get_valid_access_token no_account renew alone manager work now).result ≡ some (ok "new")
unfolding get_valid_access_token begin_call is_api_key_provider from_str_loose uses_api_key fresh
    ◌-ℤ◌ before_lock cleanup_expired_failures after_lock on_refreshed
renewed = refl

work_signs_in : is_api_key_provider work.provider ≡ false
unfolding is_api_key_provider from_str_loose uses_api_key
work_signs_in = refl

returned_token_example :
    (get_valid_access_token no_account renew alone manager work now).account.access_token
    ≡ some "new"
returned_token_example =
    returned_token no_account renew alone manager work now work_signs_in refl "new" renewed

abbrev refusal : TokenError
refusal = refresh_failed "work" (Health.get_oauth_error_message work "invalid_grant" now)

asked : (get_valid_access_token no_account refuse alone manager work now).refreshed ≡ true
unfolding get_valid_access_token begin_call is_api_key_provider from_str_loose uses_api_key fresh
    ◌-ℤ◌ before_lock cleanup_expired_failures after_lock on_refresh_error
asked = refl

refusal_fact :
    (get_valid_access_token no_account refuse alone manager work now).result ≡ some (err refusal)
unfolding get_valid_access_token begin_call is_api_key_provider from_str_loose uses_api_key fresh
    ◌-ℤ◌ before_lock cleanup_expired_failures after_lock on_refresh_error
refusal_fact = refl

soon : ltb_ℤ (later -ℤ now) token_refresh_backoff_ms ≡ true
unfolding ◌-ℤ◌
soon = refl

abbrev retries : List Later
retries =
    record { load_account = no_account; refresh_token = renew; copy = work; at = later }
    ∷ record { load_account = no_account; refresh_token = renew; copy = home; at = later }
    ∷ record { load_account = no_account; refresh_token = renew; copy = work; at = later }
    ∷ []

failed_then_backs_off_example :
    All
      (NotAsked "work")
      (calls_from (get_valid_access_token no_account refuse alone manager work now).manager retries)
failed_then_backs_off_example =
    failed_then_backs_off no_account refuse alone manager work now refusal asked refusal_fact
      retries ((soon, inr refl), ((soon, inr refl), ((soon, inr refl), tt)))

health_mono_example :
    severity (check_refresh_token_health work now).status
    ≤ severity (check_refresh_token_health work later).status
health_mono_example = health_mono work now later (omega arith)

listed : Report.is_api_key_provider work.provider ≡ false
unfolding Report.is_api_key_provider
listed = refl

work_reach : InReach (left_of work now)
unfolding ◌-ℤ◌ ◌+ℤ◌ token_issued_at
work_reach = omega arith

same_verdict_example :
    (proxied (check_token_health work now).status ≡ (check_refresh_token_health work now).status)
    × ((check_token_health work now).days_until_expiration
        ≡ (check_refresh_token_health work now).days_until_expiration)
    × ((check_token_health work now).requires_reauth
        ≡ (check_refresh_token_health work now).requires_reauth)
same_verdict_example = same_verdict work now listed work_reach

nothing : recent 0 [] ≤ 2
unfolding recent
nothing = omega arith

run_bounded_example :
    recent
      (run new_tracker "key" 2 0 (5 ∷ 5 ∷ 5 ∷ [])).1
      ((run new_tracker "key" 2 0 (5 ∷ 5 ∷ 5 ∷ [])).0 "key")
    ≤ 2
run_bounded_example = run_bounded new_tracker "key" 2 0 (5 ∷ 5 ∷ 5 ∷ []) (λ k. tt) nothing

check_and_record_lem_example :
    let (after, allowed) = check_and_record new_tracker "key" 2 5 in
    (allowed ≡ ltb (recent 5 []) 2)
    × (length (after "key") ≡ recent 5 [] + (if allowed then 1 else 0))
    × ((k : String) → str_eq k "key" ≡ false → after k ≡ [])
check_and_record_lem_example = check_and_record_lem new_tracker "key" 2 0 5 tt

safe_iff_example :
    (is_safe_request_path (codes "/v1/%252e%252e/x") ≡ true)
    ↔ ((k : ℕ) → k ≤ max_rounds → is_bad (decoded k (codes "/v1/%252e%252e/x")) ≡ false)
safe_iff_example = safe_iff (codes "/v1/%252e%252e/x")

distance-edit_example :
    distance (codes "consol") (codes "console")
    ≡ edit (onto (codes "consol") []) (onto (codes "console") [])
distance-edit_example = distance-edit (codes "consol") (codes "console")
