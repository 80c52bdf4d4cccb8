-- ===== src/Health.antt =====
-- crates/proxy/src/token_health.rs: the age of refresh tokens against a life of 90 days. A message is
-- its text's alternative with the values printed in it.
pub mod Ladder
pub mod Days
use better_ccflare_rs.Base.{
  ◌/◌, ◌-◌, ◌+◌, ◌||◌, some, filter, true, str_eq, none, map, length, if◌then◌else◌, Option, ◌*◌,
  false, String, List, Bool, ℕ,
}
use better_ccflare_rs.Base.Int.{ℤ, pos, negsuc, ◌+ℤ◌, ◌-ℤ◌, leb_ℤ, ltb_ℤ, eq_ℤ, abs_ℤ, div_ℤ}
use better_ccflare_rs.Base.Float.{F64}
use better_ccflare_rs.Base.Double.{lit, ◌*f◌, ◌/f◌, from_int, ceil_f, to_i64}
use better_ccflare_rs.Account.{Account}

abbrev pub day_ms : ℕ
day_ms = 24 * 60 * 60 * 1000

abbrev pub refresh_token_max_age_ms : ℤ
refresh_token_max_age_ms = pos (90 * 24 * 60 * 60 * 1000)

abbrev pub token_safety_window_ms : ℤ
token_safety_window_ms = pos (30 * 60 * 1000)

abbrev pub token_refresh_backoff_ms : ℤ
token_refresh_backoff_ms = pos 60_000

abbrev pub failure_ttl_ms : ℤ
failure_ttl_ms = pos (5 * 60 * 1000)

abbrev pub max_backoff_retries : ℕ
max_backoff_retries = 10

pub data HealthStatus : Type 0 where
  healthy warning critical expired no_refresh_token : HealthStatus

pub data Message : Type 0 where
  api_key_account missing_refresh_token unknown_age : Message
  expired_ago expires_immediately expires_soon days_old is_healthy : ℤ → Message

pub record TokenHealthStatus : Type 0 where
  pub account_id : String
  pub account_name : String
  pub provider : String
  pub has_refresh_token : Bool
  pub refresh_token_age_days : Option ℤ
  pub status : HealthStatus
  pub message : Message
  pub days_until_expiration : Option ℤ
  pub requires_reauth : Bool

pub record HealthSummary : Type 0 where
  pub total : ℕ
  pub healthy_count : ℕ
  pub warning_count : ℕ
  pub critical_count : ℕ
  pub expired_count : ℕ
  pub no_refresh_token_count : ℕ
  pub requires_reauth_count : ℕ

pub record TokenHealthReport : Type 0 where
  pub accounts : List TokenHealthStatus
  pub summary : HealthSummary
  pub timestamp : ℤ

abbrev pub is_empty : String → Bool
is_empty s = str_eq s ""

-- `24.0 * 60.0 * 60.0 * 1000.0`.
unfoldable pub day_f : F64
day_f = lit 24 1 *f lit 60 1 *f lit 60 1 *f lit 1000 1

-- `(ms as f64 / day_f).ceil() as i64`.
unfoldable pub ceil_days : ℤ → ℤ
ceil_days ms = to_i64 (ceil_f (from_int ms /f day_f))

-- `refresh_token_updated_at.filter(|&t| t > 0).unwrap_or(created_at)`.
unfoldable pub token_issued_at : Account → ℤ
token_issued_at account = elim account.refresh_token_updated_at [
  | none ↦ account.created_at
  | some t ↦ if ltb_ℤ (pos 0) t then t else account.created_at
]

unfoldable pub days_left : Account → ℤ → ℤ
days_left account now = ceil_days (token_issued_at account +ℤ refresh_token_max_age_ms -ℤ now)

unfoldable pub age_days : Account → ℤ → ℤ
age_days account now = div_ℤ (now -ℤ token_issued_at account) day_ms

-- The ladder of tests on the days that are left: status, message and `requires_reauth`.
unfoldable pub ladder : ℤ → ℤ → HealthStatus × Message × Bool
ladder days age =
    if leb_ℤ days (pos 0)
    then (expired, expired_ago (pos (abs_ℤ days)), true)
    else if leb_ℤ days (pos 3)
    then (critical, expires_immediately days, true)
    else if leb_ℤ days (pos 7)
    then (warning, expires_soon days, false)
    else if ltb_ℤ (pos 60) age
    then (warning, days_old age, false)
    else (healthy, is_healthy days, false)

unfoldable pub check_refresh_token_health : Account → ℤ → TokenHealthStatus
check_refresh_token_health account now =
    let base : TokenHealthStatus = record {
      account_id = account.id;
      account_name = account.name;
      provider = account.provider;
      has_refresh_token = false;
      refresh_token_age_days = none;
      status = no_refresh_token;
      message = api_key_account;
      days_until_expiration = none;
      requires_reauth = false;
    } in
    if is_empty account.refresh_token
    then record base {
      message = elim account.api_key [ some key ↦ api_key_account | none ↦ missing_refresh_token ];
      requires_reauth = elim account.api_key [ some key ↦ false | none ↦ true ];
    }
    else if eq_ℤ (token_issued_at account) (pos 0)
    then record base {
      has_refresh_token = true;
      status = warning;
      message = unknown_age;
      requires_reauth = true;
    }
    else let days = days_left account now in
      let age = age_days account now in
      let (status, message, requires_reauth) = ladder days age in
      record base {
        has_refresh_token = true;
        refresh_token_age_days = some age;
        status = status;
        message = message;
        days_until_expiration = some days;
        requires_reauth = requires_reauth;
      }

unfoldable pub is_refresh_token_likely_expired : Account → ℤ → Bool
is_refresh_token_likely_expired account now =
    if is_empty account.refresh_token || eq_ℤ account.created_at (pos 0)
    then true
    else ltb_ℤ refresh_token_max_age_ms (now -ℤ account.created_at)

-- `==` on the derived `PartialEq`.
abbrev pub same_status : HealthStatus → HealthStatus → Bool
same_status healthy healthy = true
same_status warning warning = true
same_status critical critical = true
same_status expired expired = true
same_status no_refresh_token no_refresh_token = true
same_status _ _ = false

abbrev pub count_status : HealthStatus → List TokenHealthStatus → ℕ
count_status s statuses = length (filter (λ t. same_status t.status s) statuses)

unfoldable pub check_all_accounts_health : List Account → ℤ → TokenHealthReport
check_all_accounts_health accounts now =
    let statuses = map (λ a. check_refresh_token_health a now) accounts in
    record {
      accounts = statuses;
      summary = record {
        total = length statuses;
        healthy_count = count_status healthy statuses;
        warning_count = count_status warning statuses;
        critical_count = count_status critical statuses;
        expired_count = count_status expired statuses;
        no_refresh_token_count = count_status no_refresh_token statuses;
        requires_reauth_count = length (filter (λ t. t.requires_reauth) statuses);
      };
      timestamp = now;
    }

-- The text for the user when a refresh fails.
pub data OauthError : Type 0 where
  tokens_have_expired missing_token : String → OauthError
  nearing_expiration refresh_failed_with : String → String → OauthError

unfoldable pub get_oauth_error_message : Account → String → ℤ → OauthError
get_oauth_error_message account original_error now =
    let health = check_refresh_token_health account now in
    elim health.status [
      | expired ↦ tokens_have_expired account.name
      | critical ↦ tokens_have_expired account.name
      | no_refresh_token ↦
          if health.requires_reauth
          then missing_token account.name
          else refresh_failed_with account.name original_error
      | warning ↦ nearing_expiration account.name original_error
      | healthy ↦ refresh_failed_with account.name original_error
    ]
