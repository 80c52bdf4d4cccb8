-- ===== src/Report.antt =====
-- crates/providers/src/token_health.rs: the report of the providers' crate on the refresh tokens, with
-- `is_api_key_provider` of crates/providers/src/token_manager.rs. A message is its text's
-- alternative with the values printed in it.
pub mod Agreement
use better_ccflare_rs.Base.{
  ℕ, zero, suc, ◌+◌, ◌-◌, ◌*◌, ◌/◌, ◌≤◌, ◌<◌, min, max, String, ◌≡◌, refl, sym, ap, subst, ◌∙◌, ◌≢◌,
  ◌↔◌, ◌⊎◌, inl, inr, Bool, true, false, not, ◌&&◌, ◌||◌, Option, none, some, List, [], ◌∷◌, ◌++◌,
  map, arith, str_eq, str_eq_iff, ltb, leb, ◌==◌, if◌then◌else◌, Bool-cases, length, take,
  get_elem?, filter, any, In, All, Pairs, All-In, All-of_In, length-append, length-take,
}
use better_ccflare_rs.Base.Int.{ℤ, pos, negsuc, ◌+ℤ◌, ◌-ℤ◌, leb_ℤ, ltb_ℤ, eq_ℤ, abs_ℤ, div_ℤ}
use better_ccflare_rs.Account.{Account}

abbrev pub refresh_token_max_age_ms : ℤ
refresh_token_max_age_ms = pos (90 * 24 * 60 * 60 * 1000)

abbrev pub warning_threshold_days : ℤ
warning_threshold_days = pos 7

abbrev pub critical_threshold_days : ℤ
critical_threshold_days = pos 3

abbrev pub age_warning_days : ℤ
age_warning_days = pos 60

abbrev pub ms_per_day : ℕ
ms_per_day = 24 * 60 * 60 * 1000

abbrev pub api_key_providers : List String
api_key_providers =
    "openai-compatible" ∷ "zai" ∷ "claude-console-api" ∷ "anthropic-compatible" ∷ "minimax"
    ∷ "nanogpt" ∷ []

unfoldable pub is_api_key_provider : String → Bool
is_api_key_provider provider = any (λ p. str_eq p provider) api_key_providers

pub data HealthStatus : Type 0 where
  healthy warning critical expired no_refresh_token : HealthStatus

pub data Message : Type 0 where
  api_key_account api_key_provider unknown_age : Message
  missing_refresh_token : String → Message
  expired_ago expires_immediately expires_soon days_old is_healthy : ℤ → Message

pub record TokenHealthStatus : Type 0 where
  pub account_id : String
  pub account_name : String
  pub provider : String
  pub has_refresh_token : Bool
  pub refresh_token_age_days : Option ℤ
  pub status : HealthStatus
  pub message : Message
  pub days_until_expiration : Option ℤ
  pub requires_reauth : Bool

pub record HealthSummary : Type 0 where
  pub total : ℕ
  pub healthy_count : ℕ
  pub warning_count : ℕ
  pub critical_count : ℕ
  pub expired_count : ℕ
  pub no_refresh_token_count : ℕ
  pub requires_reauth_count : ℕ

pub record TokenHealthReport : Type 0 where
  pub accounts : List TokenHealthStatus
  pub summary : HealthSummary
  pub timestamp : ℤ

abbrev pub is_empty : String → Bool
is_empty s = str_eq s ""

abbrev pub is_some : Option String → Bool
is_some none = false
is_some (some s) = true

-- The quotient rounded up, for a divisor that is not negative.
unfoldable pub ceil_div : ℤ → ℕ → ℤ
ceil_div a b =
    if b == 0
    then pos 0
    else elim a [ pos n ↦ pos ((n + b - 1) / b) | negsuc n ↦ div_ℤ (negsuc n) b ]

unfoldable pub issued_at : Account → ℤ
issued_at account = elim account.refresh_token_updated_at [
  | none ↦ account.created_at
  | some t ↦ if ltb_ℤ (pos 0) t then t else account.created_at
]

-- The tests on the days that are left: status, message and `requires_reauth`.
unfoldable pub verdict : ℤ → ℤ → HealthStatus × Message × Bool
verdict days age =
    if leb_ℤ days (pos 0)
    then (expired, expired_ago (pos (abs_ℤ days)), true)
    else if leb_ℤ days critical_threshold_days
    then (critical, expires_immediately days, true)
    else if leb_ℤ days warning_threshold_days || ltb_ℤ age_warning_days age
    then (warning, (if ltb_ℤ age_warning_days age then days_old age else expires_soon days), false)
    else (healthy, is_healthy days, false)

unfoldable pub check_token_health : Account → ℤ → TokenHealthStatus
check_token_health account now =
    let base : TokenHealthStatus = record {
      account_id = account.id;
      account_name = account.name;
      provider = account.provider;
      has_refresh_token = true;
      refresh_token_age_days = none;
      status = healthy;
      message = api_key_provider;
      days_until_expiration = none;
      requires_reauth = false;
    } in
    let age = div_ℤ (now -ℤ issued_at account) ms_per_day in
    let days = ceil_div (issued_at account +ℤ refresh_token_max_age_ms -ℤ now) ms_per_day in
    if is_empty account.refresh_token
    then record base {
      has_refresh_token = false;
      status = no_refresh_token;
      message =
          if is_some account.api_key then api_key_account else missing_refresh_token account.name;
      requires_reauth = not (is_some account.api_key);
    }
    else if is_api_key_provider account.provider
    then base
    else if eq_ℤ (issued_at account) (pos 0)
    then record base { status = warning; message = unknown_age; requires_reauth = true }
    else record base {
      refresh_token_age_days = some age;
      status = (verdict days age).0;
      message = (verdict days age).1;
      days_until_expiration = some days;
      requires_reauth = (verdict days age).2;
    }

-- One round of the loop over the statuses.
unfoldable pub count_one : HealthSummary → TokenHealthStatus → HealthSummary
count_one s t =
    let by_status : HealthSummary = elim t.status [
      | healthy ↦ record s { healthy_count = s.healthy_count + 1 }
      | warning ↦ record s { warning_count = s.warning_count + 1 }
      | critical ↦ record s { critical_count = s.critical_count + 1 }
      | expired ↦ record s { expired_count = s.expired_count + 1 }
      | no_refresh_token ↦ record s { no_refresh_token_count = s.no_refresh_token_count + 1 }
    ] in
    if t.requires_reauth
    then record by_status { requires_reauth_count = by_status.requires_reauth_count + 1 }
    else by_status

unfoldable pub count_all : HealthSummary → List TokenHealthStatus → HealthSummary
count_all s [] = s
count_all s (t ∷ ts) = count_all (count_one s t) ts

abbrev pub empty_summary : ℕ → HealthSummary
empty_summary n = record {
  total = n;
  healthy_count = 0;
  warning_count = 0;
  critical_count = 0;
  expired_count = 0;
  no_refresh_token_count = 0;
  requires_reauth_count = 0;
}

unfoldable pub generate_report : List Account → ℤ → TokenHealthReport
generate_report accounts now =
    let statuses = map (λ a. check_token_health a now) accounts in
    record {
      accounts = statuses;
      summary = count_all (empty_summary (length statuses)) statuses;
      timestamp = now;
    }
