-- ===== src/Examples.antt =====
-- Concrete accounts, requests and streams, on which the theorems apply.
pub mod Routing
pub mod Requests
pub mod Streams
mod Services
mod Polls
mod Routes
use better_ccflare_rs.Base.{
  ℕ, zero, suc, ◌+◌, ◌-◌, ◌*◌, ◌/◌, ◌≤◌, ◌<◌, min, max, String, ◌≡◌, refl, sym, ap, subst, ◌∙◌, ◌≢◌,
  ◌↔◌, ◌⊎◌, inl, inr, Bool, true, false, not, ◌&&◌, ◌||◌, Option, none, some, List, [], ◌∷◌, ◌++◌,
  map, arith, str_eq, str_eq_iff, ltb, leb, ◌==◌, if◌then◌else◌, Bool-cases, length, take,
  get_elem?, filter, any, In, All, Pairs, All-In, All-of_In, Yields, Ensures, length-append,
  length-take,
}
use better_ccflare_rs.Base.Int.{ℤ, pos}
use better_ccflare_rs.Base.Float.{F64, finite}
use better_ccflare_rs.Account.{Account, RoutingUsageInfo, WindowUsage, WindowKind, UsageMap}

-- An account as it is after it was added, at a time of November 2023.
abbrev pub account : String → String → ℕ → Account
account id provider priority = record {
  id = id;
  name = id;
  provider = provider;
  api_key = none;
  refresh_token = "refresh";
  access_token = some "access";
  expires_at = some (pos 1_700_000_000_000);
  request_count = pos 0;
  total_requests = pos 0;
  last_used = none;
  created_at = pos 1_690_000_000_000;
  rate_limited_until = none;
  session_start = none;
  session_request_count = pos 0;
  paused = false;
  rate_limit_reset = none;
  rate_limit_status = none;
  rate_limit_remaining = none;
  priority = pos priority;
  auto_fallback_enabled = false;
  auto_refresh_enabled = false;
  custom_endpoint = none;
  model_mappings = none;
  reserve_5h = pos 0;
  reserve_weekly = pos 0;
  reserve_hard = false;
  subscription_tier = none;
  email = none;
  refresh_token_updated_at = none;
  is_shared = false;
  overage_protection = false;
}

abbrev pub work : Account
work = account "work" "anthropic" 1

abbrev pub home : Account
home = account "home" "anthropic" 0

abbrev pub metered : Account
metered = account "metered" "zai" 0

abbrev pub no_usage : UsageMap
no_usage id = none

abbrev pub now : ℤ
now = pos 1_700_000_000_000

abbrev pub later : ℤ
later = pos 1_700_000_010_000
