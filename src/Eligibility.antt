-- ===== src/Eligibility.antt =====
-- crates/core/src/account_eligibility.rs: may an account be routed to, and if not, why.
pub mod Status
pub mod Overage
pub mod Reserve
pub mod Blocking
use better_ccflare_rs.Base.{
  ℕ, ◌^◌, Bool, true, false, not, ◌&&◌, ◌||◌, String, Option, none, some, List, [], ◌∷◌, ◌++◌,
  str_eq, if◌then◌else◌, ltb, any, filter, map,
}
use better_ccflare_rs.Base.Int.{ℤ, pos, abs_ℤ, saturate_i64, ◌*ℤ◌, ◌-ℤ◌, leb_ℤ, ltb_ℤ, eq_ℤ, max_ℤ}
use better_ccflare_rs.Base.Float.{F64, is_finite, ge_int}
use better_ccflare_rs.Base.Text.{codes, to_ascii_lowercase, starts_with, contains, same, trim}
use better_ccflare_rs.Account.{
  Account, WindowKind, five_hour, weekly, WindowUsage, RoutingUsageInfo, UsageMap,
}

pub data UpstreamStatus : Type 0 where
  missing ok allowed_warning auth_failed reauth_required unauthorized forbidden : UpstreamStatus
  refresh_token_revoked : UpstreamStatus
  other : String → UpstreamStatus

-- The tests of `from_raw` on the trimmed, lower-cased status.
unfoldable pub classify : String → List ℕ → UpstreamStatus
unfolding same contains starts_with
classify raw lowered =
    if same lowered []
    then missing
    else if same lowered (codes "ok") || same lowered (codes "allowed")
    then ok
    else if contains lowered (codes "allowed_warning")
    then allowed_warning
    else if starts_with lowered (codes "auth failed")
        || starts_with lowered (codes "authentication failed")
    then auth_failed
    else if contains lowered (codes "re-authentication") || contains lowered (codes "reauth")
    then reauth_required
    else if contains lowered (codes "unauthorized")
    then unauthorized
    else if contains lowered (codes "forbidden")
    then forbidden
    else if contains lowered (codes "refresh token revoked")
    then refresh_token_revoked
    else UpstreamStatus.other raw

unfoldable pub from_raw : Option String → UpstreamStatus
unfolding classify trim
from_raw none = missing
from_raw (some raw) = classify raw (to_ascii_lowercase (trim (codes raw)))

unfoldable pub is_auth_failure : UpstreamStatus → Bool
is_auth_failure auth_failed = true
is_auth_failure reauth_required = true
is_auth_failure unauthorized = true
is_auth_failure forbidden = true
is_auth_failure refresh_token_revoked = true
is_auth_failure _ = false

-- Epoch seconds become milliseconds: below 10 ^ 12 a time stamp is taken for seconds.
unfoldable pub normalize_epoch_millis : ℤ → ℤ
unfolding ◌*ℤ◌
normalize_epoch_millis ts =
    if ltb (abs_ℤ ts) 1_000_000_000_000 then saturate_i64 (ts *ℤ pos 1000) else ts

unfoldable pub provider_supports_usage : String → Bool
provider_supports_usage p =
    str_eq p "claude-oauth" || str_eq p "anthropic" || str_eq p "nanogpt" || str_eq p "zai"

unfoldable pub is_anthropic_family : String → Bool
is_anthropic_family p = str_eq p "anthropic" || str_eq p "claude-oauth"

pub data AccountBlockReason : Type 0 where
  paused auth_failed active_rate_limit overage_protection hard_reserve : AccountBlockReason

pub record AccountEligibility : Type 0 where
  pub routable : Bool
  pub blocked_by : List AccountBlockReason
  pub upstream_status : UpstreamStatus
  pub overage_blocked : Bool
  pub hard_reserve_blocked : Bool
  pub soft_reserve_hit : Bool
  pub usage_missing : Bool
  pub usage_missing_overage_fail_open : Bool
  pub usage_missing_hard_reserve_fail_closed : Bool
  pub active_rate_limit : Bool

-- `!u.is_finite() || u >= n as f64`.
unfoldable pub reaches : F64 → ℤ → Bool
reaches u n = not (is_finite u) || ge_int u n

abbrev pub is_five_hour : WindowKind → Bool
is_five_hour five_hour = true
is_five_hour _ = false

abbrev pub is_other : WindowKind → Bool
is_other WindowKind.other = true
is_other _ = false

abbrev pub is_empty {ℓ} : {A : Type ℓ} → List A → Bool
is_empty [] = true
is_empty (x ∷ xs) = false

abbrev pub is_some {ℓ} : {A : Type ℓ} → Option A → Bool
is_some (some a) = true
is_some none = false

-- Some five-hour window is at 100 %.
unfoldable pub five_hour_exhausted : List WindowUsage → Bool
five_hour_exhausted ws =
    any (λ w. reaches w.utilization_pct (pos 100)) (filter (λ w. is_five_hour w.kind) ws)

unfoldable pub five_hour_known : List WindowUsage → Bool
five_hour_known ws = not (is_empty (filter (λ w. is_five_hour w.kind) ws))

-- One window's part of the closing `any` of `is_at_overage`.
unfoldable pub blocks_overage : Bool → Bool → Bool → WindowUsage → Bool
blocks_overage family known exhausted w =
    if not (reaches w.utilization_pct (pos 100))
    then false
    else if family && is_other w.kind
    then (if not known then true else exhausted)
    else true

unfoldable pub is_at_overage : Account → RoutingUsageInfo → Bool
unfolding blocks_overage
is_at_overage account info =
    let family = is_anthropic_family account.provider in
    if is_empty info.windows
    then (if family then true else reaches info.utilization_pct (pos 100))
    else any
        (blocks_overage family (five_hour_known info.windows) (five_hour_exhausted info.windows))
        info.windows

-- The threshold that the loop of `is_at_reserve` takes for a window; `none` is its `continue`.
unfoldable pub window_threshold : Account → Bool → WindowKind → Option ℤ
window_threshold account at_100 five_hour = some account.reserve_5h
window_threshold account at_100 weekly = some account.reserve_weekly
window_threshold account at_100 WindowKind.other =
    if is_anthropic_family account.provider && not at_100 then none else some account.reserve_5h

-- `threshold > 0 && (!u.is_finite() || u >= trigger_at)`.
unfoldable pub trips : Option ℤ → F64 → Bool
trips none u = false
trips (some t) u = ltb_ℤ (pos 0) t && reaches u (max_ℤ (saturate_i64 (pos 100 -ℤ t)) (pos 0))

unfoldable pub reserve_loop : Account → Bool → List WindowUsage → Bool
unfolding trips window_threshold
reserve_loop account at_100 [] = false
reserve_loop account at_100 (w ∷ ws) =
    let rest = reserve_loop account at_100 ws in
    if trips (window_threshold account at_100 w.kind) w.utilization_pct then true else rest

unfoldable pub reserve_of_info : Account → RoutingUsageInfo → Bool
unfolding reserve_loop
reserve_of_info account info =
    if is_empty info.windows
    then (let threshold = max_ℤ account.reserve_5h account.reserve_weekly in
        ltb_ℤ (pos 0) threshold && reaches info.utilization_pct (pos 100 -ℤ threshold))
    else reserve_loop account (five_hour_exhausted info.windows) info.windows

unfoldable pub is_at_reserve : Account → UsageMap → Bool
is_at_reserve account usage =
    if eq_ℤ account.reserve_5h (pos 0) && eq_ℤ account.reserve_weekly (pos 0)
    then false
    else elim (usage account.id) [ none ↦ false | some info ↦ reserve_of_info account info ]

abbrev pub push_if : Bool → AccountBlockReason → List AccountBlockReason → List AccountBlockReason
push_if b r rs = if b then rs ++ (r ∷ []) else rs

-- `until` has not passed yet.
unfoldable pub is_rate_limited : Account → ℤ → Bool
is_rate_limited account now = elim account.rate_limited_until [
  | none ↦ false
  | some until ↦ leb_ℤ now (normalize_epoch_millis until)
]

unfoldable pub is_overage_blocked : Account → UsageMap → Bool
is_overage_blocked account usage =
    if account.overage_protection
    then elim (usage account.id) [ none ↦ false | some info ↦ is_at_overage account info ]
    else false

unfoldable pub fails_closed : Account → UsageMap → Bool
fails_closed account usage =
    account.reserve_hard
    && (ltb_ℤ (pos 0) account.reserve_5h || ltb_ℤ (pos 0) account.reserve_weekly)
    && not (is_some (usage account.id))

unfoldable pub is_hard_reserve_blocked : Account → UsageMap → Bool
is_hard_reserve_blocked account usage =
    fails_closed account usage || (account.reserve_hard && is_at_reserve account usage)

unfoldable pub evaluate_account_eligibility : Account → UsageMap → ℤ → AccountEligibility
unfolding is_rate_limited is_overage_blocked is_hard_reserve_blocked fails_closed
evaluate_account_eligibility account usage now =
    let status = from_raw account.rate_limit_status in
    let r0 = push_if account.paused paused [] in
    let r1 = push_if (is_auth_failure status) AccountBlockReason.auth_failed r0 in
    let r2 = push_if (is_rate_limited account now) active_rate_limit r1 in
    let r3 = push_if (is_overage_blocked account usage) overage_protection r2 in
    let r4 = push_if (is_hard_reserve_blocked account usage) hard_reserve r3 in
    record {
      routable = is_empty r4;
      blocked_by = r4;
      upstream_status = status;
      overage_blocked = is_overage_blocked account usage;
      hard_reserve_blocked = is_hard_reserve_blocked account usage;
      soft_reserve_hit = not account.reserve_hard && is_at_reserve account usage;
      usage_missing = provider_supports_usage account.provider && not (is_some (usage account.id));
      usage_missing_overage_fail_open =
          account.overage_protection && not (is_some (usage account.id));
      usage_missing_hard_reserve_fail_closed = fails_closed account usage;
      active_rate_limit = is_rate_limited account now;
    }
