-- ===== src/Balancer.antt =====
-- crates/load-balancer/src/lib.rs: the session strategy that orders the accounts for a request.
-- `none` stands for a panic (an index out of range).
pub mod Order
pub mod Session
pub mod Pool
pub mod Leading
pub mod Select
pub mod Choice
pub mod Affinity
pub mod RoundRobin
use Prim.Native.Nat.{Ordering}
use better_ccflare_rs.Base.{
  and_then, or_else, ℕ, zero, suc, ◌+◌, ◌%◌, ◌^◌, Bool, true, false, not, ◌&&◌, ◌||◌, String,
  Option, none, some, List, [], ◌∷◌, str_eq, if◌then◌else◌, ltb, all, filter, find, length,
  get_elem?,
}
use better_ccflare_rs.Base.Int.{ℤ, pos, ◌-ℤ◌, leb_ℤ, ltb_ℤ, eq_ℤ, cmp_ℤ}
use better_ccflare_rs.Base.Sort.{is_gt, sort_by}
use better_ccflare_rs.Provider.{from_str_loose, config}
use better_ccflare_rs.Account.{Account, UsageMap}
use better_ccflare_rs.Eligibility.{
  normalize_epoch_millis, evaluate_account_eligibility, is_at_reserve,
}

abbrev pub reset_debounce_ms : ℤ
reset_debounce_ms = pos 15_000

pub record SelectionMeta : Type 0 where
  pub force_account_id : Option String
  pub force_account_strict : Bool
  pub bypass_session : Bool

pub record SessionReset : Type 0 where
  pub account_id : String
  pub new_session_start : ℤ

-- The counter is a `usize`.
pub record SessionStrategy : Type 0 where
  pub session_duration_ms : ℤ
  pub round_robin_counter : ℕ

abbrev pub new_strategy : ℤ → SessionStrategy
new_strategy d = record { session_duration_ms = d; round_robin_counter = 0 }

pub record Selection : Type 0 where
  pub accounts : List Account
  pub resets : List SessionReset
  pub strategy : SessionStrategy

unfoldable pub requires_session_tracking : String → Bool
requires_session_tracking p = elim (from_str_loose p) [
  | none ↦ false
  | some q ↦ (config q).requires_session_tracking
]

unfoldable pub is_account_available : Account → UsageMap → ℤ → Bool
is_account_available account usage now = (evaluate_account_eligibility account usage now).routable

-- The account's rate-limit window was reset, longer ago than the debounce.
unfoldable pub window_reset : Account → ℤ → Bool
window_reset a now = elim a.rate_limit_reset [
  | none ↦ false
  | some reset ↦ ltb_ℤ (normalize_epoch_millis reset) (now -ℤ reset_debounce_ms)
]

unfoldable pub fixed_duration_expired : ℤ → Account → ℤ → Bool
fixed_duration_expired duration a now =
    requires_session_tracking a.provider
    && (elim a.session_start [ none ↦ true | some start ↦ leb_ℤ duration (now -ℤ start) ])

unfoldable pub rate_limit_window_reset : Account → ℤ → Bool
rate_limit_window_reset a now = str_eq a.provider "anthropic" && window_reset a now

unfoldable pub maybe_reset_session : ℤ → Account → ℤ → Account × Option SessionReset
maybe_reset_session duration a now =
    if fixed_duration_expired duration a now || rate_limit_window_reset a now
    then (
      record a {
        session_start = some now;
        session_request_count = pos 0;
        rate_limit_reset = if rate_limit_window_reset a now then none else a.rate_limit_reset;
      },
      some (record { account_id = a.id; new_session_start = now }),
    )
    else (a, none)

unfoldable pub has_active_session : ℤ → Account → ℤ → Bool
has_active_session duration a now =
    if not (requires_session_tracking a.provider) then false else elim a.session_start [
      | none ↦ false
      | some start ↦ leb_ℤ start now && ltb_ℤ (now -ℤ start) duration
    ]

abbrev pub by_priority : Account → Account → Ordering
by_priority a b = cmp_ℤ a.priority b.priority

unfoldable pub check_auto_fallback_accounts : List Account → UsageMap → ℤ → List Account
check_auto_fallback_accounts accounts usage now = sort_by by_priority (
    filter
      (λ a.
        if not a.auto_fallback_enabled
        then false
        else window_reset a now && is_account_available a usage now)
      accounts)

abbrev pub resets_at : UsageMap → Account → Option ℤ
resets_at usage a = elim (usage a.id) [ none ↦ none | some u ↦ u.resets_at_ms ]

-- A known reset comes before an unknown one.
unfoldable pub cmp_reset : Option ℤ → Option ℤ → Ordering
cmp_reset (some a) (some b) = cmp_ℤ a b
cmp_reset (some a) none = Ordering.lt
cmp_reset none (some b) = Ordering.gt
cmp_reset none none = Ordering.eq

unfoldable pub cmp_reserve : Bool → Bool → Ordering → Ordering
cmp_reserve false true rest = Ordering.lt
cmp_reserve true false rest = Ordering.gt
cmp_reserve _ _ rest = rest

-- The comparison of `sort_accounts_usage_aware`.
unfoldable pub cmp_usage_aware : UsageMap → Account → Account → Ordering
cmp_usage_aware usage a b =
    let rest =
      cmp_reserve (is_at_reserve a usage) (is_at_reserve b usage)
        (cmp_reset (resets_at usage a) (resets_at usage b)) in
    elim (cmp_ℤ a.priority b.priority) [
      | Ordering.eq ↦ rest
      | Ordering.lt ↦ Ordering.lt
      | Ordering.gt ↦ Ordering.gt
    ]

unfoldable pub sort_accounts_usage_aware : List Account → UsageMap → List Account
sort_accounts_usage_aware accounts usage = sort_by (cmp_usage_aware usage) accounts

-- `if !meta.bypass_session { maybe_reset_session(&mut chosen, now) }`, with what is pushed.
unfoldable pub start_session :
    SessionStrategy → SelectionMeta → Account → ℤ → Account × List SessionReset
start_session s meta a now =
    if meta.bypass_session
    then (a, [])
    else let (c, r) = maybe_reset_session s.session_duration_ms a now in
      (c, elim r [ none ↦ [] | some reset ↦ reset ∷ [] ])

-- The chosen account first, then the other available ones in order.
unfoldable pub lead_with :
    SessionStrategy → List Account → UsageMap → SelectionMeta → ℤ → Account → Selection
lead_with s accounts usage meta now a =
    let (chosen, resets) = start_session s meta a now in
    let others =
      filter (λ b. not (str_eq b.id chosen.id) && is_account_available b usage now) accounts in
    record {
      accounts = chosen ∷ sort_accounts_usage_aware others usage;
      resets = resets;
      strategy = s;
    }

abbrev pub nothing : SessionStrategy → Selection
nothing s = record { accounts = []; resets = []; strategy = s }

-- The forced account was found; `none` falls through to the normal selection.
unfoldable pub serve_forced :
    SessionStrategy → List Account → UsageMap → SelectionMeta → ℤ → Account → Option Selection
serve_forced s accounts usage meta now account =
    if not (is_account_available account usage now)
    then (if meta.force_account_strict then some (nothing s) else none)
    else if meta.force_account_strict
    then (let (chosen, resets) = start_session s meta account now in
        some (record { accounts = chosen ∷ []; resets = resets; strategy = s }))
    else some (lead_with s accounts usage meta now account)

unfoldable pub select_forced :
    SessionStrategy → List Account → UsageMap → SelectionMeta → ℤ → Option Selection
select_forced s accounts usage meta now = and_then meta.force_account_id (λ forced_id.
    and_then (find (λ a. str_eq a.id forced_id) accounts) (serve_forced s accounts usage meta now))

-- `max_by_key`: the last of the entries with the greatest key.
abbrev pub session_key : Account → ℤ
session_key a = elim a.session_start [ none ↦ pos 0 | some t ↦ t ]

unfoldable pub max_by_session : Account → List Account → Account
max_by_session best [] = best
max_by_session best (a ∷ rest) =
    max_by_session (if ltb_ℤ (session_key a) (session_key best) then best else a) rest

abbrev pub latest_session : List Account → Option Account
latest_session [] = none
latest_session (a ∷ rest) = some (max_by_session a rest)

unfoldable pub active_account : SessionStrategy → List Account → ℤ → Option Account
active_account s accounts now =
    latest_session (filter (λ a. has_active_session s.session_duration_ms a now) accounts)

-- The index within the first tier, and the counter after it: round robin where no account of the
-- tier keeps sessions.
unfoldable pub choose_index : SessionStrategy → List Account → ℕ × SessionStrategy
choose_index s tier =
    if ltb 1 (length tier) && all (λ a. not (requires_session_tracking a.provider)) tier
    then (
      s.round_robin_counter % length tier,
      record s { round_robin_counter = (s.round_robin_counter + 1) % 2 ^ 64 },
    )
    else (0, s)

abbrev pub top_tier : Account → List Account → List Account
top_tier top available = filter (λ a. eq_ℤ a.priority top.priority) available

unfoldable pub take_chosen :
    SessionStrategy → SelectionMeta → ℤ → List Account → Option Account → Option Selection
take_chosen s meta now available none = none
take_chosen s meta now available (some a) =
    let (chosen, resets) = start_session s meta a now in
    some (record {
      accounts = chosen ∷ filter (λ b. not (str_eq b.id chosen.id)) available;
      resets = resets;
      strategy = s;
    })

unfoldable pub select_tier : SessionStrategy → SelectionMeta → ℤ → List Account → Option Selection
select_tier s meta now [] = some (nothing s)
select_tier s meta now (top ∷ rest) =
    let tier = top_tier top (top ∷ rest) in
    let (chosen_idx, t) = choose_index s tier in
    take_chosen t meta now (top ∷ rest) (get_elem? tier chosen_idx)

abbrev pub available_accounts : List Account → UsageMap → ℤ → List Account
available_accounts accounts usage now =
    sort_accounts_usage_aware (filter (λ a. is_account_available a usage now) accounts) usage

-- The session that is kept, if its account can serve.
unfoldable pub serve_active :
    SessionStrategy → List Account → UsageMap → SelectionMeta → ℤ → Account → Option Selection
serve_active s accounts usage meta now active =
    if is_account_available active usage now
    then some (lead_with s accounts usage meta now active)
    else none

unfoldable pub select_active :
    SessionStrategy → List Account → UsageMap → SelectionMeta → ℤ → Option Selection
select_active s accounts usage meta now =
    and_then (active_account s accounts now) (serve_active s accounts usage meta now)

unfoldable pub select_fallback :
    SessionStrategy → List Account → UsageMap → SelectionMeta → ℤ → Option Selection
select_fallback s accounts usage meta now =
    and_then (get_elem? (check_auto_fallback_accounts accounts usage now) 0)
      (λ a. some (lead_with s accounts usage meta now a))

unfoldable pub select :
    SessionStrategy → List Account → UsageMap → SelectionMeta → ℤ → Option Selection
select s accounts usage meta now = or_else (select_forced s accounts usage meta now) (
    or_else (select_fallback s accounts usage meta now) (
      or_else (select_active s accounts usage meta now)
        (select_tier s meta now (available_accounts accounts usage now))))
