-- ===== src/Examples/Routing.antt =====
-- The load balancer and the eligibility of accounts, on concrete accounts.
use better_ccflare_rs.Base.{
  Pairs, inl, inr, ◌⊎◌, ◌*◌, ◌<◌, ◌≡◌, refl, sym, ◌∙◌, ◌≢◌, ◌↔◌, true, false, not, none, some, List,
  [], ◌∷◌, arith, filter, In, All, Yields, Ensures, all, ◌^◌,
}
use mathlib.Core.List.{Perm}
use better_ccflare_rs.Base.Int.{pos, ◌≤ℤ◌, ◌-ℤ◌}
use better_ccflare_rs.Base.Float.{scale, ge_int, finite}
use better_ccflare_rs.Base.Sort.{sort_by, sort_by}
use better_ccflare_rs.Account.{Account, RoutingUsageInfo, WindowUsage, WindowKind, UsageMap}
use better_ccflare_rs.Provider.{config, config, config, config, Provider, to_string, from_str_loose}
use better_ccflare_rs.Provider.Names.{to_string-from_str_loose}
use better_ccflare_rs.Eligibility.{
  reaches, reserve_of_info, AccountBlockReason, evaluate_account_eligibility, is_at_overage,
  is_at_reserve,
}
use better_ccflare_rs.Eligibility.Overage.{Exhausts, is_at_overage_iff}
use better_ccflare_rs.Eligibility.Reserve.{is_at_reserve_mono}
use better_ccflare_rs.Eligibility.Blocking.{Blocks, routable_iff, blocked_by_iff}
use better_ccflare_rs.Balancer.{
  fixed_duration_expired, window_reset, SelectionMeta, SessionStrategy, new_strategy, select,
  choose_index, maybe_reset_session, has_active_session, sort_accounts_usage_aware,
  check_auto_fallback_accounts, active_account, is_account_available, session_key,
  requires_session_tracking, rate_limit_window_reset,
}
use better_ccflare_rs.Balancer.Select.{Covers, select-Covers}
use better_ccflare_rs.Balancer.Affinity.{Leads, BestFirst, select_keeps_session, select-BestFirst}
use better_ccflare_rs.Balancer.Choice.{Reports, select-Reports}
use better_ccflare_rs.Balancer.Session.{maybe_reset_session_settles}
use better_ccflare_rs.Balancer.RoundRobin.{round_robin_fair, after_turns, turns_until}
use better_ccflare_rs.Balancer.Order.{Precedes, sort_accounts-Precedes}
use better_ccflare_rs.Examples.{account, work, home, metered, no_usage, now, later}

abbrev strategy : SessionStrategy
strategy = new_strategy (pos 18_000_000)

abbrev plain : SelectionMeta
plain = record { force_account_id = none; force_account_strict = false; bypass_session = false }

abbrev pool : List Account
pool = work ∷ home ∷ []

abbrev running : Account
running = record work { session_start = some (pos 1_699_999_000_000) }

select-Covers_example : Yields (Covers pool no_usage now) (select strategy pool no_usage plain now)
select-Covers_example = select-Covers strategy pool no_usage plain now ((refl, tt), (tt, tt)) refl

nothing_back : check_auto_fallback_accounts pool no_usage now ≡ []
unfolding check_auto_fallback_accounts sort_by
nothing_back = refl

nothing_running : active_account strategy pool now ≡ none
unfolding active_account has_active_session requires_session_tracking from_str_loose config
nothing_running = refl

select-BestFirst_example :
    Yields (λ r. BestFirst r.accounts) (select strategy pool no_usage plain now)
select-BestFirst_example =
    select-BestFirst strategy pool no_usage plain now refl nothing_back nothing_running

none_back : check_auto_fallback_accounts (home ∷ running ∷ []) no_usage now ≡ []
unfolding check_auto_fallback_accounts sort_by
none_back = refl

running_session : has_active_session (pos 18_000_000) running now ≡ true
unfolding has_active_session requires_session_tracking from_str_loose config ◌-ℤ◌
running_session = refl

select_keeps_session_example :
    (a : Account) × In a (home ∷ running ∷ [])
    × (has_active_session (pos 18_000_000) a now ≡ true)
    × All
        (λ c. session_key c ≤ℤ session_key a)
        (filter (λ c. has_active_session (pos 18_000_000) c now) (home ∷ running ∷ []))
    × ((is_account_available a no_usage now ≡ false)
        ⊎ Yields (Leads a) (select strategy (home ∷ running ∷ []) no_usage plain now))
select_keeps_session_example =
    select_keeps_session strategy (home ∷ running ∷ []) no_usage plain now running refl none_back
      (inr (inl refl)) running_session

select-Reports_example : Ensures (Reports plain now) (select strategy pool no_usage plain now)
select-Reports_example = select-Reports strategy pool no_usage plain now

reset_fact :
    (maybe_reset_session (pos 18_000_000) work now).1
    ≡ some (record { account_id = "work"; new_session_start = now })
unfolding maybe_reset_session fixed_duration_expired requires_session_tracking from_str_loose config
reset_fact = refl

resets_now : (maybe_reset_session (pos 18_000_000) work now).1 ≢ none
resets_now e = let both = sym reset_fact ∙ e in cc

no_stamp : rate_limit_window_reset work later ≡ true → rate_limit_window_reset work now ≡ true
unfolding rate_limit_window_reset window_reset
no_stamp e = cc

maybe_reset_session_settles_example :
    (maybe_reset_session (pos 18_000_000) (maybe_reset_session (pos 18_000_000) work now).0 later).1
    ≡ none
unfolding ◌-ℤ◌
maybe_reset_session_settles_example =
    maybe_reset_session_settles (pos 18_000_000) work now later refl resets_now no_stamp

work_tracks : requires_session_tracking work.provider ≡ true
unfolding requires_session_tracking from_str_loose config
work_tracks = refl

abbrev tier : List Account
tier = metered ∷ account "spare" "zai" 0 ∷ []

takes_turns : all (λ a. not (requires_session_tracking a.provider)) tier ≡ true
unfolding requires_session_tracking from_str_loose config
takes_turns = refl

round_robin_fair_example :
    (turns_until 0 2 1 < 2)
    × ((choose_index (after_turns (turns_until 0 2 1) strategy tier) tier).0 ≡ 1)
round_robin_fair_example =
    round_robin_fair strategy tier 1 (omega arith, takes_turns) (omega arith) (omega arith)

sort_accounts-Precedes_example :
    Perm (sort_accounts_usage_aware pool no_usage) pool
    × Pairs (Precedes no_usage) (sort_accounts_usage_aware pool no_usage)
sort_accounts-Precedes_example = sort_accounts-Precedes pool no_usage

routable_iff_example :
    ((evaluate_account_eligibility work no_usage now).routable ≡ true)
    ↔ ((r : AccountBlockReason) → ¬ Blocks work no_usage now r)
routable_iff_example = routable_iff work no_usage now

abbrev paused : Account
paused = record work { paused = true }

blocked_by_iff_example :
    In AccountBlockReason.paused (evaluate_account_eligibility paused no_usage now).blocked_by
    ↔ Blocks paused no_usage now AccountBlockReason.paused
blocked_by_iff_example = blocked_by_iff paused no_usage now AccountBlockReason.paused

abbrev full_week : RoutingUsageInfo
full_week = record {
  utilization_pct = finite (pos (100 * 2 ^ 1074));
  resets_at_ms = none;
  windows =
      (record {
        kind = WindowKind.weekly;
        utilization_pct = finite (pos (100 * 2 ^ 1074));
        resets_at_ms = none;
      })
      ∷ [];
}

has_windows : full_week.windows ≢ []
has_windows e = cc

is_at_overage_iff_example :
    (is_at_overage work full_week ≡ true) ↔ ((w : WindowUsage) × Exhausts work full_week w)
is_at_overage_iff_example = is_at_overage_iff work full_week has_windows

abbrev spent_week : UsageMap
spent_week id = some full_week

abbrev cautious : Account
cautious = record work { reserve_weekly = pos 10 }

abbrev more_cautious : Account
more_cautious = record work { reserve_weekly = pos 20 }

cautious_at_reserve : is_at_reserve cautious spent_week ≡ true
unfolding is_at_reserve reserve_of_info reaches ge_int ◌-ℤ◌ scale
cautious_at_reserve = refl

is_at_reserve_mono_example : is_at_reserve more_cautious spent_week ≡ true
is_at_reserve_mono_example =
    is_at_reserve_mono cautious more_cautious spent_week refl refl (omega arith) (omega arith)
      cautious_at_reserve

zai_parses : from_str_loose "zai" ≡ some Provider.zai
unfolding from_str_loose
zai_parses = refl

to_string-from_str_loose_example : to_string Provider.zai ≡ "zai"
to_string-from_str_loose_example = to_string-from_str_loose "zai" Provider.zai zai_parses
