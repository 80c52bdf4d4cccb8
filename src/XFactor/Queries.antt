-- ===== src/XFactor/Queries.antt =====
-- crates/proxy/src/xfactor/state.rs: what is read off the capacity state.
use better_ccflare_rs.Base.{◌*◌, String, Bool, not, ◌&&◌, Option, none, some, if◌then◌else◌}
use better_ccflare_rs.Base.Int.{ℤ, pos, ◌-ℤ◌, ◌+ℤ◌, max_ℤ}
use better_ccflare_rs.Base.Float.{F64, infinity}
use better_ccflare_rs.Base.Double.{
  lit, from_int, ◌+f◌, ◌-f◌, ◌*f◌, ◌/f◌, leb_f, ltb_f, max_f, min_f,
}
use better_ccflare_rs.XFactor.{Math, AccountCapacityState, window_5h_ms, zero_f, sum_between}
use better_ccflare_rs.XFactor.Posterior.{c_estimate}

-- The capacity at the 5th, the 50th and the 95th percentile.
unfoldable pub capacities : Math → AccountCapacityState → F64 × (F64 × F64)
capacities math s =
    let sigma = math.sqrt s.sigma_sq in
    let spread = lit 1645 1000 *f sigma in
    (
      max_f (math.exp (s.mu -f spread)) s.c_i_hard_lower,
      (c_estimate math s, math.exp (s.mu +f spread)),
    )

pub record Estimate : Type 0 where
  pub pessimistic : F64
  pub expected : F64
  pub optimistic : F64

unfoldable pub remaining_tokens_estimate : Math → AccountCapacityState → Estimate
remaining_tokens_estimate math s =
    let (c_p5, (c_p50, c_p95)) = capacities math s in
    let used = s.proxy_tokens_5h_weighted +f max_f s.kf_e zero_f in
    record {
      pessimistic = max_f (c_p5 -f used) zero_f;
      expected = max_f (c_p50 -f used) zero_f;
      optimistic = max_f (c_p95 -f used) zero_f;
    }

unfoldable pub window_recovery_tokens : AccountCapacityState → ℤ → ℤ → F64
window_recovery_tokens s now_ms delta_ms =
    sum_between (now_ms -ℤ window_5h_ms) (now_ms +ℤ delta_ms -ℤ window_5h_ms) s.window_5h

unfoldable pub total_rate : AccountCapacityState → F64
total_rate s = s.ema_proxy_rate +f max_f s.kf_e_dot zero_f

unfoldable pub tte_minutes : Math → AccountCapacityState → F64
tte_minutes math s =
    if leb_f (total_rate s) (lit 1 100)
    then infinity
    else (remaining_tokens_estimate math s).pessimistic /f total_rate s /f lit 60 1

unfoldable pub tte_minutes_with_recovery : Math → AccountCapacityState → ℤ → F64
tte_minutes_with_recovery math s now_ms =
    let r = (remaining_tokens_estimate math s).pessimistic in
    let f_15min = window_recovery_tokens s now_ms (pos (15 * 60 * 1000)) in
    if leb_f (total_rate s) (lit 1 100)
    then infinity
    else max_f (r +f f_15min) zero_f /f total_rate s /f lit 60 1

unfoldable pub utilization_pct : Math → AccountCapacityState → F64
utilization_pct math s =
    let c = c_estimate math s in
    if leb_f c zero_f
    then zero_f
    else min_f ((s.proxy_tokens_5h_weighted +f max_f s.kf_e zero_f) /f c *f lit 100 1) (lit 100 1)

unfoldable pub x_factor : Math → AccountCapacityState → Estimate
x_factor math s =
    let (c_lo, (c_mid, c_hi)) = capacities math s in
    record {
      pessimistic = c_lo /f lit 88_000 1;
      expected = c_mid /f lit 88_000 1;
      optimistic = c_hi /f lit 88_000 1;
    }

unfoldable pub confidence : AccountCapacityState → String
confidence s =
    if ltb_f s.n_eff (lit 1 1)
    then "cold"
    else if ltb_f s.n_eff (lit 3 1)
    then "low"
    else if ltb_f s.n_eff (lit 10 1)
    then "medium"
    else "high"

unfoldable pub should_stop_assign : Math → AccountCapacityState → Bool
should_stop_assign math s =
    let drain_5min = total_rate s *f lit 300 1 in
    leb_f ((remaining_tokens_estimate math s).pessimistic -f drain_5min) (lit 20_000 1)

unfoldable pub shared_score : AccountCapacityState → F64
shared_score s =
    if leb_f s.proxy_tokens_5h_weighted (lit 100 1)
    then zero_f
    else max_f s.kf_e zero_f /f s.proxy_tokens_5h_weighted

unfoldable pub suspected_shared : AccountCapacityState → Bool
suspected_shared s =
    not s.is_shared
    && leb_f (lit 10 1) s.n_eff
    && leb_f (lit 30_000 1) s.kf_e
    && ltb_f (lit 1 2) (shared_score s)

unfoldable pub poll_age_seconds : AccountCapacityState → ℤ → Option F64
poll_age_seconds s now_ms = elim s.last_poll_at_ms [
  | none ↦ none
  | some t ↦ some (from_int (max_ℤ (now_ms -ℤ t) (pos 0)) /f lit 1000 1)
]
