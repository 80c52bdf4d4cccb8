-- ===== src/XFactor/Posterior.antt =====
-- crates/proxy/src/xfactor/state.rs: what a usage poll does to the capacity estimate, and the Kalman
-- filter for usage that does not go through the proxy.
use better_ccflare_rs.Base.{◌-◌, ◌*◌, not, ◌||◌, some, if◌then◌else◌, ◌^◌}
use better_ccflare_rs.Base.Int.{ℤ, pos, negsuc, ◌-ℤ◌, eq_ℤ, max_ℤ}
use better_ccflare_rs.Base.Float.{F64, finite, is_finite}
use better_ccflare_rs.Base.Double.{
  lit, from_int, ◌+f◌, ◌-f◌, ◌*f◌, ◌/f◌, leb_f, ltb_f, max_f, min_f, clamp_f,
}
use better_ccflare_rs.XFactor.{
  Math, AccountCapacityState, window_5h_ms, zero_f, evict_old, sum_between,
}

-- -5,000, 1e14 and 100 as doubles.
abbrev pub minus_5000 : ℤ
minus_5000 = negsuc (5000 * 2 ^ 1074 - 1)

abbrev pub kf_e_floor : F64
kf_e_floor = finite minus_5000

abbrev pub kf_p_ceiling : F64
kf_p_ceiling = finite (pos (10 ^ 14 * 2 ^ 1074))

abbrev pub kf_p_floor : F64
kf_p_floor = finite (negsuc (10 ^ 14 * 2 ^ 1074 - 1))

abbrev pub hundred : ℤ
hundred = pos (100 * 2 ^ 1074)

abbrev pub n_eff_ceiling : F64
n_eff_ceiling = finite hundred

-- The filter's step forward by `dt` seconds, with its clamps.
unfoldable pub kf_advance : AccountCapacityState → F64 → ℤ → AccountCapacityState
kf_advance s dt now_ms =
    let p00 = s.kf_p00 +f lit 2 1 *f dt *f s.kf_p01 +f dt *f dt *f s.kf_p11 in
    let p01 = clamp_f (s.kf_p01 +f dt *f s.kf_p11) kf_p_floor kf_p_ceiling in
    let p11 = s.kf_p11 +f lit 100 1 *f dt in
    record s {
      kf_e = max_f (s.kf_e +f s.kf_e_dot *f dt) kf_e_floor;
      kf_e_dot = max_f s.kf_e_dot zero_f;
      kf_p00 = min_f p00 kf_p_ceiling;
      kf_p01 = p01;
      kf_p10 = p01;
      kf_p11 = min_f p11 kf_p_ceiling;
      last_kf_predict_ms = now_ms;
    }

unfoldable pub kf_predict_to : AccountCapacityState → ℤ → AccountCapacityState
kf_predict_to s now_ms =
    if eq_ℤ s.last_kf_predict_ms (pos 0)
    then record s { last_kf_predict_ms = now_ms }
    else let dt = from_int (max_ℤ (now_ms -ℤ s.last_kf_predict_ms) (pos 0)) /f lit 1000 1 in
      if ltb_f dt (lit 1 1000) then s else kf_advance s dt now_ms

unfoldable pub kf_update : AccountCapacityState → F64 → F64 → AccountCapacityState
kf_update s e_obs r =
    let y = e_obs -f s.kf_e in
    let total = s.kf_p00 +f r in
    let k0 = s.kf_p00 /f total in
    let k1 = s.kf_p10 /f total in
    let factor = r /f total in
    if leb_f total zero_f || not (is_finite total) then s else record s {
      kf_e = s.kf_e +f k0 *f y;
      kf_e_dot = s.kf_e_dot +f k1 *f y;
      kf_p00 = max_f (s.kf_p00 *f factor) zero_f;
      kf_p01 = s.kf_p01 *f factor;
      kf_p10 = s.kf_p01 *f factor;
      kf_p11 = max_f (s.kf_p11 -f k1 *f s.kf_p01) zero_f;
    }

unfoldable pub p_at_lagged_time : AccountCapacityState → ℤ → F64
p_at_lagged_time s lagged_ms = sum_between (lagged_ms -ℤ window_5h_ms) lagged_ms s.window_5h

unfoldable pub c_estimate : Math → AccountCapacityState → F64
c_estimate math s = max_f (math.exp s.mu) s.c_i_hard_lower

-- The measurement of the filter, once the posterior has settled.
unfoldable pub measure : Math → AccountCapacityState → ℤ → F64 → AccountCapacityState
measure math s now_ms u =
    let p_at_lag = p_at_lagged_time s (now_ms -ℤ s.lag_estimate_ms) in
    let c_est = c_estimate math s in
    let e_obs = max_f (c_est *f u /f lit 100 1 -f p_at_lag) zero_f in
    let bucket = c_est *f lit 1 100 in
    let t = kf_update s e_obs (bucket *f bucket /f lit 12 1) in
    if leb_f (lit 5 1) s.n_eff
    then record t { kf_e = max_f t.kf_e kf_e_floor; kf_e_dot = max_f t.kf_e_dot zero_f }
    else s

-- The Bayesian update by a lower bound of the capacity.
unfoldable pub absorb : Math → AccountCapacityState → F64 → AccountCapacityState
absorb math s lb =
    let decayed = min_f (s.sigma_sq /f lit 98 100) (lit 4 1) in
    let precision_prior = lit 1 1 /f decayed in
    let precision_obs = lit 1 1 /f lit 5 100 in
    let precision_post = precision_prior +f precision_obs in
    record s {
      mu = (precision_prior *f s.mu +f precision_obs *f math.ln lb) /f precision_post;
      sigma_sq = lit 1 1 /f precision_post;
      n_eff = min_f (s.n_eff +f lit 3 10) n_eff_ceiling;
      c_i_hard_lower = max_f s.c_i_hard_lower (lb *f lit 9 10);
    }

-- A poll at or above 95 % only tightens the hard lower bound.
unfoldable pub tighten : AccountCapacityState → F64 → AccountCapacityState
tighten s u =
    if ltb_f zero_f s.proxy_tokens_5h_weighted
    then record s {
      c_i_hard_lower = max_f s.c_i_hard_lower (s.proxy_tokens_5h_weighted /f (u /f lit 100 1));
    }
    else s

unfoldable pub on_usage_poll : Math → AccountCapacityState → ℤ → F64 → AccountCapacityState
on_usage_poll math s now_ms u =
    let s : AccountCapacityState = record (evict_old s now_ms) {
      last_poll_at_ms = some now_ms;
      updated_at_ms = now_ms;
    } in
    let lb = s.proxy_tokens_5h_weighted /f (u /f lit 100 1) in
    if leb_f (lit 95 1) u
    then kf_predict_to (tighten s u) now_ms
    else if ltb_f u (lit 5 1)
    then kf_predict_to s now_ms
    else if leb_f lb zero_f || not (is_finite lb)
    then kf_predict_to s now_ms
    else measure math (kf_predict_to (absorb math s lb) now_ms) now_ms u
