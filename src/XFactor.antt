-- ===== src/XFactor.antt =====
-- crates/proxy/src/xfactor/state.rs: the capacity of an account, and its window of requests. The
-- logarithm, the exponential and the square root of the system's library are parameters.
pub mod Posterior
pub mod Queries
pub mod Cache
pub mod Clamps
pub mod Window
pub mod Logs
pub mod Refinement
pub mod Polls
use better_ccflare_rs.Base.{
  ℕ, zero, suc, ◌+◌, ◌-◌, ◌*◌, ◌/◌, ◌≤◌, ◌<◌, min, max, String, ◌≡◌, refl, sym, ap, subst, ◌∙◌, ◌≢◌,
  ◌↔◌, ◌⊎◌, inl, inr, Bool, true, false, not, ◌&&◌, ◌||◌, Option, none, some, List, [], ◌∷◌, ◌++◌,
  map, arith, str_eq, str_eq_iff, ltb, leb, ◌==◌, if◌then◌else◌, Bool-cases, length, take,
  get_elem?, filter, any, In, All, Pairs, All-In, All-of_In, Yields, Ensures, all, ◌^◌,
  length-append, length-take,
}
use better_ccflare_rs.Base.Int.{ℤ, pos, ◌-ℤ◌, ltb_ℤ, leb_ℤ}
use better_ccflare_rs.Base.Text.{codes, contains, trim, to_ascii_lowercase}
use better_ccflare_rs.Base.Float.{F64, infinity, finite, is_finite}
use better_ccflare_rs.Base.Double.{lit, ◌+f◌, ◌-f◌, ◌*f◌, ◌/f◌, leb_f, ltb_f, max_f, min_f}

pub record Math : Type 0 where
  pub ln : F64 → F64
  pub exp : F64 → F64
  pub sqrt : F64 → F64

abbrev pub window_5h_ms : ℤ
window_5h_ms = pos (5 * 3600 * 1000)

abbrev pub kf_init_variance : F64
kf_init_variance = finite (pos (10 ^ 12 * 2 ^ 1074))

abbrev pub lag_estimate_default_ms : ℤ
lag_estimate_default_ms = pos 90_000

unfoldable pub ema_alpha : F64
ema_alpha = lit 5 100

-- Whether a text, in lower case or not, contains a word.
unfoldable pub mentions : List ℕ → String → Bool
mentions t word = contains t (codes word)

unfoldable pub model_weight : Option String → F64
model_weight none = lit 1 1
model_weight (some m) =
    let m = to_ascii_lowercase (codes m) in
    if mentions m "opus" then lit 4 1 else if mentions m "haiku" then lit 1 4 else lit 1 1

-- The log-normal prior of a subscription tier: its mean and variance.
unfoldable pub prior_of : Math → List ℕ → F64 × F64
prior_of math t =
    let sigma_sq = lit 353 1000 *f lit 353 1000 in
    let wide = lit 693 1000 *f lit 693 1000 in
    if mentions t "20x"
    then (math.ln (lit 880_000 1), sigma_sq)
    else if mentions t "5x"
    then (math.ln (lit 440_000 1), sigma_sq)
    else if mentions (to_ascii_lowercase t) "max"
    then (math.ln (lit 440_000 1), lit 1 2 *f lit 1 2)
    else if mentions (to_ascii_lowercase t) "pro"
    then (math.ln (lit 88_000 1), sigma_sq)
    else if mentions (to_ascii_lowercase t) "free"
    then (math.ln (lit 10_000 1), wide)
    else (math.ln (lit 200_000 1), wide)

unfoldable pub tier_prior : Math → Option String → F64 × F64
tier_prior math none = (math.ln (lit 200_000 1), lit 693 1000 *f lit 693 1000)
tier_prior math (some t) = prior_of math (trim (codes t))

-- The covariance matrix `kf_p` is its four entries.
pub record AccountCapacityState : Type 0 where
  pub account_id : String
  pub account_name : String
  pub subscription_tier : Option String
  pub is_shared : Bool
  pub window_5h : List (ℤ × F64)
  pub proxy_tokens_5h_weighted : F64
  pub mu : F64
  pub sigma_sq : F64
  pub n_eff : F64
  pub ema_proxy_rate : F64
  pub c_i_hard_lower : F64
  pub kf_e : F64
  pub kf_e_dot : F64
  pub kf_p00 : F64
  pub kf_p01 : F64
  pub kf_p10 : F64
  pub kf_p11 : F64
  pub last_kf_predict_ms : ℤ
  pub lag_estimate_ms : ℤ
  pub last_poll_at_ms : Option ℤ
  pub updated_at_ms : ℤ

abbrev pub zero_f : F64
zero_f = finite (pos 0)

-- A fresh state; the clock is an argument.
unfoldable pub new : Math → String → String → Option String → Bool → ℤ → AccountCapacityState
new math account_id account_name subscription_tier is_shared now_ms =
    let (mu, sigma_sq) = tier_prior math subscription_tier in
    record {
      account_id = account_id;
      account_name = account_name;
      subscription_tier = subscription_tier;
      is_shared = is_shared;
      window_5h = [];
      proxy_tokens_5h_weighted = zero_f;
      mu = mu;
      sigma_sq = sigma_sq;
      n_eff = zero_f;
      ema_proxy_rate = zero_f;
      c_i_hard_lower = zero_f;
      kf_e = zero_f;
      kf_e_dot = zero_f;
      kf_p00 = kf_init_variance;
      kf_p01 = zero_f;
      kf_p10 = zero_f;
      kf_p11 = kf_init_variance;
      last_kf_predict_ms = pos 0;
      lag_estimate_ms = lag_estimate_default_ms;
      last_poll_at_ms = none;
      updated_at_ms = now_ms;
    }

pub record XFactorDbState : Type 0 where
  pub account_id : String
  pub mu : F64
  pub sigma_sq : F64
  pub n_eff : F64
  pub ema_proxy_rate : F64
  pub c_i_hard_lower : F64
  pub updated_at_ms : ℤ
  pub kf_e : F64
  pub kf_e_dot : F64
  pub kf_p00 : F64
  pub kf_p01 : F64
  pub kf_p10 : F64
  pub kf_p11 : F64
  pub lag_estimate_ms : ℤ

unfoldable pub restore_from_db : AccountCapacityState → XFactorDbState → AccountCapacityState
restore_from_db s db = record s {
  mu = db.mu;
  sigma_sq = db.sigma_sq;
  n_eff = db.n_eff;
  ema_proxy_rate = db.ema_proxy_rate;
  c_i_hard_lower = db.c_i_hard_lower;
  updated_at_ms = db.updated_at_ms;
  kf_e = zero_f;
  kf_e_dot = zero_f;
  kf_p00 = kf_init_variance;
  kf_p01 = zero_f;
  kf_p10 = zero_f;
  kf_p11 = kf_init_variance;
  lag_estimate_ms = db.lag_estimate_ms;
}

unfoldable pub to_db_state : AccountCapacityState → XFactorDbState
to_db_state s = record {
  account_id = s.account_id;
  mu = s.mu;
  sigma_sq = s.sigma_sq;
  n_eff = s.n_eff;
  ema_proxy_rate = s.ema_proxy_rate;
  c_i_hard_lower = s.c_i_hard_lower;
  updated_at_ms = s.updated_at_ms;
  kf_e = s.kf_e;
  kf_e_dot = s.kf_e_dot;
  kf_p00 = s.kf_p00;
  kf_p01 = s.kf_p01;
  kf_p10 = s.kf_p10;
  kf_p11 = s.kf_p11;
  lag_estimate_ms = s.lag_estimate_ms;
}

-- The loop of `evict_old`: the entries that are left, and the running sum.
unfoldable pub evict_loop : ℤ → List (ℤ × F64) → F64 → List (ℤ × F64) × F64
evict_loop cutoff [] total = ([], total)
evict_loop cutoff ((ts, w) ∷ entries) total =
    let rest = evict_loop cutoff entries (total -f w) in
    if ltb_ℤ ts cutoff then rest else ((ts, w) ∷ entries, total)

unfoldable pub evict_old : AccountCapacityState → ℤ → AccountCapacityState
evict_old s now_ms =
    let (entries, total) =
      evict_loop (now_ms -ℤ window_5h_ms) s.window_5h s.proxy_tokens_5h_weighted in
    record s { window_5h = entries; proxy_tokens_5h_weighted = max_f total zero_f }

unfoldable pub on_request : AccountCapacityState → ℤ → F64 → AccountCapacityState
on_request s now_ms weighted_tokens =
    if leb_f weighted_tokens zero_f
    then s
    else let s = evict_old s now_ms in
      record s {
        window_5h = s.window_5h ++ ((now_ms, weighted_tokens) ∷ []);
        proxy_tokens_5h_weighted = s.proxy_tokens_5h_weighted +f weighted_tokens;
        ema_proxy_rate = ema_alpha *f weighted_tokens +f (lit 1 1 -f ema_alpha) *f s.ema_proxy_rate;
        updated_at_ms = now_ms;
      }

unfoldable pub sum_f : List F64 → F64 → F64
sum_f [] total = total
sum_f (x ∷ xs) total = sum_f xs (total +f x)

-- The weights of the entries between two times, both included, summed up.
unfoldable pub sum_between : ℤ → ℤ → List (ℤ × F64) → F64
sum_between first last entries =
    sum_f (map (λ e. e.1) (filter (λ e. leb_ℤ first e.0 && leb_ℤ e.0 last) entries)) zero_f
