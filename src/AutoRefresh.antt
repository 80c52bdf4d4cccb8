-- ===== src/AutoRefresh.antt =====
-- crates/proxy/src/auto_refresh.rs: the scheduler that opens new usage windows by a small request. The
-- answers of the requests are arguments; timers and log lines are left out.
pub mod Windows
use better_ccflare_rs.Base.{
  ◌%◌, or_else, ℕ, zero, suc, ◌+◌, ◌-◌, ◌*◌, ◌/◌, ◌≤◌, ◌<◌, min, max, String, ◌≡◌, refl, sym, ap,
  subst, ◌∙◌, ◌≢◌, ◌↔◌, ◌⊎◌, inl, inr, Bool, true, false, not, ◌&&◌, ◌||◌, Option, none, some, List,
  [], ◌∷◌, ◌++◌, map, arith, str_eq, str_eq_iff, ltb, leb, ◌==◌, if◌then◌else◌, Bool-cases, length,
  take, get_elem?, filter, any, In, All, Pairs, All-In, All-of_In, Yields, Ensures, all, ◌^◌,
  length-append, length-take,
}
use better_ccflare_rs.Base.Int.{ℤ, pos, ◌-ℤ◌, ltb_ℤ, leb_ℤ}
use better_ccflare_rs.Base.Maps.{Map, get, set, remove}

abbrev pub failure_threshold : ℕ
failure_threshold = 5

abbrev pub stale_threshold_ms : ℤ
stale_threshold_ms = pos (24 * 60 * 60 * 1000)

abbrev pub model_cascade : List String
model_cascade =
    "claude-haiku-4-5-20251001" ∷ "claude-3-5-haiku-20241022" ∷ "claude-3-haiku-20240307"
    ∷ "claude-3-5-sonnet-20241022" ∷ "claude-3-sonnet-20240229" ∷ []

pub record RefreshableAccount : Type 0 where
  pub id : String
  pub name : String
  pub rate_limit_reset : Option ℤ

pub record SchedulerState : Type 0 where
  pub last_refresh_reset : Map ℤ
  pub consecutive_failures : Map ℕ
  pub backoff_multiplier : ℕ

unfoldable pub new : SchedulerState
new = record { last_refresh_reset = []; consecutive_failures = []; backoff_multiplier = 1 }

-- Whether a reset time asks for a refresh, with the last one that was seen.
unfoldable pub due : ℤ → ℤ → ℤ → Bool
due rate_limit_reset last now =
    if leb_ℤ rate_limit_reset now
    then true
    else if ltb_ℤ last rate_limit_reset
    then true
    else ltb_ℤ rate_limit_reset (now -ℤ stale_threshold_ms)

unfoldable pub should_refresh : SchedulerState → RefreshableAccount → ℤ → Bool
should_refresh s account now = elim (get account.id s.last_refresh_reset) [
  | none ↦ true
  | some last ↦ elim account.rate_limit_reset [
    | none ↦ false
    | some rate_limit_reset ↦ due rate_limit_reset last now
  ]
]

unfoldable pub record_success : SchedulerState → String → Option ℤ → SchedulerState
record_success s account_id reset_time = record s {
  last_refresh_reset = elim reset_time [
    | none ↦ s.last_refresh_reset
    | some rt ↦ set account_id rt s.last_refresh_reset
  ];
  consecutive_failures = remove account_id s.consecutive_failures;
}

-- The new count.
unfoldable pub failures : SchedulerState → String → ℕ
failures s account_id = elim (get account_id s.consecutive_failures) [
  | none ↦ 1
  | some n ↦ (n + 1) % 2 ^ 32
]

unfoldable pub record_failure : SchedulerState → String → SchedulerState
record_failure s account_id = record s {
  consecutive_failures = set account_id (failures s account_id) s.consecutive_failures;
}

unfoldable pub keep_active : {A : Type 0} → List String → Map A → Map A
keep_active active_ids m = filter (λ e. any (str_eq e.0) active_ids) m

unfoldable pub cleanup : SchedulerState → List String → SchedulerState
cleanup s active_ids = record s {
  last_refresh_reset = keep_active active_ids s.last_refresh_reset;
  consecutive_failures = keep_active active_ids s.consecutive_failures;
}

pub data RefreshResult : Type 0 where
  success : Option ℤ → RefreshResult
  rate_limited failed : RefreshResult
  auth_failed : ℕ → RefreshResult

-- What a request for a model comes back with: a status with the reset that its header gives, whether
-- it has headers of the upstream, and its body's mark of the proxy's own refusal; or no answer.
pub record Answered : Type 0 where
  pub status : ℕ
  pub reset_time : Option ℤ
  pub has_upstream_headers : Bool
  pub refused_by_proxy : Bool

-- The result that an answer settles; none goes on to the next model.
unfoldable pub settle : Option Answered → ℤ → Option RefreshResult
settle none now = none
settle (some a) now =
    if a.status == 429 || a.status == 503
    then some rate_limited
    else if leb 200 a.status && leb a.status 299
    then some (success (or_else a.reset_time (some now)))
    else if a.status == 401 || a.status == 403
    then (if not a.has_upstream_headers || a.refused_by_proxy
        then some failed
        else some (auth_failed a.status))
    else if a.status == 404
    then none
    else some failed

unfoldable pub try_models : (String → Option Answered) → ℤ → List String → RefreshResult
try_models send now [] = failed
try_models send now (model ∷ models) = elim (settle (send model) now) [
  | some r ↦ r
  | none ↦ try_models send now models
]

unfoldable pub send_dummy_request :
    (RefreshableAccount → String → Option Answered) → RefreshableAccount → ℤ → RefreshResult
send_dummy_request send account now = try_models (send account) now model_cascade

-- A check: its state, the accounts that were asked and those marked as not authorized.
pub record Checked : Type 0 where
  pub state : SchedulerState
  pub asked : List RefreshableAccount
  pub marked : List (String × ℕ)

-- The loop over the accounts; a 429 ends it.
unfoldable pub refresh_each :
    (RefreshableAccount → RefreshResult) → List RefreshableAccount → SchedulerState → Checked
refresh_each result_of [] s = record { state = s; asked = []; marked = [] }
refresh_each result_of (account ∷ accounts) s = elim (result_of account) [
  | success reset_time ↦
      let rest =
        refresh_each result_of accounts
          (record (record_success s account.id reset_time) { backoff_multiplier = 1 }) in
      record rest { asked = account ∷ rest.asked }
  | rate_limited ↦ record {
    state = record s { backoff_multiplier = min (s.backoff_multiplier * 2) 8 };
    asked = account ∷ [];
    marked = [];
  }
  | failed ↦
      let rest = refresh_each result_of accounts (record_failure s account.id) in
      record rest { asked = account ∷ rest.asked }
  | auth_failed status ↦
      let rest = refresh_each result_of accounts (record_failure s account.id) in
      record rest { asked = account ∷ rest.asked; marked = (account.id, status) ∷ rest.marked }
]

unfoldable pub check_and_refresh :
    (RefreshableAccount → RefreshResult)
    → List String
    → List RefreshableAccount
    → SchedulerState
    → ℤ
    → Checked
check_and_refresh result_of active_ids accounts s now =
    let s = cleanup s active_ids in
    refresh_each result_of (filter (λ a. should_refresh s a now) accounts) s

-- Seconds to the next check.
unfoldable pub sleep_secs : SchedulerState → ℕ
sleep_secs s = 60 * s.backoff_multiplier
