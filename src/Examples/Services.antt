-- ===== src/Examples/Services.antt =====
-- The token cache of the providers, retries, the capacity estimate and authentication, on concrete
-- inputs.
use better_ccflare_rs.Base.{
  ℕ, ◌+◌, String, ◌≡◌, refl, ◌≢◌, ◌⊎◌, true, false, none, some, List, [], ◌∷◌, map, arith, str_eq,
  ◌==◌, if◌then◌else◌,
}
use better_ccflare_rs.Base.Maps
use better_ccflare_rs.Base.Int.{pos, ◌-ℤ◌}
use better_ccflare_rs.Base.Float.{nan}
use better_ccflare_rs.Base.Double.{lit}
use better_ccflare_rs.Base.Text.{starts_with, trim, is_whitespace, codes, same}
use better_ccflare_rs.Tokens.{Answer, ok, err, TokenRefreshResult}
use better_ccflare_rs.Account.{Account}
use better_ccflare_rs.Examples.{work, now, later}
use better_ccflare_rs.Refresher
use better_ccflare_rs.Refresher.Bounds.{Bounded, run-new}
use better_ccflare_rs.XFactor.{Math, AccountCapacityState, evict_old, window_5h_ms}
use better_ccflare_rs.XFactor
use better_ccflare_rs.XFactor.Clamps.{Event, requests, polls, Clamped, run-Clamped}
use better_ccflare_rs.XFactor.Clamps
use better_ccflare_rs.XFactor.Logs.{quarters}
use better_ccflare_rs.XFactor.Window.{Holds}
use better_ccflare_rs.XFactor.Refinement.{
  Use, requested, polled, event_of, log_of, window_refines_log,
}
use better_ccflare_rs.Retry.{
  DbError, sqlite, database_busy, with_retry, default_config, busy_timeout, done,
}
use better_ccflare_rs.Retry.Attempts.{EndsAt, with_retry_lem}
use better_ccflare_rs.Auth.{from_db, Request, KeyResult, proxy}
use better_ccflare_rs.Auth.Keys.{
  is_auth_enabled, first_match, verify_api_key_sync, remember, cached, Db, verify_api_key_cached,
}
use better_ccflare_rs.Auth.Paths.{
  normalize_path, trim_start_slashes, under, is_mutating_method, extract_api_key, header_text,
  non_empty, is_path_exempt, csrf_fails,
}
use better_ccflare_rs.Auth.Middleware.{
  ask_enabled, after_enabled, check_credentials, check_key, within_limit, Outside, Settings,
  AuthState, next, known, password_given, auth_middleware,
}
use better_ccflare_rs.Auth.Admission.{FirstRun, ByKey, admitted}
use better_ccflare_rs.Auth.Freshness.{Check, Fresh, answer_of, run_from, cached_answer}
use better_ccflare_rs.Limiter.{check_and_record, drop_stale, set_queue, new_tracker}

-- A provider that is down.
abbrev down : Account → String → Answer TokenRefreshResult Refresher.ProviderError
down account client_id = err (Refresher.other "down")

abbrev steps : List Refresher.Step
steps =
    Refresher.begins work now
    ∷ Refresher.ends work now (down work "client")
    ∷ Refresher.begins work later
    ∷ []

run-new_example : Bounded (Refresher.run Refresher.new steps)
run-new_example = run-new steps

abbrev failed : Refresher.TokenManager
failed = Refresher.run Refresher.new steps

abbrev turned_down : Refresher.ProviderError
turned_down = Refresher.token_refresh (Refresher.in_backoff "work" 2)

turned_down_fact :
    (Refresher.get_valid_token down (λ m. m) failed work "client" later).answer
    ≡ some (err turned_down)
unfolding Refresher.get_valid_token Refresher.begin_call Refresher.is_api_key_provider
    Refresher.valid_token ◌-ℤ◌ Refresher.before_lock Maps.get Refresher.cleanup_expired_failures
    Refresher.remove_each Refresher.run Refresher.step Refresher.after_lock
    Refresher.enforce_max_failures Maps.set Maps.remove Refresher.new Refresher.next_count
turned_down_fact = refl

-- Functions that stand for the system's library.
abbrev math : Math
math = record { ln = λ x. x; exp = λ x. x; sqrt = λ x. x }

abbrev fresh : AccountCapacityState
fresh = XFactor.new math "id" "name" none false (pos 0)

fresh-Clamped : Clamped fresh
unfolding XFactor.new
fresh-Clamped = (refl, refl, refl, refl, refl)

abbrev events : List Event
events = requests (pos 1) (quarters 4000) ∷ polls (pos 2) nan ∷ polls (pos 3) (lit 50 1) ∷ []

a_number : quarters 4000 ≢ nan
a_number h = cc

run-Clamped_example : Clamped (Clamps.run math fresh events)
run-Clamped_example = run-Clamped math fresh events (a_number, (tt, (tt, tt))) fresh-Clamped

abbrev uses : List Use
uses = requested (pos 1000) 40 ∷ polled (pos 2000) (lit 96 1) ∷ requested (pos 3_600_000) 8 ∷ []

window_refines_log_example :
    Holds
      (log_of uses)
      (pos 18_002_000 -ℤ window_5h_ms)
      (evict_old (Clamps.run math fresh (map event_of uses)) (pos 18_002_000))
window_refines_log_example =
    window_refines_log math "id" "name" none false (pos 0) (pos 18_002_000) uses
      (refl, omega arith, (refl, tt, (refl, omega arith, tt))) (omega arith) refl

-- A database that is busy once.
abbrev busy_once : ℕ → ℕ × Answer ℕ DbError
busy_once n = (n + 1, if n == 0 then err (sqlite (some database_busy)) else ok n)

with_retry_lem_example :
    ((default_config.max_attempts ≡ 0)
      × (with_retry default_config busy_once 0 ≡ done 0 (err busy_timeout)))
    ⊎ ((n : ℕ) × EndsAt default_config busy_once default_config.max_attempts 0 n 0
          (with_retry default_config busy_once 0))
with_retry_lem_example = with_retry_lem default_config busy_once 0

abbrev out : Outside
out = record {
  decode = λ b. some b;
  hash_for_cache = λ k. "hash";
  verify_hash = λ k h. same k (codes h);
}

abbrev with_key : Db
with_key = record {
  active_keys = some (pos 1);
  rows = some (record { id = "1"; name = "ci"; hashed_key = "secret"; scope = some "proxy" } ∷ []);
}

abbrev withdrawn : Db
withdrawn = record { active_keys = some (pos 0); rows = some [] }

abbrev settings : Settings
settings = record { allow_unauthenticated = false; rpm_limit = some 2; dashboard_password = none }

abbrev empty : AuthState
empty = record { key_cache = []; enabled_cache = none; rpm_tracker = new_tracker }

abbrev post : Request
post = record {
  path = codes "/v1/messages";
  method = "POST";
  headers = λ name. if str_eq name "x-api-key" then some (some (codes " secret ")) else none;
}

abbrev ci : KeyResult
ci = record { id = "1"; name = "ci"; scope = proxy }

post_passes : (auth_middleware out settings (some with_key) empty post 5).1 ≡ next (known ci)
unfolding auth_middleware is_path_exempt same normalize_path trim_start_slashes under starts_with
    ask_enabled is_auth_enabled after_enabled check_credentials csrf_fails is_mutating_method
    password_given extract_api_key header_text non_empty trim is_whitespace cached first_match
    remember verify_api_key_cached verify_api_key_sync check_key within_limit from_db Maps.get
    Maps.remove Maps.set check_and_record drop_stale set_queue
post_passes = refl

admitted_example :
    (is_path_exempt post.path ≡ true)
    ⊎ ((settings.allow_unauthenticated ≡ true)
        ⊎ (FirstRun settings (some with_key) empty post 5
            ⊎ ((csrf_fails post ≡ false)
                × ((password_given out settings post ≡ true)
                    ⊎ ByKey out settings (some with_key) empty post 5 (known ci)))))
admitted_example = admitted out settings (some with_key) empty post 5 (known ci) post_passes

abbrev before : Check
before = record { db = with_key; api_key = codes "secret"; at = 0 }

abbrev after : Check
after = record { db = withdrawn; api_key = codes "secret"; at = 100_000 }

still_cached :
    (verify_api_key_cached out.hash_for_cache out.verify_hash after.db
      (run_from out.hash_for_cache out.verify_hash [] (before ∷ []))
      after.api_key
      after.at).1
    ≡ some ci
unfolding verify_api_key_cached cached Maps.get remember Maps.set verify_api_key_sync first_match
    same from_db
still_cached = refl

cached_answer_example :
    (answer_of out.hash_for_cache out.verify_hash after ≡ some ci)
    ⊎ Fresh out.hash_for_cache out.verify_hash (before ∷ []) after (some ci)
cached_answer_example =
    cached_answer out.hash_for_cache out.verify_hash (before ∷ []) after (some ci) still_cached
