-- ===== src/Polling/Service.antt =====
-- crates/providers/src/usage_polling.rs: the cache of usage data and the polls that fill it. The usage
-- endpoints and the token endpoint answer from a state of the world that each call may change; what
-- the account source is told is a list.
use better_ccflare_rs.Base.{
  ◌%◌, or_else, ℕ, zero, suc, ◌+◌, ◌*◌, min, String, Bool, true, false, ◌&&◌, ◌||◌, Option, none,
  some, List, [], ◌∷◌, ◌++◌, str_eq, ltb, ◌==◌, if◌then◌else◌, filter, ◌^◌,
}
use better_ccflare_rs.Base.Int.{ℤ, pos, ◌-ℤ◌, ltb_ℤ, leb_ℤ}
use better_ccflare_rs.Base.Text.{codes, trim}
use better_ccflare_rs.Base.Maps.{Map, get, set, remove}
use better_ccflare_rs.Polling.{AnyUsageData, AnthropicUsageData, anthropic}

pub record CacheEntry : Type 0 where
  pub content : AnyUsageData
  pub timestamp : ℤ

abbrev pub UsageCache : Type 0
UsageCache = Map CacheEntry

abbrev pub max_cache_age_ms : ℤ
max_cache_age_ms = pos (10 * 60 * 1000)

-- `get` of the cache drops an entry that is stale.
unfoldable pub cache_get : UsageCache → String → ℤ → UsageCache × Option AnyUsageData
cache_get cache account_id now = elim (get account_id cache) [
  | none ↦ (cache, none)
  | some entry ↦
      if ltb_ℤ max_cache_age_ms (now -ℤ entry.timestamp)
      then (remove account_id cache, none)
      else (cache, some entry.content)
]

unfoldable pub cache_set : UsageCache → String → AnyUsageData → ℤ → UsageCache
cache_set cache account_id content now =
    set account_id (record { content = content; timestamp = now }) cache

unfoldable pub cleanup_stale : UsageCache → ℤ → UsageCache
cleanup_stale cache now = filter (λ e. leb_ℤ (now -ℤ e.1.timestamp) max_cache_age_ms) cache

pub record PollableAccount : Type 0 where
  pub id : String
  pub provider : String
  pub access_token : Option String
  pub refresh_token : Option String
  pub client_id : Option String
  pub api_key : Option String
  pub custom_endpoint : Option String
  pub paused : Bool

pub record RefreshedToken : Type 0 where
  pub access_token : String
  pub refresh_token : String
  pub expires_at : Option ℤ

pub data AnthropicUsageResult : Type 0 where
  ok : AnthropicUsageData → AnthropicUsageResult
  unauthorized : AnthropicUsageResult
  rate_limited : ℕ → AnthropicUsageResult
  error : AnthropicUsageResult

pub data RefreshAnswer : Type 0 where
  renewed : RefreshedToken → RefreshAnswer
  permanently_revoked transient : RefreshAnswer

pub data Told : Type 0 where
  persist_refreshed_token : String → RefreshedToken → Told
  mark_token_revoked : String → Told

-- The world that the polls ask.
pub record Upstream (W : Type 0) : Type 0 where
  pub fetch_anthropic_usage : W → String → W × AnthropicUsageResult
  pub refresh_oauth_token : W → String → String → W × RefreshAnswer
  pub fetch_usage_for_provider : W → String → String → Option String → W × Option AnyUsageData

-- Where a poll stands: no result means that it is still running.
pub record Poll (W : Type 0) : Type 0 where
  pub world : W
  pub cache : UsageCache
  pub told : List Told
  pub result : Option Bool

abbrev pub max_retries : ℕ
max_retries = 2

abbrev pub is_blank : String → Bool
is_blank token = elim (trim (codes token)) [ [] ↦ true | c ∷ cs ↦ false ]

module _ {W : Type 0} (up : Upstream W) where
  abbrev pub stop : W → UsageCache → List Told → Bool → Poll W
  stop w cache told limited = record {
    world = w;
    cache = cache;
    told = told;
    result = some limited;
  }

  abbrev pub still_running : W → UsageCache → List Told → Poll W
  still_running w cache told = record { world = w; cache = cache; told = told; result = none }

  -- A refresh of the token, where the account has what it takes.
  unfoldable pub refresh : W → PollableAccount → W × Option RefreshAnswer
  refresh w account = elim account.refresh_token [
    | none ↦ (w, none)
    | some rt ↦ elim account.client_id [
      | none ↦ (w, none)
      | some cid ↦ let (after, answer) = up.refresh_oauth_token w rt cid in (after, some answer)
    ]
  ]

  -- The `loop` of the OAuth providers, for a number of rounds.
  unfoldable pub oauth_loop : ℕ → PollableAccount → ℤ → W → UsageCache → List Told → String → Poll W
  oauth_loop zero account now w cache told token = still_running w cache told
  oauth_loop (suc rounds) account now w cache told token =
      let fetched = up.fetch_anthropic_usage w token in
      elim fetched.1 [
        | ok content ↦
            stop fetched.0 (cache_set cache account.id (anthropic content) now) told false
        | rate_limited retry_after ↦ stop fetched.0 cache told true
        | error ↦ stop fetched.0 cache told false
        | unauthorized ↦
            let refreshed = refresh fetched.0 account in
            elim refreshed.1 [
              | none ↦ stop refreshed.0 cache told false
              | some answer ↦ elim answer [
                | transient ↦ stop refreshed.0 cache told false
                | permanently_revoked ↦
                    stop refreshed.0 (remove account.id cache)
                      (told ++ (mark_token_revoked account.id ∷ [])) false
                | renewed t ↦
                    oauth_loop rounds account now refreshed.0 cache
                      (told ++ (persist_refreshed_token account.id t ∷ [])) t.access_token
              ]
            ]
      ]

  -- The other providers: a number of attempts.
  unfoldable pub attempts : ℕ → PollableAccount → ℤ → W → UsageCache → String → Poll W
  attempts zero account now w cache token = stop w cache [] false
  attempts (suc left) account now w cache token =
      let fetched = up.fetch_usage_for_provider w account.provider token account.custom_endpoint in
      elim fetched.1 [
        | some content ↦ stop fetched.0 (cache_set cache account.id content now) [] false
        | none ↦ attempts left account now fetched.0 cache token
      ]

  unfoldable pub poll_single_account : ℕ → PollableAccount → ℤ → W → UsageCache → Poll W
  poll_single_account rounds account now w cache =
      elim (or_else account.access_token account.api_key) [
        | none ↦ stop w cache [] false
        | some token ↦
            if is_blank token
            then stop w cache [] false
            else if str_eq account.provider "claude-oauth" || str_eq account.provider "anthropic"
            then oauth_loop rounds account now w cache [] token
            else attempts max_retries account now w cache token
      ]

  -- The polls of a cycle, one after the other, with their counts; the result is whether each was turned
  -- down for its rate.
  unfoldable pub poll_each :
      ℕ → List PollableAccount → ℤ → W → UsageCache → List Told → (limited polled : ℕ) → Poll W
  poll_each rounds [] now w cache told limited polled =
      stop w cache told (limited == polled && ltb 0 polled)
  poll_each rounds (account ∷ accounts) now w cache told limited polled =
      let p = poll_single_account rounds account now w cache in
      elim p.result [
        | none ↦ still_running p.world p.cache (told ++ p.told)
        | some b ↦
            poll_each rounds accounts now p.world p.cache (told ++ p.told)
              (if b then (limited + 1) % 2 ^ 32 else limited) ((polled + 1) % 2 ^ 32)
      ]

  unfoldable pub poll_all_accounts : ℕ → List PollableAccount → ℤ → W → UsageCache → Poll W
  poll_all_accounts rounds accounts now w cache = poll_each rounds accounts now w cache [] 0 0

-- The seconds to the next cycle and the multiplier after one.
unfoldable pub next_cycle : ℕ → Bool → ℕ × ℕ
next_cycle backoff_multiplier all_rate_limited =
    if all_rate_limited
    then (300 * min (backoff_multiplier * 2) 7, min (backoff_multiplier * 2) 7)
    else (300, 1)
