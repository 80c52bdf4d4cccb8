-- ===== src/Examples/Polls.antt =====
-- Usage polls and the auto-refresh scheduler, on concrete answers.
use better_ccflare_rs.Base.{
  Bool, true, ◌↔◌, ℕ, ◌+◌, String, ◌≡◌, refl, sym, subst, ◌≢◌, ◌↔◌, ◌⊎◌, true, false, Option, none,
  some, [], ◌∷◌, arith, str_eq, if◌then◌else◌, length,
}
use better_ccflare_rs.Base.Int.{ℤ}
use better_ccflare_rs.Base.Maps.{get}
use better_ccflare_rs.Base.Double.{lit}
use better_ccflare_rs.Examples.{now, later}
use better_ccflare_rs.Account.{RoutingUsageInfo}
use better_ccflare_rs.Polling.{AnthropicUsageData, anthropic_routing_info}
use better_ccflare_rs.Polling.Highest.{
  Fractions, Mirrors, rated, NoneAbove, Source, routing_highest,
}
use better_ccflare_rs.Polling.Service.{
  Upstream, PollableAccount, RefreshedToken, renewed, unauthorized, ok, AnthropicUsageResult,
  oauth_loop, poll_single_account,
}
use better_ccflare_rs.Polling.Rounds.{RenewedAccepted, polls_forever, two_rounds}
use better_ccflare_rs.AutoRefresh.{RefreshableAccount, SchedulerState, should_refresh}
use better_ccflare_rs.AutoRefresh.Windows.{Calls, should_refresh_iff}

abbrev pollable : PollableAccount
pollable = record {
  id = "work";
  provider = "anthropic";
  access_token = some "access";
  refresh_token = some "refresh";
  client_id = some "client";
  api_key = none;
  custom_endpoint = none;
  paused = false;
}

abbrev fresh_token : RefreshedToken
fresh_token = record { access_token = "new"; refresh_token = "refresh"; expires_at = none }

-- The usage endpoint turns the account down for good, while its tokens can be renewed.
abbrev closed : Upstream ℕ
closed = record {
  fetch_anthropic_usage = λ n token. (n + 1, unauthorized);
  refresh_oauth_token = λ n rt cid. (n + 1, renewed fresh_token);
  fetch_usage_for_provider = λ n provider token endpoint. (n + 1, none);
}

polls_forever_example :
    ((oauth_loop closed 100 pollable now 0 [] [] "access").result ≡ none)
    × (length (oauth_loop closed 100 pollable now 0 [] [] "access").told ≡ 100)
polls_forever_example =
    polls_forever closed (λ w token. refl) (λ w rt cid. (fresh_token, refl)) 100 pollable "refresh"
      "client" refl refl now 0 [] [] "access"

-- Only the new token is good.
abbrev answer : String → AnthropicUsageResult
answer token = if str_eq token "new" then ok [] else unauthorized

abbrev expired : Upstream ℕ
expired = record {
  fetch_anthropic_usage = λ n token. (n + 1, answer token);
  refresh_oauth_token = λ n rt cid. (n + 1, renewed fresh_token);
  fetch_usage_for_provider = λ n provider token endpoint. (n + 1, none);
}

new_accepted : RenewedAccepted expired
new_accepted w rt cid t h k =
    let same : fresh_token ≡ t = ground arith in
    ok_differs (subst (λ x. answer x.access_token ≡ unauthorized) (sym same) k)
  where
    ok_differs : ok [] ≢ unauthorized
    ok_differs e = cc

two_rounds_example : (poll_single_account expired 2 pollable now 0 []).result ≢ none
two_rounds_example = two_rounds expired new_accepted 0 pollable now 0 []

abbrev windows : AnthropicUsageData
windows =
    record { key = "five_hour"; utilization = some (lit 40 1); resets_at = none }
    ∷ record { key = "seven_day"; utilization = some (lit 75 1); resets_at = some "later" }
    ∷ []

abbrev parse : String → Option ℤ
parse s = some later

routing_highest_example :
    (info : RoutingUsageInfo) × (fractions : Bool) × (anthropic_routing_info parse windows
      ≡ some info)
    × ((fractions ≡ true) ↔ Fractions windows)
    × Mirrors parse fractions (rated windows) info.windows
    × NoneAbove info.utilization_pct info.windows
    × Source info.utilization_pct info.resets_at_ms info.windows
routing_highest_example = routing_highest parse windows

abbrev account : RefreshableAccount
account = record { id = "work"; name = "work"; rate_limit_reset = some later }

abbrev seen : SchedulerState
seen = record {
  last_refresh_reset = ("work", now) ∷ [];
  consecutive_failures = [];
  backoff_multiplier = 1;
}

should_refresh_iff_example :
    (should_refresh seen account now ≡ true)
    ↔ ((get "work" (("work", now) ∷ []) ≡ none) ⊎ Calls seen account now)
should_refresh_iff_example = should_refresh_iff seen account now
