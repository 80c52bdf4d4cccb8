-- ===== src/Examples/Routes.antt =====
-- A request on its way through the proxy, on concrete accounts.
use better_ccflare_rs.Base.{ℕ, zero, suc, String, refl, true, Option, none, some, [], ◌∷◌, Yields}
use better_ccflare_rs.Base.Int.{ℤ, pos}
use better_ccflare_rs.Account.{Account}
use better_ccflare_rs.Auth.{proxy}
use better_ccflare_rs.Balancer.{new_strategy}
use better_ccflare_rs.Failover.{AccountResult, success, rate_limited}
use better_ccflare_rs.Router.{Arrival, selection_meta, is_proxy_key, proxy_request}
use better_ccflare_rs.Router.Replies.{Says, ready, proxy_request_lem}
use better_ccflare_rs.Examples.{work, home, now}

abbrev no_time : String → Option ℤ
no_time s = none

-- The first call is turned down, the others are answered with their number.
abbrev answer : Account → ℕ → AccountResult ℕ ℕ
answer a zero = rate_limited 60
answer a (suc n) = success (suc n)

abbrev arrival : Arrival
arrival = record {
  auth_info = record {
    is_authenticated = true;
    api_key_id = some "k";
    api_key_name = none;
    key_scope = some proxy;
  };
  permit = true;
  path = 47 ∷ 118 ∷ 49 ∷ [];
  headers = λ name. none;
  body_fits = true;
  database = true;
  loaded = some (work ∷ home ∷ []);
  cached = none;
  load_balancer = some (new_strategy (pos 18_000_000));
}

proxy_request_lem_example :
    Yields
      (λ q.
        Says answer arrival
          (work ∷ home ∷ [])
          (ready no_time arrival now (work ∷ home ∷ []))
          q.reply)
      (proxy_request answer no_time arrival now)
unfolding selection_meta is_proxy_key
proxy_request_lem_example =
    proxy_request_lem answer no_time arrival now (work ∷ home ∷ []) (new_strategy (pos 18_000_000))
      refl refl ((refl, tt), (tt, tt)) refl
