-- ===== src/Router.antt =====
-- crates/proxy/src/proxy.rs: `proxy_request` up to the call of an account, with the reading of its
-- routing headers in crates/proxy/src/handler.rs. `none` stands for a panic of the load balancer.
pub mod Serving
pub mod Replies
use better_ccflare_rs.Base.{
  and_then, ℕ, zero, suc, ◌+◌, ◌-◌, ◌*◌, ◌/◌, ◌≤◌, ◌<◌, min, max, String, ◌≡◌, refl, sym, ap, subst,
  ◌∙◌, ◌≢◌, ◌↔◌, ◌⊎◌, inl, inr, Bool, true, false, not, ◌&&◌, ◌||◌, Option, none, some, List, [],
  ◌∷◌, ◌++◌, map, arith, str_eq, str_eq_iff, ltb, leb, ◌==◌, if◌then◌else◌, Bool-cases, length,
  take, get_elem?, filter, any, In, All, Pairs, All-In, All-of_In, Yields, Ensures, all, ◌^◌,
  length-append, length-take,
}
use better_ccflare_rs.Base.Int.{ℤ}
use better_ccflare_rs.Base.Sort.{sort_by}
use better_ccflare_rs.Account.{Account, UsageMap}
use better_ccflare_rs.Auth.{AuthInfo, KeyScope, is_proxy}
use better_ccflare_rs.RequestPath.{is_safe_request_path}
use better_ccflare_rs.Polling.{AnyUsageData, routing_info}
use better_ccflare_rs.Balancer.{
  SelectionMeta, SessionReset, SessionStrategy, Selection, select, by_priority,
}
use better_ccflare_rs.Failover.{AccountResult, Failover, try_accounts_in_order}

-- `headers.get(name)` with the text of the value, where it is visible ASCII.
abbrev pub Headers : Type 0
Headers = String → Option String

abbrev pub is_true : Option String → Bool
is_true none = false
is_true (some s) = str_eq s "true"

unfoldable pub get_force_account_id : Headers → Option String
get_force_account_id headers = headers "x-better-ccflare-account-id"

unfoldable pub is_session_bypass : Headers → Bool
is_session_bypass headers = is_true (headers "x-better-ccflare-bypass-session")

unfoldable pub is_proxy_key : AuthInfo → Bool
is_proxy_key auth_info = elim auth_info.key_scope [ none ↦ false | some scope ↦ is_proxy scope ]

unfoldable pub selection_meta : AuthInfo → Headers → SelectionMeta
selection_meta auth_info headers =
    if is_proxy_key auth_info
    then record { force_account_id = none; force_account_strict = false; bypass_session = false }
    else record {
      force_account_id = get_force_account_id headers;
      force_account_strict = is_true (headers "x-better-ccflare-force-account-strict");
      bypass_session = is_session_bypass headers;
    }

-- What the cache of usage answers for an account's id, where there is a cache.
abbrev pub Usage : Type 0
Usage = Option (String → Option AnyUsageData)

unfoldable pub usage_map : (String → Option ℤ) → Usage → List Account → UsageMap
usage_map parse_time none accounts id = none
usage_map parse_time (some cached) accounts id =
    if any (λ a. str_eq a.id id) accounts
    then and_then (cached id) (routing_info parse_time)
    else none

-- The order of the accounts, the sessions to reset, and the load balancer afterwards.
pub record Ordered : Type 0 where
  pub accounts : List Account
  pub resets : List SessionReset
  pub load_balancer : Option SessionStrategy

abbrev pub by_balancer : Selection → Ordered
by_balancer r = record { accounts = r.accounts; resets = r.resets; load_balancer = some r.strategy }

unfoldable pub order_accounts :
    Option SessionStrategy → List Account → UsageMap → SelectionMeta → ℤ → Option Ordered
order_accounts none accounts usage meta now =
    some (record { accounts = sort_by by_priority accounts; resets = []; load_balancer = none })
order_accounts (some s) accounts usage meta now =
    and_then (select s accounts usage meta now) (λ r. some (by_balancer r))

pub data Refusal : Type 0 where
  not_authenticated too_many_requests invalid_path body_too_large : Refusal
  database_missing load_failed no_accounts none_available all_failed : Refusal

-- A refusal, or an answer with the id of the account whose use is recorded.
pub data Reply (Response : Type 0) : Type 0 where
  refused : Refusal → Reply Response
  proxied : Response → String → Reply Response

-- What is there when the request comes: a permit of the semaphore (`true` where there is none), the
-- body (`none` where it is too long), and the accounts, with what is missing otherwise.
pub record Arrival : Type 0 where
  pub auth_info : AuthInfo
  pub permit : Bool
  pub path : List ℕ
  pub headers : Headers
  pub body_fits : Bool
  pub database : Bool
  pub loaded : Option (List Account)
  pub cached : Usage
  pub load_balancer : Option SessionStrategy

pub record Routed (Response : Type 0) : Type 0 where
  pub reply : Reply Response
  pub resets : List SessionReset
  pub load_balancer : Option SessionStrategy

module _ {Response RateLimitInfo : Type 0}
    (try_account : Account → ℕ → AccountResult Response RateLimitInfo) where
  abbrev pub reply_of : Option (Response × String) → Reply Response
  reply_of none = refused all_failed
  reply_of (some (response, id)) = proxied response id

  abbrev pub serve_list : List Account → Reply Response
  serve_list [] = refused none_available
  serve_list (a ∷ rest) = reply_of (try_accounts_in_order try_account (a ∷ rest)).answer

  abbrev pub serve : Ordered → Routed Response
  serve o = record {
    reply = serve_list o.accounts;
    resets = o.resets;
    load_balancer = o.load_balancer;
  }

  abbrev pub refuse : Arrival → Refusal → Option (Routed Response)
  refuse r why = some (record { reply = refused why; resets = []; load_balancer = r.load_balancer })

  unfoldable pub route_to :
      (String → Option ℤ) → Arrival → ℤ → List Account → Option (Routed Response)
  route_to parse_time r now [] = refuse r no_accounts
  route_to parse_time r now (a ∷ rest) =
      let accounts = a ∷ rest in
      and_then
        (order_accounts r.load_balancer accounts (usage_map parse_time r.cached accounts)
          (selection_meta r.auth_info r.headers) now)
        (λ o. some (serve o))

  unfoldable pub load_and_route : (String → Option ℤ) → Arrival → ℤ → Option (Routed Response)
  load_and_route parse_time r now =
      if not r.database then refuse r database_missing else (elim r.loaded [
        | none ↦ refuse r load_failed
        | some accounts ↦ route_to parse_time r now accounts
      ])

  unfoldable pub proxy_request : (String → Option ℤ) → Arrival → ℤ → Option (Routed Response)
  proxy_request parse_time r now =
      if not r.auth_info.is_authenticated
      then refuse r not_authenticated
      else if not r.permit
      then refuse r too_many_requests
      else if not (is_safe_request_path r.path)
      then refuse r invalid_path
      else if not r.body_fits
      then refuse r body_too_large
      else load_and_route parse_time r now
