-- ===== src/XFactor/Cache.antt =====
-- crates/proxy/src/xfactor/mod.rs: the states of all accounts, and what the background task does to
-- them. The tables of the database and the data of the usage poll are arguments.
use better_ccflare_rs.Base.{
  String, Option, none, some, List, [], ◌∷◌, ◌++◌, map, str_eq, if◌then◌else◌,
}
use better_ccflare_rs.Base.Int.{ℤ, pos, ◌-ℤ◌, leb_ℤ}
use better_ccflare_rs.Base.Maps.{Map, get, set}
use better_ccflare_rs.Base.Float.{F64}
use better_ccflare_rs.Base.Double.{lit, from_int, ◌+f◌, ◌*f◌, ltb_f}
use better_ccflare_rs.Account.{Account}
use better_ccflare_rs.XFactor.{
  Math, AccountCapacityState, XFactorDbState, new, restore_from_db, to_db_state, model_weight,
  on_request, zero_f, window_5h_ms,
}
use better_ccflare_rs.XFactor.Posterior.{on_usage_poll}

abbrev pub XFactorCache : Type 0
XFactorCache = Map AccountCapacityState

-- `get_mut` of a map: the entry of a key is changed in its place.
unfoldable pub modify :
    String → (AccountCapacityState → AccountCapacityState) → XFactorCache → XFactorCache
modify k f [] = []
modify k f ((j, s) ∷ m) =
    let rest = modify k f m in if str_eq j k then (j, f s) ∷ m else (j, s) ∷ rest

unfoldable pub record_request : XFactorCache → String → Option String → ℤ → ℤ → XFactorCache
record_request cache account_id model total_tokens now_ms =
    let weighted = from_int total_tokens *f model_weight model in
    if leb_ℤ total_tokens (pos 0)
    then cache
    else modify account_id (λ s. on_request s now_ms weighted) cache

-- A request of the log: its time, its tokens and its model.
pub record RequestRow : Type 0 where
  pub ts_ms : ℤ
  pub raw_tokens : F64
  pub model : Option String

unfoldable pub rebuild_window : List RequestRow → AccountCapacityState → AccountCapacityState
rebuild_window [] s = s
rebuild_window (row ∷ rows) s =
    let wt = row.raw_tokens *f model_weight row.model in
    rebuild_window rows (
      if ltb_f zero_f wt
      then record s {
        window_5h = s.window_5h ++ ((row.ts_ms, wt) ∷ []);
        proxy_tokens_5h_weighted = s.proxy_tokens_5h_weighted +f wt;
      }
      else s)

unfoldable pub new_state : Math → Account → ℤ → AccountCapacityState
new_state math account now_ms =
    new math account.id account.name account.subscription_tier account.is_shared now_ms

-- `db_map.get`: the last of the states that were loaded for the account.
unfoldable pub db_state : String → List XFactorDbState → Option XFactorDbState
db_state id [] = none
db_state id (db ∷ rest) = elim (db_state id rest) [
  | some found ↦ some found
  | none ↦ if str_eq db.account_id id then some db else none
]

unfoldable pub restored : List XFactorDbState → AccountCapacityState → AccountCapacityState
restored db_states s = elim (db_state s.account_id db_states) [
  | none ↦ s
  | some db ↦ restore_from_db s db
]

-- No rows stand for a query that failed.
unfoldable pub with_window : Option (List RequestRow) → AccountCapacityState → AccountCapacityState
with_window none s = s
with_window (some rows) s = rebuild_window rows s

unfoldable pub initialize_cache :
    Math
    → List XFactorDbState
    → (String → ℤ → Option (List RequestRow))
    → ℤ
    → List Account
    → XFactorCache
    → XFactorCache
initialize_cache math db_states recent_requests now_ms [] cache = cache
initialize_cache math db_states recent_requests now_ms (account ∷ accounts) cache =
    let s : AccountCapacityState = restored db_states (new_state math account now_ms) in
    let rows = recent_requests account.id (now_ms -ℤ window_5h_ms) in
    initialize_cache math db_states recent_requests now_ms accounts
      (set account.id (with_window rows s) cache)

unfoldable pub add_missing : Math → ℤ → List Account → XFactorCache → XFactorCache
add_missing math now_ms [] cache = cache
add_missing math now_ms (account ∷ accounts) cache = elim (get account.id cache) [
  | some s ↦ add_missing math now_ms accounts cache
  | none ↦ add_missing math now_ms accounts (set account.id (new_state math account now_ms) cache)
]

-- A utilization below 2 counts as a fraction.
unfoldable pub normalise_utilization : F64 → F64
normalise_utilization util = if ltb_f util (lit 2 1) then util *f lit 100 1 else util

-- The poll of each account; `five_hour` is the five-hour utilization of Anthropic's usage data, where
-- there is one.
unfoldable pub poll_all : Math → (String → Option F64) → ℤ → XFactorCache → XFactorCache
poll_all math five_hour now_ms [] = []
poll_all math five_hour now_ms ((id, s) ∷ cache) =
    let rest = poll_all math five_hour now_ms cache in
    elim (five_hour id) [
      | none ↦ (id, s) ∷ rest
      | some util ↦ (id, on_usage_poll math s now_ms (normalise_utilization util)) ∷ rest
    ]

-- No accounts stand for a database that could not be read.
unfoldable pub update_from_usage_cache :
    Math → Option (List Account) → (String → Option F64) → ℤ → XFactorCache → XFactorCache
update_from_usage_cache math accounts five_hour now_ms cache = elim accounts [
  | none ↦ poll_all math five_hour now_ms cache
  | some accounts ↦ poll_all math five_hour now_ms (add_missing math now_ms accounts cache)
]

-- What is written to the database.
unfoldable pub persist_to_db : XFactorCache → List XFactorDbState
persist_to_db cache = map (λ e. to_db_state e.1) cache
