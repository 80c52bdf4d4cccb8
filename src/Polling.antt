-- ===== src/Polling.antt =====
-- crates/providers/src/usage_polling.rs: usage data, what the balancer reads of it, and its cache. A
-- JSON value is what the code reads of it; the parser of time stamps is an argument.
pub mod Service
pub mod Highest
pub mod Rounds
use better_ccflare_rs.Base.{
  or_else, and_then, ℕ, zero, suc, ◌+◌, ◌-◌, ◌*◌, ◌/◌, ◌≤◌, ◌<◌, min, max, String, ◌≡◌, refl, sym,
  ap, subst, ◌∙◌, ◌≢◌, ◌↔◌, ◌⊎◌, inl, inr, Bool, true, false, not, ◌&&◌, ◌||◌, Option, none, some,
  List, [], ◌∷◌, ◌++◌, map, arith, str_eq, str_eq_iff, ltb, leb, ◌==◌, if◌then◌else◌, Bool-cases,
  length, take, get_elem?, filter, any, In, All, Pairs, All-In, All-of_In, Yields, Ensures, all,
  ◌^◌, length-append, length-take,
}
use better_ccflare_rs.Base.Int.{ℤ, pos, ◌-ℤ◌, ltb_ℤ, leb_ℤ}
use better_ccflare_rs.Base.Float.{F64, neg_infinity, finite}
use better_ccflare_rs.Base.Double.{lit, ◌*f◌, leb_f, ltb_f, max_f}
use better_ccflare_rs.Base.Maps.{Map, get, set, remove}
use better_ccflare_rs.Account.{RoutingUsageInfo, WindowUsage, WindowKind}

abbrev pub zero_f : F64
zero_f = finite (pos 0)

-- An entry of the map: its key, and what `utilization` and `resets_at` are, where they are there.
pub record UsageEntry : Type 0 where
  pub key : String
  pub utilization : Option F64
  pub resets_at : Option String

abbrev pub AnthropicUsageData : Type 0
AnthropicUsageData = List UsageEntry

-- crates/providers/src/impls/nanogpt.rs and zai.rs: the fields that routing reads.
pub record NanoGptUsageWindow : Type 0 where
  pub percent_used : F64
  pub reset_at : ℤ

pub record NanoGptUsageData : Type 0 where
  pub active : Bool
  pub daily : NanoGptUsageWindow
  pub monthly : NanoGptUsageWindow

pub record ZaiUsageWindow : Type 0 where
  pub percentage : F64
  pub reset_at : Option ℤ

pub record ZaiUsageData : Type 0 where
  pub time_limit : Option ZaiUsageWindow
  pub tokens_limit : Option ZaiUsageWindow

pub data AnyUsageData : Type 0 where
  anthropic : AnthropicUsageData → AnyUsageData
  nanogpt : NanoGptUsageData → AnyUsageData
  zai : ZaiUsageData → AnyUsageData

-- The loops keep the highest value so far.
unfoldable pub highest : AnthropicUsageData → Option F64 → Option F64
highest [] max_util = max_util
highest (e ∷ data') max_util = elim e.utilization [
  | none ↦ highest data' max_util
  | some util ↦ elim max_util [
    | none ↦ highest data' (some util)
    | some m ↦ highest data' (some (max_f m util))
  ]
]

unfoldable pub anthropic_utilization : AnthropicUsageData → Option F64
anthropic_utilization data' = or_else (highest data' none) (some zero_f)

unfoldable pub restrictive : AnthropicUsageData → F64 → Option String → Option String
restrictive [] max_util max_name = max_name
restrictive (e ∷ data') max_util max_name = elim e.utilization [
  | none ↦ restrictive data' max_util max_name
  | some util ↦
      let rest = restrictive data' util (some e.key) in
      if ltb_f max_util util then rest else restrictive data' max_util max_name
]

unfoldable pub anthropic_representative_window : AnthropicUsageData → Option String
anthropic_representative_window data' = restrictive data' neg_infinity none

-- The utilizations that are there.
unfoldable pub utilizations : AnthropicUsageData → List F64
utilizations [] = []
utilizations (e ∷ data') = elim e.utilization [
  | none ↦ utilizations data'
  | some util ↦ util ∷ utilizations data'
]

-- Fractions or percentages, for the payload as a whole.
unfoldable pub fractional_mode : AnthropicUsageData → Bool
fractional_mode data' =
    any (ltb_f zero_f) (utilizations data') && all (λ u. leb_f u (lit 1 1)) (utilizations data')

unfoldable pub kind_of : String → WindowKind
kind_of key =
    if str_eq key "five_hour"
    then WindowKind.five_hour
    else if any (str_eq key) ("seven_day" ∷ "seven_day_opus" ∷ "seven_day_sonnet" ∷ [])
    then WindowKind.weekly
    else WindowKind.other

-- A window of an entry that has a utilization.
unfoldable pub window_of : (String → Option ℤ) → Bool → UsageEntry → Option WindowUsage
window_of parse_time fractional e = elim e.utilization [
  | none ↦ none
  | some util ↦ some (record {
    kind = kind_of e.key;
    utilization_pct = if fractional then util *f lit 100 1 else util;
    resets_at_ms = and_then e.resets_at parse_time;
  })
]

-- The loop over the entries, with the highest window so far.
unfoldable pub collect :
    (String → Option ℤ)
    → Bool
    → AnthropicUsageData
    → F64
    → Option ℤ
    → List WindowUsage
    → RoutingUsageInfo
collect parse_time fractional [] best_util best_reset windows = record {
  utilization_pct = best_util;
  resets_at_ms = best_reset;
  windows = windows;
}
collect parse_time fractional (e ∷ data') best_util best_reset windows =
    elim (window_of parse_time fractional e) [
      | none ↦ collect parse_time fractional data' best_util best_reset windows
      | some w ↦
          let above = ltb_f best_util w.utilization_pct in
          collect parse_time fractional data' (if above then w.utilization_pct else best_util)
            (if above then w.resets_at_ms else best_reset) (windows ++ (w ∷ []))
    ]

unfoldable pub anthropic_routing_info :
    (String → Option ℤ) → AnthropicUsageData → Option RoutingUsageInfo
anthropic_routing_info parse_time data' =
    some (collect parse_time (fractional_mode data') data' zero_f none [])

abbrev pub if_positive : ℤ → Option ℤ
if_positive t = if ltb_ℤ (pos 0) t then some t else none

abbrev pub nano_window : NanoGptUsageWindow → WindowUsage
nano_window w = record {
  kind = WindowKind.other;
  utilization_pct = w.percent_used *f lit 100 1;
  resets_at_ms = if_positive w.reset_at;
}

unfoldable pub nanogpt_routing_info : NanoGptUsageData → Option RoutingUsageInfo
nanogpt_routing_info data' =
    let daily = nano_window data'.daily in
    let monthly = nano_window data'.monthly in
    let first = leb_f monthly.utilization_pct daily.utilization_pct in
    if not data'.active
    then none
    else some (record {
      utilization_pct = if first then daily.utilization_pct else monthly.utilization_pct;
      resets_at_ms = if first then daily.resets_at_ms else monthly.resets_at_ms;
      windows = daily ∷ monthly ∷ [];
    })

unfoldable pub zai_routing_info : ZaiUsageData → Option RoutingUsageInfo
zai_routing_info data' = and_then data'.tokens_limit (λ w. some (record {
  utilization_pct = w.percentage;
  resets_at_ms = w.reset_at;
  windows =
      record { kind = WindowKind.other; utilization_pct = w.percentage; resets_at_ms = w.reset_at }
      ∷ [];
}))

unfoldable pub routing_info : (String → Option ℤ) → AnyUsageData → Option RoutingUsageInfo
routing_info parse_time (anthropic data') = anthropic_routing_info parse_time data'
routing_info parse_time (nanogpt data') = nanogpt_routing_info data'
routing_info parse_time (zai data') = zai_routing_info data'
