-- ===== src/Account.antt =====
-- crates/core/src/types.rs: the account record and the usage that the router reads.
use better_ccflare_rs.Base.{Bool, String, Option, List}
use better_ccflare_rs.Base.Int.{ℤ}
use better_ccflare_rs.Base.Float.{F64}

pub record Account : Type 0 where
  pub id : String
  pub name : String
  pub provider : String
  pub api_key : Option String
  pub refresh_token : String
  pub access_token : Option String
  pub expires_at : Option ℤ
  pub request_count : ℤ
  pub total_requests : ℤ
  pub last_used : Option ℤ
  pub created_at : ℤ
  pub rate_limited_until : Option ℤ
  pub session_start : Option ℤ
  pub session_request_count : ℤ
  pub paused : Bool
  pub rate_limit_reset : Option ℤ
  pub rate_limit_status : Option String
  pub rate_limit_remaining : Option ℤ
  pub priority : ℤ
  pub auto_fallback_enabled : Bool
  pub auto_refresh_enabled : Bool
  pub custom_endpoint : Option String
  pub model_mappings : Option String
  pub reserve_5h : ℤ
  pub reserve_weekly : ℤ
  pub reserve_hard : Bool
  pub subscription_tier : Option String
  pub email : Option String
  pub refresh_token_updated_at : Option ℤ
  pub is_shared : Bool
  pub overage_protection : Bool

pub data WindowKind : Type 0 where
  five_hour weekly other : WindowKind

pub record WindowUsage : Type 0 where
  pub kind : WindowKind
  pub utilization_pct : F64
  pub resets_at_ms : Option ℤ

pub record RoutingUsageInfo : Type 0 where
  pub utilization_pct : F64
  pub resets_at_ms : Option ℤ
  pub windows : List WindowUsage

-- `HashMap<String, RoutingUsageInfo>`: what `get` answers at each account id.
abbrev pub UsageMap : Type 0
UsageMap = String → Option RoutingUsageInfo
