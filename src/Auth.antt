-- ===== src/Auth.antt =====
-- crates/proxy/src/auth.rs: who may pass, with the caches of key checks. A request is one instant of a
-- clock in milliseconds; locks and log lines are left out. The database, the hash of the cache, the
-- check of a key against a stored hash and the decoding of base64 are arguments; the environment's
-- password is a setting.
pub mod Paths
pub mod Keys
pub mod Middleware
pub mod Admission
pub mod Freshness
use better_ccflare_rs.Base.{
  ℕ, zero, suc, ◌+◌, ◌-◌, ◌*◌, ◌/◌, ◌≤◌, ◌<◌, min, max, String, ◌≡◌, refl, sym, ap, subst, ◌∙◌, ◌≢◌,
  ◌↔◌, ◌⊎◌, inl, inr, Bool, true, false, not, ◌&&◌, ◌||◌, Option, none, some, List, [], ◌∷◌, ◌++◌,
  map, arith, str_eq, str_eq_iff, ltb, leb, ◌==◌, if◌then◌else◌, Bool-cases, length, take,
  get_elem?, filter, any, In, All, Pairs, All-In, All-of_In, Yields, Ensures, all, ◌^◌,
  length-append, length-take,
}
use better_ccflare_rs.Base.Text.{codes, starts_with, strip_prefix, trim, same, from_utf8}
use better_ccflare_rs.Limiter.{Tracker}

-- crates/core/src/types.rs.
pub data KeyScope : Type 0 where
  admin proxy : KeyScope

unfoldable pub from_db : String → KeyScope
from_db s = if str_eq s "proxy" then proxy else admin

abbrev pub is_proxy : KeyScope → Bool
is_proxy proxy = true
is_proxy admin = false

pub record AuthInfo : Type 0 where
  pub is_authenticated : Bool
  pub api_key_id : Option String
  pub api_key_name : Option String
  pub key_scope : Option KeyScope

-- A header's value: its text, where it is visible ASCII.
abbrev pub HeaderValue : Type 0
HeaderValue = Option (List ℕ)

pub record Request : Type 0 where
  pub path : List ℕ
  pub method : String
  pub headers : String → Option HeaderValue

-- What a verified key is: its id, its name and its scope.
pub record KeyResult : Type 0 where
  pub id : String
  pub name : String
  pub scope : KeyScope

pub record CachedKeyResult : Type 0 where
  pub result : Option KeyResult
  pub verified_at : ℕ

pub record AuthEnabledCache : Type 0 where
  pub enabled : Bool
  pub checked_at : ℕ

-- A row of the active API keys.
pub record KeyRow : Type 0 where
  pub id : String
  pub name : String
  pub hashed_key : String
  pub scope : Option String
