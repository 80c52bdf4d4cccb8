-- ===== src/Provider/Names.antt =====
-- The names of crates/core/src/providers.rs: printing and parsing a provider.
use better_ccflare_rs.Base.{◌≡◌, refl, String, some, arith, str_eq_iff}
use better_ccflare_rs.Provider.{Provider, to_string, from_str_loose}

-- The printed name of a provider parses to it.
pub from_str_loose-to_string : (p : Provider) → from_str_loose (to_string p) ≡ some p
unfolding from_str_loose to_string
from_str_loose-to_string Provider.anthropic = refl
from_str_loose-to_string _ = refl

-- A name that parses is the printed name of what it parses to.
pub to_string-from_str_loose :
    (s : String) (p : Provider) → from_str_loose s ≡ some p → to_string p ≡ s
unfolding from_str_loose to_string
to_string-from_str_loose s p h = ground (
  arith,
  str_eq_iff s "anthropic",
  str_eq_iff s "claude-console-api",
  str_eq_iff s "zai",
  str_eq_iff s "minimax",
  str_eq_iff s "anthropic-compatible",
  str_eq_iff s "openai-compatible",
  str_eq_iff s "nanogpt",
  str_eq_iff s "vertex-ai",
)
