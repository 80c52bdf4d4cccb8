-- ===== src/Provider.antt =====
-- crates/core/src/providers.rs: the known providers, their names and configuration.
pub mod Names
use better_ccflare_rs.Base.{
  Bool, true, false, String, Option, none, some, str_eq, if◌then◌else◌, List, [], ◌∷◌, not,
}

pub data Provider : Type 0 where
  anthropic claude_console_api zai minimax : Provider
  anthropic_compatible openai_compatible nanogpt vertex_ai : Provider

-- `Display`.
unfoldable pub to_string : Provider → String
to_string anthropic = "anthropic"
to_string claude_console_api = "claude-console-api"
to_string zai = "zai"
to_string minimax = "minimax"
to_string anthropic_compatible = "anthropic-compatible"
to_string openai_compatible = "openai-compatible"
to_string nanogpt = "nanogpt"
to_string vertex_ai = "vertex-ai"

unfoldable pub from_str_loose : String → Option Provider
from_str_loose s =
    if str_eq s "anthropic"
    then some anthropic
    else if str_eq s "claude-console-api"
    then some claude_console_api
    else if str_eq s "zai"
    then some zai
    else if str_eq s "minimax"
    then some minimax
    else if str_eq s "anthropic-compatible"
    then some anthropic_compatible
    else if str_eq s "openai-compatible"
    then some openai_compatible
    else if str_eq s "nanogpt"
    then some nanogpt
    else if str_eq s "vertex-ai"
    then some vertex_ai
    else none

unfoldable pub all_providers : List Provider
all_providers =
    anthropic ∷ claude_console_api ∷ zai ∷ minimax ∷ anthropic_compatible ∷ openai_compatible
    ∷ nanogpt ∷ vertex_ai ∷ []

pub data AccountMode : Type 0 where
  claude_oauth console zai minimax : AccountMode
  anthropic_compatible openai_compatible nanogpt vertex_ai : AccountMode

unfoldable pub to_provider : AccountMode → Provider
to_provider AccountMode.claude_oauth = Provider.anthropic
to_provider AccountMode.console = Provider.claude_console_api
to_provider AccountMode.zai = Provider.zai
to_provider AccountMode.minimax = Provider.minimax
to_provider AccountMode.anthropic_compatible = Provider.anthropic_compatible
to_provider AccountMode.openai_compatible = Provider.openai_compatible
to_provider AccountMode.nanogpt = Provider.nanogpt
to_provider AccountMode.vertex_ai = Provider.vertex_ai

pub record ProviderConfig : Type 0 where
  pub requires_session_tracking : Bool
  pub supports_usage_tracking : Bool
  pub supports_oauth : Bool
  pub default_endpoint : String

unfoldable pub config : Provider → ProviderConfig
config anthropic = record {
  requires_session_tracking = true;
  supports_usage_tracking = true;
  supports_oauth = true;
  default_endpoint = "https://api.anthropic.com";
}
config claude_console_api = record {
  requires_session_tracking = false;
  supports_usage_tracking = false;
  supports_oauth = false;
  default_endpoint = "https://api.anthropic.com";
}
config zai = record {
  requires_session_tracking = false;
  supports_usage_tracking = true;
  supports_oauth = false;
  default_endpoint = "https://api.z.ai/api/anthropic";
}
config minimax = record {
  requires_session_tracking = false;
  supports_usage_tracking = false;
  supports_oauth = false;
  default_endpoint = "https://api.minimax.io/anthropic";
}
config anthropic_compatible = record {
  requires_session_tracking = false;
  supports_usage_tracking = false;
  supports_oauth = false;
  default_endpoint = "https://api.anthropic.com";
}
config openai_compatible = record {
  requires_session_tracking = false;
  supports_usage_tracking = false;
  supports_oauth = false;
  default_endpoint = "https://api.anthropic.com";
}
config nanogpt = record {
  requires_session_tracking = false;
  supports_usage_tracking = true;
  supports_oauth = false;
  default_endpoint = "https://nano-gpt.com/api";
}
config vertex_ai = record {
  requires_session_tracking = false;
  supports_usage_tracking = false;
  supports_oauth = false;
  default_endpoint = "https://aiplatform.googleapis.com";
}

-- Every provider but Anthropic's OAuth authenticates by an API key.
unfoldable pub uses_api_key : Provider → Bool
uses_api_key anthropic = false
uses_api_key _ = true

unfoldable pub get_default_endpoint : String → String
unfolding config from_str_loose
get_default_endpoint s = elim (from_str_loose s) [
  | some p ↦ (config p).default_endpoint
  | none ↦ "https://api.anthropic.com"
]
