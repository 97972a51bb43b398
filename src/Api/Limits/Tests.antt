-- ===== src/Api/Limits/Tests.antt =====
-- The default limits are accepted; a cap too small for its own notice is not.
use mona_agent_core.Prelude.{◌≡◌, refl, false}
use mona_agent_core.Api.Error.{ok, is_ok}
use mona_agent_core.Api.Limits.{default_limits, validate}

accepts_default : validate default_limits ≡ ok tt
unfolding validate default_limits
accepts_default = refl

refuses_small_cap : is_ok (validate (record default_limits { max_tool_result_bytes = 127 })) ≡ false
unfolding validate default_limits
refuses_small_cap = refl
