-- ===== src/Api/Limits.antt =====
-- `RunLimits` of packages/api/src/run.rs. A Duration is a number of nanoseconds.
mod Tests
use mona_agent_core.Prelude.{ℕ, ◌*◌, ◌≤◌, ◌≡◌, refl, ◌↔◌, Bool, false, ◌||◌, arith, ltb, ◌==◌}
use mona_agent_core.Api.Error.{ErrorCode, Result, ok, error, refuse, ◌>>◌, refuse-eq-ok, >>=-eq-ok}

abbrev pub max_tool_calls_per_step : ℕ
max_tool_calls_per_step = 4096

pub data AuditMode : Type 0 where
  full metadata : AuditMode

pub record ModelRetryPolicy : Type 0 where
  pub max_retries : ℕ
  pub initial_delay : ℕ
  pub max_delay : ℕ

pub record RunLimits : Type 0 where
  pub max_steps : ℕ
  pub max_parallel_tools : ℕ
  pub model_timeout : ℕ
  pub tool_timeout : ℕ
  pub hook_timeout : ℕ
  pub context_timeout : ℕ
  pub checkpoint_timeout : ℕ
  pub max_checkpoint_bytes : ℕ
  pub cancellation_grace : ℕ
  pub max_initial_history_bytes : ℕ
  pub max_history_bytes : ℕ
  pub max_context_bytes : ℕ
  pub max_response_bytes : ℕ
  pub max_tool_result_bytes : ℕ
  pub max_audit_bytes : ℕ
  pub max_output_tokens : ℕ
  pub max_tools_per_step : ℕ
  pub model_retry : ModelRetryPolicy
  pub audit_mode : AuditMode

-- Duration::from_millis and Duration::from_secs
abbrev millis : ℕ → ℕ
millis n = n * 1000000

abbrev secs : ℕ → ℕ
secs n = n * 1000000000

-- ModelRetryPolicy::default
unfoldable pub default_retry : ModelRetryPolicy
default_retry = record { max_retries = 0; initial_delay = millis 500; max_delay = secs 10 }

-- RunLimits::default
unfoldable pub default_limits : RunLimits
unfolding default_retry
default_limits = record {
  max_steps = 16;
  max_parallel_tools = 4;
  model_timeout = secs 90;
  tool_timeout = secs 30;
  hook_timeout = secs 5;
  context_timeout = secs 60;
  checkpoint_timeout = secs 5;
  max_checkpoint_bytes = 8 * 1024 * 1024;
  cancellation_grace = millis 200;
  max_initial_history_bytes = 4 * 1024 * 1024;
  max_history_bytes = 8 * 1024 * 1024;
  max_context_bytes = 256 * 1024;
  max_response_bytes = 1024 * 1024;
  max_tool_result_bytes = 64 * 1024;
  max_audit_bytes = 4 * 1024 * 1024;
  max_output_tokens = 4096;
  max_tools_per_step = 32;
  model_retry = default_retry;
  audit_mode = full;
}

is_zero : ℕ → Bool
is_zero n = n == 0

unusable : RunLimits → Bool
unfolding is_zero
unusable l =
    is_zero l.max_steps
    || is_zero l.max_parallel_tools
    || ltb l.max_initial_history_bytes l.max_context_bytes
    || is_zero l.max_context_bytes
    || ltb l.max_history_bytes 128
    || is_zero l.max_response_bytes
    || ltb l.max_tool_result_bytes 128
    || is_zero l.max_checkpoint_bytes
    || is_zero l.checkpoint_timeout
    || is_zero l.max_audit_bytes
    || is_zero l.max_output_tokens
    || is_zero l.max_tools_per_step
    || is_zero l.model_timeout
    || is_zero l.tool_timeout
    || is_zero l.hook_timeout
    || is_zero l.context_timeout
    || is_zero l.model_retry.initial_delay
    || is_zero l.model_retry.max_delay
    || ltb l.model_retry.max_delay l.model_retry.initial_delay

-- RunLimits::validate
unfoldable pub validate : RunLimits → Result (Unit {0})
unfolding unusable
validate l = do
  refuse (ltb max_tool_calls_per_step l.max_tools_per_step)
      (error ErrorCode.configuration "max_tools_per_step must be at most 4096")
  refuse (unusable l)
      (error ErrorCode.configuration "run limits must be positive; tool result cap must be >= 128")
