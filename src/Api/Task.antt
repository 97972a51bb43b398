-- ===== src/Api/Task.antt =====
-- packages/api/src/run.rs: `TaskControl`, the limits and the account that the branches of one task share.
-- A handle is the immutable part of the reference-counted `TaskInner`, linked to its parent; `cell` is
-- the address of its counters in the heap. Cancellation tokens (tokio_util) and the clock are arguments.
-- A Duration is a number of nanoseconds, and the lock of the statistics is never poisoned.
mod Chain
pub mod Account
pub mod Rollup
pub mod Quota
mod Tests
use mona_agent_core.Prelude.{
  ℕ, ◌+◌, ◌/◌, ◌%◌, min, Bool, false, not, Option, none, some, ltb, leb, ◌==◌, if◌then◌else◌,
  usize_max, saturating_add,
}
use mona_agent_core.Api.Error.{ErrorCode, Result, ok, err, error, refuse, ◌>>=◌, ◌>>◌}

-- fetch_add wraps.
unfoldable pub wrapping_add : ℕ → ℕ → ℕ
wrapping_add a b = (a + b) % 18446744073709551616

-- as_millis().min(u64::MAX as u128) as u64
unfoldable pub millis : ℕ → ℕ
millis nanos = min (nanos / 1000000) usize_max

pub record TaskLimits : Type 0 where
  pub wall_time : ℕ
  pub max_model_calls : ℕ
  pub max_reported_tokens : Option ℕ

pub record ContextUsage : Type 0 where
  pub tokens : Option ℕ
  pub capacity : Option ℕ
  pub provider_anchored : Bool
  pub observed_at : ℕ
  pub system_tokens : Option ℕ
  pub tool_tokens : Option ℕ
  pub message_tokens : Option ℕ

pub record RunStatistics : Type 0 where
  pub input_tokens : ℕ
  pub output_tokens : ℕ
  pub cache_read_tokens : Option ℕ
  pub cache_write_tokens : Option ℕ
  pub model_time_ms : ℕ
  pub tool_time_ms : ℕ
  pub ttft_ms : ℕ
  pub ttft_samples : ℕ
  pub decode_ms : ℕ
  pub decode_tokens : ℕ
  pub context : Option ContextUsage

-- RunStatistics::default
unfoldable pub no_statistics : RunStatistics
no_statistics = record {
  input_tokens = 0;
  output_tokens = 0;
  cache_read_tokens = some 0;
  cache_write_tokens = some 0;
  model_time_ms = 0;
  tool_time_ms = 0;
  ttft_ms = 0;
  ttft_samples = 0;
  decode_ms = 0;
  decode_tokens = 0;
  context = none;
}

pub record Usage : Type 0 where
  pub input_tokens : ℕ
  pub output_tokens : ℕ
  pub cache_read_tokens : Option ℕ
  pub cache_write_tokens : Option ℕ

-- Usage::total
unfoldable pub total : Usage → ℕ
total u = saturating_add u.input_tokens u.output_tokens

-- The counters of one TaskInner.
pub record Counters : Type 0 where
  pub calls : ℕ
  pub tokens : ℕ
  pub usage_incomplete : Bool
  pub statistics : RunStatistics

unfoldable pub zeroed : Counters
unfolding no_statistics
zeroed = record { calls = 0; tokens = 0; usage_incomplete = false; statistics = no_statistics }

pub record TaskInner : Type 0 where
  pub limits : TaskLimits
  pub deadline : ℕ
  pub cell : ℕ

pub data TaskControl : Type 0 where
  root : TaskInner → TaskControl
  child : TaskInner → TaskControl → TaskControl

abbrev pub inner : TaskControl → TaskInner
inner (root i) = i
inner (child i parent) = i

abbrev pub Heap : Type 0
Heap = ℕ → Counters

unfoldable pub write : Heap → ℕ → Counters → Heap
write h cell c other = if other == cell then c else h other

-- TaskControl::new
unfoldable pub new : Heap → ℕ → ℕ → TaskLimits → TaskControl × Heap
unfolding write zeroed
new h fresh now limits = (
  root (record { limits = limits; deadline = now + limits.wall_time; cell = fresh }),
  write h fresh zeroed,
)

-- TaskControl::branch
unfoldable pub branch : Heap → ℕ → TaskControl → TaskControl × Heap
unfolding write zeroed
branch h fresh t = (child (record (inner t) { cell = fresh }) t, write h fresh zeroed)

-- max_reported_tokens.is_some_and(|n| tokens >= n)
broken : Option ℕ → ℕ → Bool
broken none tokens = false
broken (some n) tokens = leb n tokens

unfoldable pub counted : Counters → Counters
unfolding wrapping_add
counted c = record c { calls = wrapping_add c.calls 1 }

-- One more call in a cell.
unfoldable pub count_call : Heap → ℕ → Heap
unfolding write counted
count_call h cell = write h cell (counted (h cell))

module _ (is_cancelled : TaskControl → Bool) (now : ℕ) where
  -- The tests that `check` makes on one level.
  check_own : Heap → TaskControl → Result (Unit {0})
  unfolding broken
  check_own h t = do
    refuse (is_cancelled t) (error ErrorCode.cancelled "task cancelled")
    refuse (leb (inner t).deadline now) (error ErrorCode.deadline "task deadline reached")
    refuse (broken (inner t).limits.max_reported_tokens (h (inner t).cell).tokens)
        (error ErrorCode.limit "reported-token circuit breaker reached")

  -- TaskControl::check
  unfoldable pub check : Heap → TaskControl → Result (Unit {0})
  unfolding check_own
  check h (root i) = check_own h (root i)
  check h (child i parent) = do check h parent; check_own h (child i parent)

  -- TaskControl::check_model_call_available
  unfoldable pub check_model_call_available : Heap → TaskControl → Result (Unit {0})
  unfolding check
  check_model_call_available h (root i) = do
    check h (root i)
    refuse (leb i.limits.max_model_calls (h i.cell).calls)
        (error ErrorCode.limit "task model-call limit reached")
  check_model_call_available h (child i parent) = do
    check h (child i parent)
    check_model_call_available h parent

  -- TaskControl::reserve_model_call
  unfoldable pub reserve_model_call : Heap → TaskControl → Result Heap
  unfolding check
  reserve_model_call h (root i) = do
    check h (root i)
    refuse (not (ltb (h i.cell).calls i.limits.max_model_calls))
        (error ErrorCode.limit "task model-call limit reached")
    ok (count_call h i.cell)
  reserve_model_call h (child i parent) = do
    check h (child i parent)
    reserved ← reserve_model_call h parent
    ok (count_call reserved i.cell)
