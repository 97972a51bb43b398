-- ===== src/Api/Task/Account.antt =====
-- The account of `TaskControl` in packages/api/src/run.rs: usage and timing of a branch roll up to its
-- parents, context observations stay in the branch.
use mona_agent_core.Prelude.{ℕ, ◌-◌, true, Option, none, some, saturating_add}
use mona_agent_core.Api.Task.{
  TaskControl, root, child, inner, Heap, write, Counters, RunStatistics, ContextUsage, Usage, total,
  millis,
}

-- and_then(|total| value.map(|n| total.saturating_add(n)))
unfoldable pub add_known : Option ℕ → Option ℕ → Option ℕ
add_known none o = none
add_known (some a) none = none
add_known (some a) (some b) = some (saturating_add a b)

-- `if let Some(value) = usage { … } else { … }`
unfoldable pub with_usage : Option Usage → RunStatistics → RunStatistics
unfolding add_known
with_usage (some u) s = record s {
  input_tokens = saturating_add s.input_tokens u.input_tokens;
  output_tokens = saturating_add s.output_tokens u.output_tokens;
  cache_read_tokens = add_known s.cache_read_tokens u.cache_read_tokens;
  cache_write_tokens = add_known s.cache_write_tokens u.cache_write_tokens;
}
with_usage none s = record s { cache_read_tokens = none; cache_write_tokens = none }

-- elapsed, first_token, output_tokens
pub record Timing : Type 0 where
  pub elapsed : ℕ
  pub first_token : Option ℕ
  pub output_tokens : Option ℕ

-- `if let Some(tokens) = output_tokens`
with_decode : ℕ → ℕ → Option ℕ → RunStatistics → RunStatistics
with_decode elapsed first none s = s
with_decode elapsed first (some tokens) s = record s {
  decode_ms = saturating_add s.decode_ms (millis (elapsed - first));
  decode_tokens = saturating_add s.decode_tokens tokens;
}

-- `if let Some(first) = first_token`
with_first : ℕ → Option ℕ → Option ℕ → RunStatistics → RunStatistics
unfolding with_decode
with_first elapsed none tokens s = s
with_first elapsed (some first) tokens s = with_decode elapsed first tokens (record s {
  ttft_ms = saturating_add s.ttft_ms (millis first);
  ttft_samples = saturating_add s.ttft_samples 1;
})

-- `if let Some((elapsed, first_token, output_tokens)) = timing`
unfoldable pub with_timing : Option Timing → RunStatistics → RunStatistics
unfolding with_first
with_timing none s = s
with_timing (some t) s =
    with_first t.elapsed t.first_token t.output_tokens
      (record s { model_time_ms = saturating_add s.model_time_ms (millis t.elapsed) })

-- What record_attempt does to the counters of one task.
unfoldable pub attempt : Option Usage → Option Timing → Counters → Counters
unfolding with_usage with_timing
attempt (some u) timing c = record c {
  statistics = with_timing timing (with_usage (some u) c.statistics);
  tokens = saturating_add c.tokens (total u);
}
attempt none timing c = record c {
  statistics = with_timing timing (with_usage none c.statistics);
  usage_incomplete = true;
}

-- TaskControl::record_attempt
unfoldable pub record_attempt : Heap → TaskControl → Option Usage → Option Timing → Heap
record_attempt h (root i) usage timing = write h i.cell (attempt usage timing (h i.cell))
record_attempt h (child i parent) usage timing =
    record_attempt (write h i.cell (attempt usage timing (h i.cell))) parent usage timing

-- TaskControl::record_usage
unfoldable pub record_usage : Heap → TaskControl → Option Usage → Heap
record_usage h t usage = record_attempt h t usage none

unfoldable pub incomplete : Counters → Counters
incomplete c = record c { usage_incomplete = true }

-- TaskControl::mark_usage_incomplete
unfoldable pub mark_usage_incomplete : Heap → TaskControl → Heap
unfolding incomplete
mark_usage_incomplete h (root i) = write h i.cell (incomplete (h i.cell))
mark_usage_incomplete h (child i parent) =
    mark_usage_incomplete (write h i.cell (incomplete (h i.cell))) parent

-- The statistics of a task after `elapsed` in a tool.
unfoldable pub tool_time : ℕ → Counters → Counters
tool_time elapsed c = record c {
  statistics = record c.statistics {
    tool_time_ms = saturating_add c.statistics.tool_time_ms (millis elapsed);
  };
}

-- TaskControl::record_tool_timing
unfoldable pub record_tool_timing : Heap → TaskControl → ℕ → Heap
unfolding tool_time
record_tool_timing h (root i) elapsed = write h i.cell (tool_time elapsed (h i.cell))
record_tool_timing h (child i parent) elapsed =
    record_tool_timing (write h i.cell (tool_time elapsed (h i.cell))) parent elapsed

-- TaskControl::record_context
unfoldable pub record_context : Heap → TaskControl → ContextUsage → Heap
record_context h t context = write h (inner t).cell (record (h (inner t).cell) {
  statistics = record (h (inner t).cell).statistics { context = some context };
})

anchored : ℕ → Option ContextUsage → Option ContextUsage
anchored input_tokens none = none
anchored input_tokens (some c) =
    some (record c { tokens = some input_tokens; provider_anchored = true })

-- TaskControl::anchor_context
unfoldable pub anchor_context : Heap → TaskControl → ℕ → Heap
unfolding anchored
anchor_context h t input_tokens = write h (inner t).cell (record (h (inner t).cell) {
  statistics = record (h (inner t).cell).statistics {
    context = anchored input_tokens (h (inner t).cell).statistics.context;
  };
})
