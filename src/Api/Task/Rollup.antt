-- ===== src/Api/Task/Rollup.antt =====
-- Where the account of one task goes.
use mona_agent_core.Prelude.{ℕ, Option}
use mathlib.Core.List.{Nodup, Nodup-cons}
use mona_agent_core.Api.Task.{TaskControl, root, child, write, Heap, Usage}
use mona_agent_core.Api.Task.Chain.{cells, Applied, Applied-root, Applied-parent}
use mona_agent_core.Api.Task.Account.{
  Timing, attempt, record_attempt, mark_usage_incomplete, record_tool_timing, tool_time, incomplete,
}

pub record_attempt-Applied :
    (h : Heap) (t : TaskControl) (usage : Option Usage) (timing : Option Timing)
    → Nodup (cells t)
    → Applied (attempt usage timing) t h (record_attempt h t usage timing)
unfolding record_attempt
record_attempt-Applied h (root i) usage timing d = Applied-root (attempt usage timing) i h
record_attempt-Applied h (child i parent) usage timing d =
    Applied-parent (attempt usage timing) i parent h _ d (
      record_attempt-Applied (write h i.cell (attempt usage timing (h i.cell))) parent usage timing
        (Nodup-cons.0 d).1)

-- Unknown usage reaches every parent and no other task.
pub mark_usage_incomplete-Applied :
    (h : Heap) (t : TaskControl)
    → Nodup (cells t)
    → Applied incomplete t h (mark_usage_incomplete h t)
unfolding mark_usage_incomplete
mark_usage_incomplete-Applied h (root i) d = Applied-root incomplete i h
mark_usage_incomplete-Applied h (child i parent) d = Applied-parent incomplete i parent h _ d (
    mark_usage_incomplete-Applied (write h i.cell (incomplete (h i.cell))) parent
      (Nodup-cons.0 d).1)

pub record_tool_timing-Applied :
    (h : Heap) (t : TaskControl) (elapsed : ℕ)
    → Nodup (cells t)
    → Applied (tool_time elapsed) t h (record_tool_timing h t elapsed)
unfolding record_tool_timing
record_tool_timing-Applied h (root i) elapsed d = Applied-root (tool_time elapsed) i h
record_tool_timing-Applied h (child i parent) elapsed d =
    Applied-parent (tool_time elapsed) i parent h _ d (
      record_tool_timing-Applied (write h i.cell (tool_time elapsed (h i.cell))) parent elapsed
        (Nodup-cons.0 d).1)
