-- ===== src/Api/Checkpoint.antt =====
-- packages/api/src/checkpoint.rs, and `RunStatus` and `TaskUsage` of packages/api/src/run.rs.
use mona_agent_core.Prelude.{ℕ, Bool, not, Option, List}
use mona_agent_core.Prelude.Strings.{Str}
use mona_agent_core.Api.Error.{AgentError, ErrorCode}
use mona_agent_core.Api.Message.{Message, ToolResult}
use mona_agent_core.Api.Options.{ModelOptions}
use mona_agent_core.Api.Task.{RunStatistics, Heap, TaskControl, inner}

abbrev pub checkpoint_version : ℕ
checkpoint_version = 2

pub data RunStatus : Type 0 where
  completed failed cancelled timed_out limited : RunStatus

-- RunStatus::from_error
unfoldable pub from_error : AgentError → RunStatus
from_error e = elim e.code [
  | ErrorCode.cancelled ↦ RunStatus.cancelled
  | ErrorCode.deadline ↦ timed_out
  | ErrorCode.limit ↦ limited
  | _ ↦ failed
]

pub record TaskUsage : Type 0 where
  pub model_calls : ℕ
  pub reported_tokens : ℕ
  pub usage_complete : Bool

-- TaskControl::usage
unfoldable pub usage : Heap → TaskControl → TaskUsage
usage h t =
    let c = h (inner t).cell in
    record {
      model_calls = c.calls;
      reported_tokens = c.tokens;
      usage_complete = not c.usage_incomplete;
    }

-- TaskControl::accounting
unfoldable pub accounting : Heap → TaskControl → TaskUsage × RunStatistics
unfolding usage
accounting h t = (usage h t, (h (inner t).cell).statistics)

pub data CheckpointPhase : Type 0 where
  before_model input_applied after_model after_tools run_finished : CheckpointPhase
  tool_intent tool_settled : Str → CheckpointPhase

pub data CheckpointToolState (V : Type 0) : Type 0 where
  pending intent_recorded : CheckpointToolState V
  settled : ToolResult V → CheckpointToolState V

pub record RunCheckpoint (V F : Type 0) : Type 0 where
  pub schema_version : ℕ
  pub run_id : Str
  pub revision : ℕ
  pub phase : CheckpointPhase
  pub step : ℕ
  pub transcript : List (Message V)
  pub pending_tools : List (Str × CheckpointToolState V)
  pub selected_tools : List Str
  pub model_options : ModelOptions V F
  pub metadata : List (Str × Str)
  pub task_usage : TaskUsage
  pub statistics : RunStatistics
  pub status : Option RunStatus
  pub error : Option AgentError

pub record CheckpointStatus : Type 0 where
  pub configured : Bool
  pub last_acknowledged_revision : Option ℕ
  pub error : Option AgentError
