-- ===== src/Api/Event.antt =====
-- packages/api/src/event.rs: the events of a run, and the snapshot that they build.
pub mod Ui
pub mod Snapshot
use mona_agent_core.Prelude.{
  ℕ, Bool, true, false, Option, none, some, List, [], ◌++◌, ltb, if◌then◌else◌,
}
use mona_agent_core.Prelude.Strings.{Str, str, str_discrete, len}
use mona_agent_core.Prelude.Maps.{Map}
use mona_agent_core.Api.Error.{AgentError}
use mona_agent_core.Api.Message.{ToolStatus, ToolCall, clip_utf8}
use mona_agent_core.Api.Checkpoint.{RunStatus, TaskUsage}
use mona_agent_core.Api.Event.Ui.{UiToolResult, ui_text_bytes}

abbrev pub stream_version : ℕ
stream_version = 2

abbrev pub ui_retained_items : ℕ
ui_retained_items = 256

abbrev pub ui_detail_bytes : ℕ
ui_detail_bytes = 16384

abbrev pub ui_detail_keys : ℕ
ui_detail_keys = 8

pub data ItemState : Type 0 where
  pending running completed failed cancelled denied skipped unknown : ItemState

-- ItemState::terminal
abbrev pub terminal : ItemState → Bool
terminal pending = false
terminal running = false
terminal completed = true
terminal failed = true
terminal cancelled = true
terminal denied = true
terminal skipped = true
terminal unknown = true

-- ItemState::from_tool
unfoldable pub from_tool : ToolStatus → ItemState
from_tool ToolStatus.success = completed
from_tool ToolStatus.error = failed
from_tool ToolStatus.denied = denied
from_tool ToolStatus.skipped = skipped
from_tool ToolStatus.unknown = unknown

-- The fields of ItemContent::AgentMessage and ItemContent::ToolCall.
pub record Text : Type 0 where
  pub text : Str
  pub truncated : Bool

pub record Tool (V : Type 0) : Type 0 where
  pub call_id : Option Str
  pub name : Str
  pub arguments_text : Str
  pub arguments : Option V
  pub arguments_truncated : Bool
  pub output : Str
  pub output_truncated : Bool
  pub result : Option UiToolResult
  pub details : Map V

pub data ItemContent (V : Type 0) : Type 0 where
  agent_message : Text → ItemContent V
  tool_call : Tool V → ItemContent V

pub record WorkItem (V : Type 0) : Type 0 where
  pub id : Str
  pub step : ℕ
  pub state : ItemState
  pub content : ItemContent V

pub record RunOutcome : Type 0 where
  pub status : RunStatus
  pub output : Option Str
  pub error : Option AgentError
  pub task_usage : TaskUsage
  pub steps : ℕ

pub data RunEvent (V : Type 0) : Type 0 where
  run_started : RunEvent V
  step_started : ℕ → RunEvent V
  item_started item_updated : WorkItem V → RunEvent V
  text_delta : Str → Str → RunEvent V
  -- item_id, call_id, name, delta
  tool_arguments_delta : Str → Option Str → Option Str → Str → RunEvent V
  tool_output_delta : Str → Str → RunEvent V
  item_completed : WorkItem V → RunEvent V
  input_applied : RunEvent V
  step_finished : ℕ → RunEvent V
  run_finished : RunOutcome → RunEvent V

pub record EventEnvelope (V : Type 0) : Type 0 where
  pub protocol_version : ℕ
  pub run_id : Str
  pub seq : ℕ
  pub event : RunEvent V

pub record RunSnapshot (V : Type 0) : Type 0 where
  pub protocol_version : ℕ
  pub run_id : Str
  pub seq : ℕ
  pub started : Bool
  pub step : ℕ
  pub items : List (WorkItem V)
  pub pruned_items : ℕ
  pub outcome : Option RunOutcome

-- message_item_id and tool_item_id; `decimal` is the Display of integers.
unfoldable pub message_item_id : (ℕ → Str) → ℕ → Str
message_item_id decimal step = str "step-" ++ decimal step ++ str "-message"

unfoldable pub tool_item_id : (ℕ → Str) → ℕ → ℕ → Str
tool_item_id decimal step index = str "step-" ++ decimal step ++ str "-tool-" ++ decimal index

module _ {V : Type 0} (decimal : ℕ → Str) where
  -- WorkItem::message
  unfoldable pub message : ℕ → WorkItem V
  unfolding message_item_id
  message step = record {
    id = message_item_id decimal step;
    step = step;
    state = running;
    content = agent_message (record { text = []; truncated = false });
  }

  -- WorkItem::tool
  unfoldable pub tool : ℕ → ℕ → WorkItem V
  unfolding tool_item_id
  tool step index = record {
    id = tool_item_id decimal step index;
    step = step;
    state = pending;
    content = tool_call (record {
      call_id = none;
      name = [];
      arguments_text = [];
      arguments = none;
      arguments_truncated = false;
      output = [];
      output_truncated = false;
      result = none;
      details = [];
    });
  }

-- WorkItem::set_call; `display` is serde_json's Display of a value.
unfoldable pub set_call : {V : Type 0} → (V → Str) → ToolCall V → ItemContent V → ItemContent V
set_call display call (agent_message t) = agent_message t
set_call display call (tool_call t) =
    let raw = display call.arguments in
    let truncated = ltb ui_text_bytes (len raw) in
    tool_call (record t {
      call_id = some call.id;
      name = call.name;
      arguments_truncated = truncated;
      arguments_text = clip_utf8 raw ui_text_bytes;
      arguments = if truncated then none else some call.arguments;
    })
