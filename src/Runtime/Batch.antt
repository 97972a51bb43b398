-- ===== src/Runtime/Batch.antt =====
-- packages/runtime/src/tools.rs: the preflight of one call in `execute_batch`, and the groups in which the
-- calls that passed are run. The JSON Schema validator of a tool is a field of the tool: `none` for valid
-- arguments, else the message. The clock, cancellation and checkpoints are a `Moment` of each call.
pub mod Groups
pub mod Authority
mod Tests
use mona_agent_core.Prelude.{
  ite, Bool, true, false, not, ◌&&◌, Option, none, some, List, [], ◌∷◌, ◌++◌, if◌then◌else◌,
}
use mona_agent_core.Prelude.Strings.{Str, str, str_discrete}
use mona_agent_core.Prelude.Sets.{contains}
use mona_agent_core.Api.Content.{Content}
use mona_agent_core.Api.Error.{AgentError, ErrorCode, Result, ok, err, error, refuse, ◌>>=◌, ◌>>◌}
use mona_agent_core.Api.Message.{ToolCall, ToolResult, ToolStatus}
use mona_agent_core.Api.Serializer.{Serializer}
use mona_agent_core.Api.ToolResults.{new_result}

pub data ToolConcurrency : Type 0 where
  parallel exclusive : ToolConcurrency

abbrev pub is_exclusive : ToolConcurrency → Bool
is_exclusive parallel = false
is_exclusive exclusive = true

pub record CompiledTool (V : Type 0) : Type 0 where
  pub name : Str
  pub concurrency : ToolConcurrency
  pub side_effects : Bool
  pub schema_errors : V → Option Str

pub record Moment : Type 0 where
  pub task_check : Result (Unit {0})
  pub checkpoint_check : Result (Unit {0})
  pub is_cancelled : Bool

pub record Ready (V : Type 0) : Type 0 where
  pub call : ToolCall V
  pub tool : CompiledTool V

-- Ok(Ok(ready)) and Ok(Err(result))
pub data Checked (V : Type 0) : Type 0 where
  passes : Ready V → Checked V
  settles : ToolResult V → Checked V

module _ {V : Type 0} where
  -- registry.tools.get(name)
  unfoldable pub find_tool : Str → List (Str × CompiledTool V) → Option (CompiledTool V)
  find_tool name [] = none
  find_tool name (e ∷ es) = ite (str_discrete e.0 name) (some e.1) (find_tool name es)

module _ {V : Type 0} (json : Serializer V) where
  settle_with : ToolCall V → ToolStatus → Str → Result (Checked V)
  settle_with call status message =
      ok (settles (new_result json call.id status (Content.text message)))

  -- From the schema test on.
  authorize : List Str → ToolCall V → CompiledTool V → Option Str → Result (Checked V)
  unfolding settle_with
  authorize effects call tool (some message) = settle_with call ToolStatus.error message
  authorize effects call tool none =
      if tool.side_effects && not (contains str_discrete tool.name effects)
      then settle_with call ToolStatus.denied (str "side-effect tool not authorized by host")
      else ok (passes (record { call = call; tool = tool }))

  look_up : List Str → ToolCall V → Option (CompiledTool V) → Result (Checked V)
  unfolding authorize
  look_up effects call none = settle_with call ToolStatus.error (str "unknown tool")
  look_up effects call (some tool) = authorize effects call tool (tool.schema_errors call.arguments)

  -- The block `check` of the preflight loop.
  unfoldable pub preflight :
      List (Str × CompiledTool V) → List Str → List Str → Moment → ToolCall V → Result (Checked V)
  unfolding look_up find_tool
  preflight tools effects offered now call = do
    now.task_check
    now.checkpoint_check
    if not (contains str_discrete call.name offered)
        then settle_with call ToolStatus.denied (str "tool was not offered in this model round")
        else (refuse now.is_cancelled (error ErrorCode.cancelled "run cancelled")
            >> look_up effects call (find_tool call.name tools))

module _ {V : Type 0} where
  -- The group of waiting parallel calls, if there is one.
  abbrev flush : List (Ready V) → List (List (Ready V)) → List (List (Ready V))
  flush [] groups = groups
  flush (r ∷ rs) groups = (r ∷ rs) ∷ groups

  -- The loop over the prepared calls.
  unfoldable pub group_from : List (Ready V) → List (Ready V) → List (List (Ready V))
  group_from waiting [] = flush waiting []
  group_from waiting (r ∷ rs) = elim (is_exclusive r.tool.concurrency) [
    | true ↦ flush waiting ((r ∷ []) ∷ group_from [] rs)
    | false ↦ group_from (waiting ++ r ∷ []) rs
  ]
