-- ===== src/Runtime/Events/Tests.antt =====
-- A run with a message and a tool call: the tool is running and the message is open when it ends.
use mona_agent_core.Prelude.{ℕ, ◌+◌, ◌≡◌, refl, true, none, some, List, [], ◌∷◌, map, length}
use mona_agent_core.Prelude.Strings.{Str, str}
use mona_agent_core.Prelude.Maps.{values}
use mona_agent_core.Api.Checkpoint.{RunStatus}
use mona_agent_core.Api.Message.{ToolCall}
use mona_agent_core.Api.Serializer.Sample.{sample_json}
use mona_agent_core.Api.Event.{
  ItemState, WorkItem, RunEvent, RunOutcome, EventEnvelope, run_started, terminal,
}
use mona_agent_core.Runtime.Events.{EventBus, new, finish}
use mona_agent_core.Runtime.Events.Pieces.{cut, PiecesOf, cut-PiecesOf}
use mona_agent_core.Runtime.Events.Runs.{
  Env, Operation, perform_all, emits, opens_sink, sends_text, sends_tool_delta, calls_tool,
  starts_tool, reports, sets_detail,
}
use mona_agent_core.Runtime.Events.Replay.{Mirrors, perform_all-Mirrors}
use mona_agent_core.Runtime.Events.Finish.{Finished, finish-Finished, perform_all-closed}

abbrev digit : ℕ → Str
digit n = (48 + n) ∷ []

abbrev env : Env Unit
env = record { json = sample_json; display = λ v. str "{}"; decimal = digit }

abbrev call : ToolCall Unit
call = record { id = str "call"; name = str "read"; arguments = tt; provider_data = none }

abbrev operations : List (Operation Unit)
operations =
    emits run_started
    ∷ opens_sink 1
    ∷ sends_text 1 (str "hello")
    ∷ sends_tool_delta 1 0 (some (str "call")) none (str "{")
    ∷ calls_tool 1 0 call
    ∷ starts_tool 1 0
    ∷ reports (str "step-1-tool-0") (str "half")
    ∷ sets_detail (str "step-1-tool-0") (str "test.detail") tt
    ∷ []

abbrev outcome : RunOutcome
outcome = record {
  status = RunStatus.cancelled;
  output = none;
  error = none;
  task_usage = record { model_calls = 1; reported_tokens = 5; usage_complete = true };
  steps = 1;
}

abbrev bus : EventBus Unit
bus = perform_all env operations (new (str "run"))

-- Nine events are sent before the run ends.
nine_sent : length bus.sent ≡ 9
unfolding perform_all mona_agent_core.Runtime.Events.Operations.detail
    mona_agent_core.Prelude.Strings.len str mona_agent_core.Prelude.Strings.bytes
    mona_agent_core.Prelude.Strings.is_ascii_alphanumeric mona_agent_core.Prelude.Maps.get
    mona_agent_core.Runtime.Events.Operations.progress
    mona_agent_core.Runtime.Events.Operations.start_tool
    mona_agent_core.Runtime.Events.Operations.tool_call
    mona_agent_core.Runtime.Events.Operations.tool_delta
    mona_agent_core.Runtime.Events.Operations.text cut mona_agent_core.Api.Message.clip_utf8
    mona_agent_core.Runtime.Events.Operations.new_sink new mona_agent_core.Api.Event.Snapshot.new
    mona_agent_core.Prelude.Maps.insert mona_agent_core.Prelude.Maps.remove
    mona_agent_core.Prelude.Strings.str_discrete finish mona_agent_core.Api.Event.message
    mona_agent_core.Api.Event.tool mona_agent_core.Api.Event.set_call
    mona_agent_core.Runtime.Events.publish mona_agent_core.Runtime.Events.publish_all
    mona_agent_core.Api.Event.Snapshot.apply mona_agent_core.Runtime.Events.Pieces.cut_at_least_once
    mona_agent_core.Prelude.Maps.before
nine_sent = refl

abbrev states : EventBus Unit → List ItemState
states b = map (λ i. i.state) b.state.items

ends : states (finish outcome bus) ≡ ItemState.cancelled ∷ ItemState.unknown ∷ []
unfolding perform_all mona_agent_core.Runtime.Events.Operations.detail
    mona_agent_core.Prelude.Strings.len str mona_agent_core.Prelude.Strings.bytes
    mona_agent_core.Prelude.Strings.is_ascii_alphanumeric mona_agent_core.Prelude.Maps.get
    mona_agent_core.Runtime.Events.Operations.progress
    mona_agent_core.Runtime.Events.Operations.start_tool
    mona_agent_core.Runtime.Events.Operations.tool_call
    mona_agent_core.Runtime.Events.Operations.tool_delta
    mona_agent_core.Runtime.Events.Operations.text cut mona_agent_core.Api.Message.clip_utf8
    mona_agent_core.Runtime.Events.Operations.new_sink new mona_agent_core.Api.Event.Snapshot.new
    mona_agent_core.Prelude.Maps.insert mona_agent_core.Prelude.Maps.remove
    mona_agent_core.Prelude.Strings.str_discrete finish mona_agent_core.Api.Event.message
    mona_agent_core.Api.Event.tool mona_agent_core.Api.Event.set_call
    mona_agent_core.Runtime.Events.publish mona_agent_core.Runtime.Events.publish_all
    mona_agent_core.Api.Event.Snapshot.apply mona_agent_core.Runtime.Events.Pieces.cut_at_least_once
    mona_agent_core.Prelude.Maps.before
ends = refl

perform_all-Mirrors_example : Mirrors (str "run") bus
perform_all-Mirrors_example = perform_all-Mirrors env (str "run") operations

finish-Finished_example : Finished outcome bus (finish outcome bus)
unfolding perform_all mona_agent_core.Runtime.Events.Operations.detail
    mona_agent_core.Prelude.Strings.len str mona_agent_core.Prelude.Strings.bytes
    mona_agent_core.Prelude.Strings.is_ascii_alphanumeric mona_agent_core.Prelude.Maps.get
    mona_agent_core.Runtime.Events.Operations.progress
    mona_agent_core.Runtime.Events.Operations.start_tool
    mona_agent_core.Runtime.Events.Operations.tool_call
    mona_agent_core.Runtime.Events.Operations.tool_delta
    mona_agent_core.Runtime.Events.Operations.text cut mona_agent_core.Api.Message.clip_utf8
    mona_agent_core.Runtime.Events.Operations.new_sink new mona_agent_core.Api.Event.Snapshot.new
    mona_agent_core.Prelude.Maps.insert mona_agent_core.Prelude.Maps.remove
    mona_agent_core.Prelude.Strings.str_discrete finish mona_agent_core.Api.Event.message
    mona_agent_core.Api.Event.tool mona_agent_core.Api.Event.set_call
    mona_agent_core.Runtime.Events.publish mona_agent_core.Runtime.Events.publish_all
    mona_agent_core.Api.Event.Snapshot.apply mona_agent_core.Runtime.Events.Pieces.cut_at_least_once
    mona_agent_core.Prelude.Maps.before
finish-Finished_example = finish-Finished outcome bus refl

perform_all-closed_example : perform_all env operations (finish outcome bus) ≡ finish outcome bus
unfolding perform_all mona_agent_core.Runtime.Events.Operations.detail
    mona_agent_core.Prelude.Strings.len str mona_agent_core.Prelude.Strings.bytes
    mona_agent_core.Prelude.Strings.is_ascii_alphanumeric mona_agent_core.Prelude.Maps.get
    mona_agent_core.Runtime.Events.Operations.progress
    mona_agent_core.Runtime.Events.Operations.start_tool
    mona_agent_core.Runtime.Events.Operations.tool_call
    mona_agent_core.Runtime.Events.Operations.tool_delta
    mona_agent_core.Runtime.Events.Operations.text cut mona_agent_core.Api.Message.clip_utf8
    mona_agent_core.Runtime.Events.Operations.new_sink new mona_agent_core.Api.Event.Snapshot.new
    mona_agent_core.Prelude.Maps.insert mona_agent_core.Prelude.Maps.remove
    mona_agent_core.Prelude.Strings.str_discrete finish mona_agent_core.Api.Event.message
    mona_agent_core.Api.Event.tool mona_agent_core.Api.Event.set_call
    mona_agent_core.Runtime.Events.publish mona_agent_core.Runtime.Events.publish_all
    mona_agent_core.Api.Event.Snapshot.apply mona_agent_core.Runtime.Events.Pieces.cut_at_least_once
    mona_agent_core.Prelude.Maps.before
perform_all-closed_example = perform_all-closed env operations (finish outcome bus) refl

cut-PiecesOf_example : PiecesOf (str "hello") (cut (str "hello"))
cut-PiecesOf_example = cut-PiecesOf (str "hello")
