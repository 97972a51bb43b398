-- ===== src/Runtime/Events.antt =====
-- packages/runtime/src/events.rs: the event bus of a run. Each operation holds the lock of the
-- snapshot from its first read to its last event, so it is one step; `sent` is what the broadcast
-- channel was given. The task that serves an observer is not modelled.
pub mod Operations
pub mod Pieces
pub mod Runs
pub mod Applied
pub mod Replay
pub mod Finish
mod Tests
use mona_agent_core.Prelude.{
  ◌+◌, ite, Bool, none, some, List, [], ◌∷◌, ◌++◌, map, if◌then◌else◌, is_some,
}
use mona_agent_core.Prelude.Strings.{Str, str_discrete}
use mona_agent_core.Prelude.Maps as Maps
use mona_agent_core.Prelude.Maps.{Map, values}
use mona_agent_core.Api.Checkpoint.{RunStatus}
use mona_agent_core.Api.Event.{
  ItemState, running, ItemContent, agent_message, WorkItem, RunEvent, EventEnvelope, RunSnapshot,
  RunOutcome, terminal, stream_version, run_started, step_started, item_started, item_updated,
  item_completed, text_delta, tool_arguments_delta, tool_output_delta, input_applied, step_finished,
  run_finished,
}
use mona_agent_core.Api.Event.Snapshot.{apply, add_text, add_arguments, add_output}
use mona_agent_core.Api.Event.Snapshot as Snapshot

pub record EventBus (V : Type 0) : Type 0 where
  pub state : RunSnapshot V
  pub active : Map (WorkItem V)
  pub sent : List (EventEnvelope V)

module _ {V : Type 0} where
  -- EventBus::new
  unfoldable pub new : Str → EventBus V
  new run_id = record { state = Snapshot.new run_id; active = []; sent = [] }

  -- active.get_mut(id), and a change of its content
  unfoldable change_active :
      Str → (ItemContent V → ItemContent V) → Map (WorkItem V) → Map (WorkItem V)
  change_active id f [] = []
  change_active id f (e ∷ es) =
      let rest = change_active id f es in
      ite (str_discrete e.0 id) ((e.0, record e.1 { content = f e.1.content }) ∷ es) (e ∷ rest)

  -- EventBus::track
  unfoldable pub track : RunEvent V → Map (WorkItem V) → Map (WorkItem V)
  unfolding change_active
  track (item_started item) active =
      if terminal item.state then Maps.remove item.id active else Maps.insert item.id item active
  track (item_updated item) active =
      if terminal item.state then Maps.remove item.id active else Maps.insert item.id item active
  track (item_completed item) active = Maps.remove item.id active
  track (text_delta id text) active = change_active id (add_text text) active
  track (tool_arguments_delta id call_id name delta) active =
      change_active id (add_arguments call_id name delta) active
  track (tool_output_delta id text) active = change_active id (add_output text) active
  track (run_finished outcome) active = []
  track run_started active = active
  track (step_started step) active = active
  track input_applied active = active
  track (step_finished step) active = active

  abbrev pub envelope : RunSnapshot V → RunEvent V → EventEnvelope V
  envelope state event = record {
    protocol_version = stream_version;
    run_id = state.run_id;
    seq = state.seq + 1;
    event = event;
  }

  -- EventBus::publish and EventBus::emit
  unfoldable pub publish : RunEvent V → EventBus V → EventBus V
  unfolding track
  publish event bus =
      let e = envelope bus.state event in
      if is_some bus.state.outcome then bus else elim (apply bus.state e) [
        | none ↦ record bus { sent = bus.sent ++ (e ∷ []) }
        | some state ↦ record {
          state = state;
          active = track event bus.active;
          sent = bus.sent ++ (e ∷ []);
        }
      ]

  unfoldable pub publish_all : List (RunEvent V) → EventBus V → EventBus V
  unfolding publish
  publish_all [] bus = bus
  publish_all (e ∷ es) bus = publish_all es (publish e bus)

  -- EventBus::change: f, then an update or the completion of an active item
  unfoldable pub change : Str → Bool → (WorkItem V → WorkItem V) → EventBus V → EventBus V
  unfolding publish
  change id complete f bus = elim (Maps.get id bus.active) [
    | none ↦ bus
    | some item ↦ publish (if complete then item_completed (f item) else item_updated (f item)) bus
  ]

  -- The state in which finish leaves an item that nobody completed.
  unfoldable pub closing_state : RunStatus → WorkItem V → ItemState
  closing_state status item = elim item.content [
    | agent_message t ↦ (elim status [
      | RunStatus.cancelled ↦ ItemState.cancelled
      | _ ↦ ItemState.failed
    ])
    | ItemContent.tool_call t ↦ (elim item.state [
      | running ↦ ItemState.unknown
      | _ ↦ ItemState.skipped
    ])
  ]

  unfoldable pub close : RunStatus → WorkItem V → RunEvent V
  unfolding closing_state
  close status item = item_completed (record item { state = closing_state status item })

  -- EventBus::finish
  unfoldable pub finish : RunOutcome → EventBus V → EventBus V
  unfolding publish publish_all close
  finish outcome bus =
      publish (run_finished outcome)
        (publish_all (map (close outcome.status) (values bus.active)) bus)
