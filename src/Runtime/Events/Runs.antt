-- ===== src/Runtime/Events/Runs.antt =====
-- packages/runtime/src/events.rs: every operation of the bus as the events that it publishes.
use mona_agent_core.Prelude.{
  ℕ, ◌≡◌, refl, sym, ap, ◌∙◌, Bool, true, false, Option, none, some, List, [], ◌∷◌, ◌++◌, map,
  if◌then◌else◌, is_some,
}
use mona_agent_core.Prelude.Strings.{Str}
use mona_agent_core.Prelude.Maps as Maps
use mona_agent_core.Api.Error.{Result, ok, err, ◌>>=◌}
use mona_agent_core.Api.Message.{ToolCall, ToolResult}
use mona_agent_core.Api.Serializer.{Serializer}
use mona_agent_core.Api.Event.{
  WorkItem, RunEvent, RunOutcome, run_finished, item_started, item_updated, message,
  message_item_id, tool_item_id, tool, tool_arguments_delta, tool_output_delta, text_delta,
}
use mona_agent_core.Runtime.Events.Pieces.{cut, cut_at_least_once}
use mona_agent_core.Runtime.Events.{EventBus, publish, publish_all, finish, close}
use mona_agent_core.Runtime.Events.Operations.{
  complete_message, tool_call, start_tool, complete_tool, tool_delta, begin_tool, clip_option,
  new_sink, text, progress, detail, detailed_item, is_running,
}

-- The libraries that the operations use.
pub record Env (V : Type 0) : Type 0 where
  pub json : Serializer V
  pub display : V → Str
  pub decimal : ℕ → Str

-- The calls of one run.
pub data Operation (V : Type 0) : Type 0 where
  emits : RunEvent V → Operation V
  opens_sink : ℕ → Operation V
  sends_text : ℕ → Str → Operation V
  completes_message : ℕ → Str → Operation V
  sends_tool_delta : ℕ → ℕ → Option Str → Option Str → Str → Operation V
  calls_tool : ℕ → ℕ → ToolCall V → Operation V
  starts_tool : ℕ → ℕ → Operation V
  completes_tool : ℕ → ℕ → ToolResult V → Operation V
  reports : Str → Str → Operation V
  sets_detail : Str → Str → V → Operation V
  finishes : RunOutcome → Operation V

-- A refused detail changes nothing.
abbrev kept : {V : Type 0} → EventBus V → Result (EventBus V) → EventBus V
kept bus (err e) = bus
kept bus (ok after) = after

module _ {V : Type 0} (env : Env V) where
  unfoldable pub perform : Operation V → EventBus V → EventBus V
  perform (emits event) bus = publish event bus
  perform (opens_sink step) bus = new_sink env.decimal step bus
  perform (sends_text step delta) bus = text env.decimal step delta bus
  perform (completes_message step text) bus = complete_message env.decimal step text bus
  perform (sends_tool_delta step index id name args) bus =
      tool_delta env.decimal step index id name args bus
  perform (calls_tool step index call) bus = tool_call env.decimal env.display step index call bus
  perform (starts_tool step index) bus = start_tool env.decimal step index bus
  perform (completes_tool step index result) bus =
      complete_tool env.decimal env.json step index result bus
  perform (reports id text) bus = progress id text bus
  perform (sets_detail id key value) bus = kept bus (detail env.json id key value bus)
  perform (finishes outcome) bus = finish outcome bus

  unfoldable pub perform_all : List (Operation V) → EventBus V → EventBus V
  unfolding perform
  perform_all [] bus = bus
  perform_all (op ∷ ops) bus = perform_all ops (perform op bus)

-- What a bus becomes by publishing some events.
pub record Published {V : Type 0} (bus after : EventBus V) : Type 0 where
  pub events : List (RunEvent V)
  pub published : after ≡ publish_all events bus

module _ {V : Type 0} where
  nothing : (bus : EventBus V) → Published bus bus
  unfolding publish_all
  nothing bus = record { events = []; published = refl }

  one : (e : RunEvent V) (bus : EventBus V) → Published bus (publish e bus)
  unfolding publish_all
  one e bus = record { events = e ∷ []; published = refl }

  publish_all-append :
      (es fs : List (RunEvent V)) (bus : EventBus V)
      → publish_all (es ++ fs) bus ≡ publish_all fs (publish_all es bus)
  unfolding publish_all
  publish_all-append [] fs bus = refl
  publish_all-append (e ∷ es) fs bus = publish_all-append es fs (publish e bus)

  then_published :
      (fs : List (RunEvent V)) {bus middle : EventBus V}
      → Published bus middle
      → Published bus (publish_all fs middle)
  then_published fs {bus} p = record {
    events = p.events ++ fs;
    published = ap (publish_all fs) p.published ∙ sym (publish_all-append p.events fs bus);
  }

  several : (es : List (RunEvent V)) (bus : EventBus V) → Published bus (publish_all es bus)
  several es bus = record { events = es; published = refl }

  module _ {bus : EventBus V} where
    choice :
        (b : Bool) {x y : EventBus V}
        → Published bus x
        → Published bus y
        → Published bus (if b then x else y)
    choice true p q = p
    choice false p q = q

    lookup :
        {A : Type 0} (o : Option A) {x : EventBus V} {f : A → EventBus V}
        → Published bus x
        → ((a : A) → Published bus (f a))
        → Published bus (elim o [ none ↦ x | some a ↦ f a ])
    lookup none p q = p
    lookup (some a) p q = q a

    kept_update :
        (item : Result (WorkItem V))
        → Published bus (kept bus (item >>= (λ i. ok (publish (item_updated i) bus))))
    kept_update (err e) = nothing bus
    kept_update (ok i) = one (item_updated i) bus

module _ {V : Type 0} (env : Env V) (bus : EventBus V) where
  begin_tool-Published : (step index : ℕ) → Published bus (begin_tool env.decimal step index bus)
  unfolding begin_tool
  begin_tool-Published step index =
      lookup (Maps.get (tool_item_id env.decimal step index) bus.active)
        (one (item_started (tool env.decimal step index)) bus) (λ item. nothing bus)

  tool_delta-Published :
      (step index : ℕ) (id name : Option Str) (args : Str)
      → Published bus (tool_delta env.decimal step index id name args bus)
  unfolding tool_delta
  tool_delta-Published step index id name args = choice (is_some bus.state.outcome) (nothing bus) (
      then_published
        (map
          (tool_arguments_delta (tool_item_id env.decimal step index) (clip_option 256 id)
            (clip_option 128 name))
          (cut_at_least_once args))
        (begin_tool-Published step index))

  progress-Published : (id text : Str) → Published bus (progress id text bus)
  unfolding progress
  progress-Published id text = lookup (Maps.get id bus.active) (nothing bus) (λ item.
      choice (is_running item) (several (map (tool_output_delta id) (cut text)) bus) (nothing bus))

  detail-Published :
      (id key : Str) (value : V) → Published bus (kept bus (detail env.json id key value bus))
  unfolding detail
  detail-Published id key value = kept_update (detailed_item env.json id key value bus)

  -- Whatever an operation does to a bus is the publishing of some events.
  pub perform-Published : (op : Operation V) → Published bus (perform env op bus)
  unfolding perform new_sink text complete_message tool_call start_tool complete_tool finish
  perform-Published (emits event) = one event bus
  perform-Published (opens_sink step) = one (item_started (message env.decimal step)) bus
  perform-Published (sends_text step delta) =
      several (map (text_delta (message_item_id env.decimal step)) (cut delta)) bus
  perform-Published (completes_message step t) =
      lookup (Maps.get (message_item_id env.decimal step) bus.active) (nothing bus)
        (λ item. one _ bus)
  perform-Published (sends_tool_delta step index id name args) =
      tool_delta-Published step index id name args
  perform-Published (calls_tool step index call) =
      lookup (Maps.get (tool_item_id env.decimal step index) bus.active) (one _ bus)
        (λ item. one _ bus)
  perform-Published (starts_tool step index) =
      lookup (Maps.get (tool_item_id env.decimal step index) bus.active) (nothing bus)
        (λ item. one _ bus)
  perform-Published (completes_tool step index result) =
      lookup (Maps.get (tool_item_id env.decimal step index) bus.active) (nothing bus)
        (λ item. one _ bus)
  perform-Published (reports id t) = progress-Published id t
  perform-Published (sets_detail id key value) = detail-Published id key value
  perform-Published (finishes outcome) =
      then_published (run_finished outcome ∷ [])
        (several (map (close outcome.status) (Maps.values bus.active)) bus)
