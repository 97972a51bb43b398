-- ===== src/Runtime/Events/Operations.antt =====
-- packages/runtime/src/events.rs: the operations that the executor, the model sink and the progress
-- sink call. `decimal` is the Display of integers, `display` that of serde_json's values.
use mona_agent_core.Prelude.{
  ℕ, Bool, true, false, not, ◌&&◌, ◌||◌, Option, none, some, map, ltb, leb, ◌==◌, if◌then◌else◌,
  is_some, all, any, length,
}
use mona_agent_core.Prelude.Strings.{Str, len, bytes, is_ascii_alphanumeric}
use mona_agent_core.Prelude.Maps as Maps
use mona_agent_core.Api.Error.{ErrorCode, Result, ok, err, error, refuse, ◌>>=◌, ◌>>◌}
use mona_agent_core.Api.Message.{ToolCall, ToolResult, clip_utf8}
use mona_agent_core.Api.Serializer.{Serializer}
use mona_agent_core.Api.Event.{
  ItemState, running, completed, ItemContent, agent_message, Text, Tool, WorkItem, RunEvent,
  RunOutcome, from_tool, ui_detail_bytes, ui_detail_keys, item_started, item_updated, text_delta,
  tool_arguments_delta, tool_output_delta, message, message_item_id, tool_item_id, set_call,
}
use mona_agent_core.Api.Event as Event
use mona_agent_core.Api.Event.Ui.{ui_text_bytes, from_result}
use mona_agent_core.Runtime.Events.{EventBus, publish, publish_all, change}
use mona_agent_core.Runtime.Events.Pieces.{cut, cut_at_least_once}

unfoldable pub is_running : {V : Type 0} → WorkItem V → Bool
is_running item = elim item.state [ running ↦ true | _ ↦ false ]

key_byte : ℕ → Bool
key_byte b = is_ascii_alphanumeric b || b == b'.' || b == b'_' || b == b'-'

-- text.map(|s| clip_utf8(s, bytes).to_owned())
unfoldable pub clip_option : ℕ → Option Str → Option Str
clip_option bytes none = none
clip_option bytes (some s) = some (clip_utf8 s bytes)

module _ {V : Type 0} (decimal : ℕ → Str) where
  -- EventBus::complete_message
  unfoldable pub complete_message : ℕ → Str → EventBus V → EventBus V
  unfolding change
  complete_message step text bus =
      change (message_item_id decimal step) true
        (λ item. record item {
          state = completed;
          content = agent_message (record {
            text = clip_utf8 text ui_text_bytes;
            truncated = ltb ui_text_bytes (len text);
          });
        })
        bus

  -- EventBus::tool_call
  unfoldable pub tool_call : (V → Str) → ℕ → ℕ → ToolCall V → EventBus V → EventBus V
  unfolding publish
  tool_call display step index call bus =
      elim (Maps.get (tool_item_id decimal step index) bus.active) [
        | none ↦
            (let item = Event.tool decimal step index in
              publish (item_started (record item { content = set_call display call item.content }))
                bus)
        | some item ↦
            publish (item_updated (record item { content = set_call display call item.content }))
              bus
      ]

  -- EventBus::start_tool
  unfoldable pub start_tool : ℕ → ℕ → EventBus V → EventBus V
  unfolding change
  start_tool step index bus =
      change (tool_item_id decimal step index) false (λ item. record item { state = running }) bus

  unfoldable with_result : Serializer V → ToolResult V → ItemContent V → ItemContent V
  with_result json result (agent_message t) = agent_message t
  with_result json result (ItemContent.tool_call t) =
      ItemContent.tool_call (record t { result = some (from_result json result) })

  -- EventBus::complete_tool
  unfoldable pub complete_tool : Serializer V → ℕ → ℕ → ToolResult V → EventBus V → EventBus V
  unfolding change with_result
  complete_tool json step index result bus =
      change (tool_item_id decimal step index) true
        (λ item. record item {
          state = from_tool result.status;
          content = with_result json result item.content;
        })
        bus

  -- The item of a call, created by its first delta.
  unfoldable pub begin_tool : ℕ → ℕ → EventBus V → EventBus V
  unfolding publish
  begin_tool step index bus = elim (Maps.get (tool_item_id decimal step index) bus.active) [
    | none ↦ publish (item_started (Event.tool decimal step index)) bus
    | some item ↦ bus
  ]

  -- EventBus::tool_delta
  unfoldable pub tool_delta : ℕ → ℕ → Option Str → Option Str → Str → EventBus V → EventBus V
  unfolding publish_all begin_tool clip_option
  tool_delta step index id name args bus =
      if is_some bus.state.outcome
      then bus
      else publish_all
          (map
            (tool_arguments_delta (tool_item_id decimal step index) (clip_option 256 id)
              (clip_option 128 name))
            (cut_at_least_once args))
          (begin_tool step index bus)

  -- TextSink::new, and the text method of the sink
  unfoldable pub new_sink : ℕ → EventBus V → EventBus V
  unfolding publish
  new_sink step bus = publish (item_started (message decimal step)) bus

  unfoldable pub text : ℕ → Str → EventBus V → EventBus V
  unfolding publish_all
  text step delta bus =
      publish_all (map (text_delta (message_item_id decimal step)) (cut delta)) bus

module _ {V : Type 0} where
  -- EventBus::progress
  unfoldable pub progress : Str → Str → EventBus V → EventBus V
  unfolding publish_all is_running
  progress item_id text bus = elim (Maps.get item_id bus.active) [
    | none ↦ bus
    | some item ↦
        if is_running item
        then publish_all (map (tool_output_delta item_id) (cut text)) bus
        else bus
  ]

  -- The details of an item with one more, or the error of a full map.
  unfoldable add_detail : Str → V → ItemContent V → Result (ItemContent V)
  add_detail key value (agent_message t) = ok (agent_message t)
  add_detail key value (ItemContent.tool_call t) =
      refuse (leb ui_detail_keys (length t.details) && not (is_some (Maps.get key t.details)))
        (error ErrorCode.limit "too many structured UI details")
      >> ok (ItemContent.tool_call (record t { details = Maps.insert key value t.details }))

  unfoldable running_item : Str → EventBus V → Result (WorkItem V)
  unfolding is_running
  running_item item_id bus = elim (Maps.get item_id bus.active) [
    | none ↦ err (error ErrorCode.closed "tool item is not running")
    | some item ↦
        if is_running item then ok item else err (error ErrorCode.closed "tool item is not running")
  ]

  -- The checks of EventBus::detail, and the item with the detail.
  unfoldable pub detailed_item : Serializer V → Str → Str → V → EventBus V → Result (WorkItem V)
  unfolding add_detail running_item key_byte
  detailed_item json item_id key value bus =
      refuse (ltb 128 (len key) || not (any (λ c. c == b'.') key) || not (all key_byte (bytes key)))
        (error ErrorCode.schema "UI detail requires a namespaced ASCII key")
      >> (refuse (elim (json.value_bytes value) [ none ↦ true | some n ↦ ltb ui_detail_bytes n ])
            (error ErrorCode.limit "UI detail exceeds byte limit")
          >> (running_item item_id bus >>= (λ item.
              add_detail key value item.content
              >>= (λ content. ok (record item { content = content })))))

  -- EventBus::detail
  unfoldable pub detail : Serializer V → Str → Str → V → EventBus V → Result (EventBus V)
  unfolding publish detailed_item
  detail json item_id key value bus =
      detailed_item json item_id key value bus >>= (λ item. ok (publish (item_updated item) bus))
