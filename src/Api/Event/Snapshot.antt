-- ===== src/Api/Event/Snapshot.antt =====
-- packages/api/src/event.rs: how an event changes the snapshot of its run. The counters seq and
-- pruned_items stay below 2^64 in a run, and their wrap-around is not modelled.
use mona_agent_core.Prelude.{
  ◌+◌, ◌-◌, ite, Bool, true, false, not, ◌||◌, Option, none, some, List, [], ◌∷◌, ◌++◌, ltb, leb,
  ◌==◌, if◌then◌else◌, holds, any, length, drop,
}
use mona_agent_core.Prelude.Strings.{Str, str_discrete, len}
use mona_agent_core.Api.Message.{clip_utf8}
use mona_agent_core.Api.Event.Ui.{ui_text_bytes}
use mona_agent_core.Api.Event.{
  ItemContent, agent_message, tool_call, Text, WorkItem, RunEvent, EventEnvelope, RunSnapshot,
  terminal, stream_version, ui_retained_items, run_started, step_started, item_started,
  item_updated, item_completed, text_delta, tool_arguments_delta, tool_output_delta, input_applied,
  step_finished, run_finished,
}

-- RunSnapshot::new
unfoldable pub new : {V : Type 0} → Str → RunSnapshot V
new run_id = record {
  protocol_version = stream_version;
  run_id = run_id;
  seq = 0;
  started = false;
  step = 0;
  items = [];
  pruned_items = 0;
  outcome = none;
}

-- append_preview on a text and its mark
unfoldable pub append_preview : Text → Str → Text
append_preview target delta =
    let part = clip_utf8 delta (ui_text_bytes - len target.text) in
    if target.truncated
    then target
    else record { text = target.text ++ part; truncated = ltb (len part) (len delta) }

-- What the three kinds of delta do to the content of an item of their kind.
unfoldable pub add_text : {V : Type 0} → Str → ItemContent V → ItemContent V
unfolding append_preview
add_text delta (agent_message t) = agent_message (append_preview t delta)
add_text delta (tool_call t) = tool_call t

unfoldable pub add_arguments :
    {V : Type 0} → Option Str → Option Str → Str → ItemContent V → ItemContent V
unfolding append_preview
add_arguments call_id name delta (agent_message t) = agent_message t
add_arguments call_id name delta (tool_call t) =
    let shown =
      append_preview (record { text = t.arguments_text; truncated = t.arguments_truncated })
        delta in
    tool_call (record t {
      call_id = elim call_id [ none ↦ t.call_id | some id ↦ some id ];
      name = elim name [ none ↦ t.name | some n ↦ clip_utf8 n 128 ];
      arguments_text = shown.text;
      arguments_truncated = shown.truncated;
    })

unfoldable pub add_output : {V : Type 0} → Str → ItemContent V → ItemContent V
unfolding append_preview
add_output delta (agent_message t) = agent_message t
add_output delta (tool_call t) =
    let shown = append_preview (record { text = t.output; truncated = t.output_truncated }) delta in
    tool_call (record t { output = shown.text; output_truncated = shown.truncated })

module _ {V : Type 0} where
  -- The first item with the id is changed: items.iter_mut().find(|i| i.id == id)
  unfoldable pub change_item :
      Str → (WorkItem V → WorkItem V) → List (WorkItem V) → List (WorkItem V)
  change_item id f [] = []
  change_item id f (i ∷ is) =
      let rest = change_item id f is in ite (str_discrete i.id id) (f i ∷ is) (i ∷ rest)

  abbrev pub has_item : Str → List (WorkItem V) → Bool
  has_item id = any (λ i. holds (str_discrete i.id id))

  -- items.remove(items.iter().position(|i| i.state.terminal()).unwrap_or(0))
  unfoldable pub remove_terminal : List (WorkItem V) → Option (List (WorkItem V))
  remove_terminal [] = none
  remove_terminal (i ∷ is) =
      let rest = remove_terminal is in
      if terminal i.state then some is else elim rest [ none ↦ none | some left ↦ some (i ∷ left) ]

  unfoldable pub evict : List (WorkItem V) → List (WorkItem V)
  unfolding remove_terminal
  evict is = elim (remove_terminal is) [ none ↦ drop 1 is | some left ↦ left ]

  unfoldable pub put_item : WorkItem V → RunSnapshot V → RunSnapshot V
  unfolding change_item evict
  put_item item s =
      if has_item item.id s.items
      then record s { items = change_item item.id (λ old. item) s.items }
      else if leb ui_retained_items (length s.items)
      then record s { items = evict s.items ++ (item ∷ []); pruned_items = s.pruned_items + 1 }
      else record s { items = s.items ++ (item ∷ []) }

  unfoldable pub with_content :
      Str → (ItemContent V → ItemContent V) → RunSnapshot V → RunSnapshot V
  unfolding change_item
  with_content id f s = record s {
    items = change_item id (λ i. record i { content = f i.content }) s.items;
  }

  -- The match of RunSnapshot::apply on the event.
  unfoldable pub apply_event : RunEvent V → RunSnapshot V → RunSnapshot V
  unfolding put_item with_content add_text add_arguments add_output
  apply_event run_started s = record s { started = true }
  apply_event (step_started step) s = record s { step = step }
  apply_event (item_started item) s = put_item item s
  apply_event (item_updated item) s = put_item item s
  apply_event (item_completed item) s = put_item item s
  apply_event (text_delta id text) s = with_content id (add_text text) s
  apply_event (tool_arguments_delta id call_id name delta) s =
      with_content id (add_arguments call_id name delta) s
  apply_event (tool_output_delta id text) s = with_content id (add_output text) s
  apply_event (run_finished outcome) s = record s { outcome = some outcome }
  apply_event input_applied s = s
  apply_event (step_finished step) s = s

  -- RunSnapshot::apply: the new snapshot, or `none` where it returns false.
  unfoldable pub apply : RunSnapshot V → EventEnvelope V → Option (RunSnapshot V)
  unfolding apply_event
  apply s e =
      if not (e.protocol_version == stream_version)
        || not (holds (str_discrete e.run_id s.run_id))
        || not (e.seq == s.seq + 1)
      then none
      else some (apply_event e.event (record s { seq = e.seq }))
